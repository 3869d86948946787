-- ===== src/Topology/Examples.antt =====
-- Tests of the registry, and its theorems at a concrete one.
use ninj_os_proxie_edge_fabr.Prelude.{
  ◌≡◌, ◌≢◌, ◌↔◌, refl, true, false, none, some, List, [], ◌∷◌, arith, text_beq, any,
}
use ninj_os_proxie_edge_fabr.Prelude.Int.{ℤ, pos}
use ninj_os_proxie_edge_fabr.GoText.{
  codes, to_lower, lower_byte, trim_space, trim_left, trim_right, is_space, contains_byte, or_else,
}
use ninj_os_proxie_edge_fabr.Topology.{
  Backend, Topology, duplicate_id, duplicate_public_port, full_proxy_online, no_primary,
  is_backend_id, is_env_name, every, has_reserved, is_routing_mode, is_adapter, check_fields,
  check_policy, validate_backends, validate_topology,
}
use ninj_os_proxie_edge_fabr.Topology.Decide.{IsValid, validate_topology_iff}
use ninj_os_proxie_edge_fabr.Topology.Registry.{
  create, accepted, is_managed, lower_trimmed, normalize_definition, check_change, create_backend,
  delete_backend, has_id, appended, removed, change,
}
use ninj_os_proxie_edge_fabr.Topology.Preserve.{
  IsSavable, check_change-IsSavable, change-IsSavable, delete_backend-accepted,
}

abbrev lobby : Backend
lobby = record {
  id = codes "lobby";
  display_name = codes "Lobby";
  host = codes "127.0.0.1";
  backend_port = pos 19132;
  public_port = pos 20000;
  fallback = false;
  fallback_backend = [];
  profile = codes "lobby";
  enabled = true;
  connection_mode = codes "transparent";
  backend_adapter = codes "endstone";
  backend_online_mode = true;
  require_proxy_identity = false;
  capacity = pos 50;
  companion_secret_env = [];
}

abbrev zoo : Backend
zoo = record lobby { id = codes "zoo"; display_name = codes "Zoo"; public_port = pos 0 }

abbrev two : Topology
two = record {
  version = pos 1;
  primary_backend = codes "lobby";
  routing_mode = codes "failover";
  backends = lobby ∷ zoo ∷ [];
}

abbrev allowed : List ℤ
allowed = pos 20000 ∷ pos 20001 ∷ []

two_passes :
    (validate_topology two ≡ none)
    × (validate_topology (record two { backends = lobby ∷ lobby ∷ [] }) ≡ some duplicate_id)
    × (validate_topology
          (record two { backends = lobby ∷ record zoo { public_port = pos 20000 } ∷ [] })
        ≡ some duplicate_public_port)
    × (validate_topology
          (record two { backends = record lobby { connection_mode = codes "full_proxy" } ∷ [] })
        ≡ some full_proxy_online)
    × (validate_topology (record two { primary_backend = codes "x" }) ≡ some no_primary)
unfolding validate_topology validate_backends is_routing_mode is_backend_id is_env_name every
    check_fields check_policy has_reserved contains_byte trim_space trim_left trim_right is_space
    text_beq any or_else is_adapter
two_passes = (refl, refl, refl, refl, refl)

validate_topology_iff_example : (validate_topology two ≡ none) ↔ IsValid two
validate_topology_iff_example = validate_topology_iff two

two_accepted : check_change allowed two ≡ accepted two
unfolding check_change is_managed any
two_accepted = ground (arith, two_passes.0)

two-IsSavable : IsSavable allowed two
two-IsSavable = check_change-IsSavable allowed two two two_accepted

abbrev third : Backend
third = record lobby {
  id = codes " Arena";
  display_name = codes " Arena";
  public_port = pos 20001;
  connection_mode = [];
  capacity = pos 0;
}

third_accepted :
    change allowed (create third) two
    ≡ accepted (
        appended
          (record third {
            id = codes "arena";
            display_name = codes "Arena";
            connection_mode = codes "transparent";
            capacity = pos 50;
          })
          two)
unfolding change create_backend check_change is_managed normalize_definition to_lower lower_byte
    validate_topology validate_backends is_routing_mode is_backend_id is_env_name every check_fields
    check_policy has_reserved contains_byte trim_space trim_left trim_right is_space text_beq any
    or_else is_adapter
third_accepted = refl

change-IsSavable_example : IsSavable allowed (
    appended
      (record third {
        id = codes "arena";
        display_name = codes "Arena";
        connection_mode = codes "transparent";
        capacity = pos 50;
      })
      two)
change-IsSavable_example = change-IsSavable allowed (create third) two _ third_accepted

named : lower_trimmed (codes "Lobby ") ≢ []
unfolding to_lower lower_byte trim_space trim_left trim_right is_space
named e = cc

here : has_id (lower_trimmed (codes "Lobby ")) two.backends ≡ true
unfolding to_lower lower_byte trim_space trim_left trim_right is_space text_beq any
here = refl

delete_backend-accepted_example :
    (delete_backend allowed (codes "Lobby ") two
      ≡ accepted (removed (lower_trimmed (codes "Lobby ")) two))
    × IsSavable allowed (removed (lower_trimmed (codes "Lobby ")) two)
delete_backend-accepted_example =
    delete_backend-accepted allowed (codes "Lobby ") two two-IsSavable named refl here
