-- ===== src/Config/Backends/Examples.antt =====
-- Tests of the backends in the document, and their round trip at a concrete topology.
use ninj_os_proxie_edge_fabr.GoMap.{value_or}
use ninj_os_proxie_edge_fabr.GoText.Sort.{text_less}
use ninj_os_proxie_edge_fabr.Prelude.{
  text_beq, text_beq, select, ◌≡◌, refl, true, false, [], ◌∷◌, map, arith,
}
use ninj_os_proxie_edge_fabr.Prelude.Int.{pos}
use ninj_os_proxie_edge_fabr.GoText.{
  is_space, trim_left, trim_right, trim_space, to_lower, has_prefix, trim_left, trim_right,
  trim_space, is_space, trim_left, trim_right, trim_space, is_space, trim_left, trim_right,
  trim_space, is_space, trim_left, trim_right, trim_space, is_space, trim_left, trim_right,
  trim_space, is_space, trim_left, trim_right, trim_space, is_space, trim_left, trim_right,
  trim_space, is_space, trim_left, trim_right, trim_space, upper_byte, is_space, split, join, codes,
}
use ninj_os_proxie_edge_fabr.Topology.{
  every, is_backend_id, every, is_backend_id, Backend, Topology,
}
use ninj_os_proxie_edge_fabr.Config.{env_name_from_reference, Document}
use ninj_os_proxie_edge_fabr.Config.Backends.{
  topology_from_unified, written_topology, existing_secrets, humanize_backend_id,
}
use ninj_os_proxie_edge_fabr.Config.Backends.Sections.{Ordered}
use ninj_os_proxie_edge_fabr.Config.Backends.Tidy.{Neat, Tidy, with_secret}
use ninj_os_proxie_edge_fabr.Config.Backends.RoundTrip.{topology_from-written}

abbrev lobby : Backend
lobby = record {
  id = codes "lobby";
  display_name = codes "Main Lobby";
  host = codes "10.0.0.1";
  backend_port = pos 19132;
  public_port = pos 20000;
  fallback = true;
  fallback_backend = codes "zoo";
  profile = codes "lobby";
  enabled = true;
  connection_mode = codes "transparent";
  backend_adapter = codes "proxy_only";
  backend_online_mode = true;
  require_proxy_identity = false;
  capacity = pos 50;
  companion_secret_env = [];
}

abbrev zoo : Backend
zoo = record lobby { id = codes "zoo"; enabled = false; fallback = false; fallback_backend = [] }

abbrev two : Topology
two = record {
  version = pos 1;
  primary_backend = codes "lobby";
  routing_mode = codes "failover";
  backends = lobby ∷ zoo ∷ [];
}

abbrev old : Document
old =
    (codes "backend.zoo", (codes "companion_secret", codes "env:ZOO_SECRET") ∷ [])
    ∷ (codes "edge", (codes "primary_backend", codes "zoo") ∷ (codes "name", codes "Edge") ∷ [])
    ∷ (codes "backend.gone", [])
    ∷ []

humanizes : humanize_backend_id (codes "sky-block_two") ≡ codes "Sky Block Two"
unfolding humanize_backend_id join select split text_beq is_space upper_byte
humanizes = refl

lobby_id-Neat : Neat (codes "lobby")
unfolding trim_space trim_right trim_left is_space
lobby_id-Neat = record { trimmed = refl; filled = λ h. absurd (cc h) }

name-Neat : Neat (codes "Main Lobby")
unfolding trim_space trim_right trim_left is_space
name-Neat = record { trimmed = refl; filled = λ h. absurd (cc h) }

host-Neat : Neat (codes "10.0.0.1")
unfolding trim_space trim_right trim_left is_space
host-Neat = record { trimmed = refl; filled = λ h. absurd (cc h) }

mode-Neat : Neat (codes "transparent")
unfolding trim_space trim_right trim_left is_space
mode-Neat = record { trimmed = refl; filled = λ h. absurd (cc h) }

adapter-Neat : Neat (codes "proxy_only")
unfolding trim_space trim_right trim_left is_space
adapter-Neat = record { trimmed = refl; filled = λ h. absurd (cc h) }

routing-Neat : Neat (codes "failover")
unfolding trim_space trim_right trim_left is_space
routing-Neat = record { trimmed = refl; filled = λ h. absurd (cc h) }

lobby-Tidy : Tidy lobby
unfolding is_backend_id every trim_space trim_right trim_left is_space
lobby-Tidy = record {
  id_form = refl;
  display_name = name-Neat;
  host = host-Neat;
  profile = lobby_id-Neat;
  connection_mode = mode-Neat;
  backend_adapter = adapter-Neat;
  fallback_backend = refl;
  backend_port = omega arith;
  public_port = omega arith;
  capacity = omega arith;
}

zoo-Tidy : Tidy zoo
unfolding is_backend_id every trim_space trim_right trim_left
zoo-Tidy = record {
  id_form = refl;
  display_name = name-Neat;
  host = host-Neat;
  profile = lobby_id-Neat;
  connection_mode = mode-Neat;
  backend_adapter = adapter-Neat;
  fallback_backend = refl;
  backend_port = omega arith;
  public_port = omega arith;
  capacity = omega arith;
}

two-Ordered : Ordered (lobby ∷ zoo ∷ [])
unfolding text_less
two-Ordered = ((refl, tt), (tt, tt))

topology_from-written_example :
    topology_from_unified (written_topology old two)
    ≡ record two { backends = map (with_secret (existing_secrets old)) (lobby ∷ zoo ∷ []) }
topology_from-written_example =
    topology_from-written old two refl lobby_id-Neat routing-Neat (lobby-Tidy, (zoo-Tidy, tt))
      two-Ordered

keeps_secret :
    map (with_secret (existing_secrets old)) (lobby ∷ zoo ∷ [])
    ≡ lobby ∷ record zoo { companion_secret_env = codes "ZOO_SECRET" } ∷ []
unfolding env_name_from_reference has_prefix to_lower trim_space trim_right trim_left value_or
    existing_secrets text_beq is_space
keeps_secret = refl
