-- ===== src/Topology/Registry.antt =====
-- The edits of the backend registry (dashboard/backends.go: decodeBackendDefinition,
-- validateManagedPort, createBackend, updateBackend, deleteBackend, handleTopologySettings, and the
-- checks of applyTopologyChange). A change is the topology that the handler hands to `saveTopology`.
use ninj_os_proxie_edge_fabr.Prelude.{
  Bool, true, not, ◌&&◌, ◌||◌, none, some, List, [], ◌∷◌, ◌++◌, length, nat_beq, if◌then◌else◌,
  Text, ◌==◌, any, select,
}
use ninj_os_proxie_edge_fabr.Prelude.Int.{ℤ, pos, beq_ℤ}
use ninj_os_proxie_edge_fabr.GoText.{codes, to_lower, trim_space, or_else}
use ninj_os_proxie_edge_fabr.Topology.{
  Backend, Topology, TopologyError, transparent, validate_topology,
}

pub data ChangeError : Type 0 where
  unmanaged_port id_in_use missing_id not_found last_backend : ChangeError
  invalid : TopologyError → ChangeError

pub data Change : Type 0 where
  rejected : ChangeError → Change
  accepted : Topology → Change

pub data ChangeRequest : Type 0 where
  create : Backend → ChangeRequest
  update : Text → Backend → ChangeRequest
  remove : Text → ChangeRequest
  settings : Text → Text → ChangeRequest

abbrev pub lower_trimmed : Text → Text
lower_trimmed s = to_lower (trim_space s)

-- `decodeBackendDefinition` after the JSON decoder.
unfoldable pub normalize_definition : Backend → Backend
normalize_definition d =
    let id = lower_trimmed d.id in
    record d {
      id = id;
      display_name = trim_space d.display_name;
      host = trim_space d.host;
      profile = or_else (trim_space d.profile) id;
      fallback_backend = lower_trimmed d.fallback_backend;
      connection_mode = or_else (lower_trimmed d.connection_mode) transparent;
      backend_adapter = or_else (lower_trimmed d.backend_adapter) (codes "proxy_only");
      companion_secret_env = [];
      capacity = if beq_ℤ d.capacity (pos 0) then pos 50 else d.capacity;
      backend_online_mode =
          if trim_space d.connection_mode == [] then true else d.backend_online_mode;
    }

-- `validateManagedPort`: does the port pass?
unfoldable pub is_managed : List ℤ → ℤ → Bool
is_managed [] port = true
is_managed (a ∷ allowed) port = beq_ℤ port (pos 0) || any (λ p. beq_ℤ port p) (a ∷ allowed)

abbrev pub is_admissible : List ℤ → Backend → Bool
is_admissible allowed b = not b.enabled || is_managed allowed b.public_port

-- The checks of `applyTopologyChange` before it saves.
unfoldable pub check_change : List ℤ → Topology → Change
check_change allowed t = elim (validate_topology t) [
  | some e ↦ rejected (invalid e)
  | none ↦
      if any (λ b. not (is_admissible allowed b)) t.backends
      then rejected unmanaged_port
      else accepted t
]

abbrev pub has_id : Text → List Backend → Bool
has_id id = any (λ b. b.id == id)

abbrev pub appended : Backend → Topology → Topology
appended d t = record t { backends = t.backends ++ (d ∷ []) }

-- `createBackend`
unfoldable pub create_backend : List ℤ → Backend → Topology → Change
create_backend allowed raw t =
    let d = normalize_definition raw in
    if not (is_managed allowed d.public_port)
    then rejected unmanaged_port
    else if has_id d.id t.backends
    then rejected id_in_use
    else check_change allowed (appended d t)

-- The loop of `updateBackend`: the first backend with the id is replaced.
unfoldable pub replace_backend : Text → Backend → List Backend → List Backend
replace_backend id d [] = []
replace_backend id d (b ∷ bs) =
    let rest = replace_backend id d bs in if b.id == id then d ∷ bs else b ∷ rest

abbrev pub replaced : Text → Backend → Topology → Topology
replaced id d t = record t {
  backends = replace_backend id d t.backends;
  primary_backend = if t.primary_backend == id then d.id else t.primary_backend;
}

-- `updateBackend`
unfoldable pub update_backend : List ℤ → Text → Backend → Topology → Change
update_backend allowed raw_id raw t =
    let id = lower_trimmed raw_id in
    let d = normalize_definition raw in
    if id == []
    then rejected missing_id
    else if not (is_managed allowed d.public_port)
    then rejected unmanaged_port
    else if not (d.id == id) && has_id d.id t.backends
    then rejected id_in_use
    else if not (has_id id t.backends)
    then rejected not_found
    else check_change allowed (replaced id d t)

abbrev pub others : Text → List Backend → List Backend
others id = select (λ b. not (b.id == id))

-- `topology.Backends[0].ID`; the list is not empty where the source reads it.
abbrev pub first_id : List Backend → Text → Text
first_id [] primary = primary
first_id (b ∷ bs) primary = b.id

abbrev pub removed : Text → Topology → Topology
removed id t =
    let next = others id t.backends in
    record t {
      backends = next;
      primary_backend =
          if t.primary_backend == id then first_id next t.primary_backend else t.primary_backend;
    }

-- `deleteBackend`
unfoldable pub delete_backend : List ℤ → Text → Topology → Change
delete_backend allowed raw_id t =
    let id = lower_trimmed raw_id in
    if id == []
    then rejected missing_id
    else if nat_beq (length t.backends) 1
    then rejected last_backend
    else if not (has_id id t.backends)
    then rejected not_found
    else check_change allowed (removed id t)

-- `handleTopologySettings`
unfoldable pub change_settings : List ℤ → Text → Text → Topology → Change
change_settings allowed primary mode t =
    check_change allowed
      (record t { primary_backend = trim_space primary; routing_mode = trim_space mode })

unfoldable pub change : List ℤ → ChangeRequest → Topology → Change
change allowed (create d) t = create_backend allowed d t
change allowed (update id d) t = update_backend allowed id d t
change allowed (remove id) t = delete_backend allowed id t
change allowed (settings primary mode) t = change_settings allowed primary mode t
