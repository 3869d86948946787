-- ===== src/Config/Vault.antt =====
-- Credentials by their ids, the check of a credential and of a whole document, and the Secret Vault's
-- change (dashboard/management.go: secretLocationForID, validateManagedSecret, handleManagedSecrets;
-- dashboard/config.go: validateUnifiedSecrets, validateUnifiedConfig). The labels of a location are
-- left out. The environment and the Base32 decoder are given.
use ninj_os_proxie_edge_fabr.Prelude.{
  ℕ, Bool, true, false, not, ◌&&◌, ◌||◌, Option, none, some, List, [], ◌∷◌, ◌++◌, ltb, leb, nat_beq,
  map, if◌then◌else◌, Text, ◌==◌, length, select,
}
use ninj_os_proxie_edge_fabr.Prelude.Int.{ℤ, pos, ltb_ℤ, beq_ℤ}
use ninj_os_proxie_edge_fabr.GoText.{
  codes, trim_space, to_lower, to_upper, has_prefix, contains_byte, replace_byte, split, or_else,
}
use ninj_os_proxie_edge_fabr.GoText.Decimal.{parse_int}
use ninj_os_proxie_edge_fabr.GoMap.{lookup, has_key}
use ninj_os_proxie_edge_fabr.Topology.{
  is_backend_id, is_upper, is_env_byte, every, validate_topology,
}
use ninj_os_proxie_edge_fabr.Config.{
  Document, get, get_int, env_name_from_reference, set_value, add_section,
}
use ninj_os_proxie_edge_fabr.Config.Secrets.{section_name}
use ninj_os_proxie_edge_fabr.Config.Render.{is_backend_section, keys_of, among}
use ninj_os_proxie_edge_fabr.Config.Backends.{prefix, id_of, topology_from_unified}

-- `Kind` of a `secretLocation`.
pub data SecretKind : Type 0 where
  token secret totp url : SecretKind

-- `secretLocation`
pub record SecretLocation : Type 0 where
  pub section : Text
  pub key : Text
  pub can_generate : Bool
  pub can_inherit : Bool
  pub required : Bool
  pub default_env : Text
  pub kind : SecretKind

abbrev located : Text → Text → Text → SecretKind → SecretLocation
located section key env kind = record {
  section = section;
  key = key;
  can_generate = true;
  can_inherit = false;
  required = false;
  default_env = env;
  kind = kind;
}

-- The map `static`.
abbrev static_locations : List (Text × SecretLocation)
static_locations =
    (
      codes "dashboard.operator_token",
      located (codes "dashboard") (codes "operator_token") (codes "DASHBOARD_OPERATOR_TOKEN") token,
    )
    ∷ (
      codes "dashboard.viewer_token",
      located (codes "dashboard") (codes "viewer_token") (codes "DASHBOARD_READONLY_TOKEN") token,
    )
    ∷ (
      codes "dashboard.metrics_token",
      located (codes "dashboard") (codes "metrics_token") (codes "METRICS_TOKEN") token,
    )
    ∷ (
      codes "dashboard.totp_secret",
      located (codes "dashboard") (codes "totp_secret") (codes "DASHBOARD_TOTP_SECRET") totp,
    )
    ∷ (
      codes "session_core.internal_token",
      located (codes "session_core") (codes "internal_token") (codes "SESSION_CORE_TOKEN") token,
    )
    ∷ (
      codes "companion.default_secret",
      record (located (codes "companion") (codes "default_secret") (codes "COMPANION_SHARED_SECRET")
          secret) { required = true },
    )
    ∷ (
      codes "discord.webhook_url",
      record (located (codes "discord") (codes "webhook_url") (codes "DISCORD_WEBHOOK_URL") url) {
        can_generate = false;
      },
    )
    ∷ (
      codes "discord.bot_token",
      record (located (codes "discord") (codes "bot_token") (codes "DISCORD_BOT_TOKEN") secret) {
        can_generate = false;
      },
    )
    ∷ []

abbrev prepend : ℕ → Option Text → Option Text
prepend c none = none
prepend c (some s) = some (c ∷ s)

-- The text before a suffix, if it has that suffix.
unfoldable pub before_suffix : Text → Text → Option Text
before_suffix suffix [] = if suffix == [] then some [] else none
before_suffix suffix (c ∷ s) =
    let rest = prepend c (before_suffix suffix s) in if suffix == c ∷ s then some [] else rest

abbrev secret_suffix : Text
secret_suffix = codes ".companion_secret"

abbrev backend_location : Text → SecretLocation
backend_location id =
    record (located (prefix ++ id) (codes "companion_secret")
      (codes "COMPANION_" ++ to_upper (replace_byte b'-' b'_' id) ++ codes "_SECRET") secret) {
        can_inherit = true;
      }

unfoldable pub backend_secret_location : Document → Text → Option SecretLocation
backend_secret_location doc id =
    if not (is_backend_id id)
    then none
    else if has_key (prefix ++ id) doc
    then some (backend_location id)
    else none

-- `TrimPrefix` comes before `TrimSuffix`.
unfoldable pub prefixed_location : Document → Text → Option SecretLocation
unfolding before_suffix backend_secret_location
prefixed_location doc id =
    if not (is_backend_section id) then none else elim (before_suffix secret_suffix id) [
      | none ↦ none
      | some _ ↦
          backend_secret_location doc
            (elim (before_suffix secret_suffix (id_of id)) [ some b ↦ b | none ↦ id_of id ])
    ]

-- `secretLocationForID`; `none` stands for its errors.
unfoldable pub secret_location_for_id : Document → Text → Option SecretLocation
unfolding prefixed_location
secret_location_for_id doc id = elim (lookup id static_locations) [
  | some l ↦ some l
  | none ↦ prefixed_location doc id
]

abbrev minimum_secret_length : ℕ
minimum_secret_length = 12

-- `strings.ReplaceAll(s, string(b), "")`
abbrev without : ℕ → Text → Text
without b = select (λ c. not (nat_beq c b))

-- `validateManagedSecret`: is the value accepted, with the test that it is Base32?
unfoldable pub validate_managed_secret : (Text → Bool) → SecretKind → Text → Bool
validate_managed_secret is_base32 kind raw =
    let value = trim_space raw in
    not (contains_byte b'\r' value || contains_byte b'\n' value)
    && (value == [] || elim kind [
      | url ↦
          not (ltb (length value) minimum_secret_length)
          && (has_prefix value (codes "https://") || has_prefix value (codes "http://"))
      | totp ↦
          let code = to_upper (without b'-' (without b' ' value)) in
          not (ltb (length code) minimum_secret_length) && is_base32 code
      | _ ↦ not (ltb (length value) minimum_secret_length)
    ])

-- The environment, and the Base32 decoder's verdict.
pub record Host : Type 0 where
  pub getenv : Text → Text
  pub is_base32 : Text → Bool

-- The check of one credential in `validateUnifiedSecrets`.
unfoldable pub is_secret_fine : Host → Document → Text → Bool
unfolding secret_location_for_id validate_managed_secret
is_secret_fine host doc id = elim (secret_location_for_id doc id) [
  | none ↦ false
  | some l ↦
      let reference = trim_space (get doc l.section l.key []) in
      let variable = env_name_from_reference reference in
      let resolved = trim_space (host.getenv variable) in
      if reference == []
      then true
      else if variable == []
      then validate_managed_secret host.is_base32 l.kind reference
      else resolved == [] || validate_managed_secret host.is_base32 l.kind resolved
]

abbrev all_fine : Host → Document → List Text → Bool
all_fine host doc [] = true
all_fine host doc (id ∷ ids) = is_secret_fine host doc id && all_fine host doc ids

-- `validateUnifiedSecrets`
unfoldable pub validate_unified_secrets : Host → Document → Bool
validate_unified_secrets host doc =
    all_fine host doc (keys_of static_locations)
    && all_fine host doc (map (λ s. s ++ secret_suffix) (select is_backend_section (keys_of doc)))

abbrev capture_modes : List Text
capture_modes =
    codes "metadata" ∷ codes "decoded" ∷ codes "wire" ∷ codes "full" ∷ codes "redacted_payload" ∷ []

abbrev is_number_within : ℤ → ℤ → Text → Bool
is_number_within low high raw = elim (parse_int raw) [
  | none ↦ false
  | some n ↦ not (ltb_ℤ n low || ltb_ℤ high n)
]

abbrev empty_or_within : ℤ → ℤ → Text → Bool
empty_or_within low high raw = raw == [] || is_number_within low high raw

unfoldable pub are_packet_ids : List Text → Bool
are_packet_ids [] = true
are_packet_ids (raw ∷ rest) =
    empty_or_within (pos 0) (pos 1023) (trim_space raw) && are_packet_ids rest

-- `validateUnifiedConfig`: is the document accepted? The loop that compares public ports with the
-- dashboard's decides nothing.
unfoldable pub validate_unified_config : Host → Document → Bool
unfolding validate_unified_secrets are_packet_ids
validate_unified_config host doc =
    let core = codes "session_core" in
    beq_ℤ (get_int doc (codes "edge") (codes "config_version") (pos 1) (pos 1) (pos 100)) (pos 1)
    && elim (validate_topology (topology_from_unified doc)) [ none ↦ true | some e ↦ false ]
    && not (
        ltb_ℤ (get_int doc (codes "transfer") (codes "port_end") (pos 25581) (pos 1) (pos 65535))
          (get_int doc (codes "transfer") (codes "port_start") (pos 25572) (pos 1) (pos 65535)))
    && among capture_modes (get doc core (codes "protocol_capture_mode") (codes "metadata"))
    && are_packet_ids
        (split b',' (get doc core (codes "protocol_capture_packet_ids") (codes "30,77")))
    && empty_or_within (pos 64) (pos 1048576)
        (trim_space (get doc core (codes "protocol_capture_max_packet_bytes") []))
    && empty_or_within (pos 65536) (pos 1073741824)
        (trim_space (get doc core (codes "protocol_observation_max_bytes") []))
    && validate_unified_secrets host doc

-- `environmentVariablePattern`, ^[A-Z_][A-Z0-9_]{1,127}$
unfoldable pub is_variable_name : Text → Bool
is_variable_name [] = false
is_variable_name (c ∷ s) =
    (is_upper c || nat_beq c b'_') && every is_env_byte s && leb 1 (length s) && leb (length s) 127

-- A request to the Secret Vault. `generated` is what the generator returns, `none` if it fails.
pub record SecretRequest : Type 0 where
  pub id : Text
  pub mode : Text
  pub value : Text
  pub environment_variable : Text
  pub generate : Bool
  pub generated : Option Text

unfoldable pub put_secret : SecretLocation → Text → Document → Document
put_secret l value doc =
    set_value (section_name l.section) l.key value (add_section (section_name l.section) doc)

-- The switch over the mode; `none` stands for a refusal.
unfoldable pub change_secret :
    Host → SecretLocation → Text → Text → Text → Document → Option Document
unfolding put_secret validate_managed_secret
change_secret host l mode value environment_variable doc =
    let variable = or_else (to_upper (trim_space environment_variable)) l.default_env in
    let resolved = trim_space (host.getenv variable) in
    if mode == codes "dashboard"
    then if not (validate_managed_secret host.is_base32 l.kind value) || l.required && value == []
      then none
      else some (put_secret l value doc)
    else if mode == codes "environment"
    then if not (is_variable_name variable)
        || resolved == []
        || not (validate_managed_secret host.is_base32 l.kind resolved)
      then none
      else some (put_secret l (codes "env:" ++ variable) doc)
    else if mode == codes "inherit"
    then if not l.can_inherit then none else some (put_secret l [] doc)
    else if mode == codes "clear" || mode == codes "unset"
    then if l.required then none else some (put_secret l [] doc)
    else none

-- The document that the handler's PUT writes, or none if it refuses the request.
unfoldable pub manage_secret : Host → SecretRequest → Document → Option Document
unfolding secret_location_for_id change_secret
manage_secret host r doc = elim (secret_location_for_id doc (trim_space r.id)) [
  | none ↦ none
  | some l ↦
      if not r.generate
      then change_secret host l (to_lower (trim_space r.mode)) (trim_space r.value)
          r.environment_variable doc
      else if not l.can_generate
      then none
      else elim r.generated [
        | none ↦ none
        | some value ↦ change_secret host l (codes "dashboard") value r.environment_variable doc
      ]
]
