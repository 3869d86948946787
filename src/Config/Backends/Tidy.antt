-- ===== src/Config/Backends/Tidy.antt =====
-- Values that reading gives back as they were written (dashboard/config.go: valueOr, intOr, boolOr,
-- topologyFromUnified).
use ninj_os_proxie_edge_fabr.Prelude.{
  ℕ, ◌≡◌, ◌≢◌, refl, ap, ◌∙◌, Bool, true, false, none, some, List, [], ◌∷◌, ◌++◌, arith, Text,
  text_beq, All, All-weaken,
}
use ninj_os_proxie_edge_fabr.Prelude.Int.{ℤ, pos, negsuc}
use ninj_os_proxie_edge_fabr.GoText.{
  codes, trim_space, trim_left, trim_right, is_space, or_else, to_lower, lower_byte,
}
use ninj_os_proxie_edge_fabr.GoText.Decimal.{
  format_int, format_nat, format_nat-All, parse_int, parse_int-format_int, InInt64,
}
use ninj_os_proxie_edge_fabr.GoMap.{lookup, value_or}
use ninj_os_proxie_edge_fabr.Topology.{Backend, every, is_backend_id, is_id_byte}
use ninj_os_proxie_edge_fabr.Config.{
  env_name_from_reference, value_or_default, int_or, bool_or, switch_value,
}
use ninj_os_proxie_edge_fabr.Config.Backends.{
  prefix, backend_from, backend_values, format_bool, humanize_backend_id,
}
use ninj_os_proxie_edge_fabr.Config.Backends.Sections.{section_of, IsNamed, read_back}

abbrev Visible : Text → Type 0
Visible = All (λ c. is_space c ≡ false)

trim_left-Visible : (s : Text) → Visible s → trim_left s ≡ s
unfolding trim_left
trim_left-Visible [] h = refl
trim_left-Visible (c ∷ s) h = rw h.0 refl

trim_right-Visible : (s : Text) → Visible s → trim_right s ≡ s
unfolding trim_right
trim_right-Visible [] h = refl
trim_right-Visible (c ∷ s) h = ground (arith, h.0, trim_right-Visible s h.1)

trim_space-Visible : (s : Text) → Visible s → trim_space s ≡ s
unfolding trim_space
trim_space-Visible s h = rw (trim_left-Visible s h) (trim_right-Visible s h)

digits-Visible : (n : ℕ) → Visible (format_nat n)
unfolding is_space
digits-Visible n =
    All-weaken _ (λ c. is_space c ≡ false) (λ c d. ground (arith, d)) (format_nat n)
      (format_nat-All n)

format_int-Visible : (z : ℤ) → Visible (format_int z)
unfolding format_int
format_int-Visible (pos n) = digits-Visible n
format_int-Visible (negsuc n) = (unfold is_space in refl, digits-Visible (ℕ.suc n))

id_byte-plain : (c : ℕ) → is_id_byte c ≡ true → (is_space c ≡ false) × (lower_byte c ≡ c)
unfolding is_space lower_byte
id_byte-plain c h = ground (arith, h)

every-plain : (s : Text) → every is_id_byte s ≡ true → Visible s × (to_lower s ≡ s)
unfolding every to_lower
every-plain [] h = (tt, refl)
every-plain (c ∷ s) h =
    let here = id_byte-plain c (ground (arith, h)) in
    let rest = every-plain s (ground (arith, h)) in ((here.0, rest.0), rw (here.1, rest.1) refl)

id-plain : (id : Text) → is_backend_id id ≡ true → every is_id_byte id ≡ true
unfolding is_backend_id every
id-plain [] h = refl
id-plain (c ∷ s) h = ground (arith, h)

section-Visible : (b : Backend) → Visible b.id → Visible (section_of b)
unfolding is_space
section-Visible b h = (refl, (refl, (refl, (refl, (refl, (refl, (refl, (refl, h))))))))

section-lower : (b : Backend) → to_lower b.id ≡ b.id → to_lower (section_of b) ≡ section_of b
unfolding to_lower lower_byte
section-lower b h = ap (λ s. prefix ++ s) h

pub id-IsNamed : (b : Backend) → is_backend_id b.id ≡ true → IsNamed b
id-IsNamed b h =
    let plain = every-plain b.id (id-plain b.id h) in
    ap to_lower (trim_space-Visible (section_of b) (section-Visible b plain.0))
    ∙ section-lower b plain.1

-- A text that a value keeps as it is.
pub record Neat (s : Text) : Type 0 where
  pub trimmed : trim_space s ≡ s
  pub filled : s ≢ []

pub or_else-Neat : (s d : Text) → Neat s → or_else (trim_space s) d ≡ s
unfolding or_else
or_else-Neat s d h = rw h.trimmed (ground (arith, h.filled))

-- A backend that `normalizeDefinition` and the check leave: its texts have no space around them and
-- its numbers fit 64 bits.
pub record Tidy (b : Backend) : Type 0 where
  pub id_form : is_backend_id b.id ≡ true
  pub display_name : Neat b.display_name
  pub host : Neat b.host
  pub profile : Neat b.profile
  pub connection_mode : Neat b.connection_mode
  pub backend_adapter : Neat b.backend_adapter
  pub fallback_backend : trim_space b.fallback_backend ≡ b.fallback_backend
  pub backend_port : InInt64 b.backend_port
  pub public_port : InInt64 b.public_port
  pub capacity : InInt64 b.capacity

read_int :
    (z fallback : ℤ)
    → InInt64 z
    → elim (parse_int (trim_space (format_int z))) [ none ↦ fallback | some n ↦ n ] ≡ z
read_int z fallback h =
    ground
      (arith, trim_space-Visible (format_int z) (format_int-Visible z), parse_int-format_int z h)

read_bool : (x fallback : Bool) → switch_value (to_lower (trim_space (format_bool x))) fallback ≡ x
unfolding switch_value to_lower lower_byte trim_space trim_left trim_right is_space text_beq
read_bool true fallback = refl
read_bool false fallback = refl

or_else-nil : (s : Text) → or_else s [] ≡ s
unfolding or_else
or_else-nil [] = refl
or_else-nil (c ∷ s) = refl

-- The backend with the variable of the credential that the document held.
abbrev pub with_secret : List (Text × Text) → Backend → Backend
with_secret secrets b = record b {
  companion_secret_env = env_name_from_reference (trim_space (value_or [] b.id secrets));
}

pub read_back-Tidy :
    (secrets : List (Text × Text)) (b : Backend)
    → Tidy b
    → read_back secrets b ≡ with_secret secrets b
unfolding backend_from backend_values value_or_default int_or bool_or value_or lookup text_beq
read_back-Tidy secrets b h =
    rw
      (
        or_else-Neat b.display_name (humanize_backend_id b.id) h.display_name,
        or_else-Neat b.host (codes "127.0.0.1") h.host,
        or_else-Neat b.profile b.id h.profile,
        or_else-Neat b.connection_mode (codes "transparent") h.connection_mode,
        or_else-Neat b.backend_adapter (codes "proxy_only") h.backend_adapter,
        h.fallback_backend,
        or_else-nil b.fallback_backend,
        read_int b.backend_port (pos 19132) h.backend_port,
        read_int b.public_port (pos 0) h.public_port,
        read_int b.capacity (pos 50) h.capacity,
        read_bool b.enabled true,
        read_bool b.fallback false,
        read_bool b.backend_online_mode true,
        read_bool b.require_proxy_identity false,
      )
      refl
