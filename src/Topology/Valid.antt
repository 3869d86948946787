-- ===== src/Topology/Valid.antt =====
-- What a valid topology is, said without the order of the checks, and that `validateTopology` decides
-- it (dashboard/backends.go).
use ninj_os_proxie_edge_fabr.Prelude.{
  ◌≡◌, ◌≢◌, ◌⊎◌, true, false, none, [], arith, Text, text_beq_iff,
}
use ninj_os_proxie_edge_fabr.Prelude.Int.{pos, ◌≤ℤ◌}
use ninj_os_proxie_edge_fabr.GoText.{codes, trim_space, or_else}
use ninj_os_proxie_edge_fabr.Topology.{
  Backend, is_env_name, has_reserved, full_proxy, transparent, is_adapter, check_fields,
  check_policy,
}

abbrev pub mode_of : Backend → Text
mode_of b = or_else b.connection_mode transparent

-- The names and addresses of a backend.
pub record HasFields (b : Backend) : Type 0 where
  pub named : trim_space b.display_name ≢ []
  pub name_plain : has_reserved b.display_name ≡ false
  pub hosted : trim_space b.host ≢ []
  pub host_plain : has_reserved b.host ≡ false
  pub port_low : pos 1 ≤ℤ b.backend_port
  pub port_high : b.backend_port ≤ℤ pos 65535
  pub public_low : pos 0 ≤ℤ b.public_port
  pub public_high : b.public_port ≤ℤ pos 65535

-- The policy of a backend. Only a full proxy may require an identity, and it needs a public port and
-- a backend in offline mode.
pub record HasPolicy (b : Backend) : Type 0 where
  pub profiled : b.profile ≢ []
  pub profile_plain : has_reserved b.profile ≡ false
  pub mode : (mode_of b ≡ transparent) ⊎ (mode_of b ≡ full_proxy)
  pub adapter : is_adapter (or_else b.backend_adapter (codes "proxy_only")) ≡ true
  pub capacity_low : pos 1 ≤ℤ b.capacity
  pub capacity_high : b.capacity ≤ℤ pos 100000
  pub proxied_offline : mode_of b ≡ full_proxy → b.backend_online_mode ≡ false
  pub proxied_port : mode_of b ≡ full_proxy → b.public_port ≢ pos 0
  pub identity : b.require_proxy_identity ≡ true → mode_of b ≡ full_proxy
  pub fallback_other : b.fallback_backend ≢ [] → b.fallback_backend ≢ b.id
  pub secret_env : b.companion_secret_env ≢ [] → is_env_name b.companion_secret_env ≡ true

pub check_fields_sound : (b : Backend) → check_fields b ≡ none → HasFields b
unfolding check_fields
check_fields_sound b h = record {
  named = λ e. ground (arith, text_beq_iff (trim_space b.display_name) []);
  name_plain = ground arith;
  hosted = λ e. ground (arith, text_beq_iff (trim_space b.host) []);
  host_plain = ground arith;
  port_low = ground arith;
  port_high = ground arith;
  public_low = ground arith;
  public_high = ground arith;
}

pub check_fields_complete : (b : Backend) → HasFields b → check_fields b ≡ none
unfolding check_fields
check_fields_complete b f = ground (
  arith,
  f.named,
  f.name_plain,
  f.hosted,
  f.host_plain,
  f.port_low,
  f.port_high,
  f.public_low,
  f.public_high,
  text_beq_iff (trim_space b.display_name) [],
  text_beq_iff (trim_space b.host) [],
)

pub check_policy_sound : (b : Backend) → check_policy b ≡ none → HasPolicy b
unfolding check_policy
check_policy_sound b h =
    let profile = text_beq_iff b.profile [] in
    let thin = text_beq_iff (mode_of b) transparent in
    let full = text_beq_iff (mode_of b) full_proxy in
    let self = text_beq_iff b.fallback_backend b.id in
    let fallback = text_beq_iff b.fallback_backend [] in
    let secret = text_beq_iff b.companion_secret_env [] in
    record {
      profiled = λ e. ground (arith, profile);
      profile_plain = ground arith;
      mode = ground (arith, thin, full);
      adapter = ground arith;
      capacity_low = ground arith;
      capacity_high = ground arith;
      proxied_offline = λ e. ground (arith, full);
      proxied_port = λ e z. ground (arith, full, z);
      identity = λ e. ground (arith, full);
      fallback_other = λ n e. ground (arith, self, fallback);
      secret_env = λ n. ground (arith, secret);
    }

pub check_policy_complete : (b : Backend) → HasPolicy b → check_policy b ≡ none
unfolding check_policy
check_policy_complete b p =
    let profile = text_beq_iff b.profile [] in
    let thin = text_beq_iff (mode_of b) transparent in
    let full = text_beq_iff (mode_of b) full_proxy in
    let self = text_beq_iff b.fallback_backend b.id in
    let fallback = text_beq_iff b.fallback_backend [] in
    let secret = text_beq_iff b.companion_secret_env [] in
    ground (
      arith, p.profiled, p.profile_plain, p.mode, p.adapter, p.capacity_low, p.capacity_high,
      p.proxied_offline, p.proxied_port, p.identity, p.fallback_other, p.secret_env, profile, thin,
      full, self, fallback, secret,
    )
