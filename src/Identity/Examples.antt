-- ===== src/Identity/Examples.antt =====
-- Tests of the identity bridge, and its theorems at concrete grants.
use mathlib.Core.List.{Memᴰ}
use ninj_os_proxie_edge_fabr.Prelude.{
  ◌≡◌, ◌≢◌, refl, true, false, none, some, List, [], ◌∷◌, arith, Text, ◌==◌, text_beq, text_beq_iff,
  Bool-cases, inl, inr, sym, ap, ◌∙◌, All,
}
use ninj_os_proxie_edge_fabr.Prelude.Int.{pos, ◌-ℤ◌}
use ninj_os_proxie_edge_fabr.GoText.{
  codes, to_lower, lower_byte, trim_space, trim_left, trim_right, is_space, equal_fold, has_prefix,
  or_else,
}
use ninj_os_proxie_edge_fabr.GoMap.{lookup}
use ninj_os_proxie_edge_fabr.Replay.{normalize_server_id}
use ninj_os_proxie_edge_fabr.Identity.{
  Grant, Grants, role_operator, role_permissions, trim_prefix, session_core_authorized, is_spent,
  cleanup_identity_grants, store_grant, profile_identity, granted, GrantEnv, clean_grant, expiry,
  fill_grant, grant_refusal, handle_identity_grant, ConsumeRequest, is_waiting, select_grant,
  clean_consume, consume_grant,
}
use ninj_os_proxie_edge_fabr.Identity.Granting.{IsGranted, granted-IsGranted}
use ninj_os_proxie_edge_fabr.Identity.Consuming.{IsTaken, consume-IsTaken, waiting_grant_consumed}
use ninj_os_proxie_edge_fabr.Identity.OneUse.{
  Event, grant, consume, events, WellKeyed, Avoids, one_use,
}
use ninj_os_proxie_edge_fabr.Prelude.{if◌then◌else◌, ◌⊎◌, Option}
use ninj_os_proxie_edge_fabr.GoText.Decimal.{parse_int}
use ninj_os_proxie_edge_fabr.Replay.{verify_signed_body, companion_secret, secret_of}
use ninj_os_proxie_edge_fabr.Replay.Signing.{IsAuthorized}
use ninj_os_proxie_edge_fabr.Identity.{
  ConsumeCall, consumed, handle_identity_consume, verify_bridge_body,
}
use ninj_os_proxie_edge_fabr.Identity.Bridge.{HasToken, handle-consumed}

abbrev no_grants : Grants
no_grants id = none

abbrev env : GrantEnv
env = record {
  header = codes "Bearer core";
  token = codes "core";
  profiles = (codes "x1", record { role = codes "Operator"; banned = false; access = [] }) ∷ [];
  random_id = some (codes "r1");
  now = 5000;
}

abbrev asked : Grant
asked = record {
  grant_id = [];
  session_id = codes "s1 ";
  server_id = codes " Zoo";
  username = codes "Ann";
  xuid = codes "x1";
  uuid = [];
  original_ip = codes "10.0.0.9";
  device_os = [];
  client_version = [];
  protocol_version = pos 0;
  role = codes "owner";
  operator = true;
  permissions = [];
  created_at = pos 0;
  expires_at = pos 900000;
  consumed_at = pos 0;
}

abbrev given : Grant
given = record asked {
  grant_id = codes "r1";
  session_id = codes "s1";
  server_id = codes "zoo";
  role = codes "Operator";
  operator = true;
  permissions = codes "ninjos.command.*" ∷ codes "endstone.command.*" ∷ [];
  created_at = pos 5000;
  expires_at = pos 35000;
}

abbrev one_grant : Grants
one_grant = store_grant (codes "r1") given (cleanup_identity_grants 5000 no_grants)

grants : handle_identity_grant env asked no_grants ≡ (granted given, one_grant)
unfolding handle_identity_grant grant_refusal clean_grant fill_grant expiry role_operator
    role_permissions trim_prefix session_core_authorized profile_identity normalize_server_id
    to_lower lower_byte trim_space trim_left trim_right is_space has_prefix text_beq lookup or_else
    ◌-ℤ◌
grants = refl

granted-IsGranted_example : IsGranted env given no_grants one_grant
granted-IsGranted_example = granted-IsGranted env asked given no_grants one_grant grants

abbrev wanted : ConsumeRequest
wanted = record { server_id = codes "ZOO"; username = codes "ann"; session_id = codes "s1" }

abbrev used : Grant
used = record given { consumed_at = pos 6000 }

abbrev visit : List Text
visit = codes "q0" ∷ codes "r1" ∷ []

abbrev used_grants : Grants
used_grants = store_grant (codes "r1") used (cleanup_identity_grants 6000 one_grant)

consumes : consume_grant 6000 visit wanted one_grant ≡ (some used, used_grants)
unfolding consume_grant select_grant is_waiting cleanup_identity_grants is_spent store_grant
    normalize_server_id to_lower lower_byte trim_space trim_left trim_right is_space text_beq
    equal_fold ◌-ℤ◌
consumes = refl

blank : one_grant [] ≡ none
unfolding store_grant cleanup_identity_grants text_beq
blank = refl

consume-IsTaken_example : IsTaken 6000 visit wanted used one_grant used_grants
consume-IsTaken_example =
    consume-IsTaken 6000 visit wanted one_grant used used_grants blank consumes

still_there : cleanup_identity_grants 6000 one_grant (codes "r1") ≡ some given
unfolding store_grant cleanup_identity_grants is_spent text_beq ◌-ℤ◌
still_there = refl

waits : is_waiting 6000 (clean_consume wanted) given ≡ true
unfolding is_waiting normalize_server_id to_lower lower_byte trim_space trim_left trim_right
    is_space text_beq equal_fold
waits = refl

waiting_grant_consumed_example :
    (g' : Grant) × ((consume_grant 6000 visit wanted one_grant).0 ≡ some g')
waiting_grant_consumed_example =
    waiting_grant_consumed 6000 visit wanted one_grant (codes "r1") given blank
      (Memᴰ.tail (Memᴰ.head refl)) still_there waits

keyed : WellKeyed one_grant
unfolding store_grant cleanup_identity_grants
keyed id g e = elim (Bool-cases (id == codes "r1")) [
  | inl y ↦
      let same : some given ≡ some g = rw y at e in
      let found : given ≡ g = cc same in
      ap (λ (x : Grant). x.grant_id) (sym found) ∙ sym ((text_beq_iff id (codes "r1")).0 y)
  | inr n ↦ let missing : none ≡ some g = rw n at e in cc missing
]

abbrev later : List Event
later =
    consume 7000 visit wanted
    ∷ grant (record env { random_id = some (codes "r2") }) asked
    ∷ consume 8000 visit wanted
    ∷ []

avoids : All (Avoids used.grant_id) later
unfolding clean_grant
avoids = (tt, ((λ e. cc, λ e. ground arith), (tt, tt)))

one_use_example : All (λ g. g.grant_id ≢ used.grant_id) (events later used_grants).0
one_use_example =
    one_use 6000 visit wanted one_grant used_grants used later (omega arith) keyed consumes avoids

-- The body that stands for `wanted`.
abbrev decode : Text → Option ConsumeRequest
decode body = if body == codes "q" then some wanted else none

abbrev no_mac : Text → Text → Text
no_mac key text = []

-- A request without a signature that carries the secret of its server.
abbrev token_call : ConsumeCall
token_call = record {
  call = record {
    request = record { timestamp = []; signature = []; server = codes "Zoo"; body = codes "q" };
    secrets = record { file = none; fallback = codes "k" };
    now = 6000;
    now' = 6000;
  };
  token = codes " k";
  now = 6000;
  order = visit;
}

token_consumes :
    (handle_identity_consume no_mac decode token_call [] one_grant).0 ≡ (consumed used, used_grants)
unfolding handle_identity_consume verify_bridge_body verify_signed_body companion_secret secret_of
    parse_int consume_grant select_grant is_waiting cleanup_identity_grants is_spent store_grant
    normalize_server_id to_lower lower_byte trim_space trim_left trim_right is_space text_beq
    equal_fold ◌-ℤ◌ lookup
token_consumes = refl

handle-consumed_example :
    (IsAuthorized no_mac token_call.call [] ⊎ HasToken token_call.call token_call.token)
    × (r : ConsumeRequest) × (decode token_call.call.request.body ≡ some r)
    × (consume_grant token_call.now token_call.order r one_grant ≡ (some used, used_grants))
handle-consumed_example =
    handle-consumed no_mac decode token_call [] one_grant used used_grants token_consumes
