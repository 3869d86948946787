-- ===== src/Replay/Examples.antt =====
-- Tests of the signed-request check, and its theorems at concrete requests.
use ninj_os_proxie_edge_fabr.Prelude.{
  ◌≡◌, ◌≢◌, ◌⊎◌, ◌↔◌, refl, false, none, some, [], ◌++◌, arith, Text, text_beq, select,
}
use ninj_os_proxie_edge_fabr.Prelude.Int.{pos}
use ninj_os_proxie_edge_fabr.GoText.{
  codes, to_lower, trim_space, trim_left, trim_right, is_space, split, cut,
}
use ninj_os_proxie_edge_fabr.GoText.Decimal.{parse_int}
use ninj_os_proxie_edge_fabr.GoMap.{lookup, insert}
use ninj_os_proxie_edge_fabr.Replay.{
  Call, secret_values, Request, verify_signed_body, after_calls, authorized, companion_secret,
  is_stale, accept_replay_key, normalize_server_id, secret_of, signed_text,
}
use ninj_os_proxie_edge_fabr.Replay.Authorized.{Passed, IsAuthorized-iff}
use ninj_os_proxie_edge_fabr.Replay.Gap.{resend, replay_in_gap}
use ninj_os_proxie_edge_fabr.Replay.Signing.{
  IsClose, IsHalfTurn, is_stale_iff, IsAuthorized, no_replay,
}

-- A stand-in for the keyed hash: the key before the text.
abbrev toy_mac : Text → Text → Text
toy_mac key text = key ++ text

abbrev secrets_file : Text
secrets_file = codes "# id=secret\nkingdom = k1 # main\ndefault=d0\n"

finds_secret :
    (companion_secret (some secrets_file) (codes "x") (codes " KINGDOM ") ≡ codes "k1")
    × (companion_secret (some secrets_file) (codes "x") (codes "zoo") ≡ codes "d0")
    × (companion_secret none (codes "x") (codes "zoo") ≡ codes "x")
unfolding companion_secret secret_values normalize_server_id to_lower trim_space trim_left
    trim_right is_space split cut lookup insert text_beq select
finds_secret = (refl, refl, refl)

abbrev signed_request : Request
signed_request = record {
  timestamp = codes "100000";
  signature = codes "k1100000\nhello";
  server = codes "Kingdom";
  body = codes "hello";
}

abbrev first_call : Call
first_call = record {
  request = signed_request;
  secrets = record { file = some secrets_file; fallback = [] };
  now = 100000;
  now' = 100001;
}

abbrev again : Call
again = record first_call { now = 130000; now' = 130001 }

first_call_passes : IsAuthorized toy_mac first_call []
unfolding verify_signed_body companion_secret secret_values secret_of signed_text is_stale
    accept_replay_key parse_int normalize_server_id to_lower trim_space trim_left trim_right
    is_space split cut lookup insert text_beq select
first_call_passes = refl

no_replay_example :
    (verify_signed_body toy_mac again
      (after_calls toy_mac [] (verify_signed_body toy_mac first_call []).1)).0
    ≢ authorized
no_replay_example =
    no_replay toy_mac first_call again [] [] first_call_passes refl refl (omega arith) (omega arith)
      tt (omega arith)

is_stale_iff_example :
    (is_stale 100000 (pos 40000) ≡ false)
    ↔ (IsClose 100000 (pos 40000) ⊎ IsHalfTurn 100000 (pos 40000))
is_stale_iff_example = is_stale_iff 100000 (pos 40000) (omega arith) (omega arith)

IsAuthorized-iff_example : IsAuthorized toy_mac first_call [] ↔ Passed toy_mac first_call []
IsAuthorized-iff_example = IsAuthorized-iff toy_mac first_call [] (omega arith)

-- Stamped a minute ahead of the clock.
abbrev early_call : Call
early_call = record {
  request = record {
    timestamp = codes "160000";
    signature = codes "k160000\n";
    server = codes "a";
    body = [];
  };
  secrets = record { file = none; fallback = codes "k" };
  now = 100000;
  now' = 100000;
}

early_call_passes : IsAuthorized toy_mac early_call []
unfolding verify_signed_body companion_secret secret_values secret_of signed_text is_stale
    accept_replay_key parse_int normalize_server_id to_lower trim_space trim_left trim_right
    is_space split cut lookup insert text_beq select
early_call_passes = refl

replay_in_gap_example :
    IsAuthorized toy_mac (resend early_call 1) (verify_signed_body toy_mac early_call []).1
replay_in_gap_example =
    replay_in_gap toy_mac early_call [] 1 early_call_passes (unfold parse_int in refl) (omega arith)
      (omega arith)
