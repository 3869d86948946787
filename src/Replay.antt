-- ===== src/Replay.antt =====
-- The check of a companion's signed request, and the guard against replayed signatures
-- (dashboard/main.go: normalizeCompanionServerID, companionSecret, verifySignedBody, abs64,
-- acceptReplayKey). The keyed hash is a parameter. Times are Unix milliseconds.
pub mod Window
pub mod Signing
pub mod Authorized
pub mod Gap
mod Examples
use ninj_os_proxie_edge_fabr.Prelude.{
  ℕ, ◌-◌, Bool, true, false, not, ◌||◌, Option, none, some, List, [], ◌∷◌, ◌++◌, ltb, if◌then◌else◌,
  Text, ◌==◌, select,
}
use ninj_os_proxie_edge_fabr.Prelude.Int.{ℤ, pos, ltb_ℤ}
use ninj_os_proxie_edge_fabr.Prelude.Int64.{sub64}
use ninj_os_proxie_edge_fabr.GoText.{codes, to_lower, trim_space, split, cut, or_else}
use ninj_os_proxie_edge_fabr.GoText.Decimal.{parse_int}
use ninj_os_proxie_edge_fabr.GoMap.{lookup, insert}

-- `normalizeCompanionServerID`
unfoldable pub normalize_server_id : Text → Text
normalize_server_id id = to_lower (trim_space id)

add_property : Text × Option Text → List (Text × Text) → List (Text × Text)
add_property (key, none) values = values
add_property (key, some value) values = insert (trim_space key) (trim_space value) values

-- One line of a properties file: what follows a `#` is a comment.
add_line : Text → List (Text × Text) → List (Text × Text)
unfolding add_property
add_line raw values =
    let line = trim_space (cut b'#' raw).0 in
    if line == [] then values else add_property (cut b'=' line) values

add_lines : List Text → List (Text × Text) → List (Text × Text)
unfolding add_line
add_lines [] values = values
add_lines (raw ∷ rest) values = add_lines rest (add_line raw values)

-- `values[key]`, which is empty where the key is missing.
unfoldable pub text_at : Text → List (Text × Text) → Text
text_at key values = elim (lookup key values) [ none ↦ [] | some v ↦ v ]

-- The values of the secrets file: none if it cannot be read.
unfoldable pub secret_values : Option Text → List (Text × Text)
unfolding add_lines
secret_values none = []
secret_values (some content) = add_lines (split b'\n' content) []

-- `companionSecret`: `file` is what reading the secrets file gives, and `fallback` is `d.secret`.
unfoldable pub companion_secret : Option Text → Text → Text → Text
unfolding secret_values text_at or_else
companion_secret file fallback server =
    or_else (text_at (normalize_server_id server) (secret_values file))
      (or_else (text_at (codes "default") (secret_values file)) fallback)

-- `replaySeen`: a signature, and when it was accepted.
abbrev pub Seen : Type 0
Seen = List (Text × ℕ)

abbrev pub retention_millis : ℕ
retention_millis = 120000

abbrev pub is_kept : ℕ → Text × ℕ → Bool
is_kept now (key, seen_at) = not (ltb retention_millis (now - seen_at))

-- `acceptReplayKey`
unfoldable pub accept_replay_key : Text → ℕ → Seen → Bool × Seen
accept_replay_key signature now seen =
    let kept = select (is_kept now) seen in
    elim (lookup signature kept) [
      | some _ ↦ (false, kept)
      | none ↦ (true, insert signature now kept)
    ]

-- `abs64`
unfoldable pub abs64 : ℤ → ℤ
unfolding sub64
abs64 value = if ltb_ℤ value (pos 0) then sub64 (pos 0) value else value

-- The headers that the check reads, and the body.
pub record Request : Type 0 where
  pub timestamp : Text
  pub signature : Text
  pub server : Text
  pub body : Text

pub data Verdict : Type 0 where
  authorized unauthorized replayed : Verdict

abbrev pub window_millis : ℕ
window_millis = 60000

-- `abs64(time.Now().UnixMilli() - millis) > 60000`
unfoldable pub is_stale : ℕ → ℤ → Bool
unfolding abs64 sub64
is_stale now millis = ltb_ℤ (pos window_millis) (abs64 (sub64 (pos now) millis))

unfoldable pub signed_text : Request → Text
signed_text r = r.timestamp ++ (b'\n' ∷ r.body)

accepted : Bool × Seen → Verdict × Seen
accepted (true, seen) = (authorized, seen)
accepted (false, seen) = (replayed, seen)

-- What `companionSecret` reads when the check runs.
pub record Secrets : Type 0 where
  pub file : Option Text
  pub fallback : Text

unfoldable pub secret_of : Secrets → Request → Text
secret_of s r = companion_secret s.file s.fallback (normalize_server_id r.server)

-- A call of the check: the request, the secrets and the two readings of the clock.
pub record Call : Type 0 where
  pub request : Request
  pub secrets : Secrets
  pub now : ℕ
  pub now' : ℕ

module _ (mac : Text → Text → Text) where
  -- `verifySignedBody`; `mac key text` is the hexadecimal HMAC-SHA256.
  unfoldable pub verify_signed_body : Call → Seen → Verdict × Seen
  unfolding accepted
  verify_signed_body c seen =
      let r = c.request in
      elim (parse_int r.timestamp) [
        | none ↦ (unauthorized, seen)
        | some millis ↦
            if is_stale c.now millis || normalize_server_id r.server == []
            then (unauthorized, seen)
            else if not (r.signature == mac (secret_of c.secrets r) (signed_text r))
            then (unauthorized, seen)
            else accepted (accept_replay_key r.signature c.now' seen)
      ]

  -- The guard's memory after a sequence of calls.
  unfoldable pub after_calls : List Call → Seen → Seen
  after_calls [] seen = seen
  after_calls (c ∷ cs) seen = after_calls cs (verify_signed_body c seen).1
