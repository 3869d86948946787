-- ===== src/Tickets/Format.antt =====
-- The fields of a ticket's line come back from it.
use ninj_os_proxie_edge_fabr.Prelude.{
  ℕ, suc, ◌≡◌, ◌≢◌, ◌≤◌, refl, ◌∙◌, Bool, true, false, not, none, some, [], ◌∷◌, ◌++◌, arith,
  if◌then◌else◌, Text, ◌==◌, text_beq_iff, All, All-append, any,
}
use ninj_os_proxie_edge_fabr.Prelude.Int.{ℤ, pos, negsuc, leb_ℤ}
use ninj_os_proxie_edge_fabr.GoText.{
  trim_space, trim_left, trim_right, is_space, replace_byte, has_prefix, split,
}
use ninj_os_proxie_edge_fabr.GoText.Decimal.{
  format_int, format_nat, format_nat-All, format_nat-ne-nil, InInt64, parse_int-format_int,
}
use ninj_os_proxie_edge_fabr.GoText.Lines.{
  Free, split-Free, split-append, All-trim_space, trim_space_idem, Free-replace_byte,
  Free-replace_byte_other, replace_byte-Free,
}
use ninj_os_proxie_edge_fabr.Tickets.{Ticket, sanitize_ticket_field, parse_line, ticket_line}

-- A field that stays within its column: no tab and no newline.
pub record IsField (s : Text) : Type 0 where
  pub no_tab : Free b'\t' s
  pub no_newline : Free b'\n' s

module _ (value : Text) where
  spaced : Text
  spaced = replace_byte b'\r' b' ' (replace_byte b'\n' b' ' (replace_byte b'\t' b' ' value))

  pub sanitize_ticket_field-IsField : IsField (sanitize_ticket_field value)
  unfolding sanitize_ticket_field spaced
  sanitize_ticket_field-IsField = record {
    no_tab =
        All-trim_space (λ c. c ≢ b'\t') spaced
          (Free-replace_byte_other b'\t' b'\r' b' ' (omega arith) _ (
            Free-replace_byte_other b'\t' b'\n' b' ' (omega arith) _
              (Free-replace_byte b'\t' b' ' (omega arith) value)));
    no_newline =
        All-trim_space (λ c. c ≢ b'\n') spaced
          (Free-replace_byte_other b'\n' b'\r' b' ' (omega arith) _
            (Free-replace_byte b'\n' b' ' (omega arith) _));
  }

  no_return : Free b'\r' (sanitize_ticket_field value)
  unfolding sanitize_ticket_field spaced
  no_return = All-trim_space (λ c. c ≢ b'\r') spaced (Free-replace_byte b'\r' b' ' (omega arith) _)

  -- A sanitized field is not changed by sanitizing it again.
  pub sanitize_ticket_field_idem :
      sanitize_ticket_field (sanitize_ticket_field value) ≡ sanitize_ticket_field value
  sanitize_ticket_field_idem =
      let f = sanitize_ticket_field-IsField in
      unfold sanitize_ticket_field in
      rw
        (
          replace_byte-Free b'\t' b' ' _ f.no_tab,
          replace_byte-Free b'\n' b' ' _ f.no_newline,
          replace_byte-Free b'\r' b' ' _ no_return,
        )
        (trim_space_idem _)

digits-Free : (b : ℕ) → b ≤ 44 → (s : Text) → All (λ c. (b'0' ≤ c) × (c ≤ b'9')) s → Free b s
digits-Free b h [] d = tt
digits-Free b h (c ∷ s) d = (omega arith, digits-Free b h s d.1)

format_int-Free : (b : ℕ) → b ≤ 44 → (z : ℤ) → Free b (format_int z)
unfolding format_int
format_int-Free b h (pos n) = digits-Free b h _ (format_nat-All n)
format_int-Free b h (negsuc n) = (omega arith, digits-Free b h _ (format_nat-All (suc n)))

pub format_int-IsField : (z : ℤ) → IsField (format_int z)
format_int-IsField z = record {
  no_tab = format_int-Free b'\t' (omega arith) z;
  no_newline = format_int-Free b'\n' (omega arith) z;
}

-- The ticket as its line shows it.
abbrev pub sanitize_ticket : Ticket → Ticket
sanitize_ticket t = record t {
  id = sanitize_ticket_field t.id;
  destination = sanitize_ticket_field t.destination;
  source_ip = sanitize_ticket_field t.source_ip;
  xuid = sanitize_ticket_field t.xuid;
  player_name = sanitize_ticket_field t.player_name;
  source_server = sanitize_ticket_field t.source_server;
}

column : {s : Text} (r : Text) → IsField s → Free b'\n' r → Free b'\n' (s ++ (b'\t' ∷ r))
column {s} r f h = All-append (λ c. c ≢ b'\n') s _ f.no_newline (omega arith, h)

module _ (t : Ticket) where
  -- The line's nine columns.
  pub split-ticket_line :
      split b'\t' (ticket_line t)
      ≡ sanitize_ticket_field t.id
        ∷ format_int t.port
        ∷ sanitize_ticket_field t.destination
        ∷ sanitize_ticket_field t.source_ip
        ∷ sanitize_ticket_field t.xuid
        ∷ sanitize_ticket_field t.player_name
        ∷ sanitize_ticket_field t.source_server
        ∷ format_int t.expires_at
        ∷ format_int t.created_at
        ∷ []
  unfolding ticket_line
  split-ticket_line =
      rw
        (
          split-append b'\t' _ _ (sanitize_ticket_field-IsField t.id).no_tab,
          split-append b'\t' _ _ (format_int-IsField t.port).no_tab,
          split-append b'\t' _ _ (sanitize_ticket_field-IsField t.destination).no_tab,
          split-append b'\t' _ _ (sanitize_ticket_field-IsField t.source_ip).no_tab,
          split-append b'\t' _ _ (sanitize_ticket_field-IsField t.xuid).no_tab,
          split-append b'\t' _ _ (sanitize_ticket_field-IsField t.player_name).no_tab,
          split-append b'\t' _ _ (sanitize_ticket_field-IsField t.source_server).no_tab,
          split-append b'\t' _ _ (format_int-IsField t.expires_at).no_tab,
          split-Free b'\t' _ (format_int-IsField t.created_at).no_tab,
        )
        refl

  -- A line of the file holds no newline.
  pub ticket_line-Free : Free b'\n' (ticket_line t)
  unfolding ticket_line
  ticket_line-Free = column _ (sanitize_ticket_field-IsField t.id) (
      column _ (format_int-IsField t.port) (
        column _ (sanitize_ticket_field-IsField t.destination) (
          column _ (sanitize_ticket_field-IsField t.source_ip) (
            column _ (sanitize_ticket_field-IsField t.xuid) (
              column _ (sanitize_ticket_field-IsField t.player_name) (
                column _ (sanitize_ticket_field-IsField t.source_server) (
                  column _ (format_int-IsField t.expires_at)
                    (format_int-IsField t.created_at).no_newline)))))))

-- Some byte is no space.
is_visible : Text → Bool
is_visible = any (λ c. not (is_space c))

is_visible-append : (s r : Text) → is_visible r ≡ true → is_visible (s ++ r) ≡ true
unfolding is_visible any
is_visible-append [] r h = h
is_visible-append (c ∷ s) r h = ground (arith, is_visible-append s r h)

trim_right-visible : (s : Text) → is_visible s ≡ true → trim_right s ≢ []
unfolding is_visible any trim_right
trim_right-visible [] h = cc
trim_right-visible (c ∷ s) h = ground (arith, trim_right-visible s)

trim_left-visible : (s : Text) → is_visible s ≡ true → is_visible (trim_left s) ≡ true
unfolding is_visible any trim_left
trim_left-visible [] h = h
trim_left-visible (c ∷ s) h = ground (arith, trim_left-visible s)

trim_space-visible : (s : Text) → is_visible s ≡ true → trim_space s ≢ []
unfolding trim_space
trim_space-visible s h = trim_right-visible (trim_left s) (trim_left-visible s h)

digits-visible :
    (s r : Text) → s ≢ [] → All (λ c. (b'0' ≤ c) × (c ≤ b'9')) s → is_visible (s ++ r) ≡ true
unfolding is_visible any is_space
digits-visible [] r h d = absurd (h refl)
digits-visible (c ∷ s) r h d = ground arith

format_int-visible : (z : ℤ) (r : Text) → is_visible (format_int z ++ r) ≡ true
unfolding format_int
format_int-visible (pos n) r =
    digits-visible (format_nat n) r (format_nat-ne-nil n) (format_nat-All n)
format_int-visible (negsuc n) r = unfold is_visible any is_space in refl

ticket_line-visible : (t : Ticket) → trim_space (ticket_line t) ≢ []
unfolding ticket_line
ticket_line-visible t = trim_space-visible _ (
    is_visible-append (sanitize_ticket_field t.id) _
      (is_visible-append (b'\t' ∷ []) _ (format_int-visible t.port _)))

-- The line would be taken for a comment.
abbrev pub is_comment : Text → Bool
is_comment s = has_prefix s (b'#' ∷ [])

is_comment-column : (s r : Text) → is_comment (s ++ (b'\t' ∷ r)) ≡ is_comment s
unfolding has_prefix
is_comment-column [] r = refl
is_comment-column (c ∷ s) r = refl

-- What a ticket's numbers must be to come back: integers of 64 bits.
pub record InRange (t : Ticket) : Type 0 where
  pub port : InInt64 t.port
  pub expires_at : InInt64 t.expires_at
  pub created_at : InInt64 t.created_at

pub parse_line-ticket_line :
    (now : ℕ) (t : Ticket)
    → InRange t
    → is_comment (sanitize_ticket_field t.id) ≡ false
    → parse_line now (ticket_line t)
      ≡ (if leb_ℤ t.expires_at (pos now) then none else some (sanitize_ticket t))
unfolding parse_line
parse_line-ticket_line now t r plain =
    let blank : (trim_space (ticket_line t) == []) ≡ false =
      ground (arith, ticket_line-visible t, text_beq_iff (trim_space (ticket_line t)) []) in
    let uncommented : is_comment (ticket_line t) ≡ false =
      unfold ticket_line in (is_comment-column _ _ ∙ plain) in
    rw
      (
        blank,
        uncommented,
        split-ticket_line t,
        parse_int-format_int t.port r.port,
        parse_int-format_int t.expires_at r.expires_at,
        parse_int-format_int t.created_at r.created_at,
      )
      refl
