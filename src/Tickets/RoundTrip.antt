-- ===== src/Tickets/RoundTrip.antt =====
-- What `loadTransferTickets` reads back of a file that `writeTransferTickets` wrote.
use ninj_os_proxie_edge_fabr.Prelude.{
  ℕ, ◌≡◌, refl, Bool, false, not, none, some, List, [], ◌∷◌, map, arith, text_beq, All, select,
}
use ninj_os_proxie_edge_fabr.Prelude.Int.{pos, leb_ℤ}
use ninj_os_proxie_edge_fabr.GoText.{split, is_space, has_prefix, trim_space, trim_left, trim_right}
use ninj_os_proxie_edge_fabr.GoText.Lines.{split-append}
use ninj_os_proxie_edge_fabr.Tickets.{
  Ticket, sanitize_ticket_field, contents, parse_line, parse_lines, load_transfer_tickets, header,
  ticket_line, ticket_lines, ticket_file,
}
use ninj_os_proxie_edge_fabr.Tickets.Format.{
  sanitize_ticket, ticket_line-Free, is_comment, InRange, parse_line-ticket_line,
}

-- The ticket has not expired.
abbrev pub is_live : ℕ → Ticket → Bool
is_live now t = not (leb_ℤ t.expires_at (pos now))

-- A ticket that the file can hold: 64-bit numbers, and an id that does not start a comment.
pub record Storable (t : Ticket) : Type 0 where
  pub range : InRange t
  pub plain : is_comment (sanitize_ticket_field t.id) ≡ false

parse_line-header : (now : ℕ) → parse_line now header ≡ none
unfolding parse_line text_beq trim_space trim_left trim_right is_space has_prefix
parse_line-header now = refl

parse_line-nil : (now : ℕ) → parse_line now [] ≡ none
unfolding parse_line text_beq trim_space trim_left trim_right is_space has_prefix
parse_line-nil now = refl

module _ (now : ℕ) where
  parse_lines-ticket_lines :
      (ts : List Ticket)
      → All Storable ts
      → parse_lines now (split b'\n' (ticket_lines ts))
        ≡ map sanitize_ticket (select (is_live now) ts)
  unfolding parse_lines ticket_lines select
  parse_lines-ticket_lines [] h = unfold split in rw (parse_line-nil now)
  parse_lines-ticket_lines (t ∷ ts) h =
      rw
        (
          split-append b'\n' (ticket_line t) (ticket_lines ts) (ticket_line-Free t),
          parse_line-ticket_line now t h.0.range h.0.plain,
          parse_lines-ticket_lines ts h.1,
        )
        (ground arith)

  -- Loading a written list gives its live tickets, in order, with their fields sanitized: for tickets
  -- whose ids, when sanitized, do not begin with `#`, as a comment does, and whose ports and times fit
  -- 64 bits.
  pub load-ticket_file :
      (ts : List Ticket)
      → All Storable ts
      → load_transfer_tickets (contents (ticket_file ts)) now
        ≡ some (map sanitize_ticket (select (is_live now) ts))
  unfolding load_transfer_tickets ticket_file parse_lines
  load-ticket_file ts h =
      rw
        (
          split-append b'\n' header (ticket_lines ts) (omega arith),
          parse_line-header now,
          parse_lines-ticket_lines ts h,
        )
        refl
