-- ===== src/Tickets.antt =====
-- Transfer tickets: the file that holds them and its format (dashboard/main.go: transferTicket,
-- sanitizeTicketField, loadTransferTickets, writeTransferTickets). A ticket lends a public port to
-- one player for some seconds.
pub mod Format
pub mod RoundTrip
pub mod Create
pub mod Ports
pub mod Outcomes
pub mod History
pub mod Held
pub mod Lending
pub mod Static
mod Examples
use ninj_os_proxie_edge_fabr.Prelude.{
  ℕ, Bool, true, false, ◌||◌, Option, none, some, List, [], ◌∷◌, ◌++◌, if◌then◌else◌, Text, ◌==◌,
}
use ninj_os_proxie_edge_fabr.Prelude.Int.{ℤ, pos, leb_ℤ}
use ninj_os_proxie_edge_fabr.GoText.{codes, trim_space, replace_byte, has_prefix, split}
use ninj_os_proxie_edge_fabr.GoText.Decimal.{parse_int, format_int}

pub record Ticket : Type 0 where
  pub id : Text
  pub port : ℤ
  pub destination : Text
  pub source_ip : Text
  pub xuid : Text
  pub player_name : Text
  pub source_server : Text
  pub expires_at : ℤ
  pub created_at : ℤ

-- `sanitizeTicketField`
unfoldable pub sanitize_ticket_field : Text → Text
sanitize_ticket_field value =
    trim_space (replace_byte b'\r' b' ' (replace_byte b'\n' b' ' (replace_byte b'\t' b' ' value)))

-- What reading a file gives.
pub data FileRead : Type 0 where
  missing unreadable : FileRead
  contents : Text → FileRead

with_numbers : Ticket → ℕ → Option ℤ → Option ℤ → Option ℤ → Option Ticket
with_numbers t now (some port) (some expires) (some created) =
    if leb_ℤ expires (pos now)
    then none
    else some (record t { port = port; expires_at = expires; created_at = created })
with_numbers t now _ _ _ = none

-- The nine fields of a line; further ones are ignored.
parse_fields : ℕ → List Text → Option Ticket
unfolding with_numbers
parse_fields now (id ∷ port ∷ dest ∷ ip ∷ xuid ∷ player ∷ source ∷ expires ∷ created ∷ rest) =
    with_numbers
      (record {
        id = id;
        port = pos 0;
        destination = dest;
        source_ip = ip;
        xuid = xuid;
        player_name = player;
        source_server = source;
        expires_at = pos 0;
        created_at = pos 0;
      })
      now (parse_int port) (parse_int expires) (parse_int created)
parse_fields now _ = none

-- One round of the loop of `loadTransferTickets`; `none` is its `continue`.
unfoldable pub parse_line : ℕ → Text → Option Ticket
unfolding parse_fields
parse_line now line =
    if trim_space line == [] || has_prefix line (b'#' ∷ [])
    then none
    else parse_fields now (split b'\t' line)

abbrev pub keep : Option Ticket → List Ticket → List Ticket
keep none ts = ts
keep (some t) ts = t ∷ ts

unfoldable pub parse_lines : ℕ → List Text → List Ticket
parse_lines now [] = []
parse_lines now (line ∷ lines) = keep (parse_line now line) (parse_lines now lines)

-- `loadTransferTickets`, with what reading the file gives and the clock.
unfoldable pub load_transfer_tickets : FileRead → ℕ → Option (List Ticket)
load_transfer_tickets unreadable now = none
load_transfer_tickets missing now = some (parse_lines now (split b'\n' []))
load_transfer_tickets (contents bytes) now = some (parse_lines now (split b'\n' bytes))

-- The comment line; the source's `\\t` is a backslash and a `t`.
abbrev pub header : Text
header =
    codes "# ticketId"
    ++ (b'\\' ∷ codes "tport")
    ++ (b'\\' ∷ codes "tdestination")
    ++ (b'\\' ∷ codes "tsourceIp")
    ++ (b'\\' ∷ codes "txuid")
    ++ (b'\\' ∷ codes "tplayer")
    ++ (b'\\' ∷ codes "tsourceServer")
    ++ (b'\\' ∷ codes "texpiresAt")
    ++ (b'\\' ∷ codes "tcreatedAt")

-- A line of the file, without its newline.
unfoldable pub ticket_line : Ticket → Text
ticket_line t =
    sanitize_ticket_field t.id
    ++ (b'\t'
        ∷ (format_int t.port
            ++ (b'\t'
                ∷ (sanitize_ticket_field t.destination
                    ++ (b'\t'
                        ∷ (sanitize_ticket_field t.source_ip
                            ++ (b'\t'
                                ∷ (sanitize_ticket_field t.xuid
                                    ++ (b'\t'
                                        ∷ (sanitize_ticket_field t.player_name
                                            ++ (b'\t'
                                                ∷ (sanitize_ticket_field t.source_server
                                                    ++ (b'\t'
                                                        ∷ (format_int t.expires_at
                                                            ++ (b'\t'
                                                            ∷ format_int t.created_at)))))))))))))))

unfoldable pub ticket_lines : List Ticket → Text
ticket_lines [] = []
ticket_lines (t ∷ ts) = ticket_line t ++ (b'\n' ∷ ticket_lines ts)

-- What `writeTransferTickets` puts into the file.
unfoldable pub ticket_file : List Ticket → Text
ticket_file ts = header ++ (b'\n' ∷ ticket_lines ts)

-- `writeTransferTickets`: the new file, or an error when writing or renaming fails, which leaves
-- the file as it was.
unfoldable pub write_transfer_tickets : Bool → List Ticket → Option FileRead
write_transfer_tickets false ts = none
write_transfer_tickets true ts = some (contents (ticket_file ts))
