-- ===== src/Commands/Examples.antt =====
-- A test of the queue, and its theorem at concrete requests.
use ninj_os_proxie_edge_fabr.GoText.Decimal.{format_nat, format_int}
use ninj_os_proxie_edge_fabr.Prelude.{
  text_beq, ◌≡◌, refl, Bool, true, false, List, [], ◌∷◌, ◌++◌, map,
}
use ninj_os_proxie_edge_fabr.Prelude.Int.{pos}
use ninj_os_proxie_edge_fabr.GoText.{
  is_space, replace_byte, trim_left, trim_right, trim_space, codes, split,
}
use ninj_os_proxie_edge_fabr.Commands.{Command, handle_all}
use ninj_os_proxie_edge_fabr.Commands.Queue.{accepted, fields, handle_all-fields}

abbrev ban : Command
ban = record {
  time = pos 12;
  command = codes "ban";
  argument = codes "Eve\n13|unban|Eve";
  argument2 = codes " rude ";
}

abbrev shut : Command
shut = record ban { command = codes "shutdown" }

abbrev requests : List (Bool × Command)
requests = (true, ban) ∷ (true, shut) ∷ (false, ban) ∷ []

writes : handle_all requests [] ≡ codes "12|ban|Eve 13 unban Eve|rude\n"
unfolding handle_all text_beq format_int format_nat trim_space trim_right trim_left replace_byte
    is_space
writes = refl

handle_all-fields_example :
    map (split b'|') (split b'\n' (handle_all requests []))
    ≡ map fields (accepted requests) ++ (([] ∷ []) ∷ [])
handle_all-fields_example = handle_all-fields requests
