-- ===== src/PortList.antt =====
-- The list of public ports in the configuration (dashboard/backends.go: parsePortList).
pub mod Listed
mod Examples
use ninj_os_proxie_edge_fabr.Prelude.{
  ℕ, zero, suc, Bool, true, false, not, ◌&&◌, ◌||◌, Option, none, some, List, [], ◌∷◌,
  if◌then◌else◌, Text, ◌==◌, any,
}
use ninj_os_proxie_edge_fabr.Prelude.Int.{ℤ, pos, pos_part, ◌+ℤ◌, ◌-ℤ◌, ltb_ℤ, leb_ℤ, beq_ℤ}
use ninj_os_proxie_edge_fabr.GoText.{trim_space, split, cut}
use ninj_os_proxie_edge_fabr.GoText.Decimal.{parse_int}

unfoldable pub is_seen : ℤ → List ℤ → Bool
is_seen p [] = false
is_seen p (q ∷ qs) = beq_ℤ p q || is_seen p qs

-- `seen[port] = true`
unfoldable pub mark : ℤ → List ℤ → List ℤ
unfolding is_seen
mark p seen = if is_seen p seen then seen else p ∷ seen

-- The rounds of the loop over a range, from its start up to its end or the last port.
unfoldable pub rounds : ℤ → ℤ → ℕ
rounds start end = pos_part ((if leb_ℤ end (pos 65535) then end else pos 65535) -ℤ start +ℤ pos 1)

unfoldable pub mark_range : ℕ → ℤ → List ℤ → List ℤ
unfolding mark
mark_range zero port seen = seen
mark_range (suc n) port seen =
    mark_range n (port +ℤ pos 1) (if ltb_ℤ (pos 0) port then mark port seen else seen)

unfoldable pub mark_bounds : Option ℤ → Option ℤ → List ℤ → List ℤ
unfolding mark_range rounds
mark_bounds none end seen = seen
mark_bounds (some start) none seen = seen
mark_bounds (some start) (some end) seen =
    let low = if ltb_ℤ end start then end else start in
    let high = if ltb_ℤ end start then start else end in mark_range (rounds low high) low seen

unfoldable pub mark_port : Option ℤ → List ℤ → List ℤ
unfolding mark
mark_port none seen = seen
mark_port (some p) seen = if ltb_ℤ (pos 0) p && leb_ℤ p (pos 65535) then mark p seen else seen

unfoldable pub mark_parts : Text → Text × Option Text → List ℤ → List ℤ
unfolding mark_bounds mark_port
mark_parts item (start, some end) seen =
    mark_bounds (parse_int (trim_space start)) (parse_int (trim_space end)) seen
mark_parts item (start, none) seen = mark_port (parse_int item) seen

-- One item of the list. An empty one is no number.
unfoldable pub mark_item : Text → List ℤ → List ℤ
unfolding mark_parts
mark_item raw seen =
    let item = trim_space raw in if item == [] then seen else mark_parts item (cut b'-' item) seen

unfoldable pub mark_items : List Text → List ℤ → List ℤ
unfolding mark_item
mark_items [] seen = seen
mark_items (item ∷ items) seen = mark_items items (mark_item item seen)

unfoldable pub insert_port : ℤ → List ℤ → List ℤ
insert_port p [] = p ∷ []
insert_port p (q ∷ qs) = let rest = insert_port p qs in if ltb_ℤ q p then q ∷ rest else p ∷ q ∷ qs

-- `sort.Ints`
unfoldable pub sort_ports : List ℤ → List ℤ
unfolding insert_port
sort_ports [] = []
sort_ports (p ∷ ps) = insert_port p (sort_ports ps)

-- `parsePortList`
unfoldable pub parse_port_list : Text → List ℤ
unfolding mark_items sort_ports
parse_port_list raw = sort_ports (mark_items (split b',' raw) [])
