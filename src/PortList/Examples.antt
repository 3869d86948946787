-- ===== src/PortList/Examples.antt =====
-- A test of the port list, and its theorem at a concrete list.
use ninj_os_proxie_edge_fabr.GoText.Decimal.{parse_int}
use ninj_os_proxie_edge_fabr.Prelude.{text_beq, ◌≡◌, refl, ◌&&◌, [], ◌∷◌, any}
use ninj_os_proxie_edge_fabr.Prelude.Int.{◌-ℤ◌, ◌+ℤ◌, pos}
use ninj_os_proxie_edge_fabr.GoText.{cut, is_space, trim_left, trim_right, trim_space, codes, split}
use ninj_os_proxie_edge_fabr.PortList.{is_seen, parse_port_list}
use ninj_os_proxie_edge_fabr.PortList.Listed.{is_port, names_port, parse_port_list-names}

lists :
    parse_port_list (codes "65534-70000, 12 -10,x, 11,0,-3")
    ≡ pos 10 ∷ pos 11 ∷ pos 12 ∷ pos 65534 ∷ pos 65535 ∷ []
unfolding parse_port_list split text_beq trim_space trim_right trim_left is_space cut parse_int ◌+ℤ◌
    ◌-ℤ◌
lists = refl

parse_port_list-names_example :
    is_seen (pos 11) (parse_port_list (codes "12-10,x"))
    ≡ (is_port (pos 11) && any (names_port (pos 11)) (split b',' (codes "12-10,x")))
parse_port_list-names_example = parse_port_list-names (codes "12-10,x") (pos 11)
