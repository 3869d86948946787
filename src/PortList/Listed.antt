-- ===== src/PortList/Listed.antt =====
-- Which ports the list has (dashboard/backends.go: parsePortList).
use ninj_os_proxie_edge_fabr.Prelude.{
  ℕ, zero, suc, ◌+◌, ◌-◌, ◌≡◌, refl, ap, ◌∙◌, Bool, true, false, not, ◌&&◌, ◌||◌, Option, none,
  some, List, [], ◌∷◌, arith, if◌then◌else◌, Text, ◌==◌, any, ltb, leb, Bool-cases, inl, inr,
}
use ninj_os_proxie_edge_fabr.Prelude.Int.{
  ℤ, pos, negsuc, pos_part, neg_part, ◌+ℤ◌, ◌-ℤ◌, ltb_ℤ, leb_ℤ, beq_ℤ, beq_ℤ→eq,
}
use ninj_os_proxie_edge_fabr.GoText.{trim_space, split, cut}
use ninj_os_proxie_edge_fabr.GoText.Decimal.{parse_int}
use ninj_os_proxie_edge_fabr.PortList.{
  is_seen, mark, rounds, mark_range, mark_bounds, mark_port, mark_parts, mark_item, mark_items,
  insert_port, sort_ports, parse_port_list,
}

is_seen-mark : (p q : ℤ) (seen : List ℤ) → is_seen p (mark q seen) ≡ (beq_ℤ p q || is_seen p seen)
unfolding mark is_seen
is_seen-mark p q seen = ground (arith, beq_ℤ→eq p q)

-- The ports that the loop over a range meets and takes.
in_range : ℕ → ℤ → ℤ → Bool
in_range n port p = ltb_ℤ (pos 0) p && leb_ℤ port p && ltb_ℤ p (port +ℤ pos n)

below :
    (b n : ℕ) (port : ℤ)
    → ltb_ℤ (pos b) (port +ℤ pos n) ≡ ltb (b + neg_part port) (n + pos_part port)
unfolding ◌+ℤ◌
below b n (pos a) = ground arith
below b n (negsuc a) = ground arith

next_pos : (a : ℕ) → pos a +ℤ pos 1 ≡ pos (suc a)
unfolding ◌+ℤ◌
next_pos a = ground arith

next_last : negsuc 0 +ℤ pos 1 ≡ pos 0
unfolding ◌+ℤ◌
next_last = refl

next_negsuc : (a : ℕ) → negsuc (suc a) +ℤ pos 1 ≡ negsuc a
unfolding ◌+ℤ◌
next_negsuc a = ground arith

in_range-pos :
    (n b : ℕ) (port : ℤ)
    → in_range n port (pos b) ≡ (
        ltb 0 b
        && leb (pos_part port) (b + neg_part port)
        && ltb (b + neg_part port) (n + pos_part port))
unfolding in_range
in_range-pos n b port = rw (below b n port) (ground arith)

in_range-zero : (port p : ℤ) → in_range 0 port p ≡ false
in_range-zero port (negsuc b) = unfold in_range in ground arith
in_range-zero port (pos b) = in_range-pos 0 b port ∙ ground arith

in_range-suc :
    (n : ℕ) (port p : ℤ)
    → in_range (suc n) port p ≡ (ltb_ℤ (pos 0) port && beq_ℤ p port || in_range n (port +ℤ pos 1) p)
in_range-suc n port (negsuc b) = unfold in_range in ground arith
in_range-suc n (pos a) (pos b) =
    rw (next_pos a, in_range-pos (suc n) b (pos a), in_range-pos n b (pos (suc a))) (ground arith)
in_range-suc n (negsuc zero) (pos b) =
    rw (next_last, in_range-pos (suc n) b (negsuc 0), in_range-pos n b (pos 0)) (ground arith)
in_range-suc n (negsuc (suc a)) (pos b) =
    rw (next_negsuc a, in_range-pos (suc n) b (negsuc (suc a)), in_range-pos n b (negsuc a))
      (ground arith)

is_seen-mark_range :
    (n : ℕ) (port p : ℤ) (seen : List ℤ)
    → is_seen p (mark_range n port seen) ≡ (is_seen p seen || in_range n port p)
unfolding mark_range
is_seen-mark_range zero port p seen = rw (in_range-zero port p) (ground arith)
is_seen-mark_range (suc n) port p seen = rw (in_range-suc n port p) (
    ground (
      arith,
      is_seen-mark p port seen,
      is_seen-mark_range n (port +ℤ pos 1) p seen,
      is_seen-mark_range n (port +ℤ pos 1) p (mark port seen),
    ))

is_seen-insert_port :
    (p q : ℤ) (ps : List ℤ) → is_seen p (insert_port q ps) ≡ (beq_ℤ p q || is_seen p ps)
unfolding insert_port is_seen
is_seen-insert_port p q [] = refl
is_seen-insert_port p q (r ∷ ps) = ground (arith, is_seen-insert_port p q ps)

is_seen-sort_ports : (p : ℤ) (ps : List ℤ) → is_seen p (sort_ports ps) ≡ is_seen p ps
unfolding sort_ports is_seen
is_seen-sort_ports p [] = refl
is_seen-sort_ports p (q ∷ ps) =
    is_seen-insert_port p q (sort_ports ps) ∙ ap (λ b. beq_ℤ p q || b) (is_seen-sort_ports p ps)

count :
    (top low : ℤ)
    → pos_part (top -ℤ low +ℤ pos 1)
      ≡ (pos_part top + neg_part low + 1) - (neg_part top + pos_part low)
unfolding ◌+ℤ◌ ◌-ℤ◌
count (pos t) (pos l) = ground arith
count (pos t) (negsuc l) = ground arith
count (negsuc t) (pos l) = ground arith
count (negsuc t) (negsuc l) = ground arith

-- The loop takes the positive ports from its start to its end.
in_range-count :
    (top low p : ℤ)
    → in_range (pos_part (top -ℤ low +ℤ pos 1)) low p
      ≡ (ltb_ℤ (pos 0) p && leb_ℤ low p && leb_ℤ p top)
in_range-count top low (negsuc b) = unfold in_range in ground arith
in_range-count (pos t) (pos l) (pos b) =
    rw (in_range-pos (pos_part (pos t -ℤ pos l +ℤ pos 1)) b (pos l), count (pos t) (pos l))
      (ground arith)
in_range-count (pos t) (negsuc l) (pos b) =
    rw (in_range-pos (pos_part (pos t -ℤ negsuc l +ℤ pos 1)) b (negsuc l), count (pos t) (negsuc l))
      (ground arith)
in_range-count (negsuc t) (pos l) (pos b) =
    rw (in_range-pos (pos_part (negsuc t -ℤ pos l +ℤ pos 1)) b (pos l), count (negsuc t) (pos l))
      (ground arith)
in_range-count (negsuc t) (negsuc l) (pos b) =
    rw
      (
        in_range-pos (pos_part (negsuc t -ℤ negsuc l +ℤ pos 1)) b (negsuc l),
        count (negsuc t) (negsuc l),
      )
      (ground arith)

unfoldable pub is_port : ℤ → Bool
is_port p = ltb_ℤ (pos 0) p && leb_ℤ p (pos 65535)

-- Does an item of the list name a port?
unfoldable pub is_between : ℤ → Option ℤ → Option ℤ → Bool
is_between p none end = false
is_between p (some start) none = false
is_between p (some start) (some end) = leb_ℤ start p && leb_ℤ p end || leb_ℤ end p && leb_ℤ p start

unfoldable pub is_number : ℤ → Option ℤ → Bool
is_number p none = false
is_number p (some q) = beq_ℤ p q

last_port :
    (p low high : ℤ)
    → (ltb_ℤ (pos 0) p
        && leb_ℤ low p
        && leb_ℤ p (if leb_ℤ high (pos 65535) then high else pos 65535))
      ≡ (is_port p && (leb_ℤ low p && leb_ℤ p high))
unfolding is_port
last_port p low high = elim (Bool-cases (leb_ℤ high (pos 65535))) [
  | inl y ↦ rw y (ground (arith, y))
  | inr n ↦ rw n (ground (arith, n))
]

is_seen-range :
    (p low high : ℤ) (seen : List ℤ)
    → is_seen p (mark_range (rounds low high) low seen)
      ≡ (is_seen p seen || is_port p && (leb_ℤ low p && leb_ℤ p high))
unfolding rounds
is_seen-range p low high seen =
    is_seen-mark_range (rounds low high) low p seen
    ∙ ap (λ b. is_seen p seen || b)
        (in_range-count (if leb_ℤ high (pos 65535) then high else pos 65535) low p
          ∙ last_port p low high)

between-ordered :
    (p low high : ℤ)
    → ltb_ℤ high low ≡ false
    → (leb_ℤ low p && leb_ℤ p high) ≡ (leb_ℤ low p && leb_ℤ p high || leb_ℤ high p && leb_ℤ p low)
between-ordered p low high h = ground (arith, h)

between-swapped :
    (p low high : ℤ)
    → ltb_ℤ high low ≡ true
    → (leb_ℤ high p && leb_ℤ p low) ≡ (leb_ℤ low p && leb_ℤ p high || leb_ℤ high p && leb_ℤ p low)
between-swapped p low high h = ground (arith, h)

is_seen-mark_bounds :
    (p : ℤ) (start end : Option ℤ) (seen : List ℤ)
    → is_seen p (mark_bounds start end seen)
      ≡ (is_seen p seen || is_port p && is_between p start end)
unfolding mark_bounds is_between is_port
is_seen-mark_bounds p none end seen = ground arith
is_seen-mark_bounds p (some start) none seen = ground arith
is_seen-mark_bounds p (some start) (some end) seen = elim (Bool-cases (ltb_ℤ end start)) [
  | inl y ↦ rw y (
      is_seen-range p end start seen
      ∙ ap (λ b. is_seen p seen || is_port p && b) (between-swapped p start end y))
  | inr n ↦ rw n (
      is_seen-range p start end seen
      ∙ ap (λ b. is_seen p seen || is_port p && b) (between-ordered p start end n))
]

is_seen-mark_port :
    (p : ℤ) (q : Option ℤ) (seen : List ℤ)
    → is_seen p (mark_port q seen) ≡ (is_seen p seen || is_port p && is_number p q)
unfolding mark_port is_number is_port
is_seen-mark_port p none seen = ground arith
is_seen-mark_port p (some q) seen = ground (arith, beq_ℤ→eq p q, is_seen-mark p q seen)

unfoldable pub names_parts : ℤ → Text → Text × Option Text → Bool
unfolding is_between is_number
names_parts p item (start, some end) =
    is_between p (parse_int (trim_space start)) (parse_int (trim_space end))
names_parts p item (start, none) = is_number p (parse_int item)

-- An item names a port: it is that number, or a range that the number lies in, in either order.
unfoldable pub names_port : ℤ → Text → Bool
unfolding names_parts
names_port p raw =
    let item = trim_space raw in not (item == []) && names_parts p item (cut b'-' item)

is_seen-mark_parts :
    (p : ℤ) (item : Text) (parts : Text × Option Text) (seen : List ℤ)
    → is_seen p (mark_parts item parts seen)
      ≡ (is_seen p seen || is_port p && names_parts p item parts)
unfolding mark_parts names_parts
is_seen-mark_parts p item (start, some end) seen =
    is_seen-mark_bounds p (parse_int (trim_space start)) (parse_int (trim_space end)) seen
is_seen-mark_parts p item (start, none) seen = is_seen-mark_port p (parse_int item) seen

is_seen-mark_item :
    (p : ℤ) (raw : Text) (seen : List ℤ)
    → is_seen p (mark_item raw seen) ≡ (is_seen p seen || is_port p && names_port p raw)
unfolding mark_item names_port
is_seen-mark_item p raw seen =
    ground (arith, is_seen-mark_parts p (trim_space raw) (cut b'-' (trim_space raw)) seen)

is_seen-mark_items :
    (p : ℤ) (items : List Text) (seen : List ℤ)
    → is_seen p (mark_items items seen) ≡ (is_seen p seen || is_port p && any (names_port p) items)
unfolding mark_items any
is_seen-mark_items p [] seen = ground arith
is_seen-mark_items p (item ∷ items) seen =
    is_seen-mark_items p items (mark_item item seen)
    ∙ ap (λ b. b || is_port p && any (names_port p) items) (is_seen-mark_item p item seen)
    ∙ ground arith

-- The list has exactly the ports from 1 to 65535 that one of the items between the commas names, alone
-- or in a range; what is no number names none.
pub parse_port_list-names :
    (raw : Text) (p : ℤ)
    → is_seen p (parse_port_list raw) ≡ (is_port p && any (names_port p) (split b',' raw))
unfolding parse_port_list
parse_port_list-names raw p =
    is_seen-sort_ports p (mark_items (split b',' raw) [])
    ∙ is_seen-mark_items p (split b',' raw) []
    ∙ (unfold is_seen in ground arith)
