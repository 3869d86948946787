-- ===== src/Config/Parsing.antt =====
-- What `parseINI` leaves (dashboard/config.go: parseINI).
use ninj_os_proxie_edge_fabr.Prelude.{
  ℕ, ◌≡◌, refl, inl, inr, Option, none, some, List, [], ◌∷◌, map, arith, if◌then◌else◌, Text, ◌==◌,
  subst, drop, leb, length, All, Bool-cases,
}
use ninj_os_proxie_edge_fabr.GoText.{
  codes, split, cut, is_space, lower_byte, to_lower, trim_space, trim_left, trim_right, drop_last,
}
use ninj_os_proxie_edge_fabr.GoText.Lines.{trim_space_idem}
use ninj_os_proxie_edge_fabr.GoMap.{has_key, insert, value_or, Distinct}
use ninj_os_proxie_edge_fabr.GoMap.Keys.{All-insert, Distinct-insert, value_or-All}
use ninj_os_proxie_edge_fabr.Config.{
  Document, Reading, failed, reading, set_value, add_section, read_line, read_lines, is_comment,
  is_header, parse_ini, document_of, open_section, assign,
}
use ninj_os_proxie_edge_fabr.Config.Secrets.{section_name}
use ninj_os_proxie_edge_fabr.Config.Secrets.Restored.{DistinctDocument}
use ninj_os_proxie_edge_fabr.Config.Secrets.Unchanged.{IsRead}

is_space-lower_byte : (c : ℕ) → is_space (lower_byte c) ≡ is_space c
unfolding is_space lower_byte
is_space-lower_byte c = ground arith

lower_byte_idem : (c : ℕ) → lower_byte (lower_byte c) ≡ lower_byte c
unfolding lower_byte
lower_byte_idem c = ground arith

trim_left-to_lower : (s : Text) → trim_left (to_lower s) ≡ to_lower (trim_left s)
unfolding trim_left to_lower
trim_left-to_lower [] = refl
trim_left-to_lower (c ∷ s) = ground (arith, is_space-lower_byte c, trim_left-to_lower s)

trim_right-to_lower : (s : Text) → trim_right (to_lower s) ≡ to_lower (trim_right s)
unfolding trim_right to_lower
trim_right-to_lower [] = refl
trim_right-to_lower (c ∷ s) = rw (trim_right-to_lower s) (go (trim_right s))
  where
    go :
        (t : Text)
        → elim (map lower_byte t) [
          | [] ↦ if is_space (lower_byte c) then [] else lower_byte c ∷ []
          | d ∷ u ↦ lower_byte c ∷ d ∷ u
        ]
          ≡ map lower_byte (elim t [ [] ↦ if is_space c then [] else c ∷ [] | d ∷ u ↦ c ∷ d ∷ u ])
    go [] = ground (arith, is_space-lower_byte c)
    go (d ∷ u) = refl

to_lower_idem : (s : Text) → to_lower (to_lower s) ≡ to_lower s
unfolding to_lower
to_lower_idem [] = refl
to_lower_idem (c ∷ s) = rw (lower_byte_idem c, to_lower_idem s) refl

trim_space-to_lower : (s : Text) → trim_space (to_lower s) ≡ to_lower (trim_space s)
unfolding trim_space
trim_space-to_lower s = rw (trim_left-to_lower s, trim_right-to_lower (trim_left s)) refl

pub section_name_idem : (s : Text) → section_name (section_name s) ≡ section_name s
section_name_idem s =
    rw (trim_space-to_lower (trim_space s), trim_space_idem s, to_lower_idem (trim_space s)) refl

abbrev HasNames : Document → Type 0
HasNames doc = All (λ entry. section_name entry.0 ≡ entry.0) doc

set_value-DistinctDocument :
    (section key v : Text) (doc : Document)
    → DistinctDocument doc
    → DistinctDocument (set_value section key v doc)
unfolding set_value
set_value-DistinctDocument section key v doc h = (
  Distinct-insert section (insert key v (value_or [] section doc)) doc h.0,
  All-insert (λ e. Distinct e.1) section (insert key v (value_or [] section doc)) doc h.1
      (Distinct-insert key v (value_or [] section doc)
        (value_or-All (λ vs. Distinct vs) [] section doc tt h.1)),
)

set_value-IsRead :
    (section key v : Text) (doc : Document)
    → section_name section ≡ section
    → IsRead doc
    → IsRead (set_value section key v doc)
set_value-IsRead section key v doc n h = record {
  distinct = set_value-DistinctDocument section key v doc h.distinct;
  names =
      unfold set_value in
      All-insert (λ e. section_name e.0 ≡ e.0) section (insert key v (value_or [] section doc)) doc
        h.names n;
}

add_section-IsRead :
    (section : Text) (doc : Document)
    → section_name section ≡ section
    → IsRead doc
    → IsRead (add_section section doc)
unfolding add_section
add_section-IsRead section doc n h = elim (Bool-cases (has_key section doc)) [
  | inl y ↦ rw y h
  | inr new ↦ rw new (record {
    distinct = (
      Distinct-insert section [] doc h.distinct.0,
      All-insert (λ e. Distinct e.1) section [] doc h.distinct.1 tt,
    );
    names = All-insert (λ e. section_name e.0 ≡ e.0) section [] doc h.names n;
  })
]

IsGood : Reading → Type 0
IsGood (failed e) = Unit
IsGood (reading doc section) = IsRead doc × (section_name section ≡ section)

open_section-IsGood :
    (name : Text) (doc : Document)
    → section_name name ≡ name
    → IsRead doc
    → IsGood (open_section name doc)
unfolding open_section IsGood
open_section-IsGood name doc n h = elim (Bool-cases (name == [])) [
  | inl y ↦ rw y tt
  | inr no_name ↦ rw no_name (add_section-IsRead name doc n h, n)
]

assign-IsGood :
    (parts : Text × Option Text) (doc : Document) (section : Text)
    → section_name section ≡ section
    → IsRead doc
    → IsGood (assign parts doc section)
unfolding assign IsGood
assign-IsGood (key, none) doc section n h = tt
assign-IsGood (key, some v) doc section n h = elim (Bool-cases (section_name key == [])) [
  | inl y ↦ rw y tt
  | inr named ↦ rw named (set_value-IsRead section (section_name key) (trim_space v) doc n h, n)
]

read_line-IsGood :
    (line : Text) (doc : Document) (section : Text)
    → section_name section ≡ section
    → IsRead doc
    → IsGood (read_line line doc section)
unfolding read_line IsGood
read_line-IsGood line doc section n h =
    let raw = trim_space line in
    let name = drop_last (drop 1 raw) in
    elim (Bool-cases (leb 65536 (length line))) [
      | inl y ↦ rw y tt
      | inr fits ↦ elim (Bool-cases (is_comment raw)) [
        | inl y ↦ rw (fits, y) (h, n)
        | inr said ↦ elim (Bool-cases (is_header raw)) [
          | inl y ↦
              rw (fits, said, y)
                (open_section-IsGood (section_name name) doc (section_name_idem name) h)
          | inr plain ↦ rw (fits, said, plain) (assign-IsGood (cut b'=' raw) doc section n h)
        ]
      ]
    ]

read_lines-IsGood : (lines : List Text) (r : Reading) → IsGood r → IsGood (read_lines lines r)
unfolding read_lines IsGood
read_lines-IsGood [] r h = h
read_lines-IsGood (line ∷ lines) (failed e) h = tt
read_lines-IsGood (line ∷ lines) (reading doc section) h =
    read_lines-IsGood lines (read_line line doc section) (read_line-IsGood line doc section h.1 h.0)

document_of-IsRead :
    (r : Reading) (doc : Document) → IsGood r → document_of r ≡ some doc → IsRead doc
unfolding document_of IsGood
document_of-IsRead (failed e) doc h s = absurd (cc s)
document_of-IsRead (reading d section) doc h s = let same : d ≡ doc = cc s in subst IsRead same h.0

edge_name : section_name (codes "edge") ≡ codes "edge"
unfolding to_lower lower_byte trim_space trim_left trim_right is_space
edge_name = refl

-- A document that `parseINI` returns has each section once, under a name in lower case without
-- space around it, and each key of a section once.
pub parse_ini-IsRead : (content : Text) (doc : Document) → parse_ini content ≡ some doc → IsRead doc
unfolding parse_ini
parse_ini-IsRead content doc h =
    document_of-IsRead
      (read_lines (split b'\n' content) (reading ((codes "edge", []) ∷ []) (codes "edge"))) doc
      (read_lines-IsGood (split b'\n' content) (reading ((codes "edge", []) ∷ []) (codes "edge")) (
        unfold IsGood in
        (record { distinct = ((tt, tt), (tt, tt)); names = (edge_name, tt) }, edge_name)))
      h
