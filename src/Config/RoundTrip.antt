-- ===== src/Config/RoundTrip.antt =====
-- The text of a document is read back as the document (dashboard/config.go: renderUnifiedConfig, parseINI).
use ninj_os_proxie_edge_fabr.Prelude.{
  ◌≡◌, refl, ap, ◌∙◌, inl, inr, Bool, ◌&&◌, ◌||◌, Option, none, some, List, [], ◌∷◌, ◌++◌, arith,
  if◌then◌else◌, Text, ◌==◌, text_beq_iff, text_beq, any, select, Option-cases,
}
use ninj_os_proxie_edge_fabr.GoText.{trim_space, trim_left, trim_right}
use ninj_os_proxie_edge_fabr.GoText.Sort.{sort_strings, insert_sorted}
use ninj_os_proxie_edge_fabr.GoMap.{lookup, has_key}
use ninj_os_proxie_edge_fabr.Config.{
  Document, reading, set_value, add_section, read_line, read_lines,
}
use ninj_os_proxie_edge_fabr.Config.Secrets.Restored.{find, find-set_value, or_other}
use ninj_os_proxie_edge_fabr.Config.Render.{
  among, keys_of, ordered_keys, value_lines, with_section, section_lines,
}
use ninj_os_proxie_edge_fabr.Config.Written.{
  IsWritable, IsName, header_line, read_line-key, read_line-header, read_lines-append,
}

unfoldable pub put_key : Text → Text → Option Text → Document → Document
put_key section key none doc = doc
put_key section key (some v) doc = set_value section key v doc

-- What reading the lines of a section's keys leaves.
unfoldable pub set_keys : List Text → Text → List (Text × Text) → Document → Document
set_keys [] section values doc = doc
set_keys (key ∷ keys) section values doc =
    set_keys keys section values (put_key section key (lookup key values) doc)

abbrev Writable : List (Text × Text) → Type 0
Writable values = (key v : Text) → lookup key values ≡ some v → IsWritable key v

read-value_lines :
    (keys : List Text) (section : Text) (values : List (Text × Text)) (doc : Document)
    → Writable values
    → read_lines (value_lines keys values) (reading doc section)
      ≡ reading (set_keys keys section values doc) section
unfolding value_lines set_keys put_key read_lines
read-value_lines [] section values doc w = refl
read-value_lines (key ∷ keys) section values doc w = elim (Option-cases (lookup key values)) [
  | inl e ↦ rw e (read-value_lines keys section values doc w)
  | inr (v, e) ↦ rw e (
      ap (read_lines (value_lines keys values)) (read_line-key key v doc section (w key v e))
      ∙ read-value_lines keys section values (set_value section key v doc) w)
]

find-put_key :
    (s k section key : Text) (v : Option Text) (doc : Document)
    → find s k (put_key section key v doc)
      ≡ (if section == s && key == k then or_other v (find s k doc) else find s k doc)
unfolding put_key
find-put_key s k section key none doc = ground arith
find-put_key s k section key (some v) doc = find-set_value s k section key v doc ∙ ground arith

pub find-set_keys :
    (s k : Text) (keys : List Text) (section : Text) (values : List (Text × Text)) (doc : Document)
    → find s k (set_keys keys section values doc) ≡ (
        if section == s && among keys k
        then or_other (lookup k values) (find s k doc)
        else find s k doc)
unfolding set_keys any
find-set_keys s k [] section values doc = ground arith
find-set_keys s k (key ∷ keys) section values doc = ground (
  arith,
  text_beq_iff key k,
  find-put_key s k section key (lookup key values) doc,
  find-set_keys s k keys section values (put_key section key (lookup key values) doc),
)

unfoldable pub put_section : Text → Option (List (Text × Text)) → Document → Document
put_section section none doc = doc
put_section section (some values) doc =
    set_keys (ordered_keys section values) section values (add_section section doc)

-- What reading the lines of sections leaves.
unfoldable pub set_sections : List Text → Document → Document → Document
set_sections [] doc target = target
set_sections (section ∷ sections) doc target =
    set_sections sections doc (put_section section (lookup section doc) target)

unfoldable pub last_section : List Text → Document → Text → Text
last_section [] doc last = last
last_section (section ∷ sections) doc last =
    last_section sections doc (elim (lookup section doc) [ none ↦ last | some _ ↦ section ])

-- A document whose lines are read as they were written.
abbrev pub WritableDocument : Document → Type 0
WritableDocument doc =
    (section : Text) (values : List (Text × Text))
    → lookup section doc ≡ some values
    → IsName section × ((key v : Text) → lookup key values ≡ some v → IsWritable key v)

pub read-blank : (doc : Document) (section : Text) → read_line [] doc section ≡ reading doc section
unfolding read_line trim_space trim_left trim_right text_beq
read-blank doc section = refl

read-with_section :
    (section : Text) (values : List (Text × Text)) (rest : List Text) (target : Document)
    (last : Text)
    → IsName section
    → Writable values
    → read_lines (with_section section (some values) rest) (reading target last)
      ≡ read_lines rest (reading (put_section section (some values) target) section)
unfolding with_section put_section read_lines header_line
read-with_section section values rest target last n w =
    let added = add_section section target in
    let lines = value_lines (ordered_keys section values) values in
    (ap (read_lines (lines ++ ([] ∷ rest))) (read_line-header section target last n))
    ∙ read_lines-append lines ([] ∷ rest) (reading added section)
    ∙ ap (read_lines ([] ∷ rest))
        (read-value_lines (ordered_keys section values) section values added w)
    ∙ (ap (read_lines rest)
        (read-blank (set_keys (ordered_keys section values) section values added) section))

pub read-section_lines :
    (sections : List Text) (doc target : Document) (last : Text)
    → WritableDocument doc
    → read_lines (section_lines sections doc) (reading target last)
      ≡ reading (set_sections sections doc target) (last_section sections doc last)
unfolding section_lines set_sections last_section put_section with_section
read-section_lines [] doc target last w = unfold read_lines in refl
read-section_lines (section ∷ sections) doc target last w =
    elim (Option-cases (lookup section doc)) [
      | inl e ↦ rw e (read-section_lines sections doc target last w)
      | inr (values, e) ↦ rw e (
          read-with_section section values (section_lines sections doc) target last
            (w section values e).0 (w section values e).1
          ∙ read-section_lines sections doc (put_section section (some values) target) section w)
    ]

pub among-append : (xs ys : List Text) (k : Text) → among (xs ++ ys) k ≡ (among xs k || among ys k)
unfolding any
among-append [] ys k = refl
among-append (x ∷ xs) ys k = ground (arith, among-append xs ys k)

among-insert_sorted :
    (x : Text) (xs : List Text) (k : Text) → among (insert_sorted x xs) k ≡ (x == k || among xs k)
unfolding any insert_sorted
among-insert_sorted x [] k = refl
among-insert_sorted x (y ∷ xs) k = ground (arith, among-insert_sorted x xs k)

pub among-sort_strings : (xs : List Text) (k : Text) → among (sort_strings xs) k ≡ among xs k
unfolding any sort_strings
among-sort_strings [] k = refl
among-sort_strings (x ∷ xs) k =
    among-insert_sorted x (sort_strings xs) k ∙ ap (λ b. x == k || b) (among-sort_strings xs k)

same-test : (p : Text → Bool) (x k : Text) → x ≡ k → p x ≡ p k
same-test p x k e = ap p e

pub among-select :
    (p : Text → Bool) (xs : List Text) (k : Text) → among (select p xs) k ≡ (among xs k && p k)
unfolding any select
among-select p [] k = refl
among-select p (x ∷ xs) k = ground (arith, among-select p xs k, text_beq_iff x k, same-test p x k)

pub among-keys_of {ℓ} :
    {V : Type ℓ} (entries : List (Text × V)) (k : Text)
    → among (keys_of entries) k ≡ has_key k entries
unfolding any has_key lookup
among-keys_of [] k = refl
among-keys_of ((key, v) ∷ entries) k = ground (arith, among-keys_of entries k)
