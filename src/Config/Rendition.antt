-- ===== src/Config/Rendition.antt =====
-- Rendering and reading a document (dashboard/config.go: renderUnifiedConfig, parseINI).
use ninj_os_proxie_edge_fabr.Prelude.{
  ℕ, ◌≡◌, ◌≢◌, refl, ap, ◌∙◌, inl, inr, Bool, true, false, not, ◌&&◌, none, some, List, [], ◌∷◌,
  ◌++◌, arith, if◌then◌else◌, Text, ◌==◌, text_beq_iff, text_beq, any, select, All, All-append,
  Option-cases,
}
use ninj_os_proxie_edge_fabr.GoText.{
  codes, trim_space, trim_left, trim_right, is_space, has_prefix, contains_byte,
}
use ninj_os_proxie_edge_fabr.GoText.Lines.{Free}
use ninj_os_proxie_edge_fabr.GoText.Sort.{sort_strings}
use ninj_os_proxie_edge_fabr.GoMap.{lookup, has_key}
use ninj_os_proxie_edge_fabr.GoMap.Keys.{lookup-entry}
use ninj_os_proxie_edge_fabr.Config.{
  Document, reading, add_section, read_line, read_lines, parse_ini, document_of,
}
use ninj_os_proxie_edge_fabr.Config.Secrets.Restored.{find, find_in, or_other}
use ninj_os_proxie_edge_fabr.Config.Secrets.Unchanged.{find-add_section}
use ninj_os_proxie_edge_fabr.Config.Render.{
  among, keys_of, standard, is_backend_section, is_profile_section, keys_for, ordered_sections,
  ordered_keys, value_lines, with_section, section_lines, document_lines, render_unified_config,
}
use ninj_os_proxie_edge_fabr.Config.Written.{IsWritable, IsName, read_lines-append, split-unlines}
use ninj_os_proxie_edge_fabr.Config.RoundTrip.{
  WritableDocument, put_section, set_sections, last_section, find-set_keys, read-section_lines,
  among-append, among-sort_strings, among-select, among-keys_of, read-blank,
}

ordered_keys-all :
    (section k : Text) (values : List (Text × Text))
    → has_key k values ≡ true
    → among (ordered_keys section values) k ≡ true
unfolding ordered_keys
ordered_keys-all section k values h =
    let keys = keys_for section in
    let more = select (λ x. not (among keys x)) (keys_of values) in
    ground (
      arith,
      h,
      among-append (select (λ x. has_key x values) keys) (sort_strings more) k,
      among-select (λ x. has_key x values) keys k,
      among-sort_strings more k,
      among-select (λ x. not (among keys x)) (keys_of values) k,
      among-keys_of values k,
    )

sorted-among :
    (p : Text → Bool) (names : List Text) (s : Text)
    → among (sort_strings (select p names)) s ≡ (among names s && p s)
sorted-among p names s = among-sort_strings (select p names) s ∙ among-select p names s

ordered_sections-all :
    (s : Text) (doc : Document)
    → has_key s doc ≡ true
    → among (ordered_sections (keys_of doc)) s ≡ true
unfolding ordered_sections
ordered_sections-all s doc h =
    let names = keys_of doc in
    let backends = sort_strings (select is_backend_section names) in
    let profiles =
      sort_strings (select (λ x. not (is_backend_section x) && is_profile_section x) names) in
    let extras = sort_strings (
      select
        (λ x. not (is_backend_section x) && not (is_profile_section x) && not (among standard x))
        names) in
    ground (
      arith,
      h,
      among-keys_of doc s,
      among-append (standard ++ backends ++ profiles) extras s,
      among-append (standard ++ backends) profiles s,
      among-append standard backends s,
      sorted-among is_backend_section names s,
      sorted-among (λ x. not (is_backend_section x) && is_profile_section x) names s,
      sorted-among
          (λ x. not (is_backend_section x) && not (is_profile_section x) && not (among standard x))
          names s,
    )

lookup-ordered :
    (section k : Text) (values : List (Text × Text))
    → among (ordered_keys section values) k ≡ false
    → lookup k values ≡ none
lookup-ordered section k values h =
    unfold has_key in ground (arith, h, ordered_keys-all section k values)

find-known :
    (section k : Text) (doc : Document) (values : List (Text × Text))
    → lookup section doc ≡ some values
    → find section k doc ≡ lookup k values
unfolding find find_in
find-known section k doc values e = rw e refl

find-put_section :
    (s k section : Text) (doc target : Document)
    → find s k (put_section section (lookup section doc) target)
      ≡ (if section == s then or_other (find s k doc) (find s k target) else find s k target)
unfolding put_section
find-put_section s k section doc target = elim (Option-cases (lookup section doc)) [
  | inl e ↦ rw e (unfold find find_in in ground (arith, e, text_beq_iff section s))
  | inr (values, e) ↦ rw e (
      find-set_keys s k (ordered_keys section values) section values (add_section section target)
      ∙ merged values e)
]
  where
    merged :
        (values : List (Text × Text))
        → lookup section doc ≡ some values
        → (if section == s && among (ordered_keys section values) k
            then or_other (lookup k values) (find s k (add_section section target))
            else find s k (add_section section target))
          ≡ (if section == s then or_other (find s k doc) (find s k target) else find s k target)
    merged values e = ground (
      arith,
      text_beq_iff section s,
      find-add_section s k section target,
      lookup-ordered section k values,
      find-known section k doc values e,
    )

find-set_sections :
    (s k : Text) (sections : List Text) (doc target : Document)
    → find s k (set_sections sections doc target)
      ≡ (if among sections s then or_other (find s k doc) (find s k target) else find s k target)
unfolding set_sections any
find-set_sections s k [] doc target = refl
find-set_sections s k (section ∷ sections) doc target = ground (
  arith,
  find-put_section s k section doc target,
  find-set_sections s k sections doc (put_section section (lookup section doc) target),
)

value_lines-Free :
    (keys : List Text) (values : List (Text × Text))
    → ((key v : Text) → lookup key values ≡ some v → IsWritable key v)
    → All (Free b'\n') (value_lines keys values)
unfolding value_lines
value_lines-Free [] values w = tt
value_lines-Free (key ∷ keys) values w = elim (Option-cases (lookup key values)) [
  | inl e ↦ rw e (value_lines-Free keys values w)
  | inr (v, e) ↦ rw e (
    All-append (λ c. c ≢ b'\n') key (codes " = " ++ v) (w key v e).key_line_free
        (omega arith, (omega arith, (omega arith, (w key v e).value_line_free))),
    value_lines-Free keys values w,
  )
]

section_lines-Free :
    (sections : List Text) (doc : Document)
    → WritableDocument doc
    → All (Free b'\n') (section_lines sections doc)
unfolding section_lines with_section
section_lines-Free [] doc w = tt
section_lines-Free (section ∷ sections) doc w = elim (Option-cases (lookup section doc)) [
  | inl e ↦ rw e (section_lines-Free sections doc w)
  | inr (values, e) ↦ rw e (
    (
      omega arith,
      All-append (λ c. c ≢ b'\n') section (codes "]") (w section values e).0.line_free
          (omega arith, tt),
    ),
    All-append (Free b'\n') (value_lines (ordered_keys section values) values)
        ([] ∷ section_lines sections doc)
        (value_lines-Free (ordered_keys section values) values (w section values e).1)
        (tt, section_lines-Free sections doc w),
  )
]

pub contains-Free : (b : ℕ) (s : Text) → contains_byte b s ≡ false → Free b s
unfolding contains_byte
contains-Free b [] h = tt
contains-Free b (c ∷ s) h = (λ e. ground (arith, h, e), contains-Free b s (ground (arith, h)))

read-comments :
    (doc : Document) (section : Text)
    → (read_line (codes "# Ninj-OS Edge Fabric unified configuration") doc section
        ≡ reading doc section)
      × (read_line
            (codes "# Use env:VARIABLE for secrets stored in Pterodactyl Startup.")
            doc
            section
          ≡ reading doc section)
unfolding read_line trim_space trim_left trim_right is_space text_beq has_prefix
read-comments doc section = (refl, refl)

document_lines-Free :
    (doc : Document) → WritableDocument doc → All (Free b'\n') (document_lines doc)
unfolding document_lines
document_lines-Free doc w = (
  contains-Free b'\n' (codes "# Ninj-OS Edge Fabric unified configuration")
      (unfold contains_byte in refl),
  (
    contains-Free b'\n' (codes "# Use env:VARIABLE for secrets stored in Pterodactyl Startup.")
        (unfold contains_byte in refl),
    (tt, section_lines-Free (ordered_sections (keys_of doc)) doc w),
  ),
)

read-first :
    (line : Text) (rest : List Text) (doc : Document) (section : Text)
    → read_line line doc section ≡ reading doc section
    → read_lines (line ∷ rest) (reading doc section) ≡ read_lines rest (reading doc section)
unfolding read_lines
read-first line rest doc section h = ap (read_lines rest) h

read-last :
    (doc : Document) (section : Text)
    → read_lines ([] ∷ []) (reading doc section) ≡ reading doc section
unfolding read_lines
read-last doc section = read-blank doc section

abbrev start : Document
start = (codes "edge", []) ∷ []

read-document_lines :
    (doc : Document)
    → WritableDocument doc
    → read_lines (document_lines doc ++ ([] ∷ [])) (reading start (codes "edge"))
      ≡ reading
          (set_sections (ordered_sections (keys_of doc)) doc start)
          (last_section (ordered_sections (keys_of doc)) doc (codes "edge"))
unfolding document_lines
read-document_lines doc w =
    let lines = section_lines (ordered_sections (keys_of doc)) doc in
    read-first (codes "# Ninj-OS Edge Fabric unified configuration") _ start (codes "edge")
      (read-comments start (codes "edge")).0
    ∙ read-first (codes "# Use env:VARIABLE for secrets stored in Pterodactyl Startup.") _ start
        (codes "edge") (read-comments start (codes "edge")).1
    ∙ read-first [] (lines ++ ([] ∷ [])) start (codes "edge") (read-blank start (codes "edge"))
    ∙ read_lines-append lines ([] ∷ []) (reading start (codes "edge"))
    ∙ ap (read_lines ([] ∷ []))
        (read-section_lines (ordered_sections (keys_of doc)) doc start (codes "edge") w)
    ∙ read-last (set_sections (ordered_sections (keys_of doc)) doc start)
        (last_section (ordered_sections (keys_of doc)) doc (codes "edge"))

-- What is read back.
reread : Document → Document
reread doc = set_sections (ordered_sections (keys_of doc)) doc start

find-start : (s k : Text) → find s k start ≡ none
unfolding find find_in lookup
find-start s k = ground arith

find-absent : (s k : Text) (doc : Document) → has_key s doc ≡ false → find s k doc ≡ none
unfolding find find_in has_key
find-absent s k doc h = ground (arith, h)

find-reread : (s k : Text) (doc : Document) → find s k (reread doc) ≡ find s k doc
unfolding reread
find-reread s k doc = ground (
  arith,
  find-set_sections s k (ordered_sections (keys_of doc)) doc start,
  find-start s k,
  ordered_sections-all s doc,
  find-absent s k doc,
)

-- The text that a document is rendered to is read without an error, and the document read has the same
-- value as the rendered one at every section and key. The section names are not empty and are as the
-- reader leaves them, in lower case with no space around them; the keys are in lower case, have no space
-- around them and no equals sign, and are not empty and do not begin like a comment or a header; the
-- values have no space around them; none has a line break, and each line is shorter than 65,536 bytes.
pub parse-render :
    (doc : Document)
    → WritableDocument doc
    → (d : Document) × ((parse_ini (render_unified_config doc) ≡ some d)
        × ((s k : Text) → find s k d ≡ find s k doc))
unfolding parse_ini render_unified_config reread
parse-render doc w = (
  reread doc,
  (
    ap (λ ls. document_of (read_lines ls (reading start (codes "edge"))))
          (split-unlines (document_lines doc) (document_lines-Free doc w))
        ∙ ap document_of (read-document_lines doc w)
        ∙ (unfold document_of in refl),
    λ s k. find-reread s k doc,
  ),
)

-- Such a document, entry by entry.
pub WritableDocument-All :
    (doc : Document)
    → All (λ e. IsName e.0 × All (λ kv. IsWritable kv.0 kv.1) e.1) doc
    → WritableDocument doc
WritableDocument-All doc h section values e =
    let both =
      lookup-entry (λ x. IsName x.0 × All (λ kv. IsWritable kv.0 kv.1) x.1) section values doc h
        e in
    (both.0, λ key v f. lookup-entry (λ kv. IsWritable kv.0 kv.1) key v values both.1 f)
