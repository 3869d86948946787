-- ===== src/Config/Backends/Edge.antt =====
-- The document before its backends are written, and its edge section (dashboard/config.go:
-- applyTopologyToUnified, get).
use ninj_os_proxie_edge_fabr.Prelude.{
  ◌≡◌, refl, ap, sym, ◌∙◌, inl, inr, true, false, not, none, some, List, [], ◌∷◌, ◌++◌, arith, Text,
  text_beq_iff, text_beq, select, All, Bool-cases,
}
use ninj_os_proxie_edge_fabr.GoText.{codes, has_prefix, to_lower, lower_byte}
use ninj_os_proxie_edge_fabr.GoMap.{
  lookup, insert, value_or, has_key, lookup-insert, value_or-insert,
}
use ninj_os_proxie_edge_fabr.GoMap.Keys.{All-insert}
use ninj_os_proxie_edge_fabr.Topology.{Backend, Topology}
use ninj_os_proxie_edge_fabr.Config.{Document, get, set_value, add_section}
use ninj_os_proxie_edge_fabr.Config.Render.{is_backend_section}
use ninj_os_proxie_edge_fabr.Config.Backends.{set_values}
use ninj_os_proxie_edge_fabr.Config.Backends.Sections.{Absent, section_of}
use ninj_os_proxie_edge_fabr.Config.Backends.Tidy.{Neat, or_else-Neat}

abbrev Others : Document → Type 0
Others = All (λ e. is_backend_section e.0 ≡ false)

abbrev pub edge : Text
edge = codes "edge"

edge-other : is_backend_section edge ≡ false
unfolding has_prefix
edge-other = refl

section-other : (b : Backend) → is_backend_section (section_of b) ≡ true
unfolding has_prefix
section-other b = refl

-- The document before the backends are written.
unfoldable pub kept : Document → Document
kept doc = select (λ entry. not (is_backend_section entry.0)) doc

unfoldable pub edged : Document → Topology → Document
unfolding kept
edged doc t =
    set_values edge
      ((codes "primary_backend", t.primary_backend) ∷ (codes "routing_mode", t.routing_mode) ∷ [])
      (add_section edge (kept doc))

kept-Others : (doc : Document) → Others (kept doc)
unfolding kept select
kept-Others [] = tt
kept-Others (e ∷ doc) = elim (Bool-cases (is_backend_section e.0)) [
  | inl y ↦ rw y (kept-Others doc)
  | inr n ↦ rw n (n, kept-Others doc)
]

add_section-Others : (doc : Document) → Others doc → Others (add_section edge doc)
unfolding add_section
add_section-Others doc h = elim (Bool-cases (has_key edge doc)) [
  | inl y ↦ rw y h
  | inr n ↦ rw n (All-insert (λ e. is_backend_section e.0 ≡ false) edge [] doc h edge-other)
]

set_value-Others : (key v : Text) (doc : Document) → Others doc → Others (set_value edge key v doc)
unfolding set_value
set_value-Others key v doc h =
    All-insert (λ e. is_backend_section e.0 ≡ false) edge (insert key v (value_or [] edge doc)) doc
      h edge-other

pub edged-Others : (doc : Document) (t : Topology) → Others (edged doc t)
unfolding edged set_values
edged-Others doc t =
    set_value-Others (codes "routing_mode") t.routing_mode
      (set_value edge (codes "primary_backend") t.primary_backend (add_section edge (kept doc)))
      (set_value-Others (codes "primary_backend") t.primary_backend (add_section edge (kept doc))
        (add_section-Others (kept doc) (kept-Others doc)))

Others-Absent : (b : Backend) (doc : Document) → Others doc → Absent (section_of b) doc
Others-Absent b [] h = tt
Others-Absent b (e ∷ doc) h = (
  λ same.
      let clash : true ≡ false = sym (section-other b) ∙ ap is_backend_section (sym same) ∙ h.0 in
      absurd (cc clash),
  Others-Absent b doc h.1,
)

pub all-Absent :
    (bs : List Backend) (doc : Document) → Others doc → All (λ b. Absent (section_of b) doc) bs
all-Absent [] doc h = tt
all-Absent (b ∷ bs) doc h = (Others-Absent b doc h, all-Absent bs doc h)

value_or-set :
    (key v : Text) (doc : Document)
    → value_or [] edge (set_value edge key v doc) ≡ insert key v (value_or [] edge doc)
unfolding set_value
value_or-set key v doc = ground (
  arith,
  text_beq_iff edge edge,
  value_or-insert [] edge edge (insert key v (value_or [] edge doc)) doc,
)

lookup-append :
    (section : Text) (doc rest : Document)
    → lookup section (doc ++ rest)
      ≡ elim (lookup section doc) [ some v ↦ some v | none ↦ lookup section rest ]
unfolding lookup
lookup-append section [] rest = refl
lookup-append section (e ∷ doc) rest = ground (arith, lookup-append section doc rest)

value_or-append :
    (key v : Text) (doc rest : Document)
    → value_or [] edge (set_value edge key v doc ++ rest)
      ≡ value_or [] edge (set_value edge key v doc)
unfolding value_or set_value
value_or-append key v doc rest = ground (
  arith,
  text_beq_iff edge edge,
  lookup-insert edge edge (insert key v (value_or [] edge doc)) doc,
  lookup-append edge (insert edge (insert key v (value_or [] edge doc)) doc) rest,
)

unfoldable pub primary_key : Text
primary_key = codes "primary_backend"

unfoldable pub mode_key : Text
mode_key = codes "routing_mode"

unfoldable pub edge_values : Document → Topology → List (Text × Text)
edge_values doc t =
    insert mode_key t.routing_mode
      (insert primary_key t.primary_backend (value_or [] edge (add_section edge (kept doc))))

pub edged-edge_values :
    (doc : Document) (t : Topology) (rest : Document)
    → value_or [] edge (edged doc t ++ rest) ≡ edge_values doc t
unfolding edged set_values edge_values primary_key mode_key
edged-edge_values doc t rest =
    let first = set_value edge primary_key t.primary_backend (add_section edge (kept doc)) in
    value_or-append mode_key t.routing_mode first rest
    ∙ value_or-set mode_key t.routing_mode first
    ∙ ap (insert mode_key t.routing_mode)
        (value_or-set primary_key t.primary_backend (add_section edge (kept doc)))

pub edge_values-primary :
    (doc : Document) (t : Topology)
    → value_or [] primary_key (edge_values doc t) ≡ t.primary_backend
unfolding edge_values text_beq primary_key mode_key
edge_values-primary doc t =
    let old = value_or [] edge (add_section edge (kept doc)) in
    value_or-insert [] mode_key primary_key t.routing_mode
      (insert primary_key t.primary_backend old)
    ∙ value_or-insert [] primary_key primary_key t.primary_backend old

pub edge_values-mode :
    (doc : Document) (t : Topology) → value_or [] mode_key (edge_values doc t) ≡ t.routing_mode
unfolding edge_values text_beq mode_key
edge_values-mode doc t =
    value_or-insert [] mode_key mode_key t.routing_mode
      (insert primary_key t.primary_backend (value_or [] edge (add_section edge (kept doc))))

pub get-edge :
    (key value : Text) (doc : Document) (values : List (Text × Text))
    → to_lower key ≡ key
    → value_or [] edge doc ≡ values
    → value_or [] key values ≡ value
    → Neat value
    → (fallback : Text) → get doc edge key fallback ≡ value
unfolding get to_lower lower_byte
get-edge key value doc values l e v n fallback = rw (l, e, v) (or_else-Neat value fallback n)
