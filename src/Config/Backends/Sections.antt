-- ===== src/Config/Backends/Sections.antt =====
-- A topology written into the document is read back (dashboard/config.go: topologyFromUnified,
-- applyTopologyToUnified).
use ninj_os_proxie_edge_fabr.Prelude.{
  append_assoc, append_nil, ◌≡◌, ◌≢◌, refl, ap, sym, subst, ◌∙◌, true, false, some, List, [], ◌∷◌,
  ◌++◌, map, arith, Text, text_beq_iff, text_beq, select, All, All-append, Pairwise,
}
use ninj_os_proxie_edge_fabr.GoText.{has_prefix}
use ninj_os_proxie_edge_fabr.GoText.Sort.{text_less, text_less-asym}
use ninj_os_proxie_edge_fabr.GoMap.{lookup, insert, delete, value_or, has_key}
use ninj_os_proxie_edge_fabr.Topology.{Backend}
use ninj_os_proxie_edge_fabr.Config.{Document, set_value, add_section}
use ninj_os_proxie_edge_fabr.Config.Secrets.{section_name}
use ninj_os_proxie_edge_fabr.Config.Render.{is_backend_section, keys_of}
use ninj_os_proxie_edge_fabr.Config.Backends.{
  prefix, backend_from, backends_from, backend_values, set_values, write_backends,
}

abbrev pub Absent : Text → Document → Type 0
Absent section = All (λ e. e.0 ≢ section)

delete-Absent : (section : Text) (doc : Document) → Absent section doc → delete section doc ≡ doc
unfolding delete select
delete-Absent section [] h = refl
delete-Absent section (e ∷ doc) h =
    ground (arith, h.0, text_beq_iff e.0 section, delete-Absent section doc h.1)

lookup-Absent :
    (section : Text) (doc rest : Document)
    → Absent section doc
    → lookup section (doc ++ rest) ≡ lookup section rest
unfolding lookup
lookup-Absent section [] rest h = refl
lookup-Absent section (e ∷ doc) rest h =
    ground (arith, h.0, text_beq_iff e.0 section, lookup-Absent section doc rest h.1)

delete-last :
    (section : Text) (values : List (Text × Text)) (doc : Document)
    → Absent section doc
    → delete section (doc ++ ((section, values) ∷ [])) ≡ doc
unfolding delete select
delete-last section values [] h = ground (arith, text_beq_iff section section)
delete-last section values (e ∷ doc) h =
    ground (arith, h.0, text_beq_iff e.0 section, delete-last section values doc h.1)

lookup-last :
    (section : Text) (values : List (Text × Text)) (doc rest : Document)
    → Absent section doc
    → lookup section (doc ++ ((section, values) ∷ rest)) ≡ some values
lookup-last section values doc rest h =
    lookup-Absent section doc ((section, values) ∷ rest) h
    ∙ unfold lookup in ground (arith, text_beq_iff section section)

value_or-last :
    (section : Text) (values : List (Text × Text)) (doc rest : Document)
    → Absent section doc
    → value_or [] section (doc ++ ((section, values) ∷ rest)) ≡ values
unfolding value_or
value_or-last section values doc rest h = ground (arith, lookup-last section values doc rest h)

has_key-Absent :
    (section : Text) (doc : Document) → Absent section doc → has_key section doc ≡ false
unfolding has_key lookup
has_key-Absent section [] h = refl
has_key-Absent section (e ∷ doc) h =
    ground (arith, h.0, text_beq_iff e.0 section, has_key-Absent section doc h.1)

set_last :
    (section key v : Text) (values : List (Text × Text)) (doc : Document)
    → Absent section doc
    → set_value section key v (doc ++ ((section, values) ∷ []))
      ≡ doc ++ ((section, insert key v values) ∷ [])
unfolding set_value
set_last section key v values doc h =
    rw (value_or-last section values doc [] h)
      (unfold insert in rw (delete-last section values doc h) refl)

insert_all : List (Text × Text) → List (Text × Text) → List (Text × Text)
insert_all [] values = values
insert_all ((key, v) ∷ rest) values = insert_all rest (insert key v values)

set_values_last :
    (section : Text) (new values : List (Text × Text)) (doc : Document)
    → Absent section doc
    → set_values section new (doc ++ ((section, values) ∷ []))
      ≡ doc ++ ((section, insert_all new values) ∷ [])
unfolding set_values insert_all
set_values_last section [] values doc h = refl
set_values_last section ((key, v) ∷ new) values doc h =
    rw (set_last section key v values doc h)
      (set_values_last section new (insert key v values) doc h)

add_section-Absent :
    (section : Text) (doc : Document)
    → Absent section doc
    → add_section section doc ≡ doc ++ ((section, []) ∷ [])
unfolding add_section
add_section-Absent section doc h =
    rw (has_key-Absent section doc h) (unfold insert in rw (delete-Absent section doc h) refl)

-- The values of a backend, written one after the other, are those values.
insert_all-backend_values :
    (b : Backend) (secret : Text)
    → insert_all (backend_values b secret) [] ≡ backend_values b secret
unfolding insert_all backend_values insert delete select text_beq
insert_all-backend_values b secret = refl

-- The section of a backend.
abbrev pub section_of : Backend → Text
section_of b = prefix ++ b.id

abbrev pub entry_of : List (Text × Text) → Backend → Text × List (Text × Text)
entry_of secrets b = (section_of b, backend_values b (value_or [] b.id secrets))

-- A backend whose id is in the form that sections have.
abbrev pub IsNamed : Backend → Type 0
IsNamed b = section_name (section_of b) ≡ section_of b

Absent-snoc :
    (secrets : List (Text × Text)) (b : Backend) (doc : Document) (bs : List Backend)
    → All (λ c. section_of b ≢ section_of c) bs
    → All (λ c. Absent (section_of c) doc) bs
    → All (λ c. Absent (section_of c) (doc ++ (entry_of secrets b ∷ []))) bs
Absent-snoc secrets b doc [] d h = tt
Absent-snoc secrets b doc (c ∷ bs) d h = (
  All-append (λ e. e.0 ≢ section_of c) doc (entry_of secrets b ∷ []) h.0 (d.0, tt),
  Absent-snoc secrets b doc bs d.1 h.1,
)

write_one :
    (secret : Text) (b : Backend) (doc : Document)
    → Absent (section_of b) doc
    → set_values (section_of b) (backend_values b secret) (add_section (section_of b) doc)
      ≡ doc ++ ((section_of b, backend_values b secret) ∷ [])
write_one secret b doc h =
    rw
      (
        add_section-Absent (section_of b) doc h,
        set_values_last (section_of b) (backend_values b secret) [] doc h,
        insert_all-backend_values b secret,
      )
      refl

pub write_backends-append :
    (secrets : List (Text × Text)) (bs : List Backend) (doc : Document)
    → All IsNamed bs
    → Pairwise (λ a b. section_of a ≢ section_of b) bs
    → All (λ b. Absent (section_of b) doc) bs
    → write_backends secrets bs doc ≡ doc ++ map (entry_of secrets) bs
unfolding write_backends
write_backends-append secrets [] doc n d h = sym (append_nil doc)
write_backends-append secrets (b ∷ bs) doc n d h =
    rw (n.0, write_one (value_or [] b.id secrets) b doc h.0)
      (write_backends-append secrets bs (doc ++ (entry_of secrets b ∷ [])) n.1 d.1
          (Absent-snoc secrets b doc bs d.0 h.1)
        ∙ append_assoc doc (entry_of secrets b ∷ []) (map (entry_of secrets) bs))

pub names-entries :
    (secrets : List (Text × Text)) (bs : List Backend)
    → select is_backend_section (keys_of (map (entry_of secrets) bs)) ≡ map section_of bs
unfolding select has_prefix
names-entries secrets [] = refl
names-entries secrets (b ∷ bs) = ap (λ l. section_of b ∷ l) (names-entries secrets bs)

pub names-append :
    (kept rest : Document)
    → All (λ e. is_backend_section e.0 ≡ false) kept
    → select is_backend_section (keys_of (kept ++ rest)) ≡ select is_backend_section (keys_of rest)
unfolding select
names-append [] rest h = refl
names-append (e ∷ kept) rest h = rw h.0 (names-append kept rest h.1)

-- The backends that the sections give.
abbrev pub read_back : List (Text × Text) → Backend → Backend
read_back secrets b = backend_from b.id (backend_values b (value_or [] b.id secrets))

pub backends_from-entries :
    (secrets : List (Text × Text)) (bs : List Backend) (doc : Document)
    → Pairwise (λ a b. section_of a ≢ section_of b) bs
    → All (λ b. Absent (section_of b) doc) bs
    → backends_from (map section_of bs) (doc ++ map (entry_of secrets) bs)
      ≡ map (read_back secrets) bs
unfolding backends_from
backends_from-entries secrets [] doc d h = refl
backends_from-entries secrets (b ∷ bs) doc d h =
    rw
      (value_or-last (section_of b) (backend_values b (value_or [] b.id secrets)) doc
        (map (entry_of secrets) bs) h.0)
      (ap (λ l. read_back secrets b ∷ l)
        (subst (λ x. backends_from (map section_of bs) x ≡ map (read_back secrets) bs)
          (append_assoc doc (entry_of secrets b ∷ []) (map (entry_of secrets) bs))
          (backends_from-entries secrets bs (doc ++ (entry_of secrets b ∷ [])) d.1
            (Absent-snoc secrets b doc bs d.0 h.1))))

abbrev pub Ordered : List Backend → Type 0
Ordered = Pairwise (λ a b. text_less (section_of a) (section_of b) ≡ true)

less-apart : (s t : Text) → text_less s t ≡ true → s ≢ t
less-apart s t h e = ground (arith, h, e, text_less-asym s t)

apart-all :
    (s : Text) (bs : List Backend)
    → All (λ b. text_less s (section_of b) ≡ true) bs
    → All (λ b. s ≢ section_of b) bs
apart-all s [] h = tt
apart-all s (b ∷ bs) h = (less-apart s (section_of b) h.0, apart-all s bs h.1)

pub Ordered-apart :
    (bs : List Backend) → Ordered bs → Pairwise (λ a b. section_of a ≢ section_of b) bs
Ordered-apart [] h = tt
Ordered-apart (b ∷ bs) h = (apart-all (section_of b) bs h.0, Ordered-apart bs h.1)

less-names :
    (s : Text) (bs : List Backend)
    → All (λ b. text_less s (section_of b) ≡ true) bs
    → All (λ n. text_less s n ≡ true) (map section_of bs)
less-names s [] h = tt
less-names s (b ∷ bs) h = (h.0, less-names s bs h.1)

pub Ordered-names :
    (bs : List Backend) → Ordered bs → Pairwise (λ x y. text_less x y ≡ true) (map section_of bs)
Ordered-names [] h = tt
Ordered-names (b ∷ bs) h = (less-names (section_of b) bs h.0, Ordered-names bs h.1)
