-- ===== src/Config/Secrets/Restored.antt =====
-- The credentials of a saved document (dashboard/config.go: mergeRedactedSecrets,
-- preserveVaultManagedSecrets).
use ninj_os_proxie_edge_fabr.Prelude.{
  ◌≡◌, refl, inl, inr, Bool, true, not, ◌&&◌, ◌||◌, Option, none, some, List, [], ◌∷◌, arith,
  if◌then◌else◌, Text, ◌==◌, text_beq_iff, All, Bool-cases,
}
use ninj_os_proxie_edge_fabr.GoMap.{
  lookup, insert, value_or, has_key, lookup-insert, has_key-insert, Distinct, lookup-Distinct,
}
use ninj_os_proxie_edge_fabr.Config.{Document, set_value}
use ninj_os_proxie_edge_fabr.Config.Secrets.{
  is_secret_config_key, redacted, map_values, map_document, merge_value, merge_redacted_secrets,
  preserve_values, preserve_sections, clear_value, preserve_vault_managed_secrets,
}

unfoldable pub find_in : Text → Option (List (Text × Text)) → Option Text
find_in key none = none
find_in key (some values) = lookup key values

-- The value at a section and a key, if there is one.
unfoldable pub find : Text → Text → Document → Option Text
unfolding find_in
find section key doc = find_in key (lookup section doc)

unfoldable pub apply_to : (Text → Text) → Option Text → Option Text
apply_to f none = none
apply_to f (some v) = some (f v)

lookup-map_values :
    (f : Text → Text → Text) (key : Text) (values : List (Text × Text))
    → lookup key (map_values f values) ≡ apply_to (f key) (lookup key values)
unfolding lookup map_values apply_to
lookup-map_values f key [] = refl
lookup-map_values f key ((k, v) ∷ values) = elim (Bool-cases (k == key)) [
  | inl y ↦ let same : k ≡ key = (text_beq_iff k key).0 y in rw (y, same) refl
  | inr n ↦ rw n (lookup-map_values f key values)
]

find-map_document :
    (f : Text → Text → Text → Text) (section key : Text) (doc : Document)
    → find section key (map_document f doc) ≡ apply_to (f section key) (find section key doc)
unfolding find lookup map_document apply_to
find-map_document f section key [] = refl
find-map_document f section key ((s, values) ∷ doc) = elim (Bool-cases (s == section)) [
  | inl y ↦
      let same : s ≡ section = (text_beq_iff s section).0 y in
      rw (y, same) (lookup-map_values (f section) key values)
  | inr n ↦ rw n (find-map_document f section key doc)
]

has_key-map_document :
    (f : Text → Text → Text → Text) (section : Text) (doc : Document)
    → has_key section (map_document f doc) ≡ has_key section doc
unfolding lookup has_key map_document
has_key-map_document f section [] = refl
has_key-map_document f section ((s, values) ∷ doc) =
    ground (arith, has_key-map_document f section doc)

pub find-set_value :
    (s k section key v : Text) (doc : Document)
    → find s k (set_value section key v doc)
      ≡ (if section == s && key == k then some v else find s k doc)
unfolding set_value find value_or lookup
find-set_value s k section key v doc = ground (
  arith,
  text_beq_iff section s,
  lookup-insert section s (insert key v (value_or [] section doc)) doc,
  lookup-insert key k v (value_or [] section doc),
)

pub has_key-set_value :
    (s section key v : Text) (doc : Document)
    → has_key s (set_value section key v doc) ≡ (section == s || has_key s doc)
unfolding set_value
has_key-set_value s section key v doc =
    has_key-insert section s (insert key v (value_or [] section doc)) doc

abbrev pub or_other : Option Text → Option Text → Option Text
or_other none o = o
or_other (some v) o = some v

find-preserve_values :
    (s k section : Text) (values : List (Text × Text)) (candidate : Document)
    → Distinct values
    → find s k (preserve_values section values candidate) ≡ (
        if section == s && is_secret_config_key section k
        then or_other (lookup k values) (find s k candidate)
        else find s k candidate)
unfolding preserve_values lookup
find-preserve_values s k section [] candidate h = ground arith
find-preserve_values s k section ((key, v) ∷ values) candidate h = ground (
  arith,
  text_beq_iff section s,
  text_beq_iff key k,
  lookup-Distinct key values h.0,
  find-set_value s k section key v candidate,
  find-preserve_values s k section values candidate h.1,
  find-preserve_values s k section values (set_value section key v candidate) h.1,
)

has_key-preserve_values :
    (s section : Text) (values : List (Text × Text)) (candidate : Document)
    → has_key section candidate ≡ true
    → has_key s (preserve_values section values candidate) ≡ has_key s candidate
unfolding preserve_values
has_key-preserve_values s section [] candidate h = refl
has_key-preserve_values s section ((key, v) ∷ values) candidate h = ground (
  arith,
  h,
  text_beq_iff section s,
  has_key-set_value s section key v candidate,
  has_key-set_value section section key v candidate,
  has_key-preserve_values s section values candidate,
  has_key-preserve_values s section values (set_value section key v candidate),
)

-- Each section stands once, and each key once in a section.
abbrev pub DistinctDocument : Document → Type 0
DistinctDocument doc = Distinct doc × All (λ entry. Distinct entry.1) doc

pub find-cons :
    (s k section : Text) (values : List (Text × Text)) (doc : Document)
    → find s k ((section, values) ∷ doc) ≡ (if section == s then lookup k values else find s k doc)
unfolding find lookup
find-cons s k section values doc = ground arith

pub find-missing : (s k : Text) (doc : Document) → lookup s doc ≡ none → find s k doc ≡ none
unfolding find
find-missing s k doc h = rw h refl

find-preserve_sections :
    (s k : Text) (current candidate : Document)
    → DistinctDocument current
    → find s k (preserve_sections current candidate) ≡ (
        if has_key s candidate && is_secret_config_key s k
        then or_other (find s k current) (find s k candidate)
        else find s k candidate)
unfolding preserve_sections find lookup
find-preserve_sections s k [] candidate h = ground arith
find-preserve_sections s k ((section, values) ∷ current) candidate h = ground (
  arith,
  text_beq_iff section s,
  lookup-Distinct section current h.0.0,
  find-missing s k current,
  find-cons s k section values current,
  find-preserve_values s k section values candidate h.1.0,
  has_key-preserve_values s section values candidate,
  find-preserve_sections s k current candidate (h.0.1, h.1.1),
  find-preserve_sections s k current (preserve_values section values candidate) (h.0.1, h.1.1),
)

has_key-preserve_sections :
    (s : Text) (current candidate : Document)
    → has_key s (preserve_sections current candidate) ≡ has_key s candidate
unfolding preserve_sections
has_key-preserve_sections s [] candidate = refl
has_key-preserve_sections s ((section, values) ∷ current) candidate = ground (
  arith,
  has_key-preserve_values s section values candidate,
  has_key-preserve_sections s current candidate,
  has_key-preserve_sections s current (preserve_values section values candidate),
)

-- The two steps of a save.
abbrev pub save_secrets : Document → Document → Document
save_secrets candidate current =
    preserve_vault_managed_secrets (merge_redacted_secrets candidate current) current

unfoldable pub unmask : Text → Text
unmask v = if v == redacted then [] else v

-- What a save keeps at a key, from the value sent and the current one, in a section sent that is
-- among the current ones or not.
unfoldable pub saved_value : Bool → Bool → Option Text → Option Text → Option Text
unfolding apply_to unmask
saved_value secret known sent now =
    if not secret
    then sent
    else if known
    then or_other now (apply_to unmask sent)
    else apply_to (λ _. []) sent

-- A save keeps each setting that is no credential as it was sent. At a credential's key it keeps the
-- current value, if there is one; where there is none, it keeps what was sent, but nothing for the
-- mask; and in a section that is new it keeps no credential. No section is added. The current
-- document has each section and key once.
pub find-save_secrets :
    (candidate current : Document)
    → DistinctDocument current
    → (s k : Text)
    → find s k (save_secrets candidate current) ≡ (
        if has_key s candidate
        then saved_value
            (is_secret_config_key s k)
            (has_key s current)
            (find s k candidate)
            (find s k current)
        else none)
unfolding preserve_vault_managed_secrets merge_redacted_secrets saved_value apply_to clear_value
    merge_value unmask find has_key value_or
find-save_secrets candidate current h s k =
    let merged = map_document (merge_value current) candidate in
    let mapped = find-map_document (clear_value current) s k (preserve_sections current merged) in
    let overlaid = find-preserve_sections s k current merged h in
    let sent = find-map_document (merge_value current) s k candidate in
    let present = has_key-map_document (merge_value current) s candidate in
    rw (mapped, overlaid, sent, present) (ground arith)
