-- ===== src/Config/Secrets/Unchanged.antt =====
-- A page that is saved as it was shown (dashboard/config.go: redactUnifiedDocument,
-- mergeRedactedSecrets, preserveVaultManagedSecrets).
use ninj_os_proxie_edge_fabr.Prelude.{
  ◌≡◌, refl, true, ◌||◌, List, [], ◌∷◌, arith, if◌then◌else◌, Text, ◌==◌, text_beq_iff, All,
}
use ninj_os_proxie_edge_fabr.GoMap.{lookup, has_key, lookup-insert, Distinct, lookup-Distinct}
use ninj_os_proxie_edge_fabr.Config.{Document, set_value, add_section}
use ninj_os_proxie_edge_fabr.Config.Secrets.{
  shown, section_name, redact_values, redact_sections, redact_unified_document,
}
use ninj_os_proxie_edge_fabr.Config.Secrets.Restored.{
  find, find_in, find-cons, find-missing, find-set_value, has_key-set_value, or_other, apply_to,
  unmask, DistinctDocument, save_secrets, saved_value, find-save_secrets,
}

pub find-add_section :
    (s k section : Text) (doc : Document) → find s k (add_section section doc) ≡ find s k doc
unfolding find find_in add_section lookup has_key
find-add_section s k section doc =
    ground (arith, text_beq_iff section s, lookup-insert section s [] doc)

has_key-add_section :
    (s section : Text) (doc : Document)
    → has_key s (add_section section doc) ≡ (section == s || has_key s doc)
unfolding add_section has_key
has_key-add_section s section doc =
    ground (arith, text_beq_iff section s, lookup-insert section s [] doc)

find-redact_values :
    (s k section : Text) (values : List (Text × Text)) (target : Document)
    → section_name section ≡ section
    → Distinct values
    → find s k (redact_values section values target) ≡ (
        if section == s
        then or_other (apply_to (shown section k) (lookup k values)) (find s k target)
        else find s k target)
unfolding redact_values lookup apply_to
find-redact_values s k section [] target n h = ground arith
find-redact_values s k section ((key, v) ∷ values) target n h = rw n (
    ground (
      arith,
      text_beq_iff section s,
      text_beq_iff key k,
      lookup-Distinct key values h.0,
      find-set_value s k section key (shown section key v) target,
      find-redact_values s k section values (set_value section key (shown section key v) target) n
          h.1,
    ))

has_key-redact_values :
    (s section : Text) (values : List (Text × Text)) (target : Document)
    → section_name section ≡ section
    → has_key section target ≡ true
    → has_key s (redact_values section values target) ≡ has_key s target
unfolding redact_values
has_key-redact_values s section [] target n h = refl
has_key-redact_values s section ((key, v) ∷ values) target n h = rw n (
    ground (
      arith,
      h,
      text_beq_iff section s,
      text_beq_iff section section,
      has_key-set_value s section key (shown section key v) target,
      has_key-set_value section section key (shown section key v) target,
      has_key-redact_values s section values (set_value section key (shown section key v) target) n,
    ))

-- A document as `parseINI` leaves it: names in lower case, each section and key once.
pub record IsRead (doc : Document) : Type 0 where
  pub distinct : DistinctDocument doc
  pub names : All (λ entry. section_name entry.0 ≡ entry.0) doc

abbrev target_of : Text → List (Text × Text) → Document → Document
target_of section values target = redact_values section values (add_section section target)

find-redact_sections :
    (s k : Text) (doc target : Document)
    → DistinctDocument doc
    → All (λ entry. section_name entry.0 ≡ entry.0) doc
    → find s k (redact_sections doc target)
      ≡ or_other (apply_to (shown s k) (find s k doc)) (find s k target)
unfolding redact_sections apply_to
find-redact_sections s k [] target h n = unfold find lookup in refl
find-redact_sections s k ((section, values) ∷ doc) target h n = rw n.0 (
    ground (
      arith,
      text_beq_iff section s,
      lookup-Distinct section doc h.0.0,
      find-missing s k doc,
      find-cons s k section values doc,
      find-add_section s k section target,
      find-redact_values s k section values (add_section section target) n.0 h.1.0,
      find-redact_sections s k doc (target_of section values target) (h.0.1, h.1.1) n.1,
    ))

has_key-redact_sections :
    (s : Text) (doc target : Document)
    → All (λ entry. section_name entry.0 ≡ entry.0) doc
    → has_key s (redact_sections doc target) ≡ (has_key s doc || has_key s target)
unfolding redact_sections has_key lookup
has_key-redact_sections s [] target n = refl
has_key-redact_sections s ((section, values) ∷ doc) target n = rw n.0 (
    ground (
      arith,
      text_beq_iff section s,
      text_beq_iff section section,
      has_key-add_section s section target,
      has_key-add_section section section target,
      has_key-redact_values s section values (add_section section target) n.0,
      has_key-redact_sections s doc (target_of section values target) n.1,
    ))

-- The page's document, saved as it was shown, has the current value at every key, credentials
-- included. The current document is one that was read.
pub save-redacted :
    (current : Document)
    → IsRead current
    → (s k : Text)
    → find s k (save_secrets (redact_unified_document current) current) ≡ find s k current
unfolding redact_unified_document saved_value shown apply_to unmask has_key find lookup find_in
save-redacted current h s k =
    rw (find-save_secrets (redact_unified_document current) current h.distinct s k) (
      ground (
        arith,
        has_key-redact_sections s current [] h.names,
        find-redact_sections s k current [] h.distinct h.names,
        find-missing s k current,
      ))
