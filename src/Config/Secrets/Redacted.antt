-- ===== src/Config/Secrets/Redacted.antt =====
-- What the page shows does not depend on the credentials (dashboard/config.go: redactUnifiedDocument).
use ninj_os_proxie_edge_fabr.Prelude.{
  ◌≡◌, ◌≢◌, refl, true, false, List, [], ◌∷◌, arith, Text, text_beq_iff,
}
use ninj_os_proxie_edge_fabr.Config.{Document, set_value, add_section, is_reference}
use ninj_os_proxie_edge_fabr.Config.Secrets.{
  is_secret_config_key, redacted, shown, section_name, redact_values, redact_sections,
  redact_unified_document,
}

-- A credential that the document itself holds, rather than the name of a variable.
pub record IsCredential (section key value : Text) : Type 0 where
  pub secret : is_secret_config_key section key ≡ true
  pub filled : value ≢ []
  pub held : is_reference value ≡ false

-- The same keys in the same order, with equal values but for credentials.
pub data AlikeValues (section : Text) : List (Text × Text) → List (Text × Text) → Type 0 where
  alike_end : AlikeValues section [] []
  alike_equal :
      (key value : Text) (xs ys : List (Text × Text))
      → AlikeValues section xs ys
      → AlikeValues section ((key, value) ∷ xs) ((key, value) ∷ ys)
  alike_credential :
      (key v w : Text) (xs ys : List (Text × Text))
      → IsCredential section key v
      → IsCredential section key w
      → AlikeValues section xs ys
      → AlikeValues section ((key, v) ∷ xs) ((key, w) ∷ ys)

pub data Alike : Document → Document → Type 0 where
  alike_none : Alike [] []
  alike_section :
      (section : Text) (xs ys : List (Text × Text)) (d e : Document)
      → AlikeValues section xs ys
      → Alike d e
      → Alike ((section, xs) ∷ d) ((section, ys) ∷ e)

shown-IsCredential :
    (section key v : Text) → IsCredential section key v → shown section key v ≡ redacted
unfolding shown
shown-IsCredential section key v h = ground (arith, h.secret, h.filled, h.held, text_beq_iff v [])

redact_values-AlikeValues :
    (section : Text) (xs ys : List (Text × Text)) (target : Document)
    → AlikeValues section xs ys
    → redact_values section xs target ≡ redact_values section ys target
unfolding redact_values
redact_values-AlikeValues section _ _ target alike_end = refl
redact_values-AlikeValues section _ _ target (alike_equal key value xs ys h) =
    redact_values-AlikeValues section xs ys
      (set_value (section_name section) key (shown section key value) target) h
redact_values-AlikeValues section _ _ target (alike_credential key v w xs ys a b h) =
    rw (shown-IsCredential section key v a, shown-IsCredential section key w b)
      (redact_values-AlikeValues section xs ys
        (set_value (section_name section) key redacted target) h)

redact_sections-Alike :
    (d e target : Document) → Alike d e → redact_sections d target ≡ redact_sections e target
unfolding redact_sections
redact_sections-Alike _ _ target alike_none = refl
redact_sections-Alike _ _ target (alike_section section xs ys d e a h) =
    rw (redact_values-AlikeValues section xs ys (add_section (section_name section) target) a) (
      redact_sections-Alike d e
        (redact_values section ys (add_section (section_name section) target)) h)

-- Two documents that differ only in the credentials they hold are redacted to the same document.
pub redact-Alike :
    (d e : Document) → Alike d e → redact_unified_document d ≡ redact_unified_document e
unfolding redact_unified_document
redact-Alike d e h = redact_sections-Alike d e [] h
