-- ===== src/Config/Secrets.antt =====
-- Credentials in the configuration page (dashboard/config.go: isSecretConfigKey, redactUnifiedDocument,
-- mergeRedactedSecrets, preserveVaultManagedSecrets).
pub mod Redacted
pub mod Restored
pub mod Unchanged
use ninj_os_proxie_edge_fabr.Prelude.{
  Bool, true, false, not, ◌&&◌, ◌||◌, Option, none, some, List, [], ◌∷◌, map, if◌then◌else◌, Text,
  ◌==◌,
}
use ninj_os_proxie_edge_fabr.GoText.{codes, trim_space, to_lower, has_prefix}
use ninj_os_proxie_edge_fabr.GoMap.{lookup, value_or, has_key}
use ninj_os_proxie_edge_fabr.Config.{Document, set_value, add_section, is_reference}

abbrev is_dashboard_secret : Text → Bool
is_dashboard_secret key =
    key == codes "owner_token"
    || key == codes "operator_token"
    || key == codes "viewer_token"
    || key == codes "metrics_token"
    || key == codes "totp_secret"

-- `isSecretConfigKey`
unfoldable pub is_secret_config_key : Text → Text → Bool
is_secret_config_key section key =
    let section' = to_lower section in
    let key' = to_lower key in
    (section' == codes "dashboard" && is_dashboard_secret key')
    || (section' == codes "companion" && key' == codes "default_secret")
    || (section' == codes "session_core" && key' == codes "internal_token")
    || (section' == codes "discord" && (key' == codes "webhook_url" || key' == codes "bot_token"))
    || (has_prefix section' (codes "backend.") && key' == codes "companion_secret")

abbrev pub redacted : Text
redacted = codes "[REDACTED]"

-- The value that the page shows.
unfoldable pub shown : Text → Text → Text → Text
shown section key value =
    if is_secret_config_key section key && not (value == []) && not (is_reference value)
    then redacted
    else value

-- The key of `redacted.section(section)`.
abbrev pub section_name : Text → Text
section_name section = to_lower (trim_space section)

unfoldable pub redact_values : Text → List (Text × Text) → Document → Document
redact_values section [] target = target
redact_values section ((key, value) ∷ values) target =
    redact_values section values
      (set_value (section_name section) key (shown section key value) target)

unfoldable pub redact_sections : Document → Document → Document
unfolding redact_values
redact_sections [] target = target
redact_sections ((section, values) ∷ doc) target =
    redact_sections doc (redact_values section values (add_section (section_name section) target))

-- `redactUnifiedDocument`
unfoldable pub redact_unified_document : Document → Document
unfolding redact_sections
redact_unified_document doc = redact_sections doc []

-- A loop that rewrites the values where they stand.
unfoldable pub map_values : (Text → Text → Text) → List (Text × Text) → List (Text × Text)
map_values f [] = []
map_values f ((key, value) ∷ values) = (key, f key value) ∷ map_values f values

unfoldable pub map_document : (Text → Text → Text → Text) → Document → Document
unfolding map_values
map_document f [] = []
map_document f ((section, values) ∷ doc) =
    (section, map_values (f section) values) ∷ map_document f doc

unfoldable pub merge_value : Document → Text → Text → Text → Text
merge_value current section key value =
    if not (value == redacted) || not (is_secret_config_key section key)
    then value
    else elim (lookup section current) [ none ↦ value | some values ↦ value_or [] key values ]

-- `mergeRedactedSecrets`: the candidate with the current credentials in place of the mask.
unfoldable pub merge_redacted_secrets : Document → Document → Document
unfolding map_document merge_value
merge_redacted_secrets candidate current = map_document (merge_value current) candidate

unfoldable pub preserve_values : Text → List (Text × Text) → Document → Document
preserve_values section [] candidate = candidate
preserve_values section ((key, value) ∷ values) candidate =
    preserve_values section values (
      if is_secret_config_key section key then set_value section key value candidate else candidate)

unfoldable pub preserve_sections : Document → Document → Document
unfolding preserve_values
preserve_sections [] candidate = candidate
preserve_sections ((section, values) ∷ current) candidate =
    preserve_sections current
      (if has_key section candidate then preserve_values section values candidate else candidate)

unfoldable pub clear_value : Document → Text → Text → Text → Text
clear_value current section key value =
    if not (has_key section current) && is_secret_config_key section key then [] else value

-- `preserveVaultManagedSecrets`
unfoldable pub preserve_vault_managed_secrets : Document → Document → Document
unfolding preserve_sections map_document clear_value
preserve_vault_managed_secrets candidate current =
    map_document (clear_value current) (preserve_sections current candidate)
