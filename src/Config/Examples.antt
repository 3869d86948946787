-- ===== src/Config/Examples.antt =====
-- Tests of the configuration, and its theorems at concrete documents.
use ninj_os_proxie_edge_fabr.Topology.{
  validate_topology, validate_backends, check_fields, check_policy, every, has_reserved, is_adapter,
  is_backend_id, is_env_name, is_routing_mode,
}
use ninj_os_proxie_edge_fabr.Config.Backends.{
  topology_from_unified, backends_from, backend_from, primary_or_first, humanize_backend_id,
}
use ninj_os_proxie_edge_fabr.GoText.Decimal.{parse_int, parse_digits, format_int, format_nat}
use ninj_os_proxie_edge_fabr.GoText.Sort.{insert_sorted, text_less, sort_strings}
use ninj_os_proxie_edge_fabr.Prelude.{
  select, any, select, ◌≡◌, ◌≢◌, refl, sym, ◌∙◌, true, false, none, some, [], ◌∷◌, Text, text_beq,
  if◌then◌else◌,
}
use ninj_os_proxie_edge_fabr.GoText.{
  lower_byte, or_else, join, upper_byte, to_upper, replace_byte, contains_byte, has_prefix,
  trim_left, trim_right, trim_left, trim_right, has_prefix, trim_left, trim_right, has_prefix,
  has_prefix, cut, drop_last, ends_with, has_prefix, trim_left, trim_right, split, codes, is_space,
  to_lower, trim_space,
}
use ninj_os_proxie_edge_fabr.GoMap.{delete, insert, lookup, has_key, value_or}
use ninj_os_proxie_edge_fabr.Config.{
  read_lines, document_of, get_int, within, switch_value, env_name_from_reference, value_or_default,
  int_or, bool_or, is_reference, add_section, set_value, is_reference, is_reference, read_line,
  Document, parse_ini, get, get_bool,
}
use ninj_os_proxie_edge_fabr.Config.Render.{
  document_lines, unlines, section_lines, ordered_sections, ordered_keys, keys_for, value_lines,
  render_unified_config,
}
use ninj_os_proxie_edge_fabr.Config.Secrets.{
  preserve_vault_managed_secrets, merge_redacted_secrets, shown, is_secret_config_key,
  redact_unified_document,
}
use ninj_os_proxie_edge_fabr.Config.Secrets.Redacted.{
  IsCredential, alike_none, alike_section, alike_end, alike_equal, alike_credential, redact-Alike,
}
use ninj_os_proxie_edge_fabr.Config.Secrets.Restored.{
  find, save_secrets, saved_value, find-save_secrets,
}
use ninj_os_proxie_edge_fabr.Config.Secrets.Unchanged.{IsRead, save-redacted}
use ninj_os_proxie_edge_fabr.Config.Parsing.{parse_ini-IsRead}
use ninj_os_proxie_edge_fabr.Config.Vault.{
  validate_unified_secrets, is_secret_fine, secret_location_for_id, prefixed_location,
  before_suffix, backend_secret_location, validate_managed_secret, are_packet_ids, Host,
  validate_unified_config,
}
use ninj_os_proxie_edge_fabr.Config.Save.{
  write_unified_config, serialize_unified_config, prepare_unified_config, verify, finish, rollback,
  Disk, Writes, saved, not_written, not_generated, write_and_verify,
}
use ninj_os_proxie_edge_fabr.Config.Save.Transaction.{
  Ends, write_and_verify-Ends, write_and_verify-unrestored,
}

abbrev content : Text
content =
    codes
      "# Edge\n[edge]\nPrimary_Backend = lobby \n[ Backend.lobby ]\nhost=10.0.0.1\ncompanion_secret = hush-hush-hush\n[discord]\nbot_token = env:BOT\n"

abbrev page : Text → Document
page secret =
    (codes "edge", (codes "primary_backend", codes "lobby") ∷ [])
    ∷ (
      codes "backend.lobby",
      (codes "host", codes "10.0.0.1") ∷ (codes "companion_secret", secret) ∷ [],
    )
    ∷ (codes "discord", (codes "bot_token", codes "env:BOT") ∷ [])
    ∷ []

abbrev current : Document
current = page (codes "hush-hush-hush")

reads : parse_ini content ≡ some current
unfolding read_line read_lines document_of add_section set_value insert delete select cut split
    trim_space trim_left trim_right is_space to_lower lower_byte has_prefix ends_with drop_last
    parse_ini render_unified_config document_lines unlines section_lines ordered_sections
    ordered_keys keys_for value_lines lookup has_key value_or text_beq sort_strings insert_sorted
    text_less any get get_int get_bool within switch_value is_reference env_name_from_reference
    value_or_default int_or bool_or or_else parse_int parse_digits format_int format_nat
    validate_unified_config validate_unified_secrets is_secret_fine secret_location_for_id
    prefixed_location before_suffix backend_secret_location validate_managed_secret are_packet_ids
    topology_from_unified backends_from backend_from primary_or_first humanize_backend_id join
    upper_byte to_upper replace_byte contains_byte validate_topology validate_backends check_fields
    check_policy every has_reserved is_adapter is_backend_id is_env_name is_routing_mode
    write_and_verify write_unified_config serialize_unified_config prepare_unified_config verify
    finish rollback
reads = refl

refuses :
    (parse_ini (codes "[ ]") ≡ none)
    × (parse_ini (codes "a\n") ≡ none)
    × (parse_ini (codes "=b") ≡ none)
unfolding read_line read_lines document_of add_section set_value insert delete select cut split
    trim_space trim_left trim_right is_space to_lower lower_byte has_prefix ends_with drop_last
    parse_ini render_unified_config document_lines unlines section_lines ordered_sections
    ordered_keys keys_for value_lines lookup has_key value_or text_beq sort_strings insert_sorted
    text_less any get get_int get_bool within switch_value is_reference env_name_from_reference
    value_or_default int_or bool_or or_else parse_int parse_digits format_int format_nat
    validate_unified_config validate_unified_secrets is_secret_fine secret_location_for_id
    prefixed_location before_suffix backend_secret_location validate_managed_secret are_packet_ids
    topology_from_unified backends_from backend_from primary_or_first humanize_backend_id join
    upper_byte to_upper replace_byte contains_byte validate_topology validate_backends check_fields
    check_policy every has_reserved is_adapter is_backend_id is_env_name is_routing_mode
    write_and_verify write_unified_config serialize_unified_config prepare_unified_config verify
    finish rollback
refuses = (refl, refl, refl)

renders :
    render_unified_config current
    ≡ codes
        "# Ninj-OS Edge Fabric unified configuration\n# Use env:VARIABLE for secrets stored in Pterodactyl Startup.\n\n[edge]\nprimary_backend = lobby\n\n[discord]\nbot_token = env:BOT\n\n[backend.lobby]\nhost = 10.0.0.1\ncompanion_secret = hush-hush-hush\n\n"
unfolding read_line read_lines document_of add_section set_value insert delete select cut split
    trim_space trim_left trim_right is_space to_lower lower_byte has_prefix ends_with drop_last
    parse_ini render_unified_config document_lines unlines section_lines ordered_sections
    ordered_keys keys_for value_lines lookup has_key value_or text_beq sort_strings insert_sorted
    text_less any get get_int get_bool within switch_value is_reference env_name_from_reference
    value_or_default int_or bool_or or_else parse_int parse_digits format_int format_nat
    validate_unified_config validate_unified_secrets is_secret_fine secret_location_for_id
    prefixed_location before_suffix backend_secret_location validate_managed_secret are_packet_ids
    topology_from_unified backends_from backend_from primary_or_first humanize_backend_id join
    upper_byte to_upper replace_byte contains_byte validate_topology validate_backends check_fields
    check_policy every has_reserved is_adapter is_backend_id is_env_name is_routing_mode
    write_and_verify write_unified_config serialize_unified_config prepare_unified_config verify
    finish rollback
renders = refl

parse_ini-IsRead_example : IsRead current
parse_ini-IsRead_example = parse_ini-IsRead content current reads

hush-IsCredential :
    IsCredential (codes "backend.lobby") (codes "companion_secret") (codes "hush-hush-hush")
unfolding is_secret_config_key text_beq to_lower has_prefix is_reference trim_space trim_right
    trim_left is_space
hush-IsCredential = record { secret = refl; filled = λ h. cc; held = refl }

other-IsCredential :
    IsCredential (codes "backend.lobby") (codes "companion_secret") (codes "another secret")
unfolding is_secret_config_key text_beq to_lower has_prefix is_reference trim_space trim_right
    trim_left is_space
other-IsCredential = record { secret = refl; filled = λ h. cc; held = refl }

redact-Alike_example :
    redact_unified_document current ≡ redact_unified_document (page (codes "another secret"))
redact-Alike_example = redact-Alike current (page (codes "another secret")) (
    alike_section _ _ _ _ _ (alike_equal _ _ _ _ alike_end) (
      alike_section _ _ _ _ _
        (alike_equal _ _ _ _
          (alike_credential _ _ _ _ _ hush-IsCredential other-IsCredential alike_end))
        (alike_section _ _ _ _ _ (alike_equal _ _ _ _ alike_end) alike_none)))

hides : redact_unified_document current ≡ page (codes "[REDACTED]")
unfolding redact_unified_document set_value insert select add_section has_key text_beq to_lower
    trim_space trim_right trim_left is_space value_or shown is_secret_config_key has_prefix
    is_reference
hides = refl

save-redacted_example :
    find
      (codes "backend.lobby")
      (codes "companion_secret")
      (save_secrets (redact_unified_document current) current)
    ≡ find (codes "backend.lobby") (codes "companion_secret") current
save-redacted_example =
    save-redacted current (parse_ini-IsRead content current reads) (codes "backend.lobby")
      (codes "companion_secret")

abbrev sent : Document
sent = (codes "discord", (codes "webhook_url", codes "mine") ∷ []) ∷ []

find-save_secrets_example :
    find (codes "discord") (codes "webhook_url") (save_secrets sent current) ≡ (
      if has_key (codes "discord") sent
      then saved_value
          (is_secret_config_key (codes "discord") (codes "webhook_url"))
          (has_key (codes "discord") current)
          (find (codes "discord") (codes "webhook_url") sent)
          (find (codes "discord") (codes "webhook_url") current)
      else none)
find-save_secrets_example =
    find-save_secrets sent current (parse_ini-IsRead content current reads).distinct
      (codes "discord") (codes "webhook_url")

-- The page sets a credential that the current document has not.
sets_credential :
    find (codes "discord") (codes "webhook_url") (save_secrets sent current) ≡ some (codes "mine")
unfolding find preserve_vault_managed_secrets merge_redacted_secrets is_secret_config_key lookup
    has_key to_lower lower_byte text_beq has_prefix value_or set_value insert delete select
sets_credential = refl

abbrev host : Host
host = record { getenv = λ _. []; is_base32 = λ _. true }

abbrev all_well : Writes
all_well = record {
  backup = true;
  temporary = true;
  rename = true;
  generate = true;
  restore = true;
  regenerate = true;
}

abbrev disk : Disk
disk = record { config = content; backup = []; generated = [] }

accepts : validate_unified_config host current ≡ true
unfolding read_line read_lines document_of add_section set_value insert delete select cut split
    trim_space trim_left trim_right is_space to_lower lower_byte has_prefix ends_with drop_last
    parse_ini render_unified_config document_lines unlines section_lines ordered_sections
    ordered_keys keys_for value_lines lookup has_key value_or text_beq sort_strings insert_sorted
    text_less any get get_int get_bool within switch_value is_reference env_name_from_reference
    value_or_default int_or bool_or or_else parse_int parse_digits format_int format_nat
    validate_unified_config validate_unified_secrets is_secret_fine secret_location_for_id
    prefixed_location before_suffix backend_secret_location validate_managed_secret are_packet_ids
    topology_from_unified backends_from backend_from primary_or_first humanize_backend_id join
    upper_byte to_upper replace_byte contains_byte validate_topology validate_backends check_fields
    check_policy every has_reserved is_adapter is_backend_id is_env_name is_routing_mode
    write_and_verify write_unified_config serialize_unified_config prepare_unified_config verify
    finish rollback
accepts = refl

write_and_verify-Ends_example :
    Ends
      (page (codes "another secret"))
      current
      disk
      (write_and_verify host all_well (page (codes "another secret")) current disk).0
      (write_and_verify host all_well (page (codes "another secret")) current disk).1
write_and_verify-Ends_example =
    write_and_verify-Ends host all_well (page (codes "another secret")) current disk accepts refl

saves : (write_and_verify host all_well (page (codes "another secret")) current disk).0 ≡ saved
unfolding read_line read_lines document_of add_section set_value insert delete select cut split
    trim_space trim_left trim_right is_space to_lower lower_byte has_prefix ends_with drop_last
    parse_ini render_unified_config document_lines unlines section_lines ordered_sections
    ordered_keys keys_for value_lines lookup has_key value_or text_beq sort_strings insert_sorted
    text_less any get get_int get_bool within switch_value is_reference env_name_from_reference
    value_or_default int_or bool_or or_else parse_int parse_digits format_int format_nat
    validate_unified_config validate_unified_secrets is_secret_fine secret_location_for_id
    prefixed_location before_suffix backend_secret_location validate_managed_secret are_packet_ids
    topology_from_unified backends_from backend_from primary_or_first humanize_backend_id join
    upper_byte to_upper replace_byte contains_byte validate_topology validate_backends check_fields
    check_policy every has_reserved is_adapter is_backend_id is_env_name is_routing_mode
    write_and_verify write_unified_config serialize_unified_config prepare_unified_config verify
    finish rollback
saves = refl

abbrev full : Writes
full = record all_well { generate = false }

refused_short : validate_unified_config host (page (codes "short")) ≡ false
unfolding read_line read_lines document_of add_section set_value insert delete select cut split
    trim_space trim_left trim_right is_space to_lower lower_byte has_prefix ends_with drop_last
    parse_ini render_unified_config document_lines unlines section_lines ordered_sections
    ordered_keys keys_for value_lines lookup has_key value_or text_beq sort_strings insert_sorted
    text_less any get get_int get_bool within switch_value is_reference env_name_from_reference
    value_or_default int_or bool_or or_else parse_int parse_digits format_int format_nat
    validate_unified_config validate_unified_secrets is_secret_fine secret_location_for_id
    prefixed_location before_suffix backend_secret_location validate_managed_secret are_packet_ids
    topology_from_unified backends_from backend_from primary_or_first humanize_backend_id join
    upper_byte to_upper replace_byte contains_byte validate_topology validate_backends check_fields
    check_policy every has_reserved is_adapter is_backend_id is_env_name is_routing_mode
    write_and_verify write_unified_config serialize_unified_config prepare_unified_config verify
    finish rollback
refused_short = refl

fails_late : (write_and_verify host full current (page (codes "short")) disk).0 ≡ not_generated
unfolding read_line read_lines document_of add_section set_value insert delete select cut split
    trim_space trim_left trim_right is_space to_lower lower_byte has_prefix ends_with drop_last
    parse_ini render_unified_config document_lines unlines section_lines ordered_sections
    ordered_keys keys_for value_lines lookup has_key value_or text_beq sort_strings insert_sorted
    text_less any get get_int get_bool within switch_value is_reference env_name_from_reference
    value_or_default int_or bool_or or_else parse_int parse_digits format_int format_nat
    validate_unified_config validate_unified_secrets is_secret_fine secret_location_for_id
    prefixed_location before_suffix backend_secret_location validate_managed_secret are_packet_ids
    topology_from_unified backends_from backend_from primary_or_first humanize_backend_id join
    upper_byte to_upper replace_byte contains_byte validate_topology validate_backends check_fields
    check_policy every has_reserved is_adapter is_backend_id is_env_name is_routing_mode
    write_and_verify write_unified_config serialize_unified_config prepare_unified_config verify
    finish rollback
fails_late = refl

generation_fails : (write_and_verify host full current (page (codes "short")) disk).0 ≢ not_written
generation_fails h =
    let other : not_generated ≡ not_written = sym fails_late ∙ h in absurd (cc other)

write_and_verify-unrestored_example :
    (write_and_verify host full current (page (codes "short")) disk).1.config
    ≡ render_unified_config current
write_and_verify-unrestored_example =
    write_and_verify-unrestored host full current (page (codes "short")) disk refused_short
      generation_fails
