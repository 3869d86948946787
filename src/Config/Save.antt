-- ===== src/Config/Save.antt =====
-- Saving the configuration (dashboard/config.go: serializeUnifiedConfig, writeUnifiedConfig,
-- writeAndVerifyUnifiedConfig, iniSectionEqual, iniKeyChanged, unifiedConfigRestartScope,
-- handleUnifiedConfig; dashboard/management.go: persistUnifiedDocument). The disk holds the file, its
-- backup and the text the files of the gateway were last made from; each write to it may fail. The
-- clean-up of transfer tickets after a save, the status file and the restart command are left out.
pub mod Transaction
use ninj_os_proxie_edge_fabr.Prelude.{
  Bool, true, false, not, ◌&&◌, ◌||◌, Option, none, some, List, [], ◌∷◌, nat_beq, if◌then◌else◌,
  Text, ◌==◌, length, any,
}
use ninj_os_proxie_edge_fabr.GoText.{codes}
use ninj_os_proxie_edge_fabr.GoMap.{lookup, value_or}
use ninj_os_proxie_edge_fabr.Config.{Document, parse_ini, get}
use ninj_os_proxie_edge_fabr.Config.Secrets.{
  redact_unified_document, merge_redacted_secrets, preserve_vault_managed_secrets,
}
use ninj_os_proxie_edge_fabr.Config.Render.{render_unified_config}
use ninj_os_proxie_edge_fabr.Config.Vault.{
  Host, validate_unified_config, SecretRequest, manage_secret,
}

-- `serializeUnifiedConfig`
unfoldable pub serialize_unified_config : Host → Document → Option Text
serialize_unified_config host doc =
    if validate_unified_config host doc then some (render_unified_config doc) else none

pub record Disk : Type 0 where
  pub config : Text
  pub backup : Text
  pub generated : Text

-- Which of the writes succeed.
pub record Writes : Type 0 where
  pub backup : Bool
  pub temporary : Bool
  pub rename : Bool
  pub generate : Bool
  pub restore : Bool
  pub regenerate : Bool

-- `writeUnifiedConfig`: does it succeed, and the disk.
unfoldable pub write_unified_config : Host → Writes → Document → Disk → Bool × Disk
write_unified_config host w doc disk = elim (serialize_unified_config host doc) [
  | none ↦ (false, disk)
  | some content ↦
      if not (disk.config == []) && not w.backup
      then (false, disk)
      else let disk' = if disk.config == [] then disk else record disk { backup = disk.config } in
        if w.temporary && w.rename
        then (true, record disk' { config = content })
        else (false, disk')
]

-- `prepareUnifiedConfig`, up to the files it writes for the gateway: `ok` tells whether it writes
-- them. The file is not empty here.
unfoldable pub prepare_unified_config : Host → Bool → Disk → Bool × Disk
prepare_unified_config host ok disk = elim (parse_ini disk.config) [
  | none ↦ (false, disk)
  | some doc ↦
      if not (validate_unified_config host doc) || not ok
      then (false, disk)
      else (true, record disk { generated = disk.config })
]

pub data SaveResult : Type 0 where
  saved not_written not_generated not_readable not_verified : SaveResult

-- `rollback`, with the text of the current document, if it has one.
unfoldable pub rollback : Host → Writes → Option Text → Disk → Disk
unfolding prepare_unified_config
rollback host w none disk = disk
rollback host w (some content) disk =
    (prepare_unified_config host w.regenerate
      (if w.restore then record disk { config = content } else disk)).1

abbrev same_text : Option Text → Option Text → Bool
same_text none none = true
same_text none (some t) = t == []
same_text (some s) none = s == []
same_text (some s) (some t) = s == t

-- The comparison of the document on disk with the candidate.
unfoldable pub verify : Host → Document → Disk → SaveResult
verify host candidate disk = elim (parse_ini disk.config) [
  | none ↦ not_readable
  | some persisted ↦
      if same_text (serialize_unified_config host candidate)
        (serialize_unified_config host persisted)
      then saved
      else not_verified
]

unfoldable pub finish : Host → Writes → Option Text → SaveResult → Disk → SaveResult × Disk
unfolding rollback
finish host w before saved disk = (saved, disk)
finish host w before not_written disk = (not_written, disk)
finish host w before not_generated disk = (not_generated, rollback host w before disk)
finish host w before not_readable disk = (not_readable, rollback host w before disk)
finish host w before not_verified disk = (not_verified, rollback host w before disk)

-- `writeAndVerifyUnifiedConfig`
unfoldable pub write_and_verify : Host → Writes → Document → Document → Disk → SaveResult × Disk
unfolding write_unified_config prepare_unified_config verify finish
write_and_verify host w candidate current disk =
    let before = serialize_unified_config host current in
    let (written, disk') = write_unified_config host w candidate disk in
    let (prepared, disk'') = prepare_unified_config host w.generate disk' in
    if not written
    then (not_written, disk')
    else finish host w before (if not prepared then not_generated else verify host candidate disk'')
        disk''

abbrev all_equal : List (Text × Text) → List (Text × Text) → Bool
all_equal [] right = true
all_equal ((key, v) ∷ values) right = value_or [] key right == v && all_equal values right

-- `iniSectionEqual`
unfoldable pub ini_section_equal : Document → Document → Text → Bool
ini_section_equal left right section =
    let l = value_or [] section left in
    let r = value_or [] section right in nat_beq (length l) (length r) && all_equal l r

-- `iniKeyChanged`
unfoldable pub ini_key_changed : Document → Document → Text → Text → Bool
ini_key_changed left right section key = not (get left section key [] == get right section key [])

pub data RestartScope : Type 0 where
  services gateway : RestartScope

-- `unifiedConfigRestartScope`
unfoldable pub unified_config_restart_scope : Document → Document → RestartScope
unfolding ini_section_equal ini_key_changed
unified_config_restart_scope current candidate =
    if any (λ s. not (ini_section_equal current candidate s))
        (codes "dashboard"
          ∷ codes "companion"
          ∷ codes "transfer"
          ∷ codes "logging"
          ∷ codes "discord"
          ∷ [])
      || any (λ k. ini_key_changed current candidate (codes "edge") k)
          (codes "instance_name" ∷ codes "public_host" ∷ [])
    then services
    else gateway

-- The answer to a request that changes the configuration.
pub data SaveAnswer : Type 0 where
  bad_request : SaveAnswer
  unreadable : SaveAnswer
  unsaved : SaveResult → SaveAnswer
  done : RestartScope → SaveAnswer

abbrev answer : RestartScope → SaveResult → SaveAnswer
answer scope saved = done scope
answer scope r = unsaved r

-- A document on its way to the disk, in the place of the current one.
unfoldable pub save_document : Host → Writes → Document → Document → Disk → SaveAnswer × Disk
unfolding write_and_verify unified_config_restart_scope
save_document host w candidate current disk =
    let (result, disk') = write_and_verify host w candidate current disk in
    if not (validate_unified_config host candidate)
    then (bad_request, disk)
    else (answer (unified_config_restart_scope current candidate) result, disk')

-- `handleUnifiedConfig` with GET: the text shown.
unfoldable pub show_config : Disk → Option Text
show_config disk = elim (parse_ini disk.config) [
  | none ↦ none
  | some doc ↦ some (render_unified_config (redact_unified_document doc))
]

-- `handleUnifiedConfig` with PUT and POST.
unfoldable pub put_config : Host → Writes → Text → Disk → SaveAnswer × Disk
unfolding save_document
put_config host w content disk = elim (parse_ini content) [
  | none ↦ (bad_request, disk)
  | some sent ↦ elim (parse_ini disk.config) [
    | none ↦ (unreadable, disk)
    | some current ↦
        save_document host w
          (preserve_vault_managed_secrets (merge_redacted_secrets sent current) current) current
          disk
  ]
]

-- `handleManagedSecrets` with PUT, and `persistUnifiedDocument`.
unfoldable pub put_secret_request : Host → Writes → SecretRequest → Disk → SaveAnswer × Disk
unfolding save_document manage_secret
put_secret_request host w r disk = elim (parse_ini disk.config) [
  | none ↦ (unreadable, disk)
  | some current ↦ elim (manage_secret host r current) [
    | none ↦ (bad_request, disk)
    | some candidate ↦ save_document host w candidate current disk
  ]
]
