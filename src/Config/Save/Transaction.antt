-- ===== src/Config/Save/Transaction.antt =====
-- A save is written and verified, or taken back (dashboard/config.go: writeAndVerifyUnifiedConfig).
use ninj_os_proxie_edge_fabr.Prelude.{
  ◌≡◌, ◌≢◌, refl, inl, inr, Bool, true, false, not, arith, if◌then◌else◌, Bool-cases,
}
use ninj_os_proxie_edge_fabr.Config.{Document}
use ninj_os_proxie_edge_fabr.Config.Render.{render_unified_config}
use ninj_os_proxie_edge_fabr.Config.Vault.{Host, validate_unified_config}
use ninj_os_proxie_edge_fabr.Config.Save.{
  Disk, Writes, SaveResult, saved, not_written, not_generated, not_readable, not_verified,
  serialize_unified_config, write_unified_config, prepare_unified_config, rollback, verify, finish,
  write_and_verify,
}

prepare-config :
    (host : Host) (ok : Bool) (disk : Disk)
    → (prepare_unified_config host ok disk).1.config ≡ disk.config
unfolding prepare_unified_config
prepare-config host ok disk = ground arith

prepare-generated :
    (host : Host) (ok : Bool) (disk : Disk)
    → (prepare_unified_config host ok disk).0 ≡ true
    → (prepare_unified_config host ok disk).1.generated ≡ disk.config
unfolding prepare_unified_config
prepare-generated host ok disk h = ground (arith, h)

write-config :
    (host : Host) (w : Writes) (candidate : Document) (disk : Disk)
    → (write_unified_config host w candidate disk).1.config ≡ (
        if (write_unified_config host w candidate disk).0
        then render_unified_config candidate
        else disk.config)
unfolding write_unified_config serialize_unified_config
write-config host w candidate disk = ground arith

-- What a file must be after a save with a result.
unfoldable pub Ends : Document → Document → Disk → SaveResult → Disk → Type 0
Ends candidate current before saved after =
    (after.config ≡ render_unified_config candidate) × (after.generated ≡ after.config)
Ends candidate current before not_written after = after.config ≡ before.config
Ends candidate current before not_generated after = after.config ≡ render_unified_config current
Ends candidate current before not_readable after = after.config ≡ render_unified_config current
Ends candidate current before not_verified after = after.config ≡ render_unified_config current

rollback-config :
    (host : Host) (w : Writes) (current : Document) (disk : Disk)
    → validate_unified_config host current ≡ true
    → w.restore ≡ true
    → (rollback host w (serialize_unified_config host current) disk).config
      ≡ render_unified_config current
unfolding rollback serialize_unified_config
rollback-config host w current disk v r =
    rw (v, r)
      (prepare-config host w.regenerate (record disk { config = render_unified_config current }))

finish-Ends :
    (host : Host) (w : Writes) (candidate current : Document) (before disk : Disk) (r : SaveResult)
    → validate_unified_config host current ≡ true
    → w.restore ≡ true
    → r ≢ not_written
    → (r ≡ saved → (disk.config ≡ render_unified_config candidate) × (disk.generated ≡ disk.config))
    → Ends candidate current before
        (finish host w (serialize_unified_config host current) r disk).0
        (finish host w (serialize_unified_config host current) r disk).1
unfolding finish Ends
finish-Ends host w candidate current before disk saved v k n h = h refl
finish-Ends host w candidate current before disk not_written v k n h = absurd (n refl)
finish-Ends host w candidate current before disk not_generated v k n h =
    rollback-config host w current disk v k
finish-Ends host w candidate current before disk not_readable v k n h =
    rollback-config host w current disk v k
finish-Ends host w candidate current before disk not_verified v k n h =
    rollback-config host w current disk v k

verify-not-not_written :
    (host : Host) (candidate : Document) (disk : Disk) → verify host candidate disk ≢ not_written
unfolding verify
verify-not-not_written host candidate disk h = ground (arith, h)

-- What the save reports once the file is written.
abbrev verdict : Host → Writes → Document → Disk → SaveResult
verdict host w candidate disk =
    if not (prepare_unified_config host w.generate disk).0
    then not_generated
    else verify host candidate (prepare_unified_config host w.generate disk).1

verdict-saved :
    (host : Host) (w : Writes) (candidate : Document) (disk : Disk)
    → disk.config ≡ render_unified_config candidate
    → verdict host w candidate disk ≡ saved
    → let after = (prepare_unified_config host w.generate disk).1 in
      (after.config ≡ render_unified_config candidate) × (after.generated ≡ after.config)
verdict-saved host w candidate disk c h =
    ground
      (arith, c, h, prepare-config host w.generate disk, prepare-generated host w.generate disk)

-- A save that reports success leaves the candidate's text in the file, with the gateway's files made
-- from it; one that fails before the file is replaced leaves it as it was; and one that fails later
-- puts the current document's text back. The current document is accepted by the check, and the
-- write that puts it back succeeds.
pub write_and_verify-Ends :
    (host : Host) (w : Writes) (candidate current : Document) (disk : Disk)
    → validate_unified_config host current ≡ true
    → w.restore ≡ true
    → Ends candidate current disk
        (write_and_verify host w candidate current disk).0
        (write_and_verify host w candidate current disk).1
unfolding write_and_verify
write_and_verify-Ends host w candidate current disk v r =
    elim (Bool-cases (write_unified_config host w candidate disk).0) [
      | inr failed ↦
          rw failed (unfold Ends in ground (arith, failed, write-config host w candidate disk))
      | inl written ↦ rw written (
          finish-Ends host w candidate current disk
            (prepare_unified_config host w.generate
              (write_unified_config host w candidate disk).1).1
            (verdict host w candidate (write_unified_config host w candidate disk).1) v r
            (λ h. ground (
              arith,
              h,
              verify-not-not_written host candidate
                  (prepare_unified_config host w.generate
                    (write_unified_config host w candidate disk).1).1,
            ))
            (λ h.
              verdict-saved host w candidate (write_unified_config host w candidate disk).1
                (ground (arith, written, write-config host w candidate disk)) h))
    ]

-- If the check does not accept the current document, a save that fails after the file is replaced
-- takes nothing back: the candidate's text stays in the file.
pub write_and_verify-unrestored :
    (host : Host) (w : Writes) (candidate current : Document) (disk : Disk)
    → validate_unified_config host current ≡ false
    → (write_and_verify host w candidate current disk).0 ≢ not_written
    → (write_and_verify host w candidate current disk).1.config ≡ render_unified_config candidate
unfolding write_and_verify finish rollback serialize_unified_config
write_and_verify-unrestored host w candidate current disk v n = ground (
  arith,
  v,
  n,
  write-config host w candidate disk,
  prepare-config host w.generate (write_unified_config host w candidate disk).1,
)
