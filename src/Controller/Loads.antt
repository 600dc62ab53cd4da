-- ===== src/Controller/Loads.antt =====
-- Loads, and the cleaning of a drive with a cleaning tape.
use fossilsafe_t.Prelude.{
  ℕ, String, Bool, true, false, not, ◌&&◌, Option, none, some, List, [], ◌∷◌, if◌then◌else◌, ◌==◌,
  nat_eq, string_eq, is_text, text_truth, truth,
}
use fossilsafe_t.Controller.Hardware.{Hardware}
use fossilsafe_t.Controller.State.{set_mounted_tape, get_mounted_tape}
use fossilsafe_t.Controller.Status.{
  Availability, available, loaded, empty, Entry, DriveStatus, slot_of,
}
use fossilsafe_t.Controller.Action.{
  tape_load, communication_error, Action, pure, raise, reads, choose, writes, rethrow, ◌>>=◌,
}
use fossilsafe_t.Controller.Commands.{
  System, update, get_drive_status, scan_barcodes, refresh_inventory_cache,
}
use fossilsafe_t.Controller.Moves.{
  poll_tape_alerts, busy_section, run_load, remember_source, unload_tape,
}

-- `text_truth` of what the drive reports, and its difference from what is asked for.
unfoldable pub is_mismatch : Option String → String → Bool
is_mismatch none barcode = false
is_mismatch (some found) barcode = text_truth found && not (found == barcode)

module _ (hw : Hardware) where
  unfoldable pub claim_tape : String → ℕ → Action (System hw) Bool
  claim_tape barcode drive =
      writes (
        update hw λ c.
          set_mounted_tape drive (some barcode) (record c { manual_tape_barcode = some barcode }))
      >>= λ _. pure true

  unfoldable pub load_by_hand : String → ℕ → Action (System hw) Bool
  load_by_hand barcode drive = get_drive_status hw >>= λ status.
      reads (λ s. hw.tapeinfo s.world) >>= λ found.
      choose (is_mismatch found barcode) (raise tape_load) (claim_tape barcode drive)

  unfoldable pub already_loaded : String → ℕ → DriveStatus → Action (System hw) Bool
  already_loaded barcode drive status =
      writes (
        update hw λ c.
          remember_source drive status.source_slot (some barcode)
            (set_mounted_tape drive (some barcode) c))
      >>= λ _. pure true

  unfoldable pub unload_if_mounted : ℕ → Action (System hw) Unit
  unload_if_mounted drive = reads (λ s. get_mounted_tape drive s.controller) >>= λ mounted.
      choose (truth mounted) (unload_tape hw drive none >>= λ _. pure tt) (pure tt)

  unfoldable pub load_from : String → ℕ → Option ℕ → Action (System hw) Bool
  load_from barcode drive none = raise tape_load
  load_from barcode drive (some slot) =
      unload_if_mounted drive >>= λ _. busy_section hw (run_load hw barcode drive slot)

  unfoldable pub empty_if_used : ℕ → DriveStatus → Action (System hw) Unit
  empty_if_used drive status =
      choose status.in_use (unload_tape hw drive none >>= λ _. pure tt) (pure tt)

  unfoldable pub load_after : String → ℕ → DriveStatus → Action (System hw) Bool
  load_after barcode drive status = empty_if_used drive status >>= λ _.
      scan_barcodes hw >>= λ tapes. load_from barcode drive (slot_of barcode tapes)

  unfoldable pub load_by_changer : String → ℕ → Action (System hw) Bool
  load_by_changer barcode drive = poll_tape_alerts hw drive >>= λ _.
      refresh_inventory_cache hw >>= λ _. get_drive_status hw >>= λ status.
      choose (status.in_use && is_text status.loaded_tape barcode)
        (already_loaded barcode drive status) (load_after barcode drive status)

  unfoldable pub load_tape : String → ℕ → Action (System hw) Bool
  load_tape barcode drive = reads (λ s. s.controller.drive_only_mode) >>= λ drive_only.
      choose drive_only (load_by_hand barcode drive)
        (rethrow tape_load (load_by_changer barcode drive))

  -- Load, wait, unload. The tape is the one named, or the first cleaning tape that is found; which
  -- entries are cleaning tapes is `is_cleaning`.
  unfoldable pub clean_with : ℕ → Option String → Action (System hw) Bool
  clean_with drive none = raise tape_load
  clean_with drive (some barcode) =
      load_tape barcode drive >>= λ _. unload_tape hw drive none >>= λ _. pure true

  abbrev pub is_shelved : Availability → Bool
  is_shelved available = true
  is_shelved loaded = false
  is_shelved empty = false

  unfoldable pub first_cleaning : (String → Bool) → List Entry → Option String
  first_cleaning is_cleaning [] = none
  first_cleaning is_cleaning (e ∷ entries) =
      let rest = first_cleaning is_cleaning entries in
      elim e.barcode [
        | none ↦ rest
        | some b ↦ if is_cleaning b && is_shelved e.status then some b else rest
      ]

  unfoldable pub find_cleaning :
      (String → Bool) → Option String → Action (System hw) (Option String)
  find_cleaning is_cleaning none =
      scan_barcodes hw >>= λ tapes. pure (first_cleaning is_cleaning tapes)
  find_cleaning is_cleaning (some b) =
      choose (text_truth b) (pure (some b))
        (scan_barcodes hw >>= λ tapes. pure (first_cleaning is_cleaning tapes))

  unfoldable pub clean_drive : (String → Bool) → Option String → ℕ → Action (System hw) Bool
  clean_drive is_cleaning barcode drive =
      rethrow communication_error
        (find_cleaning is_cleaning barcode >>= λ tape. clean_with drive tape)
