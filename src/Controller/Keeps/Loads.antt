-- ===== src/Controller/Keeps/Loads.antt =====
-- What loads, forced unloads and other moves keep, for a property of the controller that allows them.
use fossilsafe_t.Prelude.{
  ℕ, suc, String, Bool, true, false, not, Option, none, some, nat_eq, string_eq,
}
use fossilsafe_t.Controller.Hardware.{Hardware}
use fossilsafe_t.Controller.State.{Controller, enter_busy}
use fossilsafe_t.Controller.Status.{DriveStatus}
use fossilsafe_t.Controller.Action.{tape_load, Answer, ok, raised}
use fossilsafe_t.Controller.Action.Rules.{
  Preserves, preserve_rules, Preserves-bind, Preserves-pure, Preserves-raise, Preserves-choose,
}
use fossilsafe_t.Controller.Commands.{System, update}
use fossilsafe_t.Controller.Moves.{note_loaded, run_load}
use fossilsafe_t.Controller.Loads.{
  claim_tape, load_by_hand, already_loaded, unload_if_mounted, load_from, empty_if_used, load_after,
  load_by_changer, load_tape,
}
use fossilsafe_t.Controller.Force.{
  force_command, settle, force_section, force_to, force_by_hand, force_unload_tape,
}
use fossilsafe_t.Controller.Keeps.{
  Kept, Holds, run_mtx_command-keeps, get_drive_status-keeps, scan_barcodes-keeps, refresh-keeps,
  confirm_loaded-keeps, confirm_unloaded-keeps,
}
use fossilsafe_t.Controller.Keeps.Moves.{
  writes-keeps, poll-keeps, unmount_if-keeps, leave_busy-keeps, busy_section-keeps,
  chosen_slot-keeps, forget-keeps, remember_source-keeps, unload_tape-keeps,
}

module _ {P : ℕ → Controller → Type 0} {May : ℕ → Option String → Type 0} (k : Kept P May)
    (hw : Hardware) where
  note_loaded-keeps :
      (n : ℕ) (b : String) (d s : ℕ)
      → May d (some b)
      → Preserves (Holds k hw n) (note_loaded hw b d s)
  unfolding note_loaded
  note_loaded-keeps n b d s may =
      Preserves-bind _ _
        (writes-keeps k hw n _
          λ c p. k.remembered n d s (some b) _ (k.mounted n d (some b) c may p))
        (λ _. Preserves-pure true)

  run_load-keeps :
      (n : ℕ) (b : String) (d s : ℕ) → May d (some b) → Preserves (Holds k hw n) (run_load hw b d s)
  unfolding run_load
  run_load-keeps n b d s may =
      search (preserve_rules, run_mtx_command-keeps, confirm_loaded-keeps, note_loaded-keeps)

  claim-keeps :
      (n : ℕ) (b : String) (d : ℕ) → May d (some b) → Preserves (Holds k hw n) (claim_tape hw b d)
  unfolding claim_tape
  claim-keeps n b d may =
      Preserves-bind _ _
        (writes-keeps k hw n _ λ c p. k.mounted n d (some b) _ may (k.claimed n c (some b) p))
        (λ _. Preserves-pure true)

  load_by_hand-keeps :
      (n : ℕ) (b : String) (d : ℕ) → May d (some b) → Preserves (Holds k hw n) (load_by_hand hw b d)
  unfolding load_by_hand
  load_by_hand-keeps n b d may = search (preserve_rules, get_drive_status-keeps, claim-keeps)

  already_loaded-keeps :
      (n : ℕ) (b : String) (d : ℕ) (status : DriveStatus)
      → May d (some b)
      → Preserves (Holds k hw n) (already_loaded hw b d status)
  unfolding already_loaded
  already_loaded-keeps n b d status may =
      Preserves-bind _ _
        (writes-keeps k hw n _ λ c p.
          remember_source-keeps k hw n d status.source_slot (some b) _
            (k.mounted n d (some b) c may p))
        (λ _. Preserves-pure true)

  unload_if-keeps : (n d : ℕ) → May d none → Preserves (Holds k hw n) (unload_if_mounted hw d)
  unfolding unload_if_mounted
  unload_if-keeps n d may = search (preserve_rules, unload_tape-keeps)

  load_from-keeps :
      (n : ℕ) (b : String) (d : ℕ) (o : Option ℕ)
      → May d none
      → May d (some b)
      → Preserves (Holds k hw n) (load_from hw b d o)
  unfolding load_from
  load_from-keeps n b d none out may = Preserves-raise tape_load
  load_from-keeps n b d (some s) out may =
      Preserves-bind _ _ (unload_if-keeps n d out)
        λ _. busy_section-keeps k hw n _ (run_load-keeps (suc n) b d s may)

  empty_if-keeps :
      (n d : ℕ) (status : DriveStatus)
      → May d none
      → Preserves (Holds k hw n) (empty_if_used hw d status)
  unfolding empty_if_used
  empty_if-keeps n d status may = search (preserve_rules, unload_tape-keeps)

  load_after-keeps :
      (n : ℕ) (b : String) (d : ℕ) (status : DriveStatus)
      → May d none
      → May d (some b)
      → Preserves (Holds k hw n) (load_after hw b d status)
  unfolding load_after
  load_after-keeps n b d status out may =
      search (preserve_rules, empty_if-keeps, scan_barcodes-keeps, load_from-keeps)

  load_by_changer-keeps :
      (n : ℕ) (b : String) (d : ℕ)
      → May d none
      → May d (some b)
      → Preserves (Holds k hw n) (load_by_changer hw b d)
  unfolding load_by_changer
  load_by_changer-keeps n b d out may = search (
    preserve_rules, poll-keeps, refresh-keeps, get_drive_status-keeps, already_loaded-keeps,
    load_after-keeps,
  )

  pub load_tape-keeps :
      (n : ℕ) (b : String) (d : ℕ)
      → May d none
      → May d (some b)
      → Preserves (Holds k hw n) (load_tape hw b d)
  unfolding load_tape
  load_tape-keeps n b d out may = search (preserve_rules, load_by_hand-keeps, load_by_changer-keeps)

  force_command-keeps :
      (n d s : ℕ) (failed : Bool)
      → May d none
      → Preserves (Holds k hw n) (force_command hw d s failed)
  unfolding force_command
  force_command-keeps n d s failed may = Preserves-bind _ _ (run_mtx_command-keeps k hw n _) λ late.
      Preserves-bind _ _
        (Preserves-choose late _ _ (confirm_unloaded-keeps k hw n) (Preserves-pure true))
        λ sure.
          Preserves-bind _ _
            (writes-keeps k hw n _ λ c p. k.cleared n d _ (k.mounted n d none c may p))
            (λ _. Preserves-pure _)

  settle-keeps :
      (n d : ℕ) (failed : Bool) (r : Answer Bool × System hw)
      → May d none
      → Holds k hw (suc n) r.1
      → Holds k hw n (settle hw d failed r).1
  unfolding update
  settle-keeps n d failed (ok true, s) may p =
      leave_busy-keeps k hw n false _ (k.mounted (suc n) d none s.controller may p)
  settle-keeps n d failed (ok false, s) may p = leave_busy-keeps k hw n true s p
  settle-keeps n d failed (raised e, s) may p =
      leave_busy-keeps k hw n (not failed) _ (k.mounted (suc n) d none s.controller may p)

  force_to-keeps :
      (n d : ℕ) (failed : Bool) (o : Option ℕ)
      → May d none
      → Preserves (Holds k hw n) (force_to hw d failed o)
  unfolding force_to force_section update
  force_to-keeps n d failed none may = Preserves-raise _
  force_to-keeps n d failed (some s) may = record {
    holds = λ t p. settle-keeps n d failed _ may (
        (force_command-keeps (suc n) d s failed may).holds (update hw enter_busy t)
          (k.entered n t.controller p));
  }

  force_by_hand-keeps :
      (n d : ℕ) (failed : Bool) → May d none → Preserves (Holds k hw n) (force_by_hand hw d failed)
  unfolding force_by_hand
  force_by_hand-keeps n d failed may = search (preserve_rules, forget-keeps)

  pub force_unload-keeps :
      (n d : ℕ) (dest : Option ℕ)
      → May d none
      → Preserves (Holds k hw n) (force_unload_tape hw d dest)
  unfolding force_unload_tape
  force_unload-keeps n d dest may =
      search
        (preserve_rules, unmount_if-keeps, force_by_hand-keeps, chosen_slot-keeps, force_to-keeps)
        depth 9
