-- ===== src/Controller/Force.antt =====
-- Forced unloads, moves between places, and the cleanup at shutdown.
use fossilsafe_t.Prelude.{
  ℕ, String, Bool, true, false, not, ◌||◌, Option, none, some, List, [], ◌∷◌, if◌then◌else◌, ◌==◌,
  nat_eq, string_eq, truth,
}
use fossilsafe_t.Controller.Hardware.{Reply, Hardware}
use fossilsafe_t.Controller.State.{
  Controller, set_mounted_tape, get_mounted_tape, remember_home_slot, clear_home_slot, enter_busy,
}
use fossilsafe_t.Controller.Action.{
  Fault, tape_load, tape_unload, hardware_error, unload_uncertain, Answer, ok, raised, Action, pure,
  raise, reads, choose, writes, or_default, ◌>>=◌,
}
use fossilsafe_t.Controller.Commands.{
  System, update, run_mtx_command, get_drive_status, refresh_inventory_cache,
  confirm_drive_unloaded,
}
use fossilsafe_t.Controller.Moves.{
  leave_busy, busy_section, unmount_if_mounted, chosen_slot, forget_tape, unload_tape,
}

-- A place that a move names.
pub data Location : Type 0 where
  slot : ℕ → Location
  drive : ℕ → Location
  mailslot : ℕ → Location

module _ (hw : Hardware) where
  -- The unload itself, and whether there was an error, an earlier one included.
  unfoldable pub force_command : ℕ → ℕ → Bool → Action (System hw) Bool
  force_command n to failed = run_mtx_command hw (hw.unload to n) >>= λ late.
      choose late (confirm_drive_unloaded hw) (pure true) >>= λ sure.
      writes (update hw λ c. clear_home_slot n (set_mounted_tape n none c)) >>= λ _.
      pure (failed || not sure)

  -- The `except` and the `finally`: an exception of the command itself is not an error of the list.
  abbrev pub settle : ℕ → Bool → Answer Bool × System hw → Answer Bool × System hw
  settle n failed (ok true, s) =
      (raised tape_unload, leave_busy hw false (update hw (set_mounted_tape n none) s))
  settle n failed (ok false, s) = (ok true, leave_busy hw true s)
  settle n failed (raised e, s) =
      (raised tape_unload, leave_busy hw (not failed) (update hw (set_mounted_tape n none) s))

  unfoldable pub force_section : ℕ → ℕ → Bool → Action (System hw) Bool
  force_section n to failed s = settle n failed (force_command n to failed (update hw enter_busy s))

  unfoldable pub force_to : ℕ → Bool → Option ℕ → Action (System hw) Bool
  force_to n failed none = raise unload_uncertain
  force_to n failed (some to) = force_section n to failed

  unfoldable pub force_by_hand : ℕ → Bool → Action (System hw) Bool
  force_by_hand n failed =
      writes (update hw (forget_tape n)) >>= λ _. choose failed (raise unload_uncertain) (pure true)

  unfoldable pub force_unload_tape : ℕ → Option ℕ → Action (System hw) Bool
  force_unload_tape n dest = reads (λ s. s.controller) >>= λ c.
      or_default true (unmount_if_mounted hw n >>= λ _. pure false) >>= λ failed.
      choose c.drive_only_mode (force_by_hand n failed)
        (chosen_slot hw dest n (get_mounted_tape n c) >>= λ to. force_to n failed to)

  -- The commands that a move can run; a timeout raises, an exit code does not.
  unfoldable pub run_or_raise :
      (hw.World → Reply × hw.World) → Fault → (Controller → Controller) → Action (System hw) Bool
  run_or_raise command fault note = run_mtx_command hw command >>= λ late.
      choose late (raise fault) (writes (update hw note) >>= λ _. pure true)

  abbrev pub note_move : ℕ → ℕ → Option String → Controller → Controller
  note_move n from barcode c =
      remember_home_slot n from barcode (if truth barcode then set_mounted_tape n barcode c else c)

  unfoldable pub run_move : Location → Location → Option String → Action (System hw) Bool
  run_move (slot a) (drive b) barcode = run_or_raise (hw.load a b) tape_load (note_move b a barcode)
  run_move (drive a) (slot b) barcode =
      run_or_raise (hw.unload b a) tape_unload (λ c. clear_home_slot a (set_mounted_tape a none c))
  run_move (slot a) (slot b) barcode = run_or_raise (hw.transfer a b) hardware_error (λ c. c)
  run_move (mailslot a) (slot b) barcode = run_or_raise (hw.transfer a b) hardware_error (λ c. c)
  run_move (mailslot a) (drive b) barcode = run_or_raise (hw.transfer a b) hardware_error (λ c. c)
  run_move (mailslot a) (mailslot b) barcode =
      run_or_raise (hw.transfer a b) hardware_error (λ c. c)
  run_move (slot a) (mailslot b) barcode = run_or_raise (hw.transfer a b) hardware_error (λ c. c)
  run_move (drive a) (mailslot b) barcode = run_or_raise (hw.transfer a b) hardware_error (λ c. c)
  run_move (drive a) (drive b) barcode = raise hardware_error

  unfoldable pub is_refused : Location → Location → Bool
  is_refused (slot a) (slot b) = a == b
  is_refused (drive a) (drive b) = true
  is_refused _ _ = false

  unfoldable pub move_tape : Location → Location → Option String → Action (System hw) Bool
  move_tape source destination barcode = reads (λ s. s.controller.drive_only_mode) >>= λ drive_only.
      choose (drive_only || is_refused source destination) (raise hardware_error)
        (refresh_inventory_cache hw >>= λ _. busy_section hw (run_move source destination barcode))

  -- Lines 275 to 286 for one drive: what is raised is written down, and the next drive follows.
  unfoldable pub holds_tape : ℕ → Action (System hw) Bool
  holds_tape n = reads (λ s. s.controller) >>= λ c.
      choose c.drive_only_mode (pure (truth (get_mounted_tape n c)))
        (get_drive_status hw >>= λ status. pure status.in_use)

  unfoldable pub clean_up_drive : ℕ → Action (System hw) Unit
  clean_up_drive n = or_default tt (
      holds_tape n >>= λ holds.
      choose holds
        (or_default tt (unmount_if_mounted hw n) >>= λ _. unload_tape hw n none >>= λ _. pure tt)
        (pure tt))

  unfoldable pub safe_shutdown_cleanup : List ℕ → Action (System hw) Unit
  safe_shutdown_cleanup [] = pure tt
  safe_shutdown_cleanup (n ∷ drives) = clean_up_drive n >>= λ _. safe_shutdown_cleanup drives
