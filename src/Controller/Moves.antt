-- ===== src/Controller/Moves.antt =====
-- The moves of tapes: loads, unloads, forced unloads and transfers, and the cleanup at shutdown.
use fossilsafe_t.Prelude.{
  ℕ, String, Bool, true, false, ◌||◌, Option, none, some, if◌then◌else◌, nat_eq, string_eq, truth,
}
use fossilsafe_t.Controller.Hardware.{Hardware}
use fossilsafe_t.Controller.State.{
  degraded, Controller, set_mounted_tape, get_mounted_tape, remember_home_slot, clear_home_slot,
  set_base_state, enter_busy, exit_busy,
}
use fossilsafe_t.Controller.Status.{DriveStatus}
use fossilsafe_t.Controller.Action.{
  tape_load, tape_unload, hardware_error, unmount_failed, Answer, ok, raised, Action, pure, raise,
  reads, choose, writes, rethrow, finally, ◌>>=◌,
}
use fossilsafe_t.Controller.Commands.{
  System, with_world, update, clock, run_mtx_command, get_drive_status, refresh_inventory_cache,
  confirm_drive_loaded, confirm_drive_unloaded, resolve_unload_slot,
}

unfoldable pub forget_tape : ℕ → Controller → Controller
forget_tape drive c = record (set_mounted_tape drive none c) { manual_tape_barcode = none }

unfoldable pub remember_source : ℕ → Option ℕ → Option String → Controller → Controller
remember_source drive none mounted c = c
remember_source drive (some slot) mounted c = remember_home_slot drive slot mounted c

abbrev pub known_or : Option String → DriveStatus → Option String
known_or none status = if status.in_use then status.loaded_tape else none
known_or (some b) status = some b

module _ (hw : Hardware) where
  unfoldable pub poll_tape_alerts : ℕ → Action (System hw) Unit
  poll_tape_alerts drive s =
      let result = hw.poll_alerts drive s.world in
      (if result.0 then raised hardware_error else ok tt, with_world hw result.1 s)

  unfoldable pub unmount_ltfs : ℕ → Action (System hw) Unit
  unmount_ltfs drive s =
      let result = hw.unmount drive s.world in
      (if result.0 then raised unmount_failed else ok tt, with_world hw result.1 s)

  abbrev pub unmount_if_mounted : ℕ → Action (System hw) Unit
  unmount_if_mounted drive = reads (λ s. hw.is_mounted drive s.world) >>= λ mounted.
      choose mounted (unmount_ltfs drive) (pure tt)

  -- The end of every move: `_exit_busy`, and then the refresh, which never raises.
  unfoldable pub leave_busy : Bool → System hw → System hw
  leave_busy success s =
      (refresh_inventory_cache hw (update hw (exit_busy (clock hw s) success) s)).1

  -- `_enter_busy`, the body of the `try`, and the `finally`: a body that returns is a success.
  unfoldable pub busy_section : {A : Type 0} → Action (System hw) A → Action (System hw) A
  busy_section body = writes (update hw enter_busy) >>= λ _. finally leave_busy body

  unfoldable pub note_loaded : String → ℕ → ℕ → Action (System hw) Bool
  note_loaded barcode drive slot =
      writes (
        update hw λ c.
          remember_home_slot drive slot (some barcode) (set_mounted_tape drive (some barcode) c))
      >>= λ _. pure true

  unfoldable pub note_unloaded : ℕ → Action (System hw) Bool
  note_unloaded drive =
      writes (update hw λ c. clear_home_slot drive (set_mounted_tape drive none c)) >>= λ _.
      pure true

  -- The command, and what is believed of it: a timeout only where the status confirms it.
  unfoldable pub run_load : String → ℕ → ℕ → Action (System hw) Bool
  run_load barcode drive slot = run_mtx_command hw (hw.load slot drive) >>= λ late.
      choose late
        (confirm_drive_loaded hw barcode >>= λ confirmed.
          choose confirmed (note_loaded barcode drive slot) (raise tape_load))
        (note_loaded barcode drive slot)

  unfoldable pub run_unload : ℕ → ℕ → Action (System hw) Bool
  run_unload drive slot = run_mtx_command hw (hw.unload slot drive) >>= λ late.
      choose late
        (confirm_drive_unloaded hw >>= λ confirmed.
          choose confirmed (note_unloaded drive) (raise tape_unload))
        (note_unloaded drive)

  -- The alerts are polled inside the `try`, once the unload is a success.
  abbrev pub after_unload : ℕ → Answer Bool × System hw → Answer Bool × System hw
  after_unload drive (ok b, s) =
      finally (λ _. leave_busy true) (poll_tape_alerts drive >>= λ _. pure b) s
  after_unload drive (raised e, s) = (raised e, leave_busy false s)

  unfoldable pub unload_section : ℕ → ℕ → Action (System hw) Bool
  unload_section drive slot s = after_unload drive (run_unload drive slot (update hw enter_busy s))

  -- Lines 928 to 979: the changer puts the tape into a slot.
  unfoldable pub unload_to : ℕ → Option ℕ → Action (System hw) Bool
  unload_to drive none =
      writes (λ s. update hw (set_base_state (clock hw s) degraded) s) >>= λ _. raise tape_unload
  unload_to drive (some slot) =
      writes (λ s. with_world hw (hw.eject drive s.world) s) >>= λ _. unload_section drive slot

  abbrev pub chosen_slot : Option ℕ → ℕ → Option String → Action (System hw) (Option ℕ)
  chosen_slot none drive mounted = resolve_unload_slot hw drive mounted
  chosen_slot (some slot) drive mounted = pure (some slot)

  unfoldable pub look_with_changer : ℕ → Option String → Action (System hw) (Bool × Option String)
  look_with_changer drive mounted = refresh_inventory_cache hw >>= λ _.
      get_drive_status hw >>= λ status.
      writes (update hw (remember_source drive status.source_slot (known_or mounted status)))
      >>= λ _. pure (status.in_use, known_or mounted status)

  -- Whether the drive has a tape, and which, as the state or else the changer says.
  unfoldable pub look_in_drive : ℕ → Action (System hw) (Bool × Option String)
  look_in_drive drive = reads (λ s. s.controller) >>= λ c.
      choose (c.drive_only_mode || truth (get_mounted_tape drive c))
        (pure (truth (get_mounted_tape drive c), get_mounted_tape drive c))
        (look_with_changer drive (get_mounted_tape drive c))

  unfoldable pub release : ℕ → Option ℕ → Option String → Action (System hw) Bool
  release drive dest mounted = unmount_if_mounted drive >>= λ _.
      reads (λ s. s.controller.drive_only_mode) >>= λ drive_only.
      choose drive_only (writes (update hw (forget_tape drive)) >>= λ _. pure true)
        (chosen_slot dest drive mounted >>= λ slot. unload_to drive slot)

  unfoldable pub unload_tape : ℕ → Option ℕ → Action (System hw) Bool
  unload_tape drive dest = rethrow tape_unload (
      look_in_drive drive >>= λ (occupied, mounted).
      choose occupied (release drive dest mounted) (pure true))
