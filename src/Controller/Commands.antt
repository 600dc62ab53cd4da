-- ===== src/Controller/Commands.antt =====
-- The commands of the controller that ask the changer, and what it reads from their answers.
use fossilsafe_t.Prelude.{
  ℕ, ◌-◌, String, Bool, true, false, not, Option, none, some, List, [], ◌∷◌, ltb, if◌then◌else◌,
  ◌==◌, nat_eq, string_eq, is_text, text_truth, truth,
}
use fossilsafe_t.Controller.Hardware.{
  Line, Reply, exited, timed_out, not_run, StatusReply, printed, status_timed_out, status_not_run,
  Hardware,
}
use fossilsafe_t.Controller.State.{
  offline, same_state, Controller, set_mounted_tape, get_mounted_tape, get_home_slot,
  record_probe_success, record_probe_failure,
}
use fossilsafe_t.Controller.Status.{
  MailSlots, Entry, available, in_slot, parse_mtx_status, DriveStatus, no_status, or_none,
  drive_status_of, empty_slot,
}
use fossilsafe_t.Controller.Action.{
  hardware_error, communication_error, command_not_run, Answer, ok, raised, Action, pure, raise,
  reads, choose, writes, rethrow, or_default, ◌>>=◌,
}

-- The controller with the world that its commands act on.
pub record System (hw : Hardware) : Type 0 where
  pub controller : Controller
  pub mail_slots : MailSlots
  pub world : hw.World

unfoldable pub same_tape : Option String → Option String → Bool
same_tape none none = true
same_tape none (some b) = false
same_tape (some a) b = is_text b a

abbrev pub trust_hardware : ℕ → DriveStatus → Controller → Controller
trust_hardware drive status c =
    if same_tape status.loaded_tape (get_mounted_tape drive c)
    then c
    else let known = set_mounted_tape drive status.loaded_tape c in
      if status.in_use then known else set_mounted_tape drive none known

abbrev pub read_drive : ℕ → Option (List Line) → DriveStatus
read_drive drive none = no_status
read_drive drive (some lines) = drive_status_of drive lines

module _ (hw : Hardware) where
  unfoldable pub with_world : hw.World → System hw → System hw
  with_world w s = record s { world = w }

  unfoldable pub update : (Controller → Controller) → System hw → System hw
  update f s = record s { controller = f s.controller }

  unfoldable pub clock : System hw → ℕ
  clock s = hw.now s.world

  -- Where a status comes from the changer: only one with exit code 0 is kept. A status that failed
  -- gives the lines it printed; one that timed out gives none.
  unfoldable pub receive_status :
      ℕ → System hw → StatusReply × hw.World → Answer (Option (List Line)) × System hw
  unfolding with_world update
  receive_status at s (printed rc lines, w) = (
    ok (some lines),
    if rc == 0
        then update (λ c. record c { mtx_status_cache = some (at, lines) }) (with_world w s)
        else with_world w s,
  )
  receive_status at s (status_timed_out, w) = (ok none, with_world w s)
  receive_status at s (status_not_run, w) = (raised command_not_run, with_world w s)

  -- What is kept is taken while it is younger than the time to live.
  unfoldable pub cached_status : Option (ℕ × List Line) → Action (System hw) (Option (List Line))
  unfolding receive_status clock
  cached_status none s = receive_status (clock s) s (hw.status s.world)
  cached_status (some (at, lines)) s =
      if ltb (clock s - at) s.controller.settings.status_cache_ttl
      then (ok (some lines), s)
      else receive_status (clock s) s (hw.status s.world)

  unfoldable pub run_status : Action (System hw) (Option (List Line))
  unfolding cached_status
  run_status s = cached_status s.controller.mtx_status_cache s

  -- A command other than status: true where it timed out. The exit code is not looked at.
  unfoldable pub receive : System hw → Reply × hw.World → Answer Bool × System hw
  unfolding with_world
  receive s (exited rc, w) = (ok false, with_world w s)
  receive s (timed_out, w) = (ok true, with_world w s)
  receive s (not_run, w) = (raised command_not_run, with_world w s)

  unfoldable pub run_mtx_command : (hw.World → Reply × hw.World) → Action (System hw) Bool
  unfolding receive
  run_mtx_command command s = receive s (command s.world)

  -- The status of the configured drive, whichever drive the caller works on.
  unfoldable pub get_drive_status : Action (System hw) DriveStatus
  get_drive_status = reads (λ s. s.controller.settings.drive_number) >>= λ drive.
      or_default no_status (run_status >>= λ output. pure (read_drive drive output))

  abbrev pub entries_of : MailSlots → Option (List Line) → Action (System hw) (List Entry)
  entries_of mail none = raise communication_error
  entries_of mail (some lines) = pure (parse_mtx_status mail lines)

  unfoldable pub scan_status_only : Action (System hw) (List Entry)
  scan_status_only =
      reads (λ s. s.mail_slots) >>= λ mail. run_status >>= λ output. entries_of mail output

  unfoldable pub manual_entry : Option String → List Entry
  manual_entry none = []
  manual_entry (some b) =
      if text_truth b
      then record {
        slot = none;
        slot_index = none;
        barcode = some b;
        status = available;
        location_type = in_slot;
        drive_index = none;
        drive_source_slot = none;
      }
        ∷ []
      else []

  -- `deep` asks for an inventory first.
  unfoldable pub scan_changer : Bool → Action (System hw) (List Entry)
  scan_changer deep =
      choose deep
        (run_mtx_command hw.inventory >>= λ late.
          choose late (raise communication_error) scan_status_only)
        scan_status_only

  unfoldable pub scan_library : Bool → Action (System hw) (List Entry)
  scan_library deep = reads (λ s. s.controller) >>= λ c.
      choose c.drive_only_mode (pure (manual_entry c.manual_tape_barcode))
        (rethrow hardware_error (scan_changer deep))

  unfoldable pub scan_barcodes : Action (System hw) (List Entry)
  scan_barcodes = scan_library true

  unfoldable pub refresh_inventory_cache : Action (System hw) Unit
  refresh_inventory_cache = reads (λ s. s.controller.drive_only_mode) >>= λ drive_only.
      choose drive_only (pure tt) (or_default tt (scan_barcodes >>= λ entries. pure tt))

  abbrev pub if_used : DriveStatus → Option String
  if_used status = if status.in_use then status.loaded_tape else none

  -- The barcode of the current tape: none also where a tape has no barcode.
  unfoldable pub get_current_tape : ℕ → Action (System hw) (Option String)
  get_current_tape drive = reads (λ s. s.controller) >>= λ c.
      choose c.drive_only_mode (pure (or_none (get_mounted_tape drive c)))
        (get_drive_status >>= λ status. pure (if_used status))

  unfoldable pub confirm_drive_loaded : String → Action (System hw) Bool
  confirm_drive_loaded barcode =
      get_drive_status >>= λ status. pure (is_text status.loaded_tape barcode)

  unfoldable pub confirm_drive_unloaded : Action (System hw) Bool
  confirm_drive_unloaded = get_drive_status >>= λ status. pure (not (truth status.loaded_tape))

  abbrev pub first_empty : Option (List Line) → Option ℕ
  first_empty none = none
  first_empty (some lines) = empty_slot lines

  unfoldable pub find_empty_slot : Action (System hw) (Option ℕ)
  find_empty_slot = or_default none (run_status >>= λ output. pure (first_empty output))

  abbrev pub or_empty_slot : Option ℕ → Action (System hw) (Option ℕ)
  or_empty_slot none = find_empty_slot
  or_empty_slot (some slot) = pure (some slot)

  unfoldable pub resolve_unload_slot : ℕ → Option String → Action (System hw) (Option ℕ)
  resolve_unload_slot drive barcode =
      reads (λ s. get_home_slot drive barcode s.controller) >>= λ home. or_empty_slot home

  -- What a probe makes of its answer: only an exit by timeout or exception is a failure.
  abbrev pub note_probe : Answer (Option (List Line)) × System hw → Bool × System hw
  note_probe (ok (some lines), s) = (true, update (record_probe_success (clock s)) s)
  note_probe (ok none, s) =
      let t = update (record_probe_failure (clock s)) s in
      (not (same_state t.controller.base_library_state offline), t)
  note_probe (raised e, s) =
      let t = update (record_probe_failure (clock s)) s in
      (not (same_state t.controller.base_library_state offline), t)

  -- The forced check of a library with a changer.
  unfoldable pub check_library_status : System hw → Bool × System hw
  check_library_status s = note_probe (run_status s)

  unfoldable pub recover_state_on_startup : Action (System hw) Unit
  recover_state_on_startup = reads (λ s. s.controller.settings.drive_number) >>= λ drive.
      writes (update λ c. record c { busy_operations = 0 }) >>= λ _.
      get_drive_status >>= λ status. writes (update (trust_hardware drive status))
