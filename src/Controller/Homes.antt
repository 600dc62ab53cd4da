-- ===== src/Controller/Homes.antt =====
-- Slots that tapes return to, exit codes, and what a restart makes of the drive.
use fossilsafe_t.Prelude.{
  ℕ, String, ◌≡◌, refl, sym, ◌∙◌, Bool, true, false, Option, none, some, List, [], ◌∷◌, arith,
  if◌then◌else◌, ◌==◌, nat_eq, string_eq, str_iff,
}
use fossilsafe_t.Prelude.Dict.{lookup-insert_self}
use fossilsafe_t.Controller.Hardware.{
  Line, slot_line, drive_line, mail_line, other_line, exited, Hardware,
}
use fossilsafe_t.Controller.State.{
  Controller, set_mounted_tape, get_mounted_tape, remember_home_slot, is_other_tape, get_home_slot,
}
use fossilsafe_t.Controller.Status.{DriveStatus, no_status, or_none, drive_status_of}
use fossilsafe_t.Controller.Action.{
  Answer, ok, raised, pure, reads, writes, choose, or_default, default, continue, ◌>>=◌,
}
use fossilsafe_t.Controller.Commands.{
  System, with_world, update, run_mtx_command, receive, run_status, get_drive_status, read_drive,
  resolve_unload_slot, same_tape, trust_hardware, recover_state_on_startup,
}
use fossilsafe_t.Controller.Moves.{note_loaded, run_load}
use fossilsafe_t.Controller.Mounted.{if-cases, get-set_mounted_tape}

is_other_tape_self : (b : String) → is_other_tape (some b) (some b) ≡ false
unfolding is_other_tape
is_other_tape_self b = ground (str_iff b b, arith)

home_after :
    (d slot : ℕ) (b : String) (c : Controller)
    → get_home_slot d (some b) (remember_home_slot d slot (some b) c) ≡ some slot
unfolding get_home_slot remember_home_slot
home_after d slot b c =
    rw
      (
        lookup-insert_self d (record { slot = slot; barcode = some b }) c.home_slots,
        is_other_tape_self b,
      )
      refl

-- A tape that a load has noted goes back to the slot that it was loaded from, and no command is run
-- to find that slot.
pub resolve-note_loaded :
    (hw : Hardware) (b : String) (d slot : ℕ) (s : System hw)
    → resolve_unload_slot hw d (some b) (note_loaded hw b d slot s).1
      ≡ (ok (some slot), (note_loaded hw b d slot s).1)
unfolding resolve_unload_slot note_loaded reads writes ◌>>=◌ pure update
resolve-note_loaded hw b d slot s =
    rw (home_after d slot b (set_mounted_tape d (some b) s.controller)) refl

-- A load whose command ends with any exit code is believed: it returns, and the tape counts as
-- mounted.
pub run_load-exit :
    (hw : Hardware) (b : String) (d slot rc : ℕ) (s : System hw) (w : hw.World)
    → hw.load slot d s.world ≡ (exited rc, w)
    → run_load hw b d slot s ≡ note_loaded hw b d slot (with_world hw w s)
unfolding run_load run_mtx_command receive ◌>>=◌ choose
run_load-exit hw b d slot rc s w h = rw h refl

same_tape-equals : (a b : Option String) → same_tape a b ≡ true → a ≡ b
unfolding same_tape
same_tape-equals none none h = refl
same_tape-equals none (some b) h = cc
same_tape-equals (some a) none h = cc
same_tape-equals (some a) (some b) h = ground (str_iff b a, arith)

-- A drive that is not in use has no tape in a status.
abbrev IsHonest : DriveStatus → Type 0
IsHonest status = status.in_use ≡ false → status.loaded_tape ≡ none

if-IsHonest :
    (b : Bool) (x y : DriveStatus) → IsHonest x → IsHonest y → IsHonest (if b then x else y)
if-IsHonest true x y hx hy = hx
if-IsHonest false x y hx hy = hy

line-IsHonest :
    (full : Bool) (source : Option ℕ) (tag : Option String)
    → IsHonest (record {
      is_available = true;
      in_use = full;
      loaded_tape = if full then or_none tag else none;
      source_slot = source;
    })
line-IsHonest true source tag h = cc
line-IsHonest false source tag h = refl

module _ (d : ℕ) where
  status-IsHonest : (lines : List Line) → IsHonest (drive_status_of d lines)
  unfolding drive_status_of
  status-IsHonest [] h = refl
  status-IsHonest (slot_line n full tag ∷ lines) h = status-IsHonest lines h
  status-IsHonest (drive_line n full source tag ∷ lines) h =
      if-IsHonest (n == d) _ (drive_status_of d lines) (line-IsHonest full source tag)
        (status-IsHonest lines) h
  status-IsHonest (mail_line n full tag ∷ lines) h = status-IsHonest lines h
  status-IsHonest (other_line ∷ lines) h = status-IsHonest lines h

  trust-tape :
      (status : DriveStatus) (c : Controller)
      → IsHonest status
      → get_mounted_tape d (trust_hardware d status c) ≡ status.loaded_tape
  trust-tape status c honest =
      if-cases (λ x. get_mounted_tape d x ≡ status.loaded_tape)
        (same_tape status.loaded_tape (get_mounted_tape d c)) _ _
        (λ same. sym (same_tape-equals _ _ same))
        (λ differ.
          if-cases (λ x. get_mounted_tape d x ≡ status.loaded_tape) status.in_use _ _
            (λ used. get-set_mounted_tape d status.loaded_tape c)
            (λ free. get-set_mounted_tape d none _ ∙ sym (honest free)))

-- The status that the recovery reads: that of the drive, or none where it cannot be read.
abbrev pub seen : ℕ → Answer (Option (List Line)) → DriveStatus
seen d (ok output) = read_drive d output
seen d (raised e) = no_status

seen-IsHonest : (d : ℕ) (a : Answer (Option (List Line))) → IsHonest (seen d a)
seen-IsHonest d (ok none) h = refl
seen-IsHonest d (ok (some lines)) h = status-IsHonest d lines h
seen-IsHonest d (raised e) h = refl

abbrev pub with_none_busy : {hw : Hardware} → System hw → System hw
with_none_busy s = record s { controller = record s.controller { busy_operations = 0 } }

recovered :
    (hw : Hardware) (d : ℕ) (r : Answer (Option (List Line)) × System hw)
    → get_mounted_tape d
        (continue
          (λ status. writes (update hw (trust_hardware d status)))
          (default no_status (continue (λ output. pure (read_drive d output)) r))).1.controller
      ≡ (seen d r.0).loaded_tape
unfolding writes pure update
recovered hw d (ok output, t) =
    trust-tape d (read_drive d output) t.controller (seen-IsHonest d (ok output))
recovered hw d (raised e, t) = trust-tape d no_status t.controller (λ h. refl)

-- After a restart the drive counts as holding the tape that its status shows, and as empty where
-- the status cannot be read, whatever was remembered.
pub recover-tape :
    (hw : Hardware) (s : System hw)
    → get_mounted_tape s.controller.settings.drive_number
        (recover_state_on_startup hw s).1.controller
      ≡ (seen s.controller.settings.drive_number (run_status hw (with_none_busy s)).0).loaded_tape
unfolding recover_state_on_startup get_drive_status reads writes ◌>>=◌ or_default pure update
recover-tape hw s =
    recovered hw s.controller.settings.drive_number (run_status hw (with_none_busy s))
