-- ===== src/Controller/Keeps/Operations.antt =====
-- What every operation keeps, and every sequence of operations.
use fossilsafe_t.Prelude.{
  ℕ, String, Bool, true, false, Option, none, some, List, [], ◌∷◌, if◌then◌else◌, All, nat_eq,
  string_eq, truth,
}
use fossilsafe_t.Controller.Hardware.{Reply, Hardware}
use fossilsafe_t.Controller.State.{Controller, set_mounted_tape, remember_home_slot}
use fossilsafe_t.Controller.Action.{Fault}
use fossilsafe_t.Controller.Action.Rules.{
  Preserves, preserve_rules, Preserves-bind, Preserves-pure, Preserves-raise,
}
use fossilsafe_t.Controller.Commands.{System}
use fossilsafe_t.Controller.Loads.{find_cleaning, clean_with, clean_drive}
use fossilsafe_t.Controller.Force.{
  Location, slot, drive, mailslot, run_or_raise, run_move, move_tape, holds_tape, clean_up_drive,
  safe_shutdown_cleanup,
}
use fossilsafe_t.Controller.Operations.{
  Operation, load, unload, force, move, clean, shutdown, perform, perform_all,
}
use fossilsafe_t.Controller.Keeps.{
  Kept, Holds, run_mtx_command-keeps, get_drive_status-keeps, scan_barcodes-keeps, refresh-keeps,
}
use fossilsafe_t.Controller.Keeps.Moves.{
  writes-keeps, unmount_if-keeps, busy_section-keeps, unload_tape-keeps,
}
use fossilsafe_t.Controller.Keeps.Loads.{load_tape-keeps, force_unload-keeps}

-- The tapes that a move may note: of the drives that it names.
abbrev pub MayMove : (ℕ → Option String → Type 0) → Location → Location → Option String → Type 0
MayMove May (slot a) (drive b) barcode = May b barcode
MayMove May (drive a) (slot b) barcode = May a none
MayMove May _ _ barcode = Unit

abbrev pub Allowed : (ℕ → Option String → Type 0) → Operation → Type 0
Allowed May (load barcode d) = May d none × May d (some barcode)
Allowed May (unload d dest) = May d none
Allowed May (force d dest) = May d none
Allowed May (move source destination barcode) = MayMove May source destination barcode
Allowed May (clean is_cleaning barcode d) = (b : Option String) → May d b
Allowed May (shutdown drives) = (d : ℕ) → May d none

module _ {P : ℕ → Controller → Type 0} {May : ℕ → Option String → Type 0} (k : Kept P May)
    (hw : Hardware) where
  run_or_raise-keeps :
      (n : ℕ) (command : hw.World → Reply × hw.World) (e : Fault) (f : Controller → Controller)
      → ((c : Controller) → P n c → P n (f c))
      → Preserves (Holds k hw n) (run_or_raise hw command e f)
  unfolding run_or_raise
  run_or_raise-keeps n command e f h = search (preserve_rules, run_mtx_command-keeps, writes-keeps)

  noted-keeps :
      (n d s : ℕ) (b : Option String) (t : Bool) (c : Controller)
      → May d b
      → P n c
      → P n (remember_home_slot d s b (if t then set_mounted_tape d b c else c))
  noted-keeps n d s b true c may p = k.remembered n d s b _ (k.mounted n d b c may p)
  noted-keeps n d s b false c may p = k.remembered n d s b c p

  run_move-keeps :
      (n : ℕ) (a b : Location) (t : Option String)
      → MayMove May a b t
      → Preserves (Holds k hw n) (run_move hw a b t)
  unfolding run_move
  run_move-keeps n (slot a) (drive b) t may =
      run_or_raise-keeps n _ _ _ λ c p. noted-keeps n b a t (truth t) c may p
  run_move-keeps n (drive a) (slot b) t may =
      run_or_raise-keeps n _ _ _ λ c p. k.cleared n a _ (k.mounted n a none c may p)
  run_move-keeps n (slot a) (slot b) t may = run_or_raise-keeps n _ _ _ λ c p. p
  run_move-keeps n (mailslot a) (slot b) t may = run_or_raise-keeps n _ _ _ λ c p. p
  run_move-keeps n (mailslot a) (drive b) t may = run_or_raise-keeps n _ _ _ λ c p. p
  run_move-keeps n (mailslot a) (mailslot b) t may = run_or_raise-keeps n _ _ _ λ c p. p
  run_move-keeps n (slot a) (mailslot b) t may = run_or_raise-keeps n _ _ _ λ c p. p
  run_move-keeps n (drive a) (mailslot b) t may = run_or_raise-keeps n _ _ _ λ c p. p
  run_move-keeps n (drive a) (drive b) t may = Preserves-raise _

  move_tape-keeps :
      (n : ℕ) (a b : Location) (t : Option String)
      → MayMove May a b t
      → Preserves (Holds k hw n) (move_tape hw a b t)
  unfolding move_tape
  move_tape-keeps n a b t may =
      search (preserve_rules, refresh-keeps, busy_section-keeps, run_move-keeps)

  find_cleaning-keeps :
      (n : ℕ) (is_cleaning : String → Bool) (t : Option String)
      → Preserves (Holds k hw n) (find_cleaning hw is_cleaning t)
  unfolding find_cleaning
  find_cleaning-keeps n is_cleaning none = search (preserve_rules, scan_barcodes-keeps)
  find_cleaning-keeps n is_cleaning (some b) = search (preserve_rules, scan_barcodes-keeps)

  clean_with-keeps :
      (n d : ℕ) (t : Option String)
      → ((b : Option String) → May d b)
      → Preserves (Holds k hw n) (clean_with hw d t)
  unfolding clean_with
  clean_with-keeps n d none may = Preserves-raise _
  clean_with-keeps n d (some b) may =
      Preserves-bind _ _ (load_tape-keeps k hw n b d (may none) (may (some b))) λ _.
        Preserves-bind _ _ (unload_tape-keeps k hw n d none (may none)) (λ _. Preserves-pure true)

  clean_drive-keeps :
      (n d : ℕ) (is_cleaning : String → Bool) (t : Option String)
      → ((b : Option String) → May d b)
      → Preserves (Holds k hw n) (clean_drive hw is_cleaning t d)
  unfolding clean_drive
  clean_drive-keeps n d is_cleaning t may =
      search (preserve_rules, find_cleaning-keeps, clean_with-keeps)

  holds_tape-keeps : (n d : ℕ) → Preserves (Holds k hw n) (holds_tape hw d)
  unfolding holds_tape
  holds_tape-keeps n d = search (preserve_rules, get_drive_status-keeps)

  clean_up-keeps : (n d : ℕ) → May d none → Preserves (Holds k hw n) (clean_up_drive hw d)
  unfolding clean_up_drive
  clean_up-keeps n d may =
      search (preserve_rules, holds_tape-keeps, unmount_if-keeps, unload_tape-keeps) depth 8

  shutdown-keeps :
      (n : ℕ) (drives : List ℕ)
      → ((d : ℕ) → May d none)
      → Preserves (Holds k hw n) (safe_shutdown_cleanup hw drives)
  unfolding safe_shutdown_cleanup
  shutdown-keeps n [] may = Preserves-pure tt
  shutdown-keeps n (d ∷ drives) may =
      Preserves-bind _ _ (clean_up-keeps n d (may d)) λ _. shutdown-keeps n drives may

  pub perform-keeps :
      (n : ℕ) (o : Operation) → Allowed May o → Preserves (Holds k hw n) (perform hw o)
  unfolding perform
  perform-keeps n (load barcode d) may = load_tape-keeps k hw n barcode d may.0 may.1
  perform-keeps n (unload d dest) may = unload_tape-keeps k hw n d dest may
  perform-keeps n (force d dest) may = force_unload-keeps k hw n d dest may
  perform-keeps n (move a b t) may = move_tape-keeps n a b t may
  perform-keeps n (clean is_cleaning t d) may = clean_drive-keeps n d is_cleaning t may
  perform-keeps n (shutdown drives) may =
      Preserves-bind _ _ (shutdown-keeps n drives may) (λ _. Preserves-pure true)

  pub perform_all-keeps :
      (n : ℕ) (operations : List Operation) (s : System hw)
      → All (Allowed May) operations
      → P n s.controller
      → P n (perform_all hw operations s).controller
  unfolding perform_all
  perform_all-keeps n [] s may p = p
  perform_all-keeps n (o ∷ operations) s may p =
      perform_all-keeps n operations (perform hw o s).1 may.1 ((perform-keeps n o may.0).holds s p)
