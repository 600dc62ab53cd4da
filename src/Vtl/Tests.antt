-- ===== src/Vtl/Tests.antt =====
-- Runs of the virtual library, and the theorems at concrete inputs.
use fossilsafe_t.Prelude.{
  ℕ, ◌≤◌, ◌≡◌, refl, true, false, none, some, List, [], ◌∷◌, arith, nat_eq, string_eq, str_iff,
}
use fossilsafe_t.Prelude.Dict.{lookup, insert}
use fossilsafe_t.Vtl.State.{
  Vtl, VtlState, Tape, ok, err, key_error, in_other_drive, get, find_holder, load_state,
}
use fossilsafe_t.Vtl.Inventory.{load_tape, unload_tape, scan_barcodes, in_slot, in_drive}
use fossilsafe_t.Vtl.Media.{
  Call, load, unload, format, mount, run, mount_ltfs, format_tape, has_dir,
}
use fossilsafe_t.Vtl.Conservation.{count, total, run-total, IsWellFormed}
use fossilsafe_t.Vtl.Moves.{unload-load}
use fossilsafe_t.Vtl.Visibility.{listed, load_tape-hides}
use fossilsafe_t.Vtl.Persistence.{load_state-run}
use fossilsafe_t.Vtl.Mounts.{mount_ltfs-IsMounted, IsMounted}

abbrev blank : Tape
blank = record { formatted = false; label = "" }

abbrev two_tapes : VtlState
two_tapes = record {
  slots = (1, some "VTL001L8") ∷ (2, some "VTL002L8") ∷ [];
  drives = [];
  tapes = ("VTL001L8", blank) ∷ ("VTL002L8", blank) ∷ [];
}

abbrev shelf : Vtl
shelf = record {
  num_drives = 2;
  num_slots = 3;
  drive_only_mode = false;
  vtl_state = two_tapes;
  saved = none;
  tape_dirs = [];
  mounts = [];
  mounted_tapes = [];
}

abbrev loaded : Vtl
loaded = record shelf {
  vtl_state = record two_tapes {
    slots = (1, none) ∷ (2, some "VTL002L8") ∷ [];
    drives = (0, some "VTL001L8") ∷ [];
  };
  tape_dirs = "VTL002L8" ∷ [];
}

load_twice : (load_tape "VTL001L8" 1 loaded).0 ≡ err (in_other_drive 0)
unfolding load_tape find_holder
load_twice = refl

format-unknown :
    (format_tape 0 none
      (record loaded { vtl_state = record two_tapes { drives = (0, some "X") ∷ [] } })).0
    ≡ err key_error
unfolding format_tape lookup get has_dir
format-unknown = refl

scan-loaded :
    scan_barcodes loaded
    ≡ in_slot 2 "VTL002L8" ∷ in_drive 0 (some "VTL001L8") ∷ in_drive 1 none ∷ []
unfolding scan_barcodes lookup get
scan-loaded = refl

shelf-IsWellFormed : IsWellFormed shelf
unfolding lookup
shelf-IsWellFormed = record { library = refl; slots = ground arith; drives = tt }

abbrev history : List Call
history =
    load "VTL001L8" 0 ∷ format 0 none ∷ mount "VTL001L8" 0 ∷ load "VTL002L8" 0 ∷ unload 0 none ∷ []

run-total_example : total "VTL001L8" (run history shelf) ≡ total "VTL001L8" shelf
run-total_example =
    run-total "VTL001L8" history shelf (ground (arith, str_iff "VTL001L8" "")) shelf-IsWellFormed
      (omega arith)

unload-load_example :
    let v' = (load_tape "VTL002L8" 1 shelf).1 in
    ((load_tape "VTL002L8" 1 shelf).0 ≡ ok true)
    × ((unload_tape 1 none v').0 ≡ ok true)
    × (get 1 (unload_tape 1 none v').1.drives ≡ none)
    × ((s : ℕ) × (s ≤ 2) × (get s (unload_tape 1 none v').1.slots ≡ some "VTL002L8"))
unfolding find_holder get lookup
unload-load_example =
    unload-load "VTL002L8" 1 2 shelf (ground (arith, str_iff "VTL002L8" "")) refl refl refl
      (omega arith) (omega arith)

load_state-run_example :
    (load_state (run history (load_state shelf))).vtl_state
    ≡ (run history (load_state shelf)).vtl_state
load_state-run_example = load_state-run history shelf

mount_ltfs-IsMounted_example : IsMounted "VTL002L8" "VTL002L8" 1 (mount_ltfs "VTL002L8" 1 loaded).1
unfolding mount_ltfs find_holder get lookup insert has_dir
mount_ltfs-IsMounted_example = mount_ltfs-IsMounted "VTL002L8" "VTL002L8" 1 loaded (refl, tt) refl

alone : total "VTL001L8" shelf ≡ 1
unfolding count
alone = refl

load_tape-hides_example :
    ((load_tape "VTL001L8" 2 shelf).0 ≡ ok true)
    × (listed "VTL001L8" (scan_barcodes (load_tape "VTL001L8" 2 shelf).1) ≡ false)
unfolding find_holder get lookup
load_tape-hides_example =
    load_tape-hides "VTL001L8" 2 1 shelf shelf-IsWellFormed refl refl alone (omega arith)
