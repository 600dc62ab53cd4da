-- ===== src/Vtl/Inventory.antt =====
-- `load_tape`, `unload_tape`, `scan_barcodes` and `get_drive_status`.
use fossilsafe_t.Prelude.{
  ℕ, zero, suc, String, Bool, true, Option, none, some, List, [], ◌∷◌, ◌++◌, if◌then◌else◌, ◌==◌,
  nat_eq, string_eq, truth,
}
use fossilsafe_t.Prelude.Dict.{Dict}
use fossilsafe_t.Vtl.State.{
  Vtl, drive_not_empty, not_in_slots, no_free_slots, in_other_drive, Result, ok, err, get,
  set_drive, set_slot, save_state, find_holder,
}

-- The move of `load_tape`, once the slot of the tape is known.
unfoldable pub move_to_drive : String → ℕ → ℕ → Vtl → Result Bool × Vtl
unfolding set_drive set_slot save_state
move_to_drive barcode drive slot v =
    if truth (get drive v.drives)
    then (err drive_not_empty, v)
    else (ok true, save_state (set_drive drive (some barcode) (set_slot slot none v)))

-- The end of `load_tape` for a tape that is in no slot.
unfoldable pub already_in_drive : String → ℕ → Vtl → Result Bool × Vtl
already_in_drive barcode drive v = elim (find_holder barcode v.drives) [
  | none ↦ (err not_in_slots, v)
  | some d ↦ if d == drive then (ok true, v) else (err (in_other_drive d), v)
]

unfoldable pub load_tape : String → ℕ → Vtl → Result Bool × Vtl
unfolding move_to_drive already_in_drive
load_tape barcode drive v =
    if v.drive_only_mode
    then (ok true, save_state (set_drive drive (some barcode) v))
    else elim (find_holder barcode v.slots) [
      | none ↦ already_in_drive barcode drive v
      | some slot ↦ move_to_drive barcode drive slot v
    ]

-- The loop of `unload_tape` over `range(1, num_slots + 1)`: the slot to look at, and the rounds
-- left.
unfoldable pub first_empty : ℕ → ℕ → Dict ℕ (Option String) → Option ℕ
first_empty i zero slots = none
first_empty i (suc n) slots = if truth (get i slots) then first_empty (suc i) n slots else some i

-- A slot number of 0 is false, and counts as not given.
unfoldable pub target_slot : Option ℕ → Vtl → Option ℕ
unfolding first_empty
target_slot none v = first_empty 1 v.num_slots v.slots
target_slot (some zero) v = first_empty 1 v.num_slots v.slots
target_slot (some (suc n)) v = some (suc n)

unfoldable pub put_away : String → ℕ → Option ℕ → Vtl → Result Bool × Vtl
unfolding set_drive set_slot save_state
put_away barcode drive none v = (err no_free_slots, v)
put_away barcode drive (some slot) v =
    (ok true, save_state (set_slot slot (some barcode) (set_drive drive none v)))

unfoldable pub unload_tape : ℕ → Option ℕ → Vtl → Result Bool × Vtl
unfolding target_slot put_away
unload_tape drive slot v = elim (get drive v.drives) [
  | none ↦ (ok true, v)
  | some barcode ↦
      if barcode == "" then (ok true, v) else put_away barcode drive (target_slot slot v) v
]

-- An entry of the list that `scan_barcodes` returns.
pub data Entry : Type 0 where
  in_slot : ℕ → String → Entry
  in_drive : ℕ → Option String → Entry

unfoldable pub scan_slots : Dict ℕ (Option String) → List Entry
scan_slots [] = []
scan_slots ((i, none) ∷ d) = scan_slots d
scan_slots ((i, some barcode) ∷ d) =
    let rest = scan_slots d in if barcode == "" then rest else in_slot i barcode ∷ rest

-- The loop over `range(num_drives)`: the drive to look at, and the rounds left.
unfoldable pub scan_drives : ℕ → ℕ → Dict ℕ (Option String) → List Entry
scan_drives i zero drives = []
scan_drives i (suc n) drives = in_drive i (get i drives) ∷ scan_drives (suc i) n drives

unfoldable pub scan_barcodes : Vtl → List Entry
unfolding scan_slots scan_drives
scan_barcodes v = scan_slots v.slots ++ scan_drives 0 v.num_drives v.drives

pub record DriveStatus : Type 0 where
  pub online : Bool
  pub tape_loaded : Bool
  pub barcode : Option String

unfoldable pub get_drive_status : ℕ → Vtl → DriveStatus
get_drive_status drive v =
    let held = get drive v.drives in
    record { online = true; tape_loaded = truth held; barcode = held }
