-- ===== src/Vtl/Visibility.antt =====
-- What `scan_barcodes` shows: a drive number is not checked by `load_tape`, and the scan ends at
-- `num_drives`.
use fossilsafe_t.Prelude.{
  ℕ, zero, suc, ◌+◌, ◌≤◌, String, ◌≡◌, refl, Bool, true, false, ◌||◌, Option, none, some, List, [],
  ◌∷◌, ◌++◌, arith, ◌==◌, nat_eq, string_eq, str_iff, is_text, truth,
}
use fossilsafe_t.Prelude.Dict.{Dict, lookup, insert}
use fossilsafe_t.Vtl.State.{Vtl, ok, get, set_drive, set_slot, save_state, find_holder}
use fossilsafe_t.Vtl.Inventory.{
  load_tape, Entry, in_slot, in_drive, scan_slots, scan_drives, scan_barcodes,
}
use fossilsafe_t.Vtl.Conservation.{count, total, count-insert, get-find_holder, IsWellFormed}
use fossilsafe_t.Vtl.Moves.{get-insert, load_tape-moved}

-- Whether an entry of the scan shows the tape.
pub listed : String → List Entry → Bool
listed b [] = false
listed b (in_slot i t ∷ es) = t == b || listed b es
listed b (in_drive i h ∷ es) = is_text h b || listed b es

listed-append :
    (b : String) (es fs : List Entry) → listed b (es ++ fs) ≡ (listed b es || listed b fs)
unfolding listed
listed-append b [] fs = refl
listed-append b (in_slot i t ∷ es) fs = ground (arith, listed-append b es fs)
listed-append b (in_drive i h ∷ es) fs = ground (arith, listed-append b es fs)

listed-scan_slots :
    (b : String) (d : Dict ℕ (Option String)) → count b d ≡ 0 → listed b (scan_slots d) ≡ false
unfolding listed scan_slots count
listed-scan_slots b [] e = refl
listed-scan_slots b ((i, none) ∷ d) e = listed-scan_slots b d (omega arith)
listed-scan_slots b ((i, some t) ∷ d) e = ground (arith, listed-scan_slots b d)

get-count :
    (b : String) (i : ℕ) (d : Dict ℕ (Option String)) → count b d ≡ 0 → is_text (get i d) b ≡ false
unfolding count get lookup
get-count b i [] e = refl
get-count b i ((j, h) ∷ d) e = ground (arith, get-count b i d)

listed-scan_drives :
    (b : String) (drive i n : ℕ) (d : Dict ℕ (Option String))
    → count b d ≡ 0
    → i + n ≤ drive
    → listed b (scan_drives i n (insert drive (some b) d)) ≡ false
unfolding listed scan_drives
listed-scan_drives b drive i zero d e far = refl
listed-scan_drives b drive i (suc n) d e far = ground (
  arith,
  get-insert drive i (some b) d,
  get-count b i d e,
  listed-scan_drives b drive (suc i) n d e (omega arith),
)

module _ (b : String) (drive slot : ℕ) (v : Vtl) where
  moved-counts :
      IsWellFormed v
      → find_holder b v.slots ≡ some slot
      → total b v ≡ 1
      → (count b (insert slot none v.slots) ≡ 0) × (count b v.drives ≡ 0)
  moved-counts w found once = ground (
    arith,
    get-find_holder b v.slots w.slots found,
    str_iff b b,
    count-insert b slot none v.slots,
  )

  -- In a well-formed library with slots, a tape stands once in the slots and drives and lies in a
  -- slot. A load into a drive number that is free and not below num_drives returns true, and
  -- scan_barcodes no longer shows the tape.
  pub load_tape-hides :
      IsWellFormed v
      → find_holder b v.slots ≡ some slot
      → truth (get drive v.drives) ≡ false
      → total b v ≡ 1
      → v.num_drives ≤ drive
      → ((load_tape b drive v).0 ≡ ok true)
        × (listed b (scan_barcodes (load_tape b drive v).1) ≡ false)
  unfolding scan_barcodes save_state set_drive set_slot
  load_tape-hides w found free once far = rw (load_tape-moved b drive slot v w.library found free) (
    refl,
    ground (
      arith,
      moved-counts w found once,
      listed-append b (scan_slots (insert slot none v.slots))
          (scan_drives 0 v.num_drives (insert drive (some b) v.drives)),
      listed-scan_slots b (insert slot none v.slots),
      listed-scan_drives b drive 0 v.num_drives v.drives,
    ),
  )
