-- ===== src/Vtl/Moves.antt =====
-- A load and the unload after it, and an unload into a slot that is not free.
use fossilsafe_t.Prelude.{
  ℕ, zero, suc, ◌+◌, ◌≤◌, ◌<◌, String, ◌≡◌, refl, ap, ◌≢◌, inl, inr, Bool, true, false, Option,
  none, some, arith, if◌then◌else◌, Bool-cases, ◌==◌, nat_eq, string_eq, str_iff, truth,
}
use fossilsafe_t.Prelude.Dict.{Dict, insert, lookup-insert}
use fossilsafe_t.Vtl.State.{Vtl, Result, ok, get, set_drive, set_slot, save_state, find_holder}
use fossilsafe_t.Vtl.Inventory.{load_tape, unload_tape, first_empty}
use fossilsafe_t.Vtl.Conservation.{total, count-insert}

pub get-insert :
    (k j : ℕ) (h : Option String) (d : Dict ℕ (Option String))
    → get j (insert k h d) ≡ (if k == j then h else get j d)
unfolding get
get-insert k j h d = ground (arith, lookup-insert k j h d)

-- The loop finds a slot wherever it starts, if one of those that it looks at is empty; and none
-- that it finds stands behind that one.
first_empty-found :
    (i n k : ℕ) (d : Dict ℕ (Option String))
    → i ≤ k
    → k < i + n
    → truth (get k d) ≡ false
    → (s : ℕ) × (first_empty i n d ≡ some s) × (i ≤ s) × (s ≤ k)
unfolding first_empty
first_empty-found i zero k d lo hi e = absurd (omega arith)
first_empty-found i (suc n) k d lo hi e = elim (Bool-cases (truth (get i d))) [
  | inl full ↦
      let ne : i ≢ k = (λ p. ground (arith, ap (λ (j : ℕ). truth (get j d)) p)) in
      let (s, found, low, high) = first_empty-found (suc i) n k d (omega arith) (omega arith) e in
      (s, rw full found, omega arith, high)
  | inr free ↦ (i, rw free refl, omega arith, lo)
]

-- What a load from a slot does to the library.
abbrev pub moved : String → ℕ → ℕ → Vtl → Vtl
moved barcode drive slot v = save_state (set_drive drive (some barcode) (set_slot slot none v))

-- What an unload to a slot does.
abbrev pub placed : String → ℕ → ℕ → Vtl → Vtl
placed barcode drive slot v = save_state (set_slot slot (some barcode) (set_drive drive none v))

pub load_tape-moved :
    (barcode : String) (drive slot : ℕ) (v : Vtl)
    → v.drive_only_mode ≡ false
    → find_holder barcode v.slots ≡ some slot
    → truth (get drive v.drives) ≡ false
    → load_tape barcode drive v ≡ (ok true, moved barcode drive slot v)
unfolding load_tape
load_tape-moved barcode drive slot v mode found free = ground arith

pub unload_tape-placed :
    (barcode : String) (drive slot : ℕ) (v : Vtl)
    → barcode ≢ ""
    → get drive v.drives ≡ some barcode
    → first_empty 1 v.num_slots v.slots ≡ some slot
    → unload_tape drive none v ≡ (ok true, placed barcode drive slot v)
unfolding unload_tape
unload_tape-placed barcode drive slot v text inside found =
    rw (unload_tape, inside, found) (ground (arith, str_iff barcode ""))

-- In a library with slots, let a slot from 1 to num_slots hold a tape with a barcode, as the first
-- slot that holds it, and let the drive be empty. Then load_tape of the barcode returns true, and
-- unload_tape of that drive with no slot given returns true after it, empties the drive, and puts
-- the tape into a slot no higher than its own.
pub unload-load :
    (barcode : String) (drive slot : ℕ) (v : Vtl)
    → barcode ≢ ""
    → v.drive_only_mode ≡ false
    → find_holder barcode v.slots ≡ some slot
    → truth (get drive v.drives) ≡ false
    → 1 ≤ slot
    → slot ≤ v.num_slots
    → let v' = (load_tape barcode drive v).1 in
      ((load_tape barcode drive v).0 ≡ ok true)
      × ((unload_tape drive none v').0 ≡ ok true)
      × (get drive (unload_tape drive none v').1.drives ≡ none)
      × ((s : ℕ) × (s ≤ slot) × (get s (unload_tape drive none v').1.slots ≡ some barcode))
unfolding save_state set_drive set_slot
unload-load barcode drive slot v text mode found free lo hi =
    let w : Vtl = moved barcode drive slot v in
    let (s, empty, _, low) =
      first_empty-found 1 v.num_slots slot w.slots lo (omega arith)
        (ground (arith, get-insert slot slot none v.slots)) in
    let unloaded =
      unload_tape-placed barcode drive s w text
        (ground (arith, get-insert drive drive (some barcode) v.drives)) empty in
    rw (load_tape-moved barcode drive slot v mode found free) (
      refl,
      ap (λ (r : Result Bool × Vtl). r.0) unloaded,
      rw unloaded (ground (arith, get-insert drive drive none w.drives)),
      (s, low, rw unloaded (ground (arith, get-insert s s (some barcode) w.slots))),
    )

-- An unload into a slot that holds another tape loses that tape: it stands once less in the
-- library, and the call reports success.
pub unload_tape-overwrites :
    (barcode other : String) (drive slot : ℕ) (v : Vtl)
    → barcode ≢ ""
    → other ≢ barcode
    → get drive v.drives ≡ some barcode
    → get (suc slot) v.slots ≡ some other
    → ((unload_tape drive (some (suc slot)) v).0 ≡ ok true)
      × (total other (unload_tape drive (some (suc slot)) v).1 + 1 ≡ total other v)
unfolding unload_tape
unload_tape-overwrites barcode other drive slot v text ne inside full = ground (
  arith,
  str_iff barcode "",
  str_iff barcode other,
  str_iff other other,
  count-insert other drive none v.drives,
  count-insert other (suc slot) (some barcode) v.slots,
)
