-- ===== src/Vtl/Conservation.antt =====
-- Moves neither lose nor double a tape: how often a barcode stands in the slots and the drives.
use fossilsafe_t.Prelude.{
  ℕ, zero, suc, ◌+◌, String, ◌≡◌, refl, ◌∙◌, ◌≢◌, inl, inr, false, Option, none, some, List, [],
  ◌∷◌, arith, if◌then◌else◌, Bool-cases, Option-cases, nat_eq, string_eq, str_iff, is_text, truth,
}
use fossilsafe_t.Prelude.Dict.{Dict, lookup, insert}
use fossilsafe_t.Prelude.Dict.{IsDict, insert-IsDict}
use fossilsafe_t.Vtl.State.{Vtl, get, set_drive, set_slot, save_state, find_holder}
use fossilsafe_t.Vtl.Inventory.{
  load_tape, move_to_drive, unload_tape, put_away, target_slot, first_empty,
}
use fossilsafe_t.Vtl.Media.{
  Call, load, unload, format, mount, unmount, call, run, format_tape, mount_ltfs, unmount_ltfs,
}

abbrev pub held : Option String → String → ℕ
held h b = if is_text h b then 1 else 0

unfoldable pub count : String → Dict ℕ (Option String) → ℕ
count b [] = 0
count b ((i, h) ∷ d) = held h b + count b d

-- How often the barcode stands in the library.
abbrev pub total : String → Vtl → ℕ
total b v = count b v.slots + count b v.drives

-- An assignment puts in the new value and takes out the old one.
pub count-insert :
    (b : String) (k : ℕ) (h : Option String) (d : Dict ℕ (Option String))
    → count b (insert k h d) + held (get k d) b ≡ count b d + held h b
unfolding count insert get lookup
count-insert b k h [] = omega arith
count-insert b k h ((j, w) ∷ d) = ground (arith, count-insert b k h d)

lookup-find_holder :
    (b : String) (d : Dict ℕ (Option String)) {k : ℕ}
    → IsDict d
    → find_holder b d ≡ some k
    → lookup k d ≡ some (some b)
unfolding lookup find_holder
lookup-find_holder b [] w e = cc
lookup-find_holder b ((j, none) ∷ d) {k} w e = ground (arith, lookup-find_holder b d {k = k} w.1 e)
lookup-find_holder b ((j, some t) ∷ d) {k} w e =
    ground (arith, str_iff t b, lookup-find_holder b d {k = k} w.1)

pub get-find_holder :
    (b : String) (d : Dict ℕ (Option String)) {k : ℕ}
    → IsDict d
    → find_holder b d ≡ some k
    → get k d ≡ some b
unfolding get
get-find_holder b d {k} w e = ground (arith, lookup-find_holder b d w e)

-- What a false value holds is no barcode.
pub held-empty : (h : Option String) (b : String) → truth h ≡ false → b ≢ "" → held h b ≡ 0
held-empty none b f n = refl
held-empty (some t) b f n = ground (arith, str_iff t b, str_iff t "")

-- A library with a changer, whose two maps are dicts.
pub record IsWellFormed (v : Vtl) : Type 0 where
  pub library : v.drive_only_mode ≡ false
  pub slots : IsDict v.slots
  pub drives : IsDict v.drives

module _ (b : String) (b_text : b ≢ "") where
  move-total :
      (barcode : String) (drive slot : ℕ) (v : Vtl)
      → get slot v.slots ≡ some barcode
      → total b (move_to_drive barcode drive slot v).1 ≡ total b v
  unfolding move_to_drive save_state set_drive set_slot
  move-total barcode drive slot v e = ground (
    arith,
    count-insert b slot none v.slots,
    count-insert b drive (some barcode) v.drives,
    held-empty (get drive v.drives) b,
  )

  load_tape-total :
      (barcode : String) (drive : ℕ) (v : Vtl)
      → IsWellFormed v
      → total b (load_tape barcode drive v).1 ≡ total b v
  unfolding load_tape
  load_tape-total barcode drive v w = elim (Option-cases (find_holder barcode v.slots)) [
    | inl away ↦ ground (arith, w.library)
    | inr (slot, e) ↦
        rw (w.library, e)
          (move-total barcode drive slot v (get-find_holder barcode v.slots w.slots e))
  ]

  put_away-total :
      (barcode : String) (drive : ℕ) (target : Option ℕ) (v : Vtl)
      → get drive v.drives ≡ some barcode
      → ((slot : ℕ) → target ≡ some slot → truth (get slot v.slots) ≡ false)
      → total b (put_away barcode drive target v).1 ≡ total b v
  unfolding put_away save_state set_drive set_slot
  put_away-total barcode drive none v e free = refl
  put_away-total barcode drive (some slot) v e free = ground (
    arith,
    free slot refl,
    count-insert b drive none v.drives,
    count-insert b slot (some barcode) v.slots,
    held-empty (get slot v.slots) b,
  )

first_empty-truth :
    (i n : ℕ) (d : Dict ℕ (Option String)) {k : ℕ}
    → first_empty i n d ≡ some k
    → truth (get k d) ≡ false
unfolding first_empty
first_empty-truth i zero d e = cc
first_empty-truth i (suc n) d {k} e = elim (Bool-cases (truth (get i d))) [
  | inl full ↦ first_empty-truth (suc i) n d (rw full at e)
  | inr free ↦ ground arith
]

-- The call writes to no slot that holds a tape: `unload_tape` with a slot given trusts its caller.
abbrev pub IsCareful : Call → Vtl → Type 0
IsCareful (unload drive (some (suc slot))) v = truth (get (suc slot) v.slots) ≡ false
IsCareful _ v = Unit

target_slot-truth :
    (drive : ℕ) (slot : Option ℕ) (v : Vtl) {k : ℕ}
    → IsCareful (unload drive slot) v
    → target_slot slot v ≡ some k
    → truth (get k v.slots) ≡ false
unfolding target_slot
target_slot-truth drive none v c e = first_empty-truth 1 v.num_slots v.slots e
target_slot-truth drive (some zero) v c e = first_empty-truth 1 v.num_slots v.slots e
target_slot-truth drive (some (suc n)) v c e = ground arith

module _ (b : String) (b_text : b ≢ "") where
  unload_tape-total :
      (drive : ℕ) (slot : Option ℕ) (v : Vtl)
      → IsCareful (unload drive slot) v
      → total b (unload_tape drive slot v).1 ≡ total b v
  unfolding unload_tape
  unload_tape-total drive slot v c = elim (Option-cases (get drive v.drives)) [
    | inl e ↦ rw (e, unload_tape) refl
    | inr (barcode, e) ↦
        rw (e, unload_tape)
          (ground (
            arith,
            put_away-total b b_text barcode drive (target_slot slot v) v e
                (λ k. target_slot-truth drive slot v c),
          ))
  ]

  mount_ltfs-total :
      (barcode : String) (drive : ℕ) (v : Vtl)
      → IsWellFormed v
      → total b (mount_ltfs barcode drive v).1 ≡ total b v
  unfolding mount_ltfs
  mount_ltfs-total barcode drive v w = ground (arith, load_tape-total b b_text barcode drive v w)

  format_tape-total :
      (drive : ℕ) (label : Option String) (v : Vtl)
      → total b (format_tape drive label v).1 ≡ total b v
  unfolding format_tape
  format_tape-total drive label v = ground arith

  unmount_ltfs-total : (drive : ℕ) (v : Vtl) → total b (unmount_ltfs drive v).1 ≡ total b v
  unfolding unmount_ltfs
  unmount_ltfs-total drive v = ground arith

move-IsWellFormed :
    (barcode : String) (drive slot : ℕ) (v : Vtl)
    → IsWellFormed v
    → IsWellFormed (move_to_drive barcode drive slot v).1
unfolding move_to_drive
move-IsWellFormed barcode drive slot v w = ground (
  arith,
  insert-IsDict slot none v.slots w.slots,
  insert-IsDict drive (some barcode) v.drives w.drives,
)

pub load_tape-IsWellFormed :
    (barcode : String) (drive : ℕ) (v : Vtl)
    → IsWellFormed v
    → IsWellFormed (load_tape barcode drive v).1
unfolding load_tape
load_tape-IsWellFormed barcode drive v w = elim (Option-cases (find_holder barcode v.slots)) [
  | inl away ↦ ground (arith, w.library)
  | inr (slot, e) ↦ rw (w.library, e) (move-IsWellFormed barcode drive slot v w)
]

put_away-IsWellFormed :
    (barcode : String) (drive : ℕ) (target : Option ℕ) (v : Vtl)
    → IsWellFormed v
    → IsWellFormed (put_away barcode drive target v).1
unfolding put_away
put_away-IsWellFormed barcode drive none v w = w
put_away-IsWellFormed barcode drive (some slot) v w = ground (
  arith,
  insert-IsDict slot (some barcode) v.slots w.slots,
  insert-IsDict drive none v.drives w.drives,
)

pub unload_tape-IsWellFormed :
    (drive : ℕ) (slot : Option ℕ) (v : Vtl)
    → IsWellFormed v
    → IsWellFormed (unload_tape drive slot v).1
unfolding unload_tape
unload_tape-IsWellFormed drive slot v w = elim (Option-cases (get drive v.drives)) [
  | inl e ↦ rw (e, unload_tape) w
  | inr (barcode, e) ↦
      rw (e, unload_tape)
        (ground (arith, put_away-IsWellFormed barcode drive (target_slot slot v) v w))
]

mount_ltfs-IsWellFormed :
    (barcode : String) (drive : ℕ) (v : Vtl)
    → IsWellFormed v
    → IsWellFormed (mount_ltfs barcode drive v).1
unfolding mount_ltfs
mount_ltfs-IsWellFormed barcode drive v w = ground (arith, load_tape-IsWellFormed barcode drive v w)

format_tape-IsWellFormed :
    (drive : ℕ) (label : Option String) (v : Vtl)
    → IsWellFormed v
    → IsWellFormed (format_tape drive label v).1
unfolding format_tape
format_tape-IsWellFormed drive label v w = ground arith

unmount_ltfs-IsWellFormed :
    (drive : ℕ) (v : Vtl) → IsWellFormed v → IsWellFormed (unmount_ltfs drive v).1
unfolding unmount_ltfs
unmount_ltfs-IsWellFormed drive v w = ground arith

pub call-IsWellFormed : (c : Call) (v : Vtl) → IsWellFormed v → IsWellFormed (call c v)
call-IsWellFormed (load barcode drive) v w = unfold call in load_tape-IsWellFormed barcode drive v w
call-IsWellFormed (unload drive slot) v w = unfold call in unload_tape-IsWellFormed drive slot v w
call-IsWellFormed (format drive label) v w = unfold call in format_tape-IsWellFormed drive label v w
call-IsWellFormed (mount barcode drive) v w =
    unfold call in mount_ltfs-IsWellFormed barcode drive v w
call-IsWellFormed (unmount drive) v w = unfold call in unmount_ltfs-IsWellFormed drive v w

call-total :
    (b : String) (c : Call) (v : Vtl)
    → b ≢ ""
    → IsWellFormed v
    → IsCareful c v
    → total b (call c v) ≡ total b v
call-total b (load barcode drive) v n w c = unfold call in load_tape-total b n barcode drive v w
call-total b (unload drive slot) v n w c = unfold call in unload_tape-total b n drive slot v c
call-total b (format drive label) v n w c = unfold call in format_tape-total b n drive label v
call-total b (mount barcode drive) v n w c = unfold call in mount_ltfs-total b n barcode drive v w
call-total b (unmount drive) v n w c = unfold call in unmount_ltfs-total b n drive v

-- Each call of the history is careful where it is made.
abbrev pub AreCareful : List Call → Vtl → Type 0
AreCareful [] v = Unit
AreCareful (c ∷ cs) v = IsCareful c v × AreCareful cs (call c v)

-- In a library with a changer, whatever history of loads, unloads, formats, mounts and unmounts,
-- each of which may fail, in which no unload names a slot that holds a tape: every barcode other
-- than the empty text stands in the slots and drives as often as before.
pub run-total :
    (b : String) (cs : List Call) (v : Vtl)
    → b ≢ ""
    → IsWellFormed v
    → AreCareful cs v
    → total b (run cs v) ≡ total b v
unfolding run
run-total b [] v n w h = refl
run-total b (c ∷ cs) v n w h =
    run-total b cs (call c v) n (call-IsWellFormed c v w) h.1 ∙ call-total b c v n w h.0
