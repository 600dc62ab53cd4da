-- ===== src/Vtl/Mounts.antt =====
-- What a successful mount guarantees, and what a failed one leaves.
use fossilsafe_t.Prelude.{
  ℕ, ◌<◌, String, ◌≡◌, refl, ap, inl, inr, Bool, true, Option, none, some, arith, Bool-cases,
  Option-cases, nat_eq, string_eq, str_iff, is_text,
}
use fossilsafe_t.Prelude.Dict.{lookup, lookup-insert_self}
use fossilsafe_t.Prelude.Dict.{IsDict}
use fossilsafe_t.Vtl.Conservation.{get-find_holder}
use fossilsafe_t.Vtl.Inventory.{already_in_drive, move_to_drive}
use fossilsafe_t.Vtl.State.{find_holder}
use fossilsafe_t.Vtl.State.{Result, err, Vtl, ok, err, get}
use fossilsafe_t.Vtl.Inventory.{load_tape}
use fossilsafe_t.Vtl.Moves.{get-insert}
use fossilsafe_t.Vtl.Media.{mount_ltfs, mount_loaded, mount_after, has_dir}

-- The tape is in the drive, its mount point and the record of mounted tapes lead to the tape, the
-- tape has a directory, and the library has the drive.
abbrev pub IsMounted : String → String → ℕ → Vtl → Type 0
IsMounted barcode target drive v =
    (target ≡ barcode)
    × (get drive v.drives ≡ some barcode)
    × (lookup drive v.mounts ≡ some barcode)
    × (lookup drive v.mounted_tapes ≡ some barcode)
    × (has_dir barcode v.tape_dirs ≡ true)
    × (drive < v.num_drives)

is_text-eq : (h : Option String) (b : String) → is_text h b ≡ true → h ≡ some b
is_text-eq none b e = cc
is_text-eq (some t) b e = ap some ((str_iff t b).0 e)

mount_loaded-IsMounted :
    (barcode target : String) (drive : ℕ) (v : Vtl)
    → get drive v.drives ≡ some barcode
    → (mount_loaded barcode drive v).0 ≡ ok target
    → IsMounted barcode target drive (mount_loaded barcode drive v).1
unfolding mount_loaded
mount_loaded-IsMounted barcode target drive v inside done = ground (
  arith,
  lookup-insert_self drive barcode v.mounts,
  lookup-insert_self drive barcode v.mounted_tapes,
)

move-get :
    (barcode : String) (drive slot : ℕ) (v : Vtl) {r : Bool}
    → (move_to_drive barcode drive slot v).0 ≡ ok r
    → get drive (move_to_drive barcode drive slot v).1.drives ≡ some barcode
unfolding move_to_drive
move-get barcode drive slot v done = ground (arith, get-insert drive drive (some barcode) v.drives)

already-get :
    (barcode : String) (drive : ℕ) (v : Vtl) {r : Bool}
    → IsDict v.drives
    → (already_in_drive barcode drive v).0 ≡ ok r
    → get drive (already_in_drive barcode drive v).1.drives ≡ some barcode
unfolding already_in_drive
already-get barcode drive v w done = elim (Option-cases (find_holder barcode v.drives)) [
  | inl e ↦ ground arith
  | inr (d, e) ↦ ground (arith, get-find_holder barcode v.drives w e)
]

-- A load that returns has put the tape into the drive.
pub load_tape-get :
    (barcode : String) (drive : ℕ) (v : Vtl) {r : Bool}
    → IsDict v.drives
    → (load_tape barcode drive v).0 ≡ ok r
    → get drive (load_tape barcode drive v).1.drives ≡ some barcode
unfolding load_tape
load_tape-get barcode drive v {r} w done = elim (Bool-cases v.drive_only_mode) [
  | inl only ↦ ground (arith, get-insert drive drive (some barcode) v.drives)
  | inr library ↦ elim (Option-cases (find_holder barcode v.slots)) [
    | inl e ↦ ground (arith, already-get barcode drive v {r = r} w)
    | inr (slot, e) ↦ ground (arith, move-get barcode drive slot v {r = r})
  ]
]

mount_after-IsMounted :
    (barcode target : String) (drive : ℕ) (r : Result Bool × Vtl)
    → ((b : Bool) → r.0 ≡ ok b → get drive r.1.drives ≡ some barcode)
    → (mount_after barcode drive r).0 ≡ ok target
    → IsMounted barcode target drive (mount_after barcode drive r).1
mount_after-IsMounted barcode target drive (ok b, v) inside done =
    mount_loaded-IsMounted barcode target drive v (inside b refl) done
mount_after-IsMounted barcode target drive (err e, v) inside done = cc

-- A mount that returns, whether it had to load the tape or not, leaves the tape in the drive, the
-- mount point and the record of mounted tapes at that tape, a directory for the tape, and is of a
-- drive that the library has.
pub mount_ltfs-IsMounted :
    (barcode target : String) (drive : ℕ) (v : Vtl)
    → IsDict v.drives
    → (mount_ltfs barcode drive v).0 ≡ ok target
    → IsMounted barcode target drive (mount_ltfs barcode drive v).1
unfolding mount_ltfs
mount_ltfs-IsMounted barcode target drive v w done =
    elim (Bool-cases (is_text (get drive v.drives) barcode)) [
      | inl there ↦
          rw (mount_ltfs, there)
            (mount_loaded-IsMounted barcode target drive v (is_text-eq _ barcode there)
              (unfold mount_ltfs in rw there at done))
      | inr away ↦
          rw (mount_ltfs, away)
            (mount_after-IsMounted barcode target drive (load_tape barcode drive v)
              (λ b. load_tape-get barcode drive v w) (unfold mount_ltfs in rw away at done))
    ]
