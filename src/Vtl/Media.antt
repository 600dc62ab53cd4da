-- ===== src/Vtl/Media.antt =====
-- `format_tape`, `mount_ltfs` and `unmount_ltfs`, and a history of calls.
use fossilsafe_t.Prelude.{
  ℕ, String, Bool, true, false, ◌||◌, Option, none, some, List, [], ◌∷◌, ltb, if◌then◌else◌, ◌==◌,
  nat_eq, string_eq, is_text,
}
use fossilsafe_t.Prelude.Dict.{lookup, insert, remove}
use fossilsafe_t.Vtl.State.{
  Tape, Vtl, no_tape, key_error, not_loaded, not_formatted, Result, ok, err, get, save_state,
}
use fossilsafe_t.Vtl.Inventory.{load_tape, unload_tape}

-- Whether the directory of the tape exists.
unfoldable pub has_dir : String → List String → Bool
has_dir barcode [] = false
has_dir barcode (d ∷ dirs) = d == barcode || has_dir barcode dirs

-- `shutil.rmtree` if it is there, then `os.makedirs`.
unfoldable pub make_dir : String → List String → List String
make_dir barcode dirs = if has_dir barcode dirs then dirs else barcode ∷ dirs

-- `label or barcode`
abbrev label_or : Option String → String → String
label_or none barcode = barcode
label_or (some l) barcode = if l == "" then barcode else l

-- The entry of the tape is read after its directory is made; a missing one is a `KeyError`.
unfoldable pub mark_formatted : String → Option String → Vtl → Result Bool × Vtl
unfolding save_state
mark_formatted barcode label v = elim (lookup barcode v.tapes) [
  | none ↦ (err key_error, v)
  | some t ↦
      let t' : Tape = record { formatted = true; label = label_or label barcode } in
      (
        ok true,
        save_state
            (record v { vtl_state = record v.vtl_state { tapes = insert barcode t' v.tapes } }),
      )
]

unfoldable pub format_tape : ℕ → Option String → Vtl → Result Bool × Vtl
unfolding make_dir mark_formatted
format_tape drive label v = elim (get drive v.drives) [
  | none ↦ (err no_tape, v)
  | some barcode ↦
      if barcode == ""
      then (err no_tape, v)
      else mark_formatted barcode label (record v { tape_dirs = make_dir barcode v.tape_dirs })
]

-- `mount_ltfs` once the tape is in the drive. A drive past `num_drives` has no mount point.
unfoldable pub mount_loaded : String → ℕ → Vtl → Result String × Vtl
mount_loaded barcode drive v =
    if has_dir barcode v.tape_dirs
    then if ltb drive v.num_drives
      then (
        ok barcode,
        record v {
          mounts = insert drive barcode v.mounts;
          mounted_tapes = insert drive barcode v.mounted_tapes;
        },
      )
      else (err key_error, v)
    else (err not_formatted, v)

abbrev pub mount_after : String → ℕ → Result Bool × Vtl → Result String × Vtl
mount_after barcode drive (ok _, v) = mount_loaded barcode drive v
mount_after barcode drive (err _, v) = (err not_loaded, v)

-- The result stands for the mount point: the tape that it leads to.
unfoldable pub mount_ltfs : String → ℕ → Vtl → Result String × Vtl
unfolding load_tape mount_loaded
mount_ltfs barcode drive v =
    if is_text (get drive v.drives) barcode
    then mount_loaded barcode drive v
    else mount_after barcode drive (load_tape barcode drive v)

unfoldable pub unmount_ltfs : ℕ → Vtl → Result Bool × Vtl
unmount_ltfs drive v =
    if ltb drive v.num_drives
    then (
      ok true,
      record v { mounts = remove drive v.mounts; mounted_tapes = remove drive v.mounted_tapes },
    )
    else (err key_error, v)

pub data Call : Type 0 where
  load : String → ℕ → Call
  unload : ℕ → Option ℕ → Call
  format : ℕ → Option String → Call
  mount : String → ℕ → Call
  unmount : ℕ → Call

unfoldable pub call : Call → Vtl → Vtl
unfolding load_tape unload_tape format_tape mount_ltfs unmount_ltfs
call (load barcode drive) v = (load_tape barcode drive v).1
call (unload drive slot) v = (unload_tape drive slot v).1
call (format drive label) v = (format_tape drive label v).1
call (mount barcode drive) v = (mount_ltfs barcode drive v).1
call (unmount drive) v = (unmount_ltfs drive v).1

unfoldable pub run : List Call → Vtl → Vtl
unfolding call
run [] v = v
run (c ∷ cs) v = run cs (call c v)
