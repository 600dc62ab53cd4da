-- ===== src/Restore/Order.antt =====
-- The order of the tapes, and of the files on a tape.
use fossilsafe_t.Prelude.{
  suc, String, ◌≡◌, refl, sym, ap, ◌∙◌, Bool, true, false, ◌&&◌, ◌||◌, Option, none, some, List, [],
  ◌∷◌, ◌++◌, arith, if◌then◌else◌, length, keep, ◌==◌, nat_eq, string_eq, str_iff, is_text,
  text_truth, truth,
}
use fossilsafe_t.Prelude.Dict.{Dict, lookup, contains, lookup-insert}
use fossilsafe_t.Prelude.Dict.{IsDict, insert-IsDict}
use fossilsafe_t.Restore.Plan.{
  File, Groups, or_empty, listed, add_file, group_one, group_files, sort_groups, keys,
  tape_order_of, plan_files,
}
use fossilsafe_t.Restore.Counts.{times, current_first-head}
use fossilsafe_t.Restore.Groups.{is_on, tape_order-times}

-- Whether some file is on the tape.
unfoldable pub any_on : String → List File → Bool
any_on t [] = false
any_on t (f ∷ fs) = is_on t f || any_on t fs

abbrev has_tape : String → Groups → Bool
has_tape t g = contains t g.needed

group_one-has :
    (t : String) (b : Option String) (f : File) (g : Groups)
    → has_tape t (group_one b f g) ≡ (truth b && is_text b t) || has_tape t g
unfolding add_file
group_one-has t none f g = refl
group_one-has t (some u) f g =
    ground (arith, lookup-insert u t (or_empty (lookup u g.needed) ++ f ∷ []) g.needed)

or_shift : (a b c : Bool) → a || (b || c) ≡ (b || a) || c
or_shift true true c = refl
or_shift true false c = refl
or_shift false true c = refl
or_shift false false c = refl

group_files-has :
    (t : String) (fs : List File) (g : Groups)
    → has_tape t (group_files fs g) ≡ any_on t fs || has_tape t g
unfolding group_files any_on
group_files-has t [] g = refl
group_files-has t (f ∷ fs) g =
    group_files-has t fs (group_one f.tape_barcode f g)
    ∙ ap (λ x. any_on t fs || x) (group_one-has t f.tape_barcode f g)
    ∙ or_shift (any_on t fs) (is_on t f) (has_tape t g)

group_one-IsDict :
    (b : Option String) (f : File) (g : Groups) → IsDict g.needed → IsDict (group_one b f g).needed
unfolding add_file
group_one-IsDict none f g h = h
group_one-IsDict (some u) f g h = by_test (text_truth u)
  where
    by_test : (b : Bool) → IsDict (if b then add_file u f g else g).needed
    by_test true = insert-IsDict u (or_empty (lookup u g.needed) ++ f ∷ []) g.needed h
    by_test false = h

group_files-IsDict :
    (fs : List File) (g : Groups) → IsDict g.needed → IsDict (group_files fs g).needed
unfolding group_files
group_files-IsDict [] g h = h
group_files-IsDict (f ∷ fs) g h =
    group_files-IsDict fs (group_one f.tape_barcode f g) (group_one-IsDict f.tape_barcode f g h)

keys-sort_groups :
    (missing : List String) (d : Dict String (List File)) → keys (sort_groups missing d) ≡ keys d
unfolding keys sort_groups
keys-sort_groups missing [] = refl
keys-sort_groups missing ((t, fs) ∷ d) = ap (λ x. t ∷ x) (keys-sort_groups missing d)

keys-times :
    (t : String) (d : Dict String (List File))
    → IsDict d
    → times t (keys d) ≡ (if contains t d then 1 else 0)
unfolding keys lookup
keys-times t [] h = refl
keys-times t ((u, fs) ∷ d) h = picked (u == t) refl (keys-times t d h.1)
  where
    is_some : Option (List File) → Bool
    is_some o = elim o [ none ↦ false | some _ ↦ true ]

    picked :
        (b : Bool)
        → (u == t) ≡ b
        → times t (keys d) ≡ (if is_some (lookup t d) then 1 else 0)
        → length (if b then u ∷ keep (λ x. x == t) (keys d) else keep (λ x. x == t) (keys d))
          ≡ (if is_some (if b then some fs else lookup t d) then 1 else 0)
    picked true e ih = ap suc (
        ih
        ∙ ap (λ o. if is_some o then 1 else 0)
            (ap (λ x. lookup x d) (sym ((str_iff u t).0 e)) ∙ h.0))
    picked false e ih = ih

or_false : (b : Bool) → b || false ≡ b
or_false true = refl
or_false false = refl

-- Each tape that a requested file is on is visited once, and no other tape is visited.
pub tape_order-once :
    (current : Option String) (fs : List File) (t : String)
    → times t (plan_files current fs).tape_order ≡ (if any_on t fs then 1 else 0)
unfolding plan_files lookup
tape_order-once current fs t =
    let start : Groups = record { needed = []; missing = [] } in
    tape_order-times t current
      (sort_groups (group_files fs start).missing (group_files fs start).needed)
    ∙ ap (times t) (keys-sort_groups (group_files fs start).missing (group_files fs start).needed)
    ∙ keys-times t (group_files fs start).needed (group_files-IsDict fs start tt)
    ∙ ap (λ b. if b then 1 else 0) (group_files-has t fs start ∙ or_false (any_on t fs))

abbrev pub first? : List String → Option String
first? [] = none
first? (t ∷ order) = some t

times-listed : (t : String) (xs : List String) → times t xs ≡ 1 → listed t xs ≡ true
times-listed t [] h = ground (arith, h)
times-listed t (x ∷ xs) h = ground (arith, times-listed t xs)

-- The tape in the drive is the first, where a requested file is on it.
pub tape_order-current :
    (c : String) (fs : List File)
    → any_on c fs ≡ true
    → first? (plan_files (some c) fs).tape_order ≡ some c
unfolding plan_files tape_order_of lookup
tape_order-current c fs h = ap first? (
    current_first-head c _
      (times-listed c _ (tape_order-once none fs c ∙ ap (λ b. if b then 1 else 0) h)))
