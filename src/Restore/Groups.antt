-- ===== src/Restore/Groups.antt =====
-- Which files a plan reads from which tape, and in which order.
use fossilsafe_t.Prelude.{
  String, ◌≡◌, refl, sym, ap, ◌∙◌, Bool, true, false, ◌&&◌, Option, none, some, List, [], ◌∷◌, ◌++◌,
  arith, if◌then◌else◌, length, keep, ◌==◌, nat_eq, string_eq, str_iff, is_text, text_truth, truth,
}
use fossilsafe_t.Prelude.Dict.{Dict, lookup, lookup-insert}
use fossilsafe_t.Restore.Plan.{
  File, Groups, text_less, or_empty, listed, add_file, group_one, group_files, sort_onto, path_less,
  position_less, sort_group, sort_groups, keys, for_tapes, tape_order_of, plan_files,
}
use fossilsafe_t.Restore.Counts.{sort_onto-count, times, current_first-times}

-- `f` is on the tape, whose barcode is not empty.
abbrev pub is_on : String → File → Bool
is_on t f = truth f.tape_barcode && is_text f.tape_barcode t

abbrev pub files_on : String → List File → List File
files_on t fs = keep (is_on t) fs

abbrev group : String → Groups → List File
group t g = or_empty (lookup t g.needed)

append_assoc : (xs ys zs : List File) → (xs ++ ys) ++ zs ≡ xs ++ (ys ++ zs)
append_assoc [] ys zs = refl
append_assoc (x ∷ xs) ys zs = ap (λ r. x ∷ r) (append_assoc xs ys zs)

append_nil : (xs : List File) → xs ++ [] ≡ xs
append_nil [] = refl
append_nil (x ∷ xs) = ap (λ r. x ∷ r) (append_nil xs)

add-group :
    (t u : String) (f : File) (g : Groups)
    → group t (add_file u f g) ≡ (if u == t then group t g ++ f ∷ [] else group t g)
unfolding add_file
add-group t u f g = ap or_empty (lookup-insert u t _ g.needed) ∙ picked (u == t) refl
  where
    picked :
        (b : Bool)
        → (u == t) ≡ b
        → or_empty (if b then some (group u g ++ f ∷ []) else lookup t g.needed)
          ≡ (if b then group t g ++ f ∷ [] else group t g)
    picked true e = ap (λ x. group x g ++ f ∷ []) ((str_iff u t).0 e)
    picked false e = refl

group_one-group :
    (t : String) (b : Option String) (f : File) (g : Groups)
    → group t (group_one b f g) ≡ group t g ++ (if truth b && is_text b t then f ∷ [] else [])
group_one-group t none f g = sym (append_nil (group t g))
group_one-group t (some u) f g = added (text_truth u) (u == t) (add-group t u f g)
  where
    added :
        (a b : Bool)
        → group t (add_file u f g) ≡ (if b then group t g ++ f ∷ [] else group t g)
        → group t (if a then add_file u f g else g) ≡ group t g ++ (if a && b then f ∷ [] else [])
    added true true e = e
    added true false e = e ∙ sym (append_nil (group t g))
    added false b e = sym (append_nil (group t g))

keep-cons :
    (t : String) (f : File) (fs : List File)
    → (if is_on t f then f ∷ [] else []) ++ files_on t fs ≡ files_on t (f ∷ fs)
keep-cons t f fs = by_test (is_on t f)
  where
    by_test :
        (b : Bool)
        → (if b then f ∷ [] else []) ++ files_on t fs
          ≡ (if b then f ∷ files_on t fs else files_on t fs)
    by_test true = refl
    by_test false = refl

pub group_files-group :
    (t : String) (fs : List File) (g : Groups)
    → group t (group_files fs g) ≡ group t g ++ files_on t fs
unfolding group_files
group_files-group t [] g = sym (append_nil (group t g))
group_files-group t (f ∷ fs) g =
    group_files-group t fs (group_one f.tape_barcode f g)
    ∙ ap (λ x. x ++ files_on t fs) (group_one-group t f.tape_barcode f g)
    ∙ append_assoc (group t g) (if is_on t f then f ∷ [] else []) (files_on t fs)
    ∙ ap (λ x. group t g ++ x) (keep-cons t f fs)

abbrev pub sorted_if : Bool → Option (List File) → Option (List File)
sorted_if b none = none
sorted_if b (some fs) = some (sort_group b fs)

lookup-sort_groups :
    (t : String) (missing : List String) (d : Dict String (List File))
    → lookup t (sort_groups missing d) ≡ sorted_if (listed t missing) (lookup t d)
unfolding sort_groups lookup
lookup-sort_groups t missing [] = refl
lookup-sort_groups t missing ((u, fs) ∷ d) = picked (u == t) refl (lookup-sort_groups t missing d)
  where
    picked :
        (b : Bool)
        → (u == t) ≡ b
        → lookup t (sort_groups missing d) ≡ sorted_if (listed t missing) (lookup t d)
        → (if b then some (sort_group (listed u missing) fs) else lookup t (sort_groups missing d))
          ≡ sorted_if (listed t missing) (if b then some fs else lookup t d)
    picked true e ih = ap (λ x. some (sort_group (listed x missing) fs)) ((str_iff u t).0 e)
    picked false e ih = ih

-- A tape that is not among the tapes has no files.
lookup-keys : (t : String) (d : Dict String (List File)) → times t (keys d) ≡ 0 → lookup t d ≡ none
unfolding keys lookup
lookup-keys t [] h = refl
lookup-keys t ((u, fs) ∷ d) h = ground (arith, lookup-keys t d)

for_tapes-lookup :
    (t : String) (order : List String) (d : Dict String (List File))
    → (times t order ≡ 0 → lookup t d ≡ none)
    → or_empty (lookup t (for_tapes order d)) ≡ or_empty (lookup t d)
unfolding for_tapes lookup
for_tapes-lookup t [] d h = sym (ap or_empty (h refl))
for_tapes-lookup t (u ∷ order) d h = picked (u == t) refl h (for_tapes-lookup t order d)
  where
    picked :
        (b : Bool)
        → (u == t) ≡ b
        → (length (if b then u ∷ keep (λ x. x == t) order else keep (λ x. x == t) order) ≡ 0
            → lookup t d ≡ none)
        → ((times t order ≡ 0 → lookup t d ≡ none)
            → or_empty (lookup t (for_tapes order d)) ≡ or_empty (lookup t d))
        → or_empty (if b then some (or_empty (lookup u d)) else lookup t (for_tapes order d))
          ≡ or_empty (lookup t d)
    picked true e k ih = ap (λ x. or_empty (lookup x d)) ((str_iff u t).0 e)
    picked false e k ih = ih k

pub tape_order-times :
    (t : String) (current : Option String) (d : Dict String (List File))
    → times t (tape_order_of current d) ≡ times t (keys d)
unfolding tape_order_of
tape_order-times t current d =
    current_first-times t current (sort_onto text_less [] (keys d))
    ∙ (sort_onto-count text_less (λ u. u == t) [] (keys d) ∙ omega arith)

-- The files of a tape in the plan, and that a sort keeps them.
module _ (current : Option String) (fs : List File) (t : String) where
  unfoldable pub grouped : Groups
  grouped = group_files fs (record { needed = []; missing = [] })

  abbrev pub read_from : List File
  read_from = or_empty (lookup t (plan_files current fs).files_per_tape)

  pub read_from-sorted :
      read_from ≡ or_empty (sorted_if (listed t grouped.missing) (lookup t grouped.needed))
  unfolding plan_files grouped
  read_from-sorted =
      for_tapes-lookup t _ _
        (λ none_in. lookup-keys t _ (sym (tape_order-times t current _) ∙ none_in))
      ∙ ap or_empty (lookup-sort_groups t _ _)

sorted_if-count :
    (p : File → Bool) (b : Bool) (o : Option (List File))
    → length (keep p (or_empty (sorted_if b o))) ≡ length (keep p (or_empty o))
unfolding sort_group
sorted_if-count p b none = refl
sorted_if-count p true (some fs) = sort_onto-count path_less p [] fs ∙ omega arith
sorted_if-count p false (some fs) = sort_onto-count position_less p [] fs ∙ omega arith

-- From each tape the plan reads exactly the requested files that are on it, each as often as it was
-- requested: of those that pass any test there are as many in the plan as in the request.
pub read_from-files_on :
    (current : Option String) (fs : List File) (t : String) (p : File → Bool)
    → length (keep p (read_from current fs t)) ≡ length (keep p (files_on t fs))
unfolding grouped group_files lookup
read_from-files_on current fs t p =
    ap (λ x. length (keep p x)) (read_from-sorted current fs t)
    ∙ sorted_if-count p _ (lookup t (grouped current fs t).needed)
    ∙ ap (λ x. length (keep p x)) (group_files-group t fs (record { needed = []; missing = [] }))
