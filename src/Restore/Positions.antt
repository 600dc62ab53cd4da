-- ===== src/Restore/Positions.antt =====
-- The order of the files on a tape: by position, where all positions are known.
use fossilsafe_t.Prelude.{
  ℕ, ◌≤◌, String, ◌≡◌, refl, sym, ap, subst, ◌∙◌, Bool, true, false, ◌&&◌, ◌||◌, Option, none, some,
  List, [], ◌∷◌, arith, if◌then◌else◌, ◌==◌, nat_eq, string_eq, str_iff, is_text, truth,
}
use fossilsafe_t.Restore.Plan.{
  File, Groups, or_empty, listed, note_missing, add_file, group_one, group_files, place, sort_onto,
  position_of, position_less, sort_group,
}
use fossilsafe_t.Restore.Groups.{is_on, read_from, read_from-sorted, sorted_if, grouped}

-- From a position on, each file lies where the one before it lies or after it.
abbrev pub IsAscending : ℕ → List File → Type 0
IsAscending n [] = Unit
IsAscending n (f ∷ fs) = n ≤ position_of f × IsAscending (position_of f) fs

place-IsAscending :
    (f : File) (n : ℕ) (fs : List File)
    → n ≤ position_of f
    → IsAscending n fs
    → IsAscending n (place position_less f fs)
unfolding place
place-IsAscending f n [] le h = (le, tt)
place-IsAscending f n (g ∷ fs) le h =
    by_test (position_less f g) refl (place-IsAscending f (position_of g) fs)
  where
    by_test :
        (b : Bool)
        → position_less f g ≡ b
        → (position_of g ≤ position_of f
            → IsAscending (position_of g) fs
            → IsAscending (position_of g) (place position_less f fs))
        → IsAscending n (if b then f ∷ g ∷ fs else g ∷ place position_less f fs)
    by_test true e ih = (le, (ground (arith, e), h.1))
    by_test false e ih = (h.0, ih (ground (arith, e)) h.1)

sort-IsAscending :
    (done fs : List File) → IsAscending 0 done → IsAscending 0 (sort_onto position_less done fs)
unfolding sort_onto
sort-IsAscending done [] h = h
sort-IsAscending done (f ∷ fs) h =
    sort-IsAscending (place position_less f done) fs (place-IsAscending f 0 done (omega arith) h)

abbrev is_unknown : Option ℕ → Bool
is_unknown none = true
is_unknown (some n) = false

-- Whether a file on the tape has no position.
unfoldable pub lacks_position : String → List File → Bool
lacks_position t [] = false
lacks_position t (f ∷ fs) = (is_on t f && is_unknown f.tape_position) || lacks_position t fs

note_missing-listed :
    (t u : String) (o : Option ℕ) (missing : List String)
    → listed t (note_missing o u missing) ≡ (is_unknown o && (u == t)) || listed t missing
note_missing-listed t u none missing = by_test (listed u missing) (u == t) refl refl
  where
    by_test :
        (a b : Bool)
        → listed u missing ≡ a
        → (u == t) ≡ b
        → listed t (if a then missing else u ∷ missing) ≡ b || listed t missing
    by_test true true ea eb = ap (λ x. listed x missing) (sym ((str_iff u t).0 eb)) ∙ ea
    by_test true false ea eb = refl
    by_test false b ea eb = ap (λ x. x || listed t missing) eb
note_missing-listed t u (some n) missing = refl

group_one-listed :
    (t : String) (b : Option String) (f : File) (g : Groups)
    → listed t (group_one b f g).missing
      ≡ ((truth b && is_text b t) && is_unknown f.tape_position) || listed t g.missing
unfolding add_file
group_one-listed t none f g = refl
group_one-listed t (some u) f g = ground (arith, note_missing-listed t u f.tape_position g.missing)

or_shift : (a b c : Bool) → a || (b || c) ≡ (b || a) || c
or_shift true true c = refl
or_shift true false c = refl
or_shift false true c = refl
or_shift false false c = refl

group_files-listed :
    (t : String) (fs : List File) (g : Groups)
    → listed t (group_files fs g).missing ≡ lacks_position t fs || listed t g.missing
unfolding group_files lacks_position
group_files-listed t [] g = refl
group_files-listed t (f ∷ fs) g =
    group_files-listed t fs (group_one f.tape_barcode f g)
    ∙ ap (λ x. lacks_position t fs || x) (group_one-listed t f.tape_barcode f g)
    ∙ or_shift (lacks_position t fs) (is_on t f && is_unknown f.tape_position) (listed t g.missing)

by_position :
    (b : Bool) (o : Option (List File)) → b ≡ false → IsAscending 0 (or_empty (sorted_if b o))
unfolding sort_group
by_position b none h = tt
by_position true (some fs) h = cc
by_position false (some fs) h = sort-IsAscending [] fs tt

-- The files of a tape are read from its begin to its end, where all of them have positions.
pub read_from-IsAscending :
    (current : Option String) (fs : List File) (t : String)
    → lacks_position t fs ≡ false
    → IsAscending 0 (read_from current fs t)
unfolding grouped
read_from-IsAscending current fs t h = subst (IsAscending 0) (sym (read_from-sorted current fs t)) (
    by_position _ _
      (group_files-listed t fs (record { needed = []; missing = [] }) ∙ ground (arith, h)))
