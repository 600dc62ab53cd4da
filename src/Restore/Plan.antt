-- ===== src/Restore/Plan.antt =====
-- The plan of a restore.
use fossilsafe_t.Prelude.{
  ℕ, ◌+◌, ◌-◌, ◌*◌, ◌/◌, String, Bool, true, false, ◌&&◌, ◌||◌, Option, none, some, List, [], ◌∷◌,
  ◌++◌, ltb, if◌then◌else◌, length, ◌==◌, nat_eq, string_eq, text_truth,
}
use fossilsafe_t.Prelude.Dict.{Dict, lookup, insert}
use Prim.Native.String.{compare}
use text.Mathlib.Text.{is_lt}

pub record File : Type 0 where
  pub file_id : ℕ
  pub tape_barcode : Option String
  pub tape_position : Option ℕ
  pub file_path : String
  pub file_size : ℕ

pub data Warning : Type 0 where
  no_files : Warning
  many_tapes : ℕ → Warning
  missing_position : Warning

pub record RestorePlan : Type 0 where
  pub files : List File
  pub tapes_needed : List String
  pub tape_order : List String
  pub files_per_tape : Dict String (List File)
  pub estimated_time_seconds : ℕ
  pub warnings : List Warning

-- The files that the catalog has.
unfoldable pub found_files : (ℕ → Option File) → List ℕ → List File
found_files catalog [] = []
found_files catalog (i ∷ ids) =
    let rest = found_files catalog ids in elim (catalog i) [ none ↦ rest | some f ↦ f ∷ rest ]

pub record Groups : Type 0 where
  pub needed : Dict String (List File)
  pub missing : List String

abbrev pub or_empty : Option (List File) → List File
or_empty none = []
or_empty (some fs) = fs

abbrev pub listed : String → List String → Bool
listed t [] = false
listed t (u ∷ us) = u == t || listed t us

abbrev pub note_missing : Option ℕ → String → List String → List String
note_missing none tape missing = if listed tape missing then missing else tape ∷ missing
note_missing (some n) tape missing = missing

unfoldable pub add_file : String → File → Groups → Groups
add_file tape f g = record {
  needed = insert tape (or_empty (lookup tape g.needed) ++ f ∷ []) g.needed;
  missing = note_missing f.tape_position tape g.missing;
}

abbrev pub group_one : Option String → File → Groups → Groups
group_one none f g = g
group_one (some tape) f g = if text_truth tape then add_file tape f g else g

unfoldable pub group_files : List File → Groups → Groups
unfolding add_file
group_files [] g = g
group_files (f ∷ fs) g = group_files fs (group_one f.tape_barcode f g)

-- A stable sort: an element goes before the first one that it is less than.
module _ {A : Type 0} (less : A → A → Bool) where
  unfoldable pub place : A → List A → List A
  place x [] = x ∷ []
  place x (y ∷ ys) = let rest = place x ys in if less x y then x ∷ y ∷ ys else y ∷ rest

  unfoldable pub sort_onto : List A → List A → List A
  unfolding place
  sort_onto sorted [] = sorted
  sort_onto sorted (x ∷ xs) = sort_onto (place x sorted) xs

abbrev pub text_less : String → String → Bool
text_less a b = is_lt (compare a b)

abbrev pub path_less : File → File → Bool
path_less f g = text_less f.file_path g.file_path

abbrev pub position_of : File → ℕ
position_of f = elim f.tape_position [ none ↦ 0 | some n ↦ n ]

abbrev pub position_less : File → File → Bool
position_less f g =
    ltb (position_of f) (position_of g) || (position_of f == position_of g && path_less f g)

unfoldable pub sort_group : Bool → List File → List File
unfolding sort_onto
sort_group by_path fs = if by_path then sort_onto path_less [] fs else sort_onto position_less [] fs

unfoldable pub sort_groups : List String → Dict String (List File) → Dict String (List File)
unfolding sort_group
sort_groups missing [] = []
sort_groups missing ((tape, fs) ∷ d) =
    (tape, sort_group (listed tape missing) fs) ∷ sort_groups missing d

unfoldable pub keys : Dict String (List File) → List String
keys [] = []
keys ((tape, fs) ∷ d) = tape ∷ keys d

-- `list.remove`
unfoldable pub remove_one : String → List String → List String
remove_one t [] = []
remove_one t (u ∷ us) = let rest = remove_one t us in if u == t then us else u ∷ rest

-- The tape that is loaded comes first, where it is needed.
abbrev pub current_first : Option String → List String → List String
current_first none order = order
current_first (some t) order = if listed t order then t ∷ remove_one t order else order

unfoldable pub for_tapes : List String → Dict String (List File) → Dict String (List File)
for_tapes [] d = []
for_tapes (t ∷ order) d = (t, or_empty (lookup t d)) ∷ for_tapes order d

unfoldable pub total_size : List File → ℕ
total_size [] = 0
total_size (f ∷ fs) = f.file_size + total_size fs

abbrev pub is_empty {ℓ} : {A : Type ℓ} → List A → Bool
is_empty [] = true
is_empty (x ∷ xs) = false

unfoldable pub tape_order_of : Option String → Dict String (List File) → List String
unfolding keys sort_onto remove_one
tape_order_of current d = current_first current (sort_onto text_less [] (keys d))

-- The barcode of the tape in the drive is none where there is no tape, no barcode, or no controller.
unfoldable pub plan_files : Option String → List File → RestorePlan
unfolding group_files sort_groups keys tape_order_of for_tapes total_size
plan_files current fs =
    let groups = group_files fs (record { needed = []; missing = [] }) in
    let needed = sort_groups groups.missing groups.needed in
    let order = tape_order_of current needed in
    record {
      files = fs;
      tapes_needed = keys needed;
      tape_order = order;
      files_per_tape = for_tapes order needed;
      estimated_time_seconds = (length order - 1) * 120 + total_size fs / (1024 * 1024);
      warnings =
          (if ltb 5 (length order) then many_tapes (length order) ∷ [] else [])
          ++ (if is_empty groups.missing then [] else missing_position ∷ []);
    }

unfoldable pub plan_restore : (ℕ → Option File) → Option String → List ℕ → RestorePlan
unfolding found_files plan_files
plan_restore catalog current ids =
    let fs = found_files catalog ids in
    if is_empty fs
    then record {
      files = [];
      tapes_needed = [];
      tape_order = [];
      files_per_tape = [];
      estimated_time_seconds = 0;
      warnings = no_files ∷ [];
    }
    else plan_files current fs
