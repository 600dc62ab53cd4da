-- ===== src/Incremental.antt =====
-- backend/backup_engine.py: `compute_incremental_plan`, which files an incremental backup copies.
-- A missing checksum is the empty text, a missing size is 0, and sizes are not negative.
pub mod Partition
pub mod LeftOut
pub mod Reasons
mod Tests
use fossilsafe_t.Prelude.{
  ℕ, zero, suc, ◌+◌, ◌-◌, ◌*◌, ◌/◌, ◌%◌, ◌^◌, ◌≤◌, ◌<◌, String, ◌≡◌, refl, sym, ap, subst, ◌∙◌, ◌≢◌,
  ◌↔◌, ◌⊎◌, inl, inr, Bool, true, false, not, ◌&&◌, ◌||◌, Option, none, some, List, [], ◌∷◌, ◌++◌,
  map, arith, ltb, leb, nat_beq, if◌then◌else◌, nat_beq_iff, Bool-cases, Option-cases, length, take,
  drop, keep, find, last?, length-append, length-keep-le, last?-append, All, All-append, Eq, ◌==◌,
  nat_eq, string_eq, beq_refl, str_iff, is_text, text_truth, truth,
}
use fossilsafe_t.Prelude.Dict.{
  Dict, lookup, insert, remove, contains, lookup-insert, lookup-remove, lookup-insert_self,
  lookup-insert_ne, lookup-remove_self, lookup-remove_ne,
}

pub record File : Type 0 where
  pub path : String
  pub checksum : String
  pub size : ℕ

abbrev pub reason_new : String
reason_new = "NEW"

abbrev pub reason_changed : String
reason_changed = "CHANGED_HASH"

abbrev pub reason_missing : String
reason_missing = "MISSING_ON_TAPE"

abbrev pub reason_unknown : String
reason_unknown = "UNKNOWN"

abbrev pub reason_skipped_unchanged : String
reason_skipped_unchanged = "SKIPPED_UNCHANGED"

-- The arguments that stay the same for all files.
pub record Known : Type 0 where
  pub last_snapshot : Dict String String
  pub catalog_index : Dict String (List String)
  pub available_tapes : List String

-- `x in xs`, and whether two sets meet.
unfoldable pub among : String → List String → Bool
among x [] = false
among x (y ∷ ys) = x == y || among x ys

unfoldable pub meets : List String → List String → Bool
meets [] ys = false
meets (x ∷ xs) ys = among x ys || meets xs ys

-- `catalog_index.get(checksum, [])`
unfoldable pub catalog_tapes : Known → String → List String
catalog_tapes k checksum = elim (lookup checksum k.catalog_index) [ none ↦ [] | some tapes ↦ tapes ]

abbrev pub is_empty : List String → Bool
is_empty [] = true
is_empty (x ∷ xs) = false

-- The list that an entry goes to, and its reason.
pub data Fate : Type 0 where
  backs_up : String → Fate
  skips : String → Fate

unfoldable pub fate : Known → File → Fate
fate k f =
    let snapshot_checksum = lookup f.path k.last_snapshot in
    let tapes = catalog_tapes k f.checksum in
    if not (text_truth f.checksum)
    then backs_up reason_unknown
    else if is_text snapshot_checksum f.checksum
    then if not (is_empty tapes) && not (meets tapes k.available_tapes)
      then backs_up reason_missing
      else skips reason_skipped_unchanged
    else if truth snapshot_checksum
    then backs_up reason_changed
    else backs_up reason_new

abbrev pub reason_of : Fate → String
reason_of (backs_up reason) = reason
reason_of (skips reason) = reason

-- What the loop builds; an entry is kept with its reason.
pub record Plan : Type 0 where
  pub to_backup : List (File × String)
  pub skipped : List (File × String)
  pub reason_counts : Dict String ℕ
  pub bytes_counts : Dict String ℕ

abbrev pub empty_plan : Plan
empty_plan = record { to_backup = []; skipped = []; reason_counts = []; bytes_counts = [] }

-- `d[k] += n` on a `defaultdict(int)`
unfoldable pub bump : String → ℕ → Dict String ℕ → Dict String ℕ
bump k n d = elim (lookup k d) [ none ↦ insert k n d | some m ↦ insert k (m + n) d ]

unfoldable pub place : Fate → File → Plan → Plan
place (backs_up reason) f p = record p { to_backup = p.to_backup ++ (f, reason) ∷ [] }
place (skips reason) f p = record p { skipped = p.skipped ++ (f, reason) ∷ [] }

unfoldable pub plan_file : Known → File → Plan → Plan
plan_file k f p =
    let reason = reason_of (fate k f) in
    record (place (fate k f) f p) {
      reason_counts = bump reason 1 p.reason_counts;
      bytes_counts = bump reason f.size p.bytes_counts;
    }

unfoldable pub plan_files : Known → List File → Plan → Plan
plan_files k [] p = p
plan_files k (f ∷ fs) p = plan_files k fs (plan_file k f p)

unfoldable pub total_size : List File → ℕ
total_size [] = 0
total_size (f ∷ fs) = f.size + total_size fs

abbrev pub files_of : List (File × String) → List File
files_of entries = map (λ e. e.0) entries

pub record Summary : Type 0 where
  pub total_files : ℕ
  pub total_bytes : ℕ
  pub to_backup_files : ℕ
  pub to_backup_bytes : ℕ
  pub skipped_files : ℕ
  pub skipped_bytes : ℕ
  pub reason_counts : Dict String ℕ
  pub reason_bytes : Dict String ℕ

unfoldable pub summary : List File → Plan → Summary
summary files p = record {
  total_files = length files;
  total_bytes = total_size files;
  to_backup_files = length p.to_backup;
  to_backup_bytes = total_size (files_of p.to_backup);
  skipped_files = length p.skipped;
  skipped_bytes = total_size (files_of p.skipped);
  reason_counts = p.reason_counts;
  reason_bytes = p.bytes_counts;
}

unfoldable pub compute_incremental_plan : Known → List File → Plan × Summary
compute_incremental_plan k files = let p = plan_files k files empty_plan in (p, summary files p)
