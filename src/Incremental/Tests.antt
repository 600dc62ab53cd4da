-- ===== src/Incremental/Tests.antt =====
-- Plans for a few files, and the theorems at concrete inputs.
use fossilsafe_t.Prelude.{
  ◌+◌, String, ◌≡◌, refl, ◌≢◌, ◌↔◌, ◌⊎◌, some, List, [], ◌∷◌, map, nat_eq, string_eq,
}
use fossilsafe_t.Prelude.Dict.{lookup}
use fossilsafe_t.Incremental.{
  File, Known, backs_up, skips, fate, among, meets, catalog_tapes, compute_incremental_plan,
}
use mathlib.Core.List.{Memᴰ}
use fossilsafe_t.Incremental.Partition.{sum_values, summary-adds_up}
use fossilsafe_t.Incremental.LeftOut.{skipped-iff-unchanged}

abbrev known : Known
known = record {
  last_snapshot = ("/a", "1") ∷ ("/b", "2") ∷ ("/c", "3") ∷ [];
  catalog_index = ("1", "T1" ∷ []) ∷ ("3", "T9" ∷ []) ∷ [];
  available_tapes = "T1" ∷ [];
}

abbrev files : List File
files =
    record { path = "/a"; checksum = "1"; size = 10 }
    ∷ record { path = "/b"; checksum = "5"; size = 20 }
    ∷ record { path = "/c"; checksum = "3"; size = 30 }
    ∷ []

fates :
    map (fate known) files
    ≡ skips "SKIPPED_UNCHANGED" ∷ backs_up "CHANGED_HASH" ∷ backs_up "MISSING_ON_TAPE" ∷ []
unfolding fate among meets catalog_tapes lookup
fates = refl

summary-adds_up_example :
    let s = (compute_incremental_plan known files).1 in
    (s.to_backup_files + s.skipped_files ≡ s.total_files)
    × (s.to_backup_bytes + s.skipped_bytes ≡ s.total_bytes)
    × (sum_values s.reason_counts ≡ s.total_files)
    × (sum_values s.reason_bytes ≡ s.total_bytes)
summary-adds_up_example = summary-adds_up known files

abbrev first : File
first = record { path = "/a"; checksum = "1"; size = 10 }

skipped-iff-unchanged_example :
    ((reason : String) × Memᴰ (first, reason) (compute_incremental_plan known files).0.skipped) ↔ (
      Memᴰ first files
      × (first.checksum ≢ "")
      × (lookup "/a" known.last_snapshot ≡ some "1")
      × ((catalog_tapes known "1" ≡ [])
          ⊎ ((t : String) × Memᴰ t (catalog_tapes known "1") × Memᴰ t ("T1" ∷ []))))
skipped-iff-unchanged_example = skipped-iff-unchanged known first files

-- A file that was renamed, with its content on an available tape.
renamed_is_new :
    fate
      (record {
        last_snapshot = ("docs/report.txt", "hash1") ∷ [];
        catalog_index = ("hash1", "TAPE001" ∷ []) ∷ [];
        available_tapes = "TAPE001" ∷ [];
      })
      (record { path = "docs/renamed.txt"; checksum = "hash1"; size = 100 })
    ≡ backs_up "NEW"
unfolding fate among meets catalog_tapes lookup
renamed_is_new = refl
