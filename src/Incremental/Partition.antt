-- ===== src/Incremental/Partition.antt =====
-- Each file of the plan stands in one of the two lists, and the numbers of the summary add up.
use fossilsafe_t.Prelude.{
  ℕ, ◌+◌, String, ◌≡◌, refl, ap, ◌∙◌, inl, inr, none, some, List, [], ◌∷◌, ◌++◌, arith,
  Option-cases, length, length-append, nat_eq, string_eq,
}
use fossilsafe_t.Prelude.Dict.{Dict, lookup, insert}
use fossilsafe_t.Incremental.{
  File, Known, Fate, backs_up, skips, fate, reason_of, Plan, empty_plan, bump, place, plan_file,
  plan_files, total_size, files_of, summary, compute_incremental_plan,
}

-- The sum of the numbers in a dict.
unfoldable pub sum_values : Dict String ℕ → ℕ
sum_values [] = 0
sum_values ((k, n) ∷ d) = n + sum_values d

sum-insert_new :
    (k : String) (n : ℕ) (d : Dict String ℕ)
    → lookup k d ≡ none
    → sum_values (insert k n d) ≡ sum_values d + n
unfolding sum_values lookup insert
sum-insert_new k n [] e = omega arith
sum-insert_new k n ((j, m) ∷ d) e = ground (arith, sum-insert_new k n d)

sum-insert_old :
    (k : String) (n m : ℕ) (d : Dict String ℕ)
    → lookup k d ≡ some m
    → sum_values (insert k (m + n) d) ≡ sum_values d + n
unfolding sum_values lookup insert
sum-insert_old k n m [] e = ground arith
sum-insert_old k n m ((j, i) ∷ d) e = ground (arith, sum-insert_old k n m d)

sum-bump : (k : String) (n : ℕ) (d : Dict String ℕ) → sum_values (bump k n d) ≡ sum_values d + n
unfolding bump
sum-bump k n d = elim (Option-cases (lookup k d)) [
  | inl e ↦ rw (bump, e) (sum-insert_new k n d e)
  | inr (m, e) ↦ rw (bump, e) (sum-insert_old k n m d e)
]

total-append : (xs ys : List File) → total_size (xs ++ ys) ≡ total_size xs + total_size ys
unfolding total_size
total-append [] ys = omega arith
total-append (x ∷ xs) ys = omega (arith, total-append xs ys)

files-append : (xs ys : List (File × String)) → files_of (xs ++ ys) ≡ files_of xs ++ files_of ys
files-append [] ys = refl
files-append (x ∷ xs) ys = ap (λ r. x.0 ∷ r) (files-append xs ys)

-- How much a plan holds, in files and in bytes.
abbrev count : Plan → ℕ
count p = length p.to_backup + length p.skipped

abbrev bytes : Plan → ℕ
bytes p = total_size (files_of p.to_backup) + total_size (files_of p.skipped)

record Adds (n size : ℕ) (p q : Plan) : Type 0 where
  count : length q.to_backup + length q.skipped ≡ length p.to_backup + length p.skipped + n
  bytes :
      total_size (files_of q.to_backup) + total_size (files_of q.skipped)
      ≡ total_size (files_of p.to_backup) + total_size (files_of p.skipped) + size
  reasons : sum_values q.reason_counts ≡ sum_values p.reason_counts + n
  reason_bytes : sum_values q.bytes_counts ≡ sum_values p.bytes_counts + size

total-added :
    (xs : List (File × String)) (f : File) (reason : String)
    → total_size (files_of (xs ++ (f, reason) ∷ [])) ≡ total_size (files_of xs) + f.size
unfolding total_size
total-added xs f reason =
    ap total_size (files-append xs ((f, reason) ∷ []))
    ∙ (total-append (files_of xs) (f ∷ []) ∙ omega arith)

plan_file-Adds : (k : Known) (f : File) (p : Plan) → Adds 1 f.size p (plan_file k f p)
unfolding plan_file place
plan_file-Adds k f p = placed (fate k f)
  where
    placed :
        (w : Fate)
        → Adds 1 f.size p (record (place w f p) {
          reason_counts = bump (reason_of w) 1 p.reason_counts;
          bytes_counts = bump (reason_of w) f.size p.bytes_counts;
        })
    placed (backs_up reason) = record {
      count = omega (arith, length-append p.to_backup ((f, reason) ∷ []));
      bytes = omega (arith, total-added p.to_backup f reason);
      reasons = sum-bump reason 1 p.reason_counts;
      reason_bytes = sum-bump reason f.size p.bytes_counts;
    }
    placed (skips reason) = record {
      count = omega (arith, length-append p.skipped ((f, reason) ∷ []));
      bytes = omega (arith, total-added p.skipped f reason);
      reasons = sum-bump reason 1 p.reason_counts;
      reason_bytes = sum-bump reason f.size p.bytes_counts;
    }

plan_files-Adds :
    (k : Known) (fs : List File) (p : Plan) → Adds (length fs) (total_size fs) p (plan_files k fs p)
unfolding plan_files total_size
plan_files-Adds k [] p = record {
  count = omega arith;
  bytes = omega arith;
  reasons = omega arith;
  reason_bytes = omega arith;
}
plan_files-Adds k (f ∷ fs) p =
    let a = plan_file-Adds k f p in
    let b = plan_files-Adds k fs (plan_file k f p) in
    record {
      count = omega (arith, a.count, b.count);
      bytes = omega (arith, a.bytes, b.bytes);
      reasons = omega (arith, a.reasons, b.reasons);
      reason_bytes = omega (arith, a.reason_bytes, b.reason_bytes);
    }

-- The summary adds up: the files of both lists are as many as were given and their bytes are the
-- total, and so are the sums of the counts and of the bytes by reason.
pub summary-adds_up :
    (k : Known) (files : List File)
    → let s = (compute_incremental_plan k files).1 in
      (s.to_backup_files + s.skipped_files ≡ s.total_files)
      × (s.to_backup_bytes + s.skipped_bytes ≡ s.total_bytes)
      × (sum_values s.reason_counts ≡ s.total_files)
      × (sum_values s.reason_bytes ≡ s.total_bytes)
unfolding compute_incremental_plan summary sum_values total_size
summary-adds_up k files =
    let a = plan_files-Adds k files empty_plan in
    (
      omega (arith, a.count),
      omega (arith, a.bytes),
      omega (arith, a.reasons),
      omega (arith, a.reason_bytes),
    )

-- The entries with a fate, each with its reason, in the order of the files.
unfoldable pub backed_up : Known → List File → List (File × String)
backed_up k [] = []
backed_up k (f ∷ fs) = elim (fate k f) [
  | backs_up reason ↦ (f, reason) ∷ backed_up k fs
  | skips reason ↦ backed_up k fs
]

unfoldable pub left_out : Known → List File → List (File × String)
left_out k [] = []
left_out k (f ∷ fs) = elim (fate k f) [
  | backs_up reason ↦ left_out k fs
  | skips reason ↦ (f, reason) ∷ left_out k fs
]

append_one : {A : Type 0} (xs ys : List A) (x : A) → (xs ++ x ∷ []) ++ ys ≡ xs ++ x ∷ ys
append_one [] ys x = refl
append_one (z ∷ xs) ys x = ap (λ r. z ∷ r) (append_one xs ys x)

append_nil : {A : Type 0} (xs : List A) → xs ≡ xs ++ []
append_nil [] = refl
append_nil (x ∷ xs) = ap (λ r. x ∷ r) (append_nil xs)

plan_files-lists :
    (k : Known) (fs : List File) (p : Plan)
    → ((plan_files k fs p).to_backup ≡ p.to_backup ++ backed_up k fs)
      × ((plan_files k fs p).skipped ≡ p.skipped ++ left_out k fs)
unfolding plan_files backed_up left_out plan_file place
plan_files-lists k [] p = (append_nil p.to_backup, append_nil p.skipped)
plan_files-lists k (f ∷ fs) p = split (fate k f) refl (plan_files-lists k fs (plan_file k f p))
  where
    split :
        (w : Fate)
        → fate k f ≡ w
        → ((plan_files k fs (plan_file k f p)).to_backup
            ≡ (plan_file k f p).to_backup ++ backed_up k fs)
          × ((plan_files k fs (plan_file k f p)).skipped
              ≡ (plan_file k f p).skipped ++ left_out k fs)
        → ((plan_files k (f ∷ fs) p).to_backup ≡ p.to_backup ++ backed_up k (f ∷ fs))
          × ((plan_files k (f ∷ fs) p).skipped ≡ p.skipped ++ left_out k (f ∷ fs))
    split (backs_up reason) e rest = (
      rest.0 ∙ rw (plan_file, backed_up, e) (append_one p.to_backup (backed_up k fs) (f, reason)),
      rest.1 ∙ rw (plan_file, left_out, e) refl,
    )
    split (skips reason) e rest = (
      rest.0 ∙ rw (plan_file, backed_up, e) refl,
      rest.1 ∙ rw (plan_file, left_out, e) (append_one p.skipped (left_out k fs) (f, reason)),
    )

-- The list to back up holds the files that `fate` backs up, and the other list those that it
-- skips, each with its reason and in the order of the files.
pub plan-partition :
    (k : Known) (files : List File)
    → ((compute_incremental_plan k files).0.to_backup ≡ backed_up k files)
      × ((compute_incremental_plan k files).0.skipped ≡ left_out k files)
unfolding compute_incremental_plan
plan-partition k files = plan_files-lists k files empty_plan
