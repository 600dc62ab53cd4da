-- ===== src/Restore/Coverage.antt =====
-- What a completed restore has attempted of a request: each requested file, from its own tape.
use fossilsafe_t.Prelude.{
  ℕ, String, ◌≡◌, refl, sym, ap, subst, ◌∙◌, inl, inr, Bool, true, false, Option, List, [], ◌∷◌,
  ◌++◌, arith, if◌then◌else◌, Bool-cases, length, keep, ◌==◌, nat_eq, string_eq, str_iff,
}
use fossilsafe_t.Prelude.Dict.{Dict, lookup}
use fossilsafe_t.Restore.Plan.{File, or_empty, plan_files}
use fossilsafe_t.Restore.Execute.{Surroundings, Engine, execute_plan}
use fossilsafe_t.Restore.Counts.{times}
use fossilsafe_t.Restore.Order.{any_on, tape_order-once}
use fossilsafe_t.Restore.Groups.{files_on, read_from-files_on}
use fossilsafe_t.Restore.Attempts.{entries, plan_entries, Watched}
use fossilsafe_t.Restore.Endings.{IsConcluded, execute_plan-IsConcluded}

-- The files whose copy from a tape was called.
unfoldable pub from_tape : String → List (String × File) → List File
from_tape t [] = []
from_tape t ((u, f) ∷ l) = let rest = from_tape t l in if u == t then f ∷ rest else rest

from_tape-same :
    (t u : String) (fs : List File) (l : List (String × File))
    → (u == t) ≡ true
    → from_tape t (entries u fs ++ l) ≡ fs ++ from_tape t l
unfolding from_tape
from_tape-same t u [] l e = refl
from_tape-same t u (f ∷ fs) l e = rw e (ap (λ r. f ∷ r) (from_tape-same t u fs l e))

from_tape-other :
    (t u : String) (fs : List File) (l : List (String × File))
    → (u == t) ≡ false
    → from_tape t (entries u fs ++ l) ≡ from_tape t l
unfolding from_tape
from_tape-other t u [] l e = refl
from_tape-other t u (f ∷ fs) l e = rw e (from_tape-other t u fs l e)

from_tape-never :
    (t : String) (files : Dict String (List File)) (order : List String)
    → times t order ≡ 0
    → from_tape t (plan_entries files order) ≡ []
unfolding from_tape plan_entries
from_tape-never t files [] h = refl
from_tape-never t files (u ∷ order) h = elim (Bool-cases (u == t)) [
  | inl e ↦ absurd (ground (arith, h, e))
  | inr e ↦
      from_tape-other t u (or_empty (lookup u files)) (plan_entries files order) e
      ∙ from_tape-never t files order (ground (arith, h, e))
]

append_nil : (xs : List File) → xs ++ [] ≡ xs
append_nil [] = refl
append_nil (x ∷ xs) = ap (λ r. x ∷ r) (append_nil xs)

from_tape-once :
    (t : String) (files : Dict String (List File)) (order : List String)
    → times t order ≡ 1
    → from_tape t (plan_entries files order) ≡ or_empty (lookup t files)
unfolding from_tape plan_entries
from_tape-once t files [] h = ground (arith, h)
from_tape-once t files (u ∷ order) h = elim (Bool-cases (u == t)) [
  | inl e ↦
      let same : u ≡ t = (str_iff u t).0 e in
      let rest = from_tape-never t files order (ground (arith, h, e)) in
      from_tape-same t u (or_empty (lookup u files)) (plan_entries files order) e
      ∙ ap (λ r. or_empty (lookup u files) ++ r) rest
      ∙ append_nil (or_empty (lookup u files))
      ∙ ap (λ v. or_empty (lookup v files)) same
  | inr e ↦
      from_tape-other t u (or_empty (lookup u files)) (plan_entries files order) e
      ∙ from_tape-once t files order (ground (arith, h, e))
]

files_on-none : (t : String) (fs : List File) → any_on t fs ≡ false → files_on t fs ≡ []
unfolding any_on
files_on-none t [] h = refl
files_on-none t (f ∷ fs) h = ground (arith, h, files_on-none t fs)

-- The files of a plan that are read from a tape are those of the request that are on it.
planned-count :
    (current : Option String) (fs : List File) (t : String) (p : File → Bool)
    → length (
        keep p (
          from_tape t (
            plan_entries
              (plan_files current fs).files_per_tape
              (plan_files current fs).tape_order)))
      ≡ length (keep p (files_on t fs))
planned-count current fs t p =
    let plan = plan_files current fs in
    let visits = tape_order-once current fs t in
    elim (Bool-cases (any_on t fs)) [
      | inl e ↦
          ap (λ l. length (keep p l))
            (from_tape-once t plan.files_per_tape plan.tape_order
              (visits ∙ ap (λ b. if b then 1 else 0) e))
          ∙ read_from-files_on current fs t p
      | inr e ↦
          ap (λ l. length (keep p l))
            (from_tape-never t plan.files_per_tape plan.tape_order
                (visits ∙ ap (λ b. if b then 1 else 0) e)
              ∙ sym (files_on-none t fs e))
    ]

-- What a completed restore of files has attempted to copy from a tape.
abbrev pub AttemptedAll :
    {s : Surroundings} → Watched s → List File → String → (File → Bool) → Bool × Engine s → Type 0
AttemptedAll watch fs t p (true, e) =
    length (keep p (from_tape t (watch.attempts e.world))) ≡ length (keep p (files_on t fs))
AttemptedAll watch fs t p (false, e) = Unit

attempted_all :
    (s : Surroundings) (watch : Watched s) (current : Option String) (fs : List File) (t : String)
    (p : File → Bool) (r : Bool × Engine s)
    → IsConcluded s watch []
        (plan_entries (plan_files current fs).files_per_tape (plan_files current fs).tape_order)
        r
    → AttemptedAll watch fs t p r
attempted_all s watch current fs t p (true, e) h =
    ap (λ l. length (keep p (from_tape t l))) h.1 ∙ planned-count current fs t p
attempted_all s watch current fs t p (false, e) h = tt

-- Let the job's row read what the restore wrote last, let an unmount leave it, and let no copy have
-- been called before. Where a restore of planned files returns true, then for each tape and each
-- test there were as many calls of the copy of a file from this tape that passes the test as the
-- request has such files on it: each requested file that has a tape was attempted once for each time
-- it was requested, from its own tape, and nothing else was. The copies need not have succeeded: a
-- file without a path on its tape is passed over, what goes wrong in a copy is caught, and the
-- restore goes on.
pub execute_plan-AttemptedAll :
    (s : Surroundings) (watch : Watched s) (job : ℕ) (current : Option String) (fs : List File)
    (t : String) (p : File → Bool) (e : Engine s)
    → watch.attempts e.world ≡ []
    → AttemptedAll watch fs t p (execute_plan s job (plan_files current fs) e)
execute_plan-AttemptedAll s watch job current fs t p e h =
    let plan = plan_files current fs in
    attempted_all s watch current fs t p _ (
      subst
        (λ b.
          IsConcluded s watch b (plan_entries plan.files_per_tape plan.tape_order)
            (execute_plan s job plan e))
        h (execute_plan-IsConcluded s watch job plan e))
