-- ===== src/Restore/Endings.antt =====
-- How a restore ends, and which files it has attempted to copy by then.
use fossilsafe_t.Prelude.{
  ℕ, zero, suc, ◌+◌, ◌-◌, String, ◌≡◌, refl, sym, subst, ◌∙◌, ◌⊎◌, inl, inr, Bool, true, false,
  List, [], ◌∷◌, ◌++◌, if◌then◌else◌, ltb, is_text, Option, some, nat_eq, string_eq,
}
use fossilsafe_t.Prelude.Dict.{Dict, lookup}
use fossilsafe_t.Restore.Plan.{File, RestorePlan, is_empty, or_empty}
use fossilsafe_t.Restore.Execute.{
  running, completed, failed, cancelled, is_cancelled, Surroundings, Ending, finished, stopped,
  broken, Engine, load_unless, ensure_tape_loaded, wait_turns, waiting_for_tape,
  wait_for_tape_ready, make_ready, restore_files_from_tape, after_copy, copy_from, process_tapes,
  conclude, execute_plan, set,
}
use fossilsafe_t.Restore.Attempts.{
  entries, plan_entries, append_nil, append_assoc, Watched, HasTried, after_mount-HasTried,
}

module _ (s : Surroundings) (watch : Watched s) where
  open watch use {attempts}

  -- A loop over the tapes that comes to its end has attempted all files.
  abbrev HasFinished : List (String × File) → List (String × File) → Ending × Engine s → Type 0
  HasFinished before more (finished, e) = (attempts e.world) ≡ before ++ more
  HasFinished before more (stopped, e) = Unit
  HasFinished before more (broken, e) = Unit

  then_more :
      (before xs more : List (String × File)) (r : Ending × Engine s)
      → HasFinished (before ++ xs) more r
      → HasFinished before (xs ++ more) r
  then_more before xs more (finished, e) h = h ∙ append_assoc before xs more
  then_more before xs more (stopped, e) h = tt
  then_more before xs more (broken, e) h = tt

  after_copy-HasFinished :
      (before xs more : List (String × File)) (next : Engine s → Ending × Engine s)
      → ((g : Engine s) → HasFinished (attempts g.world) more (next g))
      → (r : Bool × Engine s) → HasTried s watch before xs r
      → HasFinished before (xs ++ more) (after_copy s next r)
  after_copy-HasFinished before xs more next h (false, e) tried = tt
  after_copy-HasFinished before xs more next h (true, e) tried =
      by_test (is_cancelled (s.status e.world)) refl
    where
      by_test :
          (b : Bool)
          → is_cancelled (s.status e.world) ≡ b
          → HasFinished before (xs ++ more) (if b then (stopped, e) else next e)
      by_test true c = tt
      by_test false c = elim tried [
        | inl c' ↦ cc (c, c')
        | inr all ↦
            then_more before xs more (next e) (subst (λ b. HasFinished b more (next e)) all (h e))
      ]

  load_unless-attempts :
      (b : Bool) (t : String) (w : s.World) → attempts (load_unless s b t w).1 ≡ attempts w
  load_unless-attempts true t w = refl
  load_unless-attempts false t w = by_test s.drive_only_mode
    where
      by_test : (b : Bool) → attempts (if b then (false, w) else s.load_tape t w).1 ≡ attempts w
      by_test true = refl
      by_test false = watch.on_load t w

  ensure-attempts : (t : String) (w : s.World) → attempts (ensure_tape_loaded s t w).1 ≡ attempts w
  unfolding ensure_tape_loaded
  ensure-attempts t w = load_unless-attempts _ t (s.current_tape w).1 ∙ watch.on_current w

  turns-attempts :
      (n start timeout : ℕ) (t : String) (w : s.World)
      → attempts (wait_turns s n start timeout t w).1 ≡ attempts w
  unfolding wait_turns
  turns-attempts zero start timeout t w = refl
  turns-attempts (suc n) start timeout t w =
      by_test (ltb (s.now w - start) timeout) (is_text (s.current_tape w).0 t)
        (is_cancelled (s.status (s.current_tape w).1))
        (turns-attempts n start timeout t (s.sleep 2 (s.current_tape w).1)
          ∙ watch.on_sleep 2 (s.current_tape w).1
          ∙ watch.on_current w)
    where
      later : s.World
      later = (s.current_tape w).1

      rest : Option Bool × s.World
      rest = wait_turns s n start timeout t (s.sleep 2 later)

      by_test :
          (a b d : Bool)
          → attempts rest.1 ≡ attempts w
          → attempts
              (if a
                then (if b then (some true, later) else if d then (some false, later) else rest)
                else (some false, w)).1
            ≡ attempts w
      by_test false b d h = refl
      by_test true true d h = watch.on_current w
      by_test true false true h = watch.on_current w
      by_test true false false h = h

  make_ready-attempts :
      (job : ℕ) (tape : String) (r : Bool × s.World) (e : Engine s)
      → attempts (make_ready s job tape r e).1.world ≡ attempts r.1
  unfolding wait_for_tape_ready
  make_ready-attempts job tape (true, w) e = refl
  make_ready-attempts job tape (false, w) e =
      turns-attempts (3600 + 1) _ 3600 tape (s.set_status waiting_for_tape w)
      ∙ watch.on_status waiting_for_tape w

  copy_from-HasFinished :
      (before : List (String × File)) (tape : String) (fs : List File) (more : List (String × File))
      (next : Engine s → Ending × Engine s)
      → ((g : Engine s) → HasFinished (attempts g.world) more (next g))
      → (r : Bool × Engine s) → attempts r.1.world ≡ before
      → HasFinished before (entries tape fs ++ more) (copy_from s tape fs next r)
  unfolding restore_files_from_tape
  copy_from-HasFinished before tape fs more next h (false, e) same = tt
  copy_from-HasFinished before tape fs more next h (true, e) same =
      let w = s.set_status running e.world in
      after_copy-HasFinished before (entries tape fs) more next h _ (
        after_mount-HasTried s watch before tape fs (s.mount_ltfs tape w) (set s running e)
          (watch.on_mount tape w ∙ watch.on_status running e.world ∙ same))

  pub process-HasFinished :
      (job : ℕ) (files : Dict String (List File)) (order : List String) (e : Engine s)
      → HasFinished
          (attempts e.world)
          (plan_entries files order)
          (process_tapes s job files order e)
  unfolding process_tapes plan_entries
  process-HasFinished job files [] e = sym (append_nil (attempts e.world))
  process-HasFinished job files (tape ∷ order) e =
      copy_from-HasFinished (attempts e.world) tape (or_empty (lookup tape files))
        (plan_entries files order) _ (λ g. process-HasFinished job files order g)
        (make_ready s job tape (ensure_tape_loaded s tape e.world) e)
        (make_ready-attempts job tape (ensure_tape_loaded s tape e.world) e
          ∙ ensure-attempts tape e.world)

  -- The answer and the job's row, and what has been attempted, after `conclude`.
  abbrev pub IsConcluded : List (String × File) → List (String × File) → Bool × Engine s → Type 0
  IsConcluded before more (true, e) =
      s.status e.world ≡ completed × (attempts e.world) ≡ before ++ more
  IsConcluded before more (false, e) = (s.status e.world ≡ failed) ⊎ (s.status e.world ≡ cancelled)

  conclude-IsConcluded :
      (before more : List (String × File)) (r : Ending × Engine s)
      → HasFinished before more r
      → IsConcluded before more (conclude s r)
  conclude-IsConcluded before more (finished, e) h =
      (watch.status_set completed e.world, watch.on_status completed e.world ∙ h)
  conclude-IsConcluded before more (stopped, e) h = inr (watch.status_set cancelled e.world)
  conclude-IsConcluded before more (broken, e) h = inl (watch.status_set failed e.world)

-- Let the job's row read what the restore wrote last, and let an unmount leave it. A restore that
-- returns true has completed the job, and has called the copy of each planned file of each tape of
-- the plan, in the order of the plan, once for each time it is planned, and of no other file. The
-- copies need not have succeeded: a file without a path on its tape is passed over, what goes wrong
-- in a copy is caught, and the restore goes on. A restore that returns false leaves the job failed or
-- cancelled. So no job is left running or waiting.
pub execute_plan-IsConcluded :
    (s : Surroundings) (watch : Watched s) (job : ℕ) (plan : RestorePlan) (e : Engine s)
    → IsConcluded s watch
        (watch.attempts e.world)
        (plan_entries plan.files_per_tape plan.tape_order)
        (execute_plan s job plan e)
unfolding execute_plan
execute_plan-IsConcluded s watch job plan e = by_test (is_empty plan.files)
  where
    by_test :
        (b : Bool)
        → IsConcluded s watch
            (watch.attempts e.world)
            (plan_entries plan.files_per_tape plan.tape_order)
            (if b
              then (false, set s failed e)
              else conclude s
                  (process_tapes s job plan.files_per_tape plan.tape_order (set s running e)))
    by_test true = inl (watch.status_set failed e.world)
    by_test false =
        let end = process_tapes s job plan.files_per_tape plan.tape_order (set s running e) in
        subst
          (λ b.
            IsConcluded s watch b (plan_entries plan.files_per_tape plan.tape_order)
              (conclude s end))
          (watch.on_status running e.world)
          (conclude-IsConcluded s watch (watch.attempts (set s running e).world)
            (plan_entries plan.files_per_tape plan.tape_order) end
            (process-HasFinished s watch job plan.files_per_tape plan.tape_order (set s running e)))
