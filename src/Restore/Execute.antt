-- ===== src/Restore/Execute.antt =====
-- The execution of a plan: tapes one after another, with a wait where a tape has to be put in.
use fossilsafe_t.Prelude.{
  ℕ, zero, suc, ◌+◌, ◌-◌, String, Bool, true, false, Option, none, some, List, [], ◌∷◌, ltb,
  if◌then◌else◌, nat_eq, string_eq, is_text,
}
use fossilsafe_t.Prelude.Dict.{Dict, lookup, insert, remove}
use fossilsafe_t.Restore.Plan.{File, RestorePlan, or_empty, is_empty, plan_restore}

pub data JobStatus : Type 0 where
  pending : JobStatus
  running : JobStatus
  waiting_for_tape : JobStatus
  completed : JobStatus
  failed : JobStatus
  cancelled : JobStatus

abbrev pub is_cancelled : JobStatus → Bool
is_cancelled cancelled = true
is_cancelled pending = false
is_cancelled running = false
is_cancelled waiting_for_tape = false
is_cancelled completed = false
is_cancelled failed = false

-- What comes of taking up one file: it is restored; it has no path on the tape and is passed over; its copy
-- fails, which is caught and logged; or its destination is refused, which raises.
pub data FileEnd : Type 0 where
  restored : FileEnd
  passed_over : FileEnd
  copy_failed : FileEnd
  refused : FileEnd

-- What a restore runs in: the clock, the job's row, the controller of the tape library with the
-- mounts, the directory and the catalog that are looked at before the copies (`prepare`), and the
-- copy of one file. A current tape is none also where the question raises; `load_tape`, `mount_ltfs`
-- and `prepare` say whether they returned. Each may change the world, with the tape in the drive and
-- the row.
pub record Surroundings : Type 1 where
  pub World : Type 0
  pub now : World → ℕ
  pub sleep : ℕ → World → World
  pub status : World → JobStatus
  pub set_status : JobStatus → World → World
  pub drive_only_mode : Bool
  pub current_tape : World → Option String × World
  pub load_tape : String → World → Bool × World
  pub mount_ltfs : String → World → Bool × World
  pub prepare : World → Bool × World
  pub copy_file : String → File → World → FileEnd × World
  pub set_files_restored : ℕ → World → World
  pub unmount_ltfs : World → World

-- How the loop over the tapes ends: at its end, at a cancelled job, or by an exception.
pub data Ending : Type 0 where
  finished : Ending
  stopped : Ending
  broken : Ending

-- The engine: its prompts by job, and the world.
pub record Engine (s : Surroundings) : Type 0 where
  pub active_prompts : Dict ℕ String
  pub world : s.World

module _ (s : Surroundings) where
  abbrev pub with_world : Engine s → s.World → Engine s
  with_world e w = record e { world = w }

  abbrev pub load_unless : Bool → String → s.World → Bool × s.World
  load_unless true tape w = (true, w)
  load_unless false tape w = if s.drive_only_mode then (false, w) else s.load_tape tape w

  unfoldable pub ensure_tape_loaded : String → s.World → Bool × s.World
  ensure_tape_loaded tape w =
      load_unless (is_text (s.current_tape w).0 tape) tape (s.current_tape w).1

  -- The loop of `_wait_for_tape_ready`, for at most as many turns as the number says: none where
  -- the turns are used up.
  unfoldable pub wait_turns : ℕ → ℕ → ℕ → String → s.World → Option Bool × s.World
  wait_turns zero start timeout tape w = (none, w)
  wait_turns (suc n) start timeout tape w =
      let later = (s.current_tape w).1 in
      let rest = wait_turns n start timeout tape (s.sleep 2 later) in
      if ltb (s.now w - start) timeout
      then (if is_text (s.current_tape w).0 tape
          then (some true, later)
          else if is_cancelled (s.status later)
          then (some false, later)
          else rest)
      else (some false, w)

  abbrev pub or_false : Option Bool → Bool
  or_false none = false
  or_false (some b) = b

  -- The prompt stands while the loop runs.
  unfoldable pub wait_for_tape_ready : ℕ → String → ℕ → Engine s → Bool × Engine s
  unfolding wait_turns
  wait_for_tape_ready job tape timeout e =
      let result = wait_turns (timeout + 1) (s.now e.world) timeout tape e.world in
      (
        or_false result.0,
        record e {
          active_prompts = remove job (insert job tape e.active_prompts);
          world = result.1;
        },
      )

  unfoldable pub confirm_tape_ready : ℕ → String → Engine s → Bool
  confirm_tape_ready job tape e = is_text (lookup job e.active_prompts) tape

  abbrev pub set : JobStatus → Engine s → Engine s
  set status e = with_world e (s.set_status status e.world)

  -- Where the tape is not in the drive: a prompt, and the wait of an hour.
  abbrev pub make_ready : ℕ → String → Bool × s.World → Engine s → Bool × Engine s
  make_ready job tape (true, w) e = (true, with_world e w)
  make_ready job tape (false, w) e =
      wait_for_tape_ready job tape 3600 (set waiting_for_tape (with_world e w))

  -- The loop goes on after a file whose copy failed. The number counts the restored files.
  abbrev pub after_file :
      ℕ → (ℕ → Engine s → Bool × Engine s) → FileEnd × s.World → Engine s → Bool × Engine s
  after_file n next (restored, w) e = next (n + 1) (with_world e (s.set_files_restored (n + 1) w))
  after_file n next (passed_over, w) e = next n (with_world e w)
  after_file n next (copy_failed, w) e = next n (with_world e w)
  after_file n next (refused, w) e = (false, with_world e w)

  -- A cancelled job ends the loop as if it were done.
  unfoldable pub copy_files : ℕ → String → List File → Engine s → Bool × Engine s
  copy_files n tape [] e = (true, e)
  copy_files n tape (f ∷ fs) e =
      let rest = after_file n (λ m g. copy_files m tape fs g) (s.copy_file tape f e.world) e in
      if is_cancelled (s.status e.world) then (true, e) else rest

  abbrev pub after_prepare : String → List File → Bool × s.World → Engine s → Bool × Engine s
  after_prepare tape fs (false, w) e = (false, with_world e w)
  after_prepare tape fs (true, w) e = copy_files 0 tape fs (with_world e w)

  -- The `finally` block.
  abbrev pub unmounted : Bool × Engine s → Bool × Engine s
  unmounted (returned, e) = (returned, with_world e (s.unmount_ltfs e.world))

  abbrev pub after_mount : String → List File → Bool × s.World → Engine s → Bool × Engine s
  after_mount tape fs (false, w) e = (false, with_world e w)
  after_mount tape fs (true, w) e = unmounted (after_prepare tape fs (s.prepare w) e)

  -- Whether the routine returned.
  unfoldable pub restore_files_from_tape : String → List File → Engine s → Bool × Engine s
  unfolding copy_files
  restore_files_from_tape tape fs e = after_mount tape fs (s.mount_ltfs tape e.world) e

  -- After the copying: an exception, a job that was cancelled meanwhile, or the next tape.
  abbrev pub after_copy : (Engine s → Ending × Engine s) → Bool × Engine s → Ending × Engine s
  after_copy next (false, e) = (broken, e)
  after_copy next (true, e) = if is_cancelled (s.status e.world) then (stopped, e) else next e

  abbrev pub copy_from :
      String → List File → (Engine s → Ending × Engine s) → Bool × Engine s → Ending × Engine s
  copy_from tape fs next (false, e) = (broken, e)
  copy_from tape fs next (true, e) =
      after_copy next (restore_files_from_tape tape fs (set running e))

  unfoldable pub process_tapes :
      ℕ → Dict String (List File) → List String → Engine s → Ending × Engine s
  unfolding ensure_tape_loaded wait_for_tape_ready restore_files_from_tape
  process_tapes job files [] e = (finished, e)
  process_tapes job files (tape ∷ order) e =
      copy_from tape (or_empty (lookup tape files)) (λ f. process_tapes job files order f)
        (make_ready job tape (ensure_tape_loaded tape e.world) e)

  abbrev pub conclude : Ending × Engine s → Bool × Engine s
  conclude (finished, e) = (true, set completed e)
  conclude (stopped, e) = (false, set cancelled e)
  conclude (broken, e) = (false, set failed e)

  unfoldable pub execute_plan : ℕ → RestorePlan → Engine s → Bool × Engine s
  unfolding process_tapes
  execute_plan job plan e =
      if is_empty plan.files
      then (false, set failed e)
      else conclude (process_tapes job plan.files_per_tape plan.tape_order (set running e))

  -- A job is the ids of its files, or none where there is no such job.
  abbrev pub execute_job : ℕ → (ℕ → Option File) → Option (List ℕ) → Engine s → Bool × Engine s
  execute_job job catalog none e = (false, e)
  execute_job job catalog (some ids) e =
      execute_plan job (plan_restore catalog (s.current_tape e.world).0 ids)
        (with_world e (s.current_tape e.world).1)
