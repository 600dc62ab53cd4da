-- ===== src/Restore/Tests.antt =====
-- A request for three files on two tapes, and the properties at it.
use fossilsafe_t.Prelude.{
  ℕ, ◌+◌, String, ◌≡◌, refl, ◌≢◌, true, false, Option, none, some, List, [], ◌∷◌, ◌++◌, arith,
  length, keep, ◌==◌, nat_eq, string_eq,
}
use fossilsafe_t.Prelude.Dict.{lookup, insert}
use fossilsafe_t.Restore.Plan.{File, plan_files}
use fossilsafe_t.Restore.Execute.{
  JobStatus, pending, completed, restored, copy_failed, Surroundings, Engine, wait_turns,
  execute_plan,
}
use fossilsafe_t.Restore.Waits.{Clock, wait-Answered}
use fossilsafe_t.Restore.Attempts.{Watched, plan_entries}
use fossilsafe_t.Restore.Endings.{IsConcluded, execute_plan-IsConcluded}
use fossilsafe_t.Restore.Coverage.{AttemptedAll, execute_plan-AttemptedAll}
use fossilsafe_t.Restore.Groups.{files_on, read_from, read_from-files_on}
use fossilsafe_t.Restore.Positions.{IsAscending, lacks_position, read_from-IsAscending}

abbrev file : ℕ → String → ℕ → File
file n tape position = record {
  file_id = n;
  tape_barcode = some tape;
  tape_position = some position;
  file_path = "/data";
  file_size = 1048576;
}

abbrev request : List File
request = file 1 "B" 7 ∷ file 2 "A" 3 ∷ file 3 "B" 2 ∷ []

read_from-files_on_example :
    length (keep (λ f. f.file_id == 3) (read_from (some "B") request "B"))
    ≡ length (keep (λ f. f.file_id == 3) (files_on "B" request))
read_from-files_on_example = read_from-files_on (some "B") request "B" (λ f. f.file_id == 3)

read_from-IsAscending_example : IsAscending 0 (read_from (some "B") request "B")
unfolding lacks_position
read_from-IsAscending_example = read_from-IsAscending (some "B") request "B" refl

-- A desk where an operator puts in the tape that the drive is asked for, and the copies succeed.
record Desk : Type 0 where
  time : ℕ
  job : JobStatus
  inside : Option String
  log : List (String × File)

abbrev desk : Surroundings
desk = record {
  World = Desk;
  now = λ w. w.time;
  sleep = λ t w. record w { time = w.time + t };
  status = λ w. w.job;
  set_status = λ x w. record w { job = x };
  drive_only_mode = false;
  current_tape = λ w. (w.inside, w);
  load_tape = λ t w. (true, record w { inside = some t });
  mount_ltfs = λ t w. (true, w);
  prepare = λ w. (true, w);
  copy_file = λ t f w. (restored, record w { log = w.log ++ (t, f) ∷ [] });
  set_files_restored = λ n w. w;
  unmount_ltfs = λ w. w;
}

abbrev desk-Clock : Clock desk
desk-Clock = record { now_sleep = λ w. omega arith; now_tape = λ w. omega arith }

abbrev desk-Watched : Watched desk
desk-Watched = record {
  status_set = λ x w. refl;
  status_unmount = λ w. refl;
  attempts = λ w. w.log;
  on_copy = λ t f w. refl;
  on_sleep = λ n w. refl;
  on_status = λ x w. refl;
  on_current = λ w. refl;
  on_load = λ t w. refl;
  on_mount = λ t w. refl;
  on_prepare = λ w. refl;
  on_count = λ n w. refl;
  on_unmount = λ w. refl;
}

abbrev idle : Engine desk
idle = record {
  active_prompts = [];
  world = record { time = 0; job = pending; inside = none; log = [] };
}

wait-Answered_example : (wait_turns desk (30 + 1) 0 30 "A" idle.world).0 ≢ none
wait-Answered_example = wait-Answered desk desk-Clock 30 "A" idle.world

execute_plan-IsConcluded_example :
    let plan = plan_files none request in
    IsConcluded desk desk-Watched []
      (plan_entries plan.files_per_tape plan.tape_order)
      (execute_plan desk 1 plan idle)
execute_plan-IsConcluded_example =
    execute_plan-IsConcluded desk desk-Watched 1 (plan_files none request) idle

execute_plan-AttemptedAll_example :
    AttemptedAll desk-Watched request "B"
      (λ f. f.file_id == 3)
      (execute_plan desk 1 (plan_files none request) idle)
execute_plan-AttemptedAll_example =
    execute_plan-AttemptedAll desk desk-Watched 1 none request "B" (λ f. f.file_id == 3) idle refl

-- The desk again, where every copy of a file fails.
abbrev broken_desk : Surroundings
broken_desk = record desk { copy_file = λ t f w. (copy_failed, w) }

abbrev broken_idle : Engine broken_desk
broken_idle = record { active_prompts = []; world = idle.world }

fails_and_completes :
    let r = execute_plan broken_desk 1 (plan_files none request) broken_idle in
    (r.0 ≡ true) × (r.1.world.job ≡ completed)
unfolding execute_plan plan_files insert lookup
fails_and_completes = (refl, refl)
