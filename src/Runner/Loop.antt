-- ===== src/Runner/Loop.antt =====
-- The loop of `run`: attempts, history and backoff.
use fossilsafe_t.Prelude.{
  ℕ, zero, suc, ◌+◌, ◌-◌, ◌*◌, ◌^◌, String, Bool, true, false, not, ◌||◌, Option, none, some, List,
  [], ◌∷◌, ltb, if◌then◌else◌, length, take, ◌==◌, nat_eq, string_eq,
}
use fossilsafe_t.Prelude.Dict.{Dict, lookup, insert, remove}
use Prim.Native.Nat.{min}
use fossilsafe_t.Runner.Errors.{
  ErrorType, unknown, error_name, CommandResult, classify_error, is_success,
}

-- What a process ends with, or that it could not be started.
pub data Outcome : Type 0 where
  finished : String → String → ℕ → Outcome
  expired : String → String → Outcome
  not_started : Outcome

-- The world that commands run in. `chaos` says what `maybe_fail` injects.
pub record Machine : Type 1 where
  pub World : Type 0
  pub now : World → ℕ
  pub sleep : ℕ → World → World
  pub chaos : World → Option CommandResult × World
  pub execute : World → Outcome × World

-- An entry of `_backoff_state`.
pub record Backoff : Type 0 where
  pub delay : ℕ
  pub last : ℕ

pub record HistoryEntry : Type 0 where
  pub result : CommandResult
  pub attempt : ℕ

pub record Runner : Type 0 where
  pub limit : ℕ
  pub entries : List HistoryEntry
  pub backoff_state : Dict String Backoff

-- `CommandHistory.add`
unfoldable pub add : HistoryEntry → Runner → Runner
add e r = record r {
  entries =
      if ltb r.limit (length (e ∷ r.entries)) then take r.limit (e ∷ r.entries) else e ∷ r.entries;
}

abbrev pub delay_of : Option Backoff → ℕ
delay_of none = 0
delay_of (some b) = b.delay

-- `min((delay or 1) * 2, 30)`
abbrev pub next_delay : ℕ → ℕ
next_delay delay = min ((if delay == 0 then 1 else delay) * 2) 30

unfoldable pub record_backoff : String → Bool → ℕ → Runner → Runner
record_backoff key success now r =
    if success then record r { backoff_state = remove key r.backoff_state } else record r {
      backoff_state =
          insert key
            (record { delay = next_delay (delay_of (lookup key r.backoff_state)); last = now })
            r.backoff_state;
    }

-- The policy of retries by the command's name.
unfoldable pub retries_of : String → ℕ
retries_of key =
    if key == "mtx_status"
      || (key == "mtx_inquiry"
          || (key == "mtx_inventory" || (key == "mt_status" || key == "probe")))
    then 3
    else if key == "mtx_load" || (key == "mtx_unload" || (key == "mtx_transfer" || key == "sg_inq"))
    then 2
    else 0

unfoldable pub default_retryable : List String
default_retryable = "timeout" ∷ "transport" ∷ "not_ready" ∷ []

abbrev pub listed : String → List String → Bool
listed s [] = false
listed s (t ∷ ts) = s == t || listed s ts

-- `error_type in retryable_errors`
abbrev pub is_retryable : List String → Option ErrorType → Bool
is_retryable retryable none = false
is_retryable retryable (some e) = listed (error_name e) retryable

-- What `run` ends with: a result, or an exception of the process or of an injected fault, which the
-- code builds a `CommandResult` for from keys that it does not have.
pub data Answer : Type 0 where
  result : CommandResult → Answer
  raised : Answer

abbrev pub result_of : String → String → ℕ → Bool → CommandResult
result_of stdout stderr returncode timed_out = record {
  stdout = stdout;
  stderr = stderr;
  returncode = returncode;
  timed_out = timed_out;
  error_type = classify_error stdout stderr returncode timed_out;
}

-- What an attempt is to the loop: its end, or a result to try again after.
pub data Turn : Type 0 where
  over : Answer → Turn
  again : CommandResult → Turn

-- The end of a loop without a result.
abbrev pub last_or_unknown : Option CommandResult → Answer
last_or_unknown (some r) = result r
last_or_unknown none = result (record {
  stdout = "";
  stderr = "";
  returncode = 1;
  timed_out = false;
  error_type = some unknown;
})

-- One attempt that was executed: none where the process could not be started.
abbrev pub result_from : Outcome → Option CommandResult
result_from (finished stdout stderr returncode) = some (result_of stdout stderr returncode false)
result_from (expired stdout stderr) = some (result_of stdout stderr 124 true)
result_from not_started = none

module _ (m : Machine) (key : String) where
  abbrev pub wait_until : ℕ → m.World → m.World
  wait_until remaining w = if ltb 0 remaining then m.sleep remaining w else w

  abbrev pub wait_for : Option Backoff → m.World → m.World
  wait_for none w = w
  wait_for (some b) w = wait_until (b.delay - (m.now w - b.last)) w

  unfoldable pub apply_backoff : Runner → m.World → m.World
  apply_backoff r w = wait_for (lookup key r.backoff_state) w

  abbrev pub note : CommandResult → ℕ → ℕ → Runner → Runner
  note r attempt now runner =
      add (record { result = r; attempt = attempt }) (record_backoff key (is_success r) now runner)

  module _ (allow_retry : Bool) (retryable : List String) where
    -- Whether the loop ends with this result.
    abbrev pub is_final : CommandResult → Bool
    is_final r = is_success r || (not allow_retry || not (is_retryable retryable r.error_type))

    -- `range(retries + 1)` from the given attempt, with as many attempts left as the number says.
    -- A result ends the loop, or a pause comes before the next attempt.
    abbrev pub after_result :
        Bool → ℕ → Runner → CommandResult → m.World → Turn × (Runner × m.World)
    after_result true attempt r c w = (over (result c), (r, w))
    after_result false attempt r c w = (again c, (r, m.sleep (min (2 ^ attempt) 8) w))

    -- After the process, and the note of what it ended with.
    abbrev pub after_process :
        ℕ → Runner → Option CommandResult → m.World → Turn × (Runner × m.World)
    after_process attempt r none w = (over raised, (r, w))
    after_process attempt r (some c) w =
        after_result (is_final c) attempt (note c (attempt + 1) (m.now w) r) c w

    -- After `maybe_fail`: an injected fault is noted, and then raises.
    abbrev pub after_chaos : ℕ → Runner → Option CommandResult × m.World → Turn × (Runner × m.World)
    after_chaos attempt r (some c, w) = (
      over raised,
      (
        add (record { result = c; attempt = attempt + 1 }) (record_backoff key false (m.now w) r),
        w,
      ),
    )
    after_chaos attempt r (none, w) =
        after_process attempt r (result_from (m.execute w).0) (m.execute w).1

    unfoldable pub one_attempt : ℕ → Runner → m.World → Turn × (Runner × m.World)
    unfolding apply_backoff
    one_attempt attempt r w = after_chaos attempt r (m.chaos (apply_backoff r w))

    abbrev pub proceed :
        (CommandResult → Runner → m.World → Answer × (Runner × m.World))
        → Turn × (Runner × m.World)
        → Answer × (Runner × m.World)
    proceed next (over a, s) = (a, s)
    proceed next (again c, (r, w)) = next c r w

    -- `range(retries + 1)`: the attempts that are left, and the number of the next one.
    unfoldable pub attempts :
        ℕ → ℕ → Option CommandResult → Runner → m.World → Answer × (Runner × m.World)
    unfolding one_attempt
    attempts zero attempt last r w = (last_or_unknown last, (r, w))
    attempts (suc n) attempt last r w =
        proceed (λ c r w. attempts n (attempt + 1) (some c) r w) (one_attempt attempt r w)

  unfoldable pub run : Bool → List String → Runner → m.World → Answer × (Runner × m.World)
  unfolding attempts retries_of
  run allow_retry retryable r w =
      let retries = if allow_retry then retries_of key else 0 in
      attempts allow_retry retryable (retries + 1) 0 none r w
