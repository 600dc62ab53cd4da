-- ===== src/Runner/Tests.antt =====
-- Runs of a command that is never ready, and the properties at these runs.
use fossilsafe_t.Prelude.{
  ℕ, ◌+◌, ◌≡◌, refl, true, false, none, some, [], ◌∷◌, if◌then◌else◌, nat_eq, string_eq,
}
use fossilsafe_t.Prelude.Dict.{lookup}
use fossilsafe_t.Runner.Errors.{not_ready, device_busy, classify_error}
use fossilsafe_t.Runner.Loop.{
  finished, Machine, Runner, default_retryable, delay_of, run, retries_of,
}
use fossilsafe_t.Runner.Attempts.{Counted, Spent, run-Spent}
use fossilsafe_t.Runner.Backoff.{fail_times, fail_times-delay}

-- A clock and the number of processes.
record Clock : Type 0 where
  time : ℕ
  processes : ℕ

abbrev stubborn : Machine
stubborn = record {
  World = Clock;
  now = λ w. w.time;
  sleep = λ t w. record w { time = w.time + t };
  chaos = λ w. (none, w);
  execute = λ w. (finished "" "Drive not ready" 1, record w { processes = w.processes + 1 });
}

abbrev processes-Counted : Counted stubborn
processes-Counted = record {
  count = λ w. w.processes;
  count_sleep = λ t w. refl;
  count_chaos = λ w. refl;
  count_execute = λ w. refl;
}

abbrev fresh : Runner
fresh = record { limit = 50; entries = []; backoff_state = [] }

abbrev midnight : Clock
midnight = record { time = 0; processes = 0 }

run-Spent_example :
    Spent stubborn processes-Counted "mtx_load" true default_retryable
      ((if true then retries_of "mtx_load" else 0) + 1)
      0
      (run stubborn "mtx_load" true default_retryable fresh midnight)
run-Spent_example =
    run-Spent stubborn processes-Counted "mtx_load" true default_retryable fresh midnight

fail_times-delay_example :
    delay_of (lookup "mtx_load" (fail_times "mtx_load" (1 ∷ 5 ∷ 9 ∷ []) fresh).backoff_state) ≡ 8
unfolding lookup
fail_times-delay_example = fail_times-delay "mtx_load" 1 (5 ∷ 9 ∷ []) fresh refl

not_ready_is_named : classify_error "" "Drive not ready" 1 false ≡ some not_ready
unfolding classify_error
not_ready_is_named = refl

busy_is_named : classify_error "Device Busy" "" 1 false ≡ some device_busy
unfolding classify_error
busy_is_named = refl
