-- ===== src/Runner/Attempts.antt =====
-- How many times a command is executed.
use fossilsafe_t.Prelude.{
  ℕ, zero, suc, ◌+◌, ◌-◌, ◌^◌, ◌≤◌, String, ◌≡◌, refl, ap, ◌∙◌, Bool, true, false, Option, none,
  some, List, arith, if◌then◌else◌, nat_eq, string_eq,
}
use Prim.Native.Nat.{min}
use fossilsafe_t.Prelude.Dict.{lookup}
use fossilsafe_t.Runner.Errors.{CommandResult}
use fossilsafe_t.Runner.Loop.{
  Machine, Runner, Answer, result, raised, Turn, over, again, result_from, Backoff, wait_for,
  after_result, retries_of, is_final, note, after_process, after_chaos, apply_backoff, one_attempt,
  proceed, attempts, run,
}

-- A count of the processes that a world has seen: an execution adds one, and nothing else does.
pub record Counted (m : Machine) : Type 0 where
  pub count : m.World → ℕ
  pub count_sleep : (t : ℕ) (w : m.World) → count (m.sleep t w) ≡ count w
  pub count_chaos : (w : m.World) → count (m.chaos w).1 ≡ count w
  pub count_execute : (w : m.World) → count (m.execute w).1 ≡ count w + 1

module _ (m : Machine) (k : Counted m) (key : String) (allow_retry : Bool)
    (retryable : List String) where
  -- What an attempt may do to the count.
  abbrev Turned : ℕ → Turn × (Runner × m.World) → Type 0
  Turned n (over (result c), (r, v)) =
      is_final m key allow_retry retryable c ≡ true × k.count v ≤ n + 1
  Turned n (over raised, (r, v)) = k.count v ≤ n + 1
  Turned n (again c, (r, v)) = k.count v ≡ n + 1

  result-Turned :
      (n attempt : ℕ) (b : Bool) (r : Runner) (c : CommandResult) (w : m.World)
      → is_final m key allow_retry retryable c ≡ b
      → k.count w ≡ n + 1
      → Turned n (after_result m key allow_retry retryable b attempt r c w)
  result-Turned n attempt true r c w e h = (e, omega arith)
  result-Turned n attempt false r c w e h = k.count_sleep (min (2 ^ attempt) 8) w ∙ h

  process-Turned :
      (n attempt : ℕ) (r : Runner) (o : Option CommandResult) (w : m.World)
      → k.count w ≡ n + 1
      → Turned n (after_process m key allow_retry retryable attempt r o w)
  process-Turned n attempt r none w h = omega arith
  process-Turned n attempt r (some c) w h =
      result-Turned n attempt (is_final m key allow_retry retryable c)
        (note m key c (attempt + 1) (m.now w) r) c w refl h

  chaos-Turned :
      (n attempt : ℕ) (r : Runner) (x : Option CommandResult × m.World)
      → k.count x.1 ≡ n
      → Turned n (after_chaos m key allow_retry retryable attempt r x)
  chaos-Turned n attempt r (some c, w) h = omega arith
  chaos-Turned n attempt r (none, w) h =
      process-Turned n attempt r (result_from (m.execute w).0) (m.execute w).1
        (k.count_execute w ∙ ap (λ x. x + 1) h)

  if-count :
      (b : Bool) (v w : m.World) → k.count v ≡ k.count w → k.count (if b then v else w) ≡ k.count w
  if-count true v w h = h
  if-count false v w h = refl

  wait_count : (o : Option Backoff) (w : m.World) → k.count (wait_for m key o w) ≡ k.count w
  wait_count none w = refl
  wait_count (some b) w =
      if-count _ (m.sleep (b.delay - (m.now w - b.last)) w) w (k.count_sleep _ w)

  backoff_count : (r : Runner) (w : m.World) → k.count (apply_backoff m key r w) ≡ k.count w
  unfolding apply_backoff
  backoff_count r w = wait_count (lookup key r.backoff_state) w

  attempt-Turned :
      (attempt : ℕ) (r : Runner) (w : m.World)
      → Turned (k.count w) (one_attempt m key allow_retry retryable attempt r w)
  unfolding one_attempt
  attempt-Turned attempt r w =
      chaos-Turned (k.count w) attempt r (m.chaos (apply_backoff m key r w))
        (k.count_chaos (apply_backoff m key r w) ∙ backoff_count r w)

  -- At most `n` executions, and all of them where the answer is not a final one.
  abbrev pub Spent : ℕ → ℕ → Answer × (Runner × m.World) → Type 0
  Spent n from (result c, (r, v)) =
      k.count v ≤ from + n × (is_final m key allow_retry retryable c ≡ false → k.count v ≡ from + n)
  Spent n from (raised, (r, v)) = k.count v ≤ from + n

  later-Spent :
      (n from at : ℕ) (x : Answer × (Runner × m.World))
      → at ≡ from + 1
      → Spent n at x
      → Spent (suc n) from x
  later-Spent n from at (result c, (r, v)) h s =
      (let a = s.0 in omega arith, λ e. let b = s.1 e in omega arith)
  later-Spent n from at (raised, (r, v)) h s = omega arith

  proceed-Spent :
      (n from : ℕ) (next : CommandResult → Runner → m.World → Answer × (Runner × m.World))
      → ((c : CommandResult) (r : Runner) (v : m.World) → Spent n (k.count v) (next c r v))
      → (x : Turn × (Runner × m.World)) → Turned from x
      → Spent (suc n) from (proceed m key allow_retry retryable next x)
  proceed-Spent n from next h (over (result c), (r, v)) t =
      (let b = t.1 in omega arith, λ e. let f = t.0 in cc)
  proceed-Spent n from next h (over raised, (r, v)) t = omega arith
  proceed-Spent n from next h (again c, (r, v)) t =
      later-Spent n from (k.count v) (next c r v) t (h c r v)

  attempts-Spent :
      (n attempt : ℕ) (last : Option CommandResult) (r : Runner) (w : m.World)
      → Spent n (k.count w) (attempts m key allow_retry retryable n attempt last r w)
  unfolding attempts
  attempts-Spent zero attempt none r w = (omega arith, λ e. omega arith)
  attempts-Spent zero attempt (some c) r w = (omega arith, λ e. omega arith)
  attempts-Spent (suc n) attempt last r w =
      proceed-Spent n (k.count w) _ (λ c s v. attempts-Spent n (attempt + 1) (some c) s v) _
        (attempt-Turned attempt r w)

-- A run ends, with at most as many executions as there are retries and one more, whatever the
-- commands do. Where it gives back a result that is no success and that may be tried again, it has
-- used them all.
pub run-Spent :
    (m : Machine) (k : Counted m) (key : String) (allow_retry : Bool) (retryable : List String)
    (r : Runner) (w : m.World)
    → Spent m k key allow_retry retryable
        ((if allow_retry then retries_of key else 0) + 1)
        (k.count w)
        (run m key allow_retry retryable r w)
unfolding run
run-Spent m k key allow_retry retryable r w =
    attempts-Spent m k key allow_retry retryable ((if allow_retry then retries_of key else 0) + 1) 0
      none r w
