-- ===== src/Runner/Backoff.antt =====
-- How the backoff of a command grows.
use fossilsafe_t.Prelude.{
  ℕ, zero, suc, ◌+◌, ◌^◌, ◌≤◌, String, ◌≡◌, ap, ◌∙◌, false, none, List, [], ◌∷◌, arith, length,
  nat_eq, string_eq,
}
use fossilsafe_t.Prelude.Dict.{lookup, lookup-insert_self}
use Prim.Native.Nat.{min}
use fossilsafe_t.Runner.Loop.{Runner, delay_of, next_delay, record_backoff}

-- Failures of the command at the given times.
unfoldable pub fail_times : String → List ℕ → Runner → Runner
fail_times key [] r = r
fail_times key (t ∷ times) r = fail_times key times (record_backoff key false t r)

delay_after :
    (key : String) (now : ℕ) (r : Runner)
    → delay_of (lookup key (record_backoff key false now r).backoff_state)
      ≡ next_delay (delay_of (lookup key r.backoff_state))
unfolding record_backoff
delay_after key now r = ap delay_of (lookup-insert_self key _ r.backoff_state)

power_pos : (n : ℕ) → 1 ≤ 2 ^ n
power_pos zero = omega arith
power_pos (suc n) = let ih = power_pos n in omega arith

next_power : (n : ℕ) → next_delay (min (2 ^ suc n) 30) ≡ min (2 ^ suc (suc n)) 30
next_power n = let p = power_pos n in ground arith

delay_from :
    (key : String) (n : ℕ) (times : List ℕ) (r : Runner)
    → delay_of (lookup key r.backoff_state) ≡ min (2 ^ suc n) 30
    → delay_of (lookup key (fail_times key times r).backoff_state)
      ≡ min (2 ^ suc (n + length times)) 30
unfolding fail_times
delay_from key n [] r h = h ∙ ap (λ x. min (2 ^ suc x) 30) (omega arith)
delay_from key n (t ∷ times) r h =
    delay_from key (suc n) times (record_backoff key false t r)
      (delay_after key t r ∙ ap next_delay h ∙ next_power n)
    ∙ ap (λ x. min (2 ^ suc x) 30) (omega arith)

-- A command that fails for the first time, and then again and again, waits twice as long each time:
-- after as many failures as there are times its delay is that power of two, thirty seconds at most.
pub fail_times-delay :
    (key : String) (t : ℕ) (times : List ℕ) (r : Runner)
    → lookup key r.backoff_state ≡ none
    → delay_of (lookup key (fail_times key (t ∷ times) r).backoff_state)
      ≡ min (2 ^ length (t ∷ times)) 30
unfolding fail_times
fail_times-delay key t times r h =
    delay_from key 0 times (record_backoff key false t r)
      (delay_after key t r ∙ ap (λ o. next_delay (delay_of o)) h)
    ∙ ap (λ x. min (2 ^ x) 30) (omega arith)
