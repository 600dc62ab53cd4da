-- ===== src/RateLimiter/Tests.antt =====
-- Runs of the limiter, and the theorems at concrete inputs.
use fossilsafe_t.Prelude.{
  ℕ, ◌+◌, ◌*◌, ◌/◌, ◌≤◌, ◌≡◌, refl, ◌↔◌, false, List, [], ◌∷◌, arith, nat_eq, string_eq, str_iff,
}
use fossilsafe_t.Prelude.Dict.{lookup, insert}
use fossilsafe_t.RateLimiter.{
  RateLimiter, empty, allowed, try_again, locked_out, lockout_duration, second, attempts_of,
  check_rate_limit, get_remaining_attempts,
}
use fossilsafe_t.RateLimiter.Windows.{recent}
use fossilsafe_t.RateLimiter.Lockout.{lockout_exact, lockout_after_attempts, record_all}
use fossilsafe_t.RateLimiter.Isolation.{checks, records, clears, replay, replay-others}

abbrev stamps : List ℕ
stamps = 1 ∷ 2 ∷ 3 ∷ 4 ∷ 5 ∷ []

abbrev guessed : RateLimiter
guessed = record { attempts = ("a", stamps) ∷ []; lockouts = [] }

abbrev locked : RateLimiter
locked = record { attempts = ("a", stamps) ∷ []; lockouts = ("a", 900000006) ∷ [] }

check-guessed : check_rate_limit false 6 "a" guessed ≡ (locked_out 15, locked)
unfolding check_rate_limit attempts_of recent lookup insert
check-guessed = refl

check-locked : (check_rate_limit false 6 "a" locked).0 ≡ try_again 900
unfolding check_rate_limit attempts_of recent lookup insert
check-locked = refl

lockout_exact_example :
    ((check_rate_limit false 900000006 "a" (check_rate_limit false 6 "a" guessed).1).0 ≡ allowed)
    ↔ (6 + lockout_duration ≤ 900000006)
unfolding check_rate_limit attempts_of recent lookup insert
lockout_exact_example = lockout_exact 6 "a" guessed refl 15 900000006 refl

lockout_after_attempts_example :
    (check_rate_limit false 6 "a" (record_all stamps "a" empty)).0
    ≡ locked_out (lockout_duration / (60 * second))
unfolding lookup
lockout_after_attempts_example =
    lockout_after_attempts 6 stamps "a" empty refl (omega arith) (omega arith)

replay-others_example :
    let r = replay (("b", records 7) ∷ ("b", checks 8) ∷ ("c", clears) ∷ []) guessed in
    ((check_rate_limit false 9 "a" r).0 ≡ (check_rate_limit false 9 "a" guessed).0)
    × (get_remaining_attempts 9 "a" r ≡ get_remaining_attempts 9 "a" guessed)
replay-others_example =
    replay-others "a" (("b", records 7) ∷ ("b", checks 8) ∷ ("c", clears) ∷ []) 9 guessed (
      ground (arith, str_iff "b" "a"),
      (ground (arith, str_iff "b" "a"), (ground (arith, str_iff "c" "a"), tt)),
    )
