-- ===== src/RateLimiter/Lockout.antt =====
-- How `check_rate_limit` answers: when it locks out, for how long, and what it agrees with.
use fossilsafe_t.Prelude.{
  ℕ, ◌+◌, ◌*◌, ◌/◌, ◌≤◌, ◌<◌, String, ◌≡◌, refl, sym, ap, ◌∙◌, ◌↔◌, false, none, some, List, [],
  ◌∷◌, ◌++◌, arith, length, length-append, All, nat_eq, string_eq,
}
use fossilsafe_t.Prelude.Dict.{lookup, lookup-insert_self, lookup-remove_self}
use mathlib.Core.List.{append-nil, append_assoc}
use fossilsafe_t.RateLimiter.{
  RateLimiter, allowed, locked_out, max_attempts, window_seconds, lockout_duration, second,
  attempts_of, check_rate_limit, record_attempt, clear_attempts, get_remaining_attempts,
}
use fossilsafe_t.RateLimiter.Windows.{recent, recent-append, recent-All, recent_none}

-- A lockout holds until its end, and then the identifier starts afresh.
check_locked :
    (later until : ℕ) (id : String) (r : RateLimiter)
    → lookup id r.lockouts ≡ some until
    → ((check_rate_limit false later id r).0 ≡ allowed) ↔ (until ≤ later)
unfolding check_rate_limit attempts_of recent
check_locked later until id r locked =
    ground (arith, locked, lookup-insert_self {V = List ℕ} id [] r.attempts)

lookup-check :
    (now : ℕ) (id : String) (r : RateLimiter) {minutes : ℕ}
    → lookup id r.lockouts ≡ none
    → (check_rate_limit false now id r).0 ≡ locked_out minutes
    → lookup id (check_rate_limit false now id r).1.lockouts ≡ some (now + lockout_duration)
unfolding check_rate_limit
lookup-check now id r unlocked e =
    ground (arith, unlocked, lookup-insert_self id (now + lockout_duration) r.lockouts)

module _ (now : ℕ) (id : String) (r : RateLimiter) (unlocked : lookup id r.lockouts ≡ none) where
  -- For an identifier that is not locked out, a check allows exactly when attempts remain.
  pub check-iff-remaining :
      ((check_rate_limit false now id r).0 ≡ allowed) ↔ (0 < get_remaining_attempts now id r)
  unfolding check_rate_limit get_remaining_attempts
  check-iff-remaining = ground (arith, unlocked)

  -- A check that locks out an identifier, at any time: from then on a check is allowed exactly
  -- from the end of the lockout, 15 minutes later.
  pub lockout_exact :
      (minutes later : ℕ)
      → (check_rate_limit false now id r).0 ≡ locked_out minutes
      → let r' = (check_rate_limit false now id r).1 in
        ((check_rate_limit false later id r').0 ≡ allowed) ↔ (now + lockout_duration ≤ later)
  lockout_exact minutes later e =
      check_locked later (now + lockout_duration) id _ (lookup-check now id r unlocked e)

attempts_of-record :
    (now : ℕ) (id : String) (r : RateLimiter)
    → attempts_of id (record_attempt now id r) ≡ attempts_of id r ++ now ∷ []
unfolding record_attempt
attempts_of-record now id r =
    ground (arith, lookup-insert_self id (attempts_of id r ++ now ∷ []) r.attempts)

pub record_all : List ℕ → String → RateLimiter → RateLimiter
record_all [] id r = r
record_all (s ∷ stamps) id r = record_all stamps id (record_attempt s id r)

attempts_of-record_all :
    (stamps : List ℕ) (id : String) (r : RateLimiter)
    → attempts_of id (record_all stamps id r) ≡ attempts_of id r ++ stamps
unfolding record_all
attempts_of-record_all [] id r = sym (append-nil _)
attempts_of-record_all (s ∷ stamps) id r =
    attempts_of-record_all stamps id (record_attempt s id r)
    ∙ ap (λ (l : List ℕ). l ++ stamps) (attempts_of-record s id r)
    ∙ append_assoc (attempts_of id r) (s ∷ []) stamps

lookup-record_all :
    (stamps : List ℕ) (id j : String) (r : RateLimiter)
    → lookup j (record_all stamps id r).lockouts ≡ lookup j r.lockouts
unfolding record_all record_attempt
lookup-record_all [] id j r = refl
lookup-record_all (s ∷ stamps) id j r = lookup-record_all stamps id j (record_attempt s id r)

-- After at least `max_attempts` failed attempts within the window, with no check in between, the
-- check locks an identifier out that was not locked out.
pub lockout_after_attempts :
    (now : ℕ) (stamps : List ℕ) (id : String) (r : RateLimiter)
    → lookup id r.lockouts ≡ none
    → All (λ s. now < s + window_seconds) stamps
    → max_attempts ≤ length stamps
    → (check_rate_limit false now id (record_all stamps id r)).0
      ≡ locked_out (lockout_duration / (60 * second))
unfolding check_rate_limit
lockout_after_attempts now stamps id r unlocked fresh many = ground (
  arith,
  lookup-record_all stamps id id r,
  attempts_of-record_all stamps id r,
  recent-append window_seconds now (attempts_of id r) stamps,
  recent-All window_seconds now stamps fresh,
  length-append (recent window_seconds now (attempts_of id r)) stamps,
)

-- After a successful login clears an identifier, the next check allows it, whatever came before.
check-clear :
    (now : ℕ) (id : String) (r : RateLimiter)
    → (check_rate_limit false now id (clear_attempts id r)).0 ≡ allowed
unfolding check_rate_limit clear_attempts attempts_of recent
check-clear now id r =
    ground (arith, lookup-remove_self id r.lockouts, lookup-remove_self id r.attempts)

-- While an identifier is locked out but its attempts have left the window, every check refuses
-- and `get_remaining_attempts` still reports all the attempts.
pub remaining-while_locked :
    (now end : ℕ) (id : String) (r : RateLimiter)
    → lookup id r.lockouts ≡ some end
    → now < end
    → All (λ s. s + window_seconds ≤ now) (attempts_of id r)
    → (¬ ((check_rate_limit false now id r).0 ≡ allowed))
      × (get_remaining_attempts now id r ≡ max_attempts)
unfolding check_rate_limit get_remaining_attempts
remaining-while_locked now end id r locked h old =
    ground (arith, locked, recent_none window_seconds now (attempts_of id r) old)
