-- ===== src/RateLimiter.antt =====
-- backend/rate_limiter.py: `RateLimiter`, failed attempts in a sliding window and lockouts.
-- A time is a number of microseconds; `int(lockout_end - now)` is the whole seconds of it.
-- `defaultdict(list)` reads a missing identifier as no attempts.
pub mod Windows
pub mod Lockout
pub mod Isolation
mod Tests
use fossilsafe_t.Prelude.{
  ℕ, zero, suc, ◌+◌, ◌-◌, ◌*◌, ◌/◌, ◌%◌, ◌^◌, ◌≤◌, ◌<◌, String, ◌≡◌, refl, sym, ap, subst, ◌∙◌, ◌≢◌,
  ◌↔◌, ◌⊎◌, inl, inr, Bool, true, false, not, ◌&&◌, ◌||◌, Option, none, some, List, [], ◌∷◌, ◌++◌,
  map, arith, ltb, leb, nat_beq, if◌then◌else◌, nat_beq_iff, Bool-cases, Option-cases, length, take,
  drop, keep, last?, length-append, length-keep-le, last?-append, All, All-append, Eq, ◌==◌, nat_eq,
  string_eq, beq_refl, str_iff, is_text, text_truth, truth,
}
use fossilsafe_t.Prelude.Dict.{
  Dict, lookup, insert, remove, contains, lookup-insert, lookup-remove, lookup-insert_self,
  lookup-insert_ne, lookup-remove_self, lookup-remove_ne,
}
use Windows.{recent}

pub record RateLimiter : Type 0 where
  pub attempts : Dict String (List ℕ)
  pub lockouts : Dict String ℕ

abbrev pub empty : RateLimiter
empty = record { attempts = []; lockouts = [] }

abbrev pub second : ℕ
second = 1000000

abbrev pub max_attempts : ℕ
max_attempts = 5

abbrev pub window_seconds : ℕ
window_seconds = 300 * second

abbrev pub lockout_duration : ℕ
lockout_duration = 900 * second

-- What `check_rate_limit` returns: allowed, or which of the two messages.
pub data Verdict : Type 0 where
  allowed : Verdict
  try_again : ℕ → Verdict
  locked_out : ℕ → Verdict

-- `self.attempts[identifier]`
unfoldable pub attempts_of : String → RateLimiter → List ℕ
attempts_of id r = elim (lookup id r.attempts) [ none ↦ [] | some stamps ↦ stamps ]

-- The part of `check_rate_limit` after the lockouts: clean the attempts, and count them.
unfoldable pub check_attempts : ℕ → String → RateLimiter → Verdict × RateLimiter
check_attempts now id r =
    let fresh = recent window_seconds now (attempts_of id r) in
    let r' : RateLimiter = record r { attempts = insert id fresh r.attempts } in
    if leb max_attempts (length fresh)
    then (
      locked_out (lockout_duration / (60 * second)),
      record r' { lockouts = insert id (now + lockout_duration) r.lockouts },
    )
    else (allowed, r')

unfoldable pub check_rate_limit : Bool → ℕ → String → RateLimiter → Verdict × RateLimiter
unfolding check_attempts
check_rate_limit true now id r = (allowed, r)
check_rate_limit false now id r = elim (lookup id r.lockouts) [
  | none ↦ check_attempts now id r
  | some lockout_end ↦
      if ltb now lockout_end
      then (try_again ((lockout_end - now) / second), r)
      else check_attempts now id
          (record { attempts = insert id [] r.attempts; lockouts = remove id r.lockouts })
]

unfoldable pub record_attempt : ℕ → String → RateLimiter → RateLimiter
unfolding attempts_of
record_attempt now id r = record r {
  attempts = insert id (attempts_of id r ++ now ∷ []) r.attempts;
}

unfoldable pub clear_attempts : String → RateLimiter → RateLimiter
clear_attempts id r = record { attempts = remove id r.attempts; lockouts = remove id r.lockouts }

unfoldable pub get_remaining_attempts : ℕ → String → RateLimiter → ℕ
get_remaining_attempts now id r =
    max_attempts - length (recent window_seconds now (attempts_of id r))
