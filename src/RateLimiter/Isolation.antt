-- ===== src/RateLimiter/Isolation.antt =====
-- One identifier's history never changes how another one is treated.
use fossilsafe_t.Prelude.{
  ℕ, ◌+◌, String, ◌≡◌, refl, ◌∙◌, ◌≢◌, inl, inr, false, List, [], ◌∷◌, ◌++◌, arith, ltb, Bool-cases,
  Option-cases, All, nat_eq, string_eq,
}
use fossilsafe_t.Prelude.Dict.{
  lookup, insert, remove, lookup-insert_self, lookup-insert_ne, lookup-remove_ne,
}
use fossilsafe_t.RateLimiter.{
  RateLimiter, window_seconds, lockout_duration, attempts_of, check_attempts, check_rate_limit,
  record_attempt, clear_attempts, get_remaining_attempts,
}
use fossilsafe_t.RateLimiter.Windows.{recent}

pub data Event : Type 0 where
  checks : ℕ → Event
  records : ℕ → Event
  clears : Event

-- An event of an identifier, at its time.
unfoldable pub apply : String × Event → RateLimiter → RateLimiter
apply (id, checks now) r = (check_rate_limit false now id r).1
apply (id, records now) r = record_attempt now id r
apply (id, clears) r = clear_attempts id r

unfoldable pub replay : List (String × Event) → RateLimiter → RateLimiter
replay [] r = r
replay (e ∷ events) r = replay events (apply e r)

-- What the limiter knows of one identifier.
record SameView (id : String) (r s : RateLimiter) : Type 0 where
  attempts : attempts_of id r ≡ attempts_of id s
  lockout : lookup id r.lockouts ≡ lookup id s.lockouts

module _ (id j : String) (ne : id ≢ j) (r : RateLimiter) where
  attempts-SameView :
      (fresh : List ℕ) → SameView j (record r { attempts = insert id fresh r.attempts }) r
  unfolding attempts_of
  attempts-SameView fresh = ground (arith, lookup-insert_ne id j fresh r.attempts ne)

  both-SameView :
      (fresh : List ℕ) (until : ℕ)
      → SameView j
          (record { attempts = insert id fresh r.attempts; lockouts = insert id until r.lockouts })
          r
  unfolding attempts_of
  both-SameView fresh until =
      ground (
        arith,
        lookup-insert_ne id j fresh r.attempts ne,
        lookup-insert_ne id j until r.lockouts ne,
      )

  expired-SameView :
      SameView j (record { attempts = insert id [] r.attempts; lockouts = remove id r.lockouts }) r
  unfolding attempts_of
  expired-SameView = ground (
    arith,
    lookup-insert_ne {V = List ℕ} id j [] r.attempts ne,
    lookup-remove_ne id j r.lockouts ne,
  )

  clear-SameView : SameView j (clear_attempts id r) r
  unfolding clear_attempts attempts_of
  clear-SameView =
      ground (arith, lookup-remove_ne id j r.attempts ne, lookup-remove_ne id j r.lockouts ne)

module _ (id j : String) (ne : id ≢ j) where
  check_attempts-SameView : (now : ℕ) (r : RateLimiter) → SameView j (check_attempts now id r).1 r
  unfolding check_attempts
  check_attempts-SameView now r =
      let fresh : List ℕ = recent window_seconds now (attempts_of id r) in
      ground (
        arith,
        attempts-SameView id j ne r fresh,
        both-SameView id j ne r fresh (now + lockout_duration),
      )

  check-SameView : (now : ℕ) (r : RateLimiter) → SameView j (check_rate_limit false now id r).1 r
  unfolding check_rate_limit
  check-SameView now r = elim (Option-cases (lookup id r.lockouts)) [
    | inl e ↦ rw (check_rate_limit, e) (check_attempts-SameView now r)
    | inr (until, e) ↦ elim (Bool-cases (ltb now until)) [
      | inl locked ↦ rw (check_rate_limit, e, locked) (record { attempts = refl; lockout = refl })
      | inr over ↦
          let r' : RateLimiter = record {
            attempts = insert id [] r.attempts;
            lockouts = remove id r.lockouts;
          } in
          let a = check_attempts-SameView now r' in
          let b = expired-SameView id j ne r in
          rw (check_rate_limit, e, over)
            (record { attempts = a.attempts ∙ b.attempts; lockout = a.lockout ∙ b.lockout })
    ]
  ]

  apply-SameView : (e : Event) (r : RateLimiter) → SameView j (apply (id, e) r) r
  unfolding apply record_attempt
  apply-SameView (checks now) r = check-SameView now r
  apply-SameView (records now) r = attempts-SameView id j ne r (attempts_of id r ++ now ∷ [])
  apply-SameView clears r = clear-SameView id j ne r

replay-SameView :
    (j : String) (events : List (String × Event)) (r : RateLimiter)
    → All (λ e. e.0 ≢ j) events
    → SameView j (replay events r) r
unfolding replay
replay-SameView j [] r h = record { attempts = refl; lockout = refl }
replay-SameView j ((id, e) ∷ events) r h =
    let a = replay-SameView j events (apply (id, e) r) h.1 in
    let b = apply-SameView id j h.0 e r in
    record { attempts = a.attempts ∙ b.attempts; lockout = a.lockout ∙ b.lockout }

check-SameView_eq :
    (j : String) (now : ℕ) (r s : RateLimiter)
    → SameView j r s
    → ((check_rate_limit false now j r).0 ≡ (check_rate_limit false now j s).0)
      × (get_remaining_attempts now j r ≡ get_remaining_attempts now j s)
unfolding check_rate_limit get_remaining_attempts attempts_of
check-SameView_eq j now r s h = ground (
  arith,
  lookup-insert_self {V = List ℕ} j [] r.attempts,
  lookup-insert_self {V = List ℕ} j [] s.attempts,
)

-- After any history of checks, failures and clears of other identifiers, an identifier gets the
-- verdict and the number of remaining attempts that it would have got before.
pub replay-others :
    (j : String) (events : List (String × Event)) (now : ℕ) (r : RateLimiter)
    → All (λ e. e.0 ≢ j) events
    → ((check_rate_limit false now j (replay events r)).0 ≡ (check_rate_limit false now j r).0)
      × (get_remaining_attempts now j (replay events r) ≡ get_remaining_attempts now j r)
replay-others j events now r others =
    check-SameView_eq j now (replay events r) r (replay-SameView j events r others)
