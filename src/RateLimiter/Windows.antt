-- ===== src/RateLimiter/Windows.antt =====
-- The sliding window: the comprehension that keeps the timestamps after the cutoff.
use fossilsafe_t.Prelude.{
  ℕ, ◌+◌, ◌≤◌, ◌<◌, ◌≡◌, refl, Bool, List, [], ◌∷◌, ◌++◌, arith, ltb, length, keep, All, nat_eq,
  string_eq,
}

-- `timestamp > now - window`, with nothing below zero cut off.
abbrev pub is_recent : ℕ → ℕ → ℕ → Bool
is_recent window now stamp = ltb now (stamp + window)

unfoldable pub recent : ℕ → ℕ → List ℕ → List ℕ
recent window now = keep (is_recent window now)

-- Cleaning at one time loses nothing that a later cleaning would keep.
pub recent-recent :
    (window earlier now : ℕ) (stamps : List ℕ)
    → earlier ≤ now
    → recent window now (recent window earlier stamps) ≡ recent window now stamps
unfolding recent
recent-recent window earlier now [] h = refl
recent-recent window earlier now (s ∷ stamps) h =
    ground (arith, recent-recent window earlier now stamps h)

pub length-recent_mono :
    (window earlier now : ℕ) (stamps : List ℕ)
    → earlier ≤ now
    → length (recent window now stamps) ≤ length (recent window earlier stamps)
unfolding recent
length-recent_mono window earlier now [] h = omega arith
length-recent_mono window earlier now (s ∷ stamps) h =
    ground (arith, length-recent_mono window earlier now stamps h)

pub recent-append :
    (window now : ℕ) (xs ys : List ℕ)
    → recent window now (xs ++ ys) ≡ recent window now xs ++ recent window now ys
unfolding recent
recent-append window now [] ys = refl
recent-append window now (s ∷ xs) ys = ground (arith, recent-append window now xs ys)

pub recent-All :
    (window now : ℕ) (xs : List ℕ) → All (λ s. now < s + window) xs → recent window now xs ≡ xs
unfolding recent
recent-All window now [] h = refl
recent-All window now (s ∷ xs) h = ground (arith, recent-All window now xs h.1)

pub recent_none :
    (window now : ℕ) (xs : List ℕ) → All (λ s. s + window ≤ now) xs → recent window now xs ≡ []
unfolding recent
recent_none window now [] h = refl
recent_none window now (s ∷ xs) h = ground (arith, recent_none window now xs h.1)
