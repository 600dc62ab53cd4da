-- ===== src/Restore/Waits.antt =====
-- The wait for a tape ends.
use fossilsafe_t.Prelude.{
  ℕ, zero, suc, ◌+◌, ◌-◌, ◌≤◌, String, ◌≡◌, refl, subst, ◌≢◌, Bool, true, false, Option, none, some,
  arith, ltb, if◌then◌else◌, nat_eq, string_eq, is_text,
}
use fossilsafe_t.Restore.Execute.{Surroundings, is_cancelled, wait_turns}

-- A clock that a sleep of two seconds moves by two at least, and that never goes back.
pub record Clock (s : Surroundings) : Type 0 where
  pub now_sleep : (w : s.World) → s.now w + 2 ≤ s.now (s.sleep 2 w)
  pub now_tape : (w : s.World) → s.now w ≤ s.now (s.current_tape w).1

module _ (s : Surroundings) (c : Clock s) where
  abbrev Answered : Option Bool × s.World → Type 0
  Answered r = r.0 ≢ none

  Answered-if :
      (a b : Bool) (x y : s.World) (r : Option Bool × s.World)
      → Answered r
      → Answered (if a then (some true, x) else if b then (some false, y) else r)
  Answered-if true b x y r h e = cc
  Answered-if false true x y r h e = cc
  Answered-if false false x y r h e = h e

  Answered-while :
      (a : Bool) (r : Option Bool × s.World) (w : s.World)
      → (a ≡ true → Answered r)
      → Answered (if a then r else (some false, w))
  Answered-while true r w h = h refl
  Answered-while false r w h = λ e. cc

  turns_end :
      (n start timeout : ℕ) (tape : String) (w : s.World)
      → start + timeout ≤ s.now w + n
      → Answered (wait_turns s (suc n) start timeout tape w)
  unfolding wait_turns
  turns_end zero start timeout tape w h =
      Answered-while (ltb (s.now w - start) timeout) _ w (λ t e. ground (arith, t, h))
  turns_end (suc n) start timeout tape w h = Answered-while (ltb (s.now w - start) timeout) _ w λ t.
      Answered-if (is_text (s.current_tape w).0 tape) (is_cancelled (s.status later)) later later
        (wait_turns s (suc n) start timeout tape (s.sleep 2 later))
        (turns_end n start timeout tape (s.sleep 2 later)
          (let a = c.now_sleep later in let b = c.now_tape w in omega arith))
    where
      later : s.World
      later = (s.current_tape w).1

-- The wait for a tape ends before its turns are used up: with as many turns as the timeout has
-- seconds, and one more, it says whether the tape came.
pub wait-Answered :
    (s : Surroundings) (c : Clock s) (timeout : ℕ) (tape : String) (w : s.World)
    → (wait_turns s (timeout + 1) (s.now w) timeout tape w).0 ≢ none
wait-Answered s c timeout tape w =
    subst (λ n. (wait_turns s n (s.now w) timeout tape w).0 ≢ none) (omega arith)
      (turns_end s c timeout (s.now w) timeout tape w (omega arith))
