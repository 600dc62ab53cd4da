-- ===== src/Restore/Counts.antt =====
-- How often something occurs, in what a sort and a move to the front give.
use fossilsafe_t.Prelude.{
  ℕ, ◌+◌, String, ◌≡◌, refl, Bool, true, false, Option, none, some, List, [], ◌∷◌, arith,
  if◌then◌else◌, length, keep, ◌==◌, nat_eq, string_eq, str_iff,
}
use fossilsafe_t.Restore.Plan.{place, sort_onto, listed, remove_one, current_first}

module _ {A : Type 0} (less : A → A → Bool) (p : A → Bool) where
  place-count : (x : A) (ys : List A) → length (keep p (place less x ys)) ≡ length (keep p (x ∷ ys))
  unfolding place
  place-count x [] = refl
  place-count x (y ∷ ys) = let ih = place-count x ys in ground arith

  pub sort_onto-count :
      (sorted xs : List A)
      → length (keep p (sort_onto less sorted xs)) ≡ length (keep p sorted) + length (keep p xs)
  unfolding sort_onto
  sort_onto-count sorted [] = omega arith
  sort_onto-count sorted (x ∷ xs) =
      let ih = sort_onto-count (place less x sorted) xs in
      let placed = place-count x sorted in ground arith

-- The times that a tape stands in a list.
abbrev pub times : String → List String → ℕ
times t xs = length (keep (λ u. u == t) xs)

remove_one-times :
    (t u : String) (xs : List String)
    → listed t xs ≡ true
    → times u (t ∷ remove_one t xs) ≡ times u xs
unfolding remove_one
remove_one-times t u [] h = cc
remove_one-times t u (x ∷ xs) h =
    ground (arith, remove_one-times t u xs, str_iff x t, str_iff t u, str_iff x u)

pub current_first-times :
    (t : String) (current : Option String) (xs : List String)
    → times t (current_first current xs) ≡ times t xs
current_first-times t none xs = refl
current_first-times t (some c) xs = by_test (listed c xs) refl
  where
    by_test :
        (b : Bool) → listed c xs ≡ b → times t (if b then c ∷ remove_one c xs else xs) ≡ times t xs
    by_test true h = remove_one-times c t xs h
    by_test false h = refl

-- A tape that is in the list is then its first.
pub current_first-head :
    (c : String) (xs : List String)
    → listed c xs ≡ true
    → current_first (some c) xs ≡ c ∷ remove_one c xs
current_first-head c xs h = rw h refl
