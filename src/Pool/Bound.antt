-- ===== src/Pool/Bound.antt =====
-- How many connections the pool keeps track of.
use fossilsafe_t.Prelude.{
  ℕ, ◌+◌, ◌≤◌, ◌≡◌, refl, ◌∙◌, ◌⊎◌, inl, inr, Bool, true, false, List, [], ◌∷◌, arith, Option-cases,
  length, length-append, nat_eq, string_eq,
}
use fossilsafe_t.Prelude.Dict.{lookup}
use fossilsafe_t.Pool.{
  ConnectionPool, without, create_connection, drop_dead, keep_local, reuse_local, take_queued,
  create_if_room, end_wait, forget_local, put_back, return_connection, close_all, empty_pool,
}

-- One part of a call that runs without another thread between: the parts of `get_connection`, a
-- return and the closing. A thread that waits gets a connection that answers.
pub data Event : Type 0 where
  reuses : (ℕ → Bool) → ℕ → Event
  takes : (ℕ → Bool) → Event
  creates : Event
  keeps : ℕ → ℕ → Event
  waited : ℕ → Event
  returns : ℕ → ℕ → Event
  closes : Event

unfoldable pub apply : Event → ConnectionPool → ConnectionPool
apply (reuses alive thread) p = (reuse_local alive thread p).1
apply (takes alive) p = (take_queued alive p).1
apply creates p = (create_if_room p).1
apply (keeps thread c) p = keep_local thread c p
apply (waited thread) p = (end_wait (λ c. true) thread p).1
apply (returns thread c) p = return_connection thread c p
apply closes p = close_all p

unfoldable pub apply_all : List Event → ConnectionPool → ConnectionPool
apply_all [] p = p
apply_all (e ∷ events) p = apply_all events (apply e p)

List-cases : (xs : List ℕ) → (xs ≡ []) ⊎ ((x : ℕ) × (rest : List ℕ) × (xs ≡ x ∷ rest))
List-cases [] = inl refl
List-cases (x ∷ rest) = inr (x, rest, refl)

length-without : (c : ℕ) (xs : List ℕ) → length (without c xs) ≤ length xs
unfolding without
length-without c [] = omega arith
length-without c (x ∷ xs) = ground (arith, length-without c xs)

-- The pool's size is kept, and its connections are no more than that.
abbrev Within : ℕ → ConnectionPool → Type 0
Within size p = (p.pool_size ≡ size) × (length p.all_connections ≤ size)

apply-Within : (size : ℕ) (e : Event) (p : ConnectionPool) → Within size p → Within size (apply e p)
unfolding apply reuse_local drop_dead take_queued create_if_room create_connection keep_local
    end_wait return_connection forget_local put_back close_all
apply-Within size (reuses alive thread) p h = elim (Option-cases (lookup thread p.local)) [
  | inl e ↦ rw (apply, reuse_local, e) h
  | inr (c, e) ↦ ground (arith, e, h, length-without c p.all_connections)
]
apply-Within size (takes alive) p h = elim (List-cases p.pool) [
  | inl e ↦ rw (apply, take_queued, e) h
  | inr (c, rest, e) ↦ ground (arith, e, h, length-without c p.all_connections)
]
apply-Within size creates p h = ground (arith, h, length-append p.all_connections (p.made ∷ []))
apply-Within size (keeps thread c) p h = h
apply-Within size (waited thread) p h = elim (List-cases p.pool) [
  | inl e ↦ rw (apply, end_wait, e) h
  | inr (c, rest, e) ↦ rw (apply, end_wait, e) h
]
apply-Within size (returns thread c) p h = elim (Option-cases (lookup thread p.local)) [
  | inl e ↦ ground (arith, e, h, length-without c p.all_connections)
  | inr (d, e) ↦ ground (arith, e, h, length-without c p.all_connections)
]
apply-Within size closes p h = (h.0, omega arith)

apply_all-Within :
    (size : ℕ) (events : List Event) (p : ConnectionPool)
    → Within size p
    → Within size (apply_all events p)
unfolding apply_all
apply_all-Within size [] p h = h
apply_all-Within size (e ∷ events) p h =
    apply_all-Within size events (apply e p) (apply-Within size e p h)

-- From a new pool, in every interleaving of the threads in which no wait ends with a connection
-- that does not answer, the pool never tracks more connections than its size.
pub apply_all-bound :
    (size : ℕ) (events : List Event)
    → length (apply_all events (empty_pool size)).all_connections ≤ size
apply_all-bound size events = (apply_all-Within size events (empty_pool size) (refl, omega arith)).1

-- Where a wait ends with a connection that does not answer, a new one is made and the dead one
-- stays tracked: a pool that was full then tracks more connections than its size.
pub end_wait-exceeds :
    (alive : ℕ → Bool) (thread c : ℕ) (rest : List ℕ) (p : ConnectionPool)
    → p.pool ≡ c ∷ rest
    → alive c ≡ false
    → length p.all_connections ≡ p.pool_size
    → length (end_wait alive thread p).1.all_connections ≡ p.pool_size + 1
unfolding end_wait create_connection keep_local
end_wait-exceeds alive thread c rest p queued dead full =
    rw (end_wait, queued, dead)
      (length-append p.all_connections (p.made ∷ []) ∙ omega (arith, full))
