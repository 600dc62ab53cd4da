-- ===== src/Controller/Action/Rules.antt =====
-- Rules for what actions preserve, and for what holds when they return.
use fossilsafe_t.Prelude.{◌≡◌, refl, Bool, true, false, nat_eq, string_eq}
use fossilsafe_t.Controller.Action.{
  Fault, Answer, ok, raised, Action, pure, raise, reads, choose, rename, rethrow, default,
  or_default, finish, finally, writes, continue, ◌>>=◌,
}

-- `m` leaves `P` true, whether it returns or raises.
pub record Preserves {S A : Type 0} (P : S → Type 0) (m : Action S A) : Type 0 where
  pub holds : (s : S) → P s → P (m s).1

-- Where `m` returns from a state with `P`, its answer and the state then meet `Q`.
abbrev pub Meets : {S A : Type 0} → (A → S → Type 0) → Answer A × S → Type 0
Meets Q (ok a, s) = Q a s
Meets Q (raised e, s) = Unit

pub record Returns {S A : Type 0} (Q : A → S → Type 0) (m : Action S A) : Type 0 where
  pub meets : (s : S) → Meets Q (m s)

module _ {S A : Type 0} where
  rename-state : (e : Fault) (r : Answer A × S) → (rename e r).1 ≡ r.1
  rename-state e (ok a, s) = refl
  rename-state e (raised x, s) = refl

  default-state : (a : A) (r : Answer A × S) → (default a r).1 ≡ r.1
  default-state a (ok b, s) = refl
  default-state a (raised x, s) = refl

module _ {S A : Type 0} {P : S → Type 0} where
  pub Preserves-pure : (a : A) → Preserves P (pure a)
  unfolding pure
  Preserves-pure a = record { holds = λ s h. h }

  pub Preserves-raise : (e : Fault) → Preserves P (raise {A = A} e)
  unfolding raise
  Preserves-raise e = record { holds = λ s h. h }

  pub Preserves-reads : (f : S → A) → Preserves P (reads f)
  unfolding reads
  Preserves-reads f = record { holds = λ s h. h }

  pub Preserves-choose :
      (b : Bool) (m n : Action S A) → Preserves P m → Preserves P n → Preserves P (choose b m n)
  unfolding choose
  Preserves-choose true m n hm hn = hm
  Preserves-choose false m n hm hn = hn

  pub Preserves-rethrow : (e : Fault) (m : Action S A) → Preserves P m → Preserves P (rethrow e m)
  unfolding rethrow
  Preserves-rethrow e m h = record { holds = λ s p. rw (rename-state e (m s)) (h.holds s p) }

  pub Preserves-or_default : (a : A) (m : Action S A) → Preserves P m → Preserves P (or_default a m)
  unfolding or_default
  Preserves-or_default a m h = record { holds = λ s p. rw (default-state a (m s)) (h.holds s p) }

-- `finally` leads from what holds inside to what held outside.
module _ {S A : Type 0} (P R : S → Type 0) where
  finish-holds :
      (k : Bool → S → S)
      → ((b : Bool) (s : S) → P s → R (k b s))
      → (r : Answer A × S) → P r.1
      → R (finish k r).1
  finish-holds k back (ok a, s) p = back true s p
  finish-holds k back (raised e, s) p = back false s p

  pub finally-holds :
      (k : Bool → S → S) (m : Action S A)
      → ((b : Bool) (s : S) → P s → R (k b s))
      → (s : S) → P (m s).1
      → R (finally k m s).1
  unfolding finally
  finally-holds k m back s p = finish-holds k back (m s) p

module _ {S : Type 0} {P : S → Type 0} where
  pub Preserves-writes : (f : S → S) → ((s : S) → P s → P (f s)) → Preserves P (writes f)
  unfolding writes
  Preserves-writes f h = record { holds = h }

module _ {S A B : Type 0} {P : S → Type 0} where
  continue-holds :
      (f : A → Action S B)
      → ((a : A) → Preserves P (f a))
      → (r : Answer A × S) → P r.1
      → P (continue f r).1
  continue-holds f h (ok a, s) p = (h a).holds s p
  continue-holds f h (raised e, s) p = p

  pub Preserves-bind :
      (m : Action S A) (f : A → Action S B)
      → Preserves P m
      → ((a : A) → Preserves P (f a))
      → Preserves P (m >>= f)
  unfolding ◌>>=◌
  Preserves-bind m f hm hf = record { holds = λ s p. continue-holds f hf (m s) (hm.holds s p) }

module _ {S A : Type 0} (Q : A → S → Type 0) where
  rename-meets : (e : Fault) (r : Answer A × S) → Meets Q r → Meets Q (rename e r)
  rename-meets e (ok a, s) h = h
  rename-meets e (raised x, s) h = tt

  pub finish-meets :
      (k : Bool → S → S)
      → ((a : A) (b : Bool) (s : S) → Q a s → Q a (k b s))
      → (r : Answer A × S) → Meets Q r
      → Meets Q (finish k r)
  finish-meets k back (ok a, s) h = back a true s h
  finish-meets k back (raised e, s) h = tt

module _ {S A : Type 0} {Q : A → S → Type 0} where
  pub Returns-raise : (e : Fault) → Returns Q (raise e)
  unfolding raise
  Returns-raise e = record { meets = λ s. tt }

  pub Returns-choose :
      (b : Bool) (m n : Action S A) → Returns Q m → Returns Q n → Returns Q (choose b m n)
  unfolding choose
  Returns-choose true m n hm hn = hm
  Returns-choose false m n hm hn = hn

  pub Returns-rethrow : (e : Fault) (m : Action S A) → Returns Q m → Returns Q (rethrow e m)
  unfolding rethrow
  Returns-rethrow e m h = record { meets = λ s. rename-meets Q e (m s) (h.meets s) }

  pub Returns-finally :
      (k : Bool → S → S) (m : Action S A)
      → ((a : A) (b : Bool) (s : S) → Q a s → Q a (k b s))
      → Returns Q m
      → Returns Q (finally k m)
  unfolding finally
  Returns-finally k m back h = record { meets = λ s. finish-meets Q k back (m s) (h.meets s) }

module _ {S A B : Type 0} {Q : B → S → Type 0} where
  continue-meets :
      (f : A → Action S B)
      → ((a : A) → Returns Q (f a))
      → (r : Answer A × S) → Meets Q (continue f r)
  continue-meets f h (ok a, s) = (h a).meets s
  continue-meets f h (raised e, s) = tt

  -- The end of a block decides what it returns.
  pub Returns-bind :
      (m : Action S A) (f : A → Action S B) → ((a : A) → Returns Q (f a)) → Returns Q (m >>= f)
  unfolding ◌>>=◌
  Returns-bind m f h = record { meets = λ s. continue-meets f h (m s) }

-- The rules at one state, for an end that rests on what came before.
module _ {S A B : Type 0} (R : A → S → Type 0) (Q : B → S → Type 0) where
  continue-meets_after :
      (f : A → Action S B)
      → ((a : A) (s : S) → R a s → Meets Q (f a s))
      → (r : Answer A × S) → Meets R r
      → Meets Q (continue f r)
  continue-meets_after f h (ok a, s) p = h a s p
  continue-meets_after f h (raised e, s) p = tt

  pub bind-meets :
      (m : Action S A) (f : A → Action S B) (s : S)
      → Meets R (m s)
      → ((a : A) (t : S) → R a t → Meets Q (f a t))
      → Meets Q ((m >>= f) s)
  unfolding ◌>>=◌
  bind-meets m f s p h = continue-meets_after f h (m s) p

module _ {S A : Type 0} (Q : A → S → Type 0) where
  pub choose-meets :
      (b : Bool) (m n : Action S A) (s : S)
      → (b ≡ true → Meets Q (m s))
      → (b ≡ false → Meets Q (n s))
      → Meets Q (choose b m n s)
  unfolding choose
  choose-meets true m n s hm hn = hm refl
  choose-meets false m n s hm hn = hn refl

module _ {S A : Type 0} (Q R : A → S → Type 0) where
  pub weaken-meets : ((a : A) (s : S) → Q a s → R a s) → (r : Answer A × S) → Meets Q r → Meets R r
  weaken-meets h (ok a, s) q = h a s q
  weaken-meets h (raised e, s) q = tt

-- What an action preserves holds where it returns.
module _ {S A : Type 0} (P : S → Type 0) where
  answer-meets : (r : Answer A × S) → P r.1 → Meets (λ a s. P s) r
  answer-meets (ok a, s) p = p
  answer-meets (raised e, s) p = tt

  pub Preserves-meets : (m : Action S A) → Preserves P m → (s : S) → P s → Meets (λ a s. P s) (m s)
  Preserves-meets m h s p = answer-meets (m s) (h.holds s p)

pub ruleset preserve_rules = (
  Preserves-pure, Preserves-raise, Preserves-reads, Preserves-choose, Preserves-rethrow,
  Preserves-or_default, Preserves-bind,
)

pub ruleset return_rules = (Returns-raise, Returns-choose, Returns-rethrow, Returns-bind)
