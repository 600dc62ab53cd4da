-- ===== src/Controller/Action.antt =====
-- The controller's methods as actions on a state: they return or raise, and what they did before
-- they raised stays done.
pub mod Rules
use fossilsafe_t.Prelude.{
  ℕ, zero, suc, ◌+◌, ◌-◌, ◌*◌, ◌/◌, ◌%◌, ◌^◌, ◌≤◌, ◌<◌, String, ◌≡◌, refl, sym, ap, subst, ◌∙◌, ◌≢◌,
  ◌↔◌, ◌⊎◌, inl, inr, Bool, true, false, not, ◌&&◌, ◌||◌, Option, none, some, List, [], ◌∷◌, ◌++◌,
  map, arith, ltb, leb, nat_beq, if◌then◌else◌, nat_beq_iff, Bool-cases, Option-cases, length, take,
  drop, keep, find, last?, length-append, length-keep-le, last?-append, All, All-append, Eq, ◌==◌,
  nat_eq, string_eq, beq_refl, str_iff, is_text, text_truth, truth,
}

pub data Fault : Type 0 where
  tape_load : Fault
  tape_unload : Fault
  hardware_error : Fault
  communication_error : Fault
  command_not_run : Fault
  unmount_failed : Fault
  unload_uncertain : Fault

pub data Answer (A : Type 0) : Type 0 where
  ok : A → Answer A
  raised : Fault → Answer A

abbrev pub Action : Type 0 → Type 0 → Type 0
Action S A = S → Answer A × S

module _ {S A : Type 0} where
  unfoldable pub pure : A → Action S A
  pure a s = (ok a, s)

  unfoldable pub raise : Fault → Action S A
  raise e s = (raised e, s)

  -- A read of the state, and a write that cannot fail.
  unfoldable pub reads : (S → A) → Action S A
  reads f s = (ok (f s), s)

  -- `if b: m else: n`, where both are actions.
  unfoldable pub choose : Bool → Action S A → Action S A → Action S A
  choose b m n = if b then m else n

  -- `try: m except Exception: raise fault`
  abbrev pub rename : Fault → Answer A × S → Answer A × S
  rename fault (ok a, s) = (ok a, s)
  rename fault (raised e, s) = (raised fault, s)

  unfoldable pub rethrow : Fault → Action S A → Action S A
  rethrow fault m s = rename fault (m s)

  -- `try: m except Exception: return a`
  abbrev pub default : A → Answer A × S → Answer A × S
  default a (ok b, s) = (ok b, s)
  default a (raised e, s) = (ok a, s)

  unfoldable pub or_default : A → Action S A → Action S A
  or_default a m s = default a (m s)

  -- `finally`: what follows a return, and what follows a raise.
  abbrev pub finish : (Bool → S → S) → Answer A × S → Answer A × S
  finish k (ok a, s) = (ok a, k true s)
  finish k (raised e, s) = (raised e, k false s)

  unfoldable pub finally : (Bool → S → S) → Action S A → Action S A
  finally k m s = finish k (m s)

unfoldable pub writes : {S : Type 0} → (S → S) → Action S (Unit {0})
writes f s = (ok tt, f s)

module _ {S A B : Type 0} where
  abbrev pub continue : (A → Action S B) → Answer A × S → Answer B × S
  continue f (ok a, s) = f a s
  continue f (raised e, s) = (raised e, s)

  infixl 5 ◌>>=◌ ◌>>◌
  unfoldable pub ◌>>=◌ : Action S A → (A → Action S B) → Action S B
  ◌>>=◌ m f s = continue f (m s)

  abbrev pub ◌>>◌ : Action S A → Action S B → Action S B
  m >> n = m >>= λ _. n
