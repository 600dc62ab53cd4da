-- ===== src/Prelude/Equality.antt =====
-- Python's `==` as an interface with its law, and its instances: numbers and texts.
use Prim.Native.Nat.{ℕ}
use Prim.Native.String.{String}
use mathlib.Core.Path.{◌≡◌, refl}
use mathlib.Core.Logic.{◌↔◌}
use mathlib.Core.Bool.{Bool, true, false, not}
use mathlib.Core.Option.{Option, none, some}
use text.Mathlib.Text.{◌==◌ as same_text}
use text.Mathlib.TextEquality.{eq_iff}
use fossilsafe_t.Prelude.Tests.{nat_beq, nat_beq_iff}

pub record Eq {ℓ} (A : Type ℓ) : Type ℓ where
  pub equals : (x y : A) → Bool
  pub equals_iff : (x y : A) → (equals x y ≡ true) ↔ (x ≡ y)

infix 50 ◌==◌
abbrev pub ◌==◌ {ℓ} : {A : Type ℓ} ⦃eq : Eq A⦄ → A → A → Bool
◌==◌ ⦃eq⦄ x y = eq.equals x y

instance abbrev pub string_eq : Eq String
string_eq = record { equals = same_text; equals_iff = eq_iff }

instance abbrev pub nat_eq : Eq ℕ
nat_eq = record { equals = nat_beq; equals_iff = nat_beq_iff }

pub beq_refl {ℓ} : {A : Type ℓ} ⦃eq : Eq A⦄ (x : A) → (x == x) ≡ true
beq_refl ⦃eq⦄ x = (eq.equals_iff x x).1 refl

pub str_iff : (a b : String) → ((a == b) ≡ true) ↔ (a ≡ b)
str_iff = eq_iff

-- `o == s` for a value that may be `None`.
abbrev pub is_text : Option String → String → Bool
is_text none s = false
is_text (some t) s = t == s

-- Truth of a text, and of a text that may be `None`.
abbrev pub text_truth : String → Bool
text_truth s = not (s == "")

abbrev pub truth : Option String → Bool
truth none = false
truth (some s) = text_truth s
