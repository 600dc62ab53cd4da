-- ===== src/Controller/Drives.antt =====
-- A specification that knows of every drive only the tape in it, and its refinement by the controller.
use fossilsafe_t.Prelude.{
  ℕ, String, ◌≡◌, refl, sym, ap, subst, ◌∙◌, ◌≢◌, ◌⊎◌, inl, inr, Bool, false, Option, none, some,
  List, [], ◌∷◌, arith, nat_beq_iff, Bool-cases, ◌==◌, nat_eq, string_eq, truth,
}
use fossilsafe_t.Controller.Hardware.{Hardware}
use fossilsafe_t.Controller.State.{Controller, set_mounted_tape, get_mounted_tape}
use fossilsafe_t.Controller.Action.{Fault, Answer, ok, raised}
use fossilsafe_t.Controller.Action.Rules.{Meets}
use fossilsafe_t.Controller.Commands.{System}
use fossilsafe_t.Controller.Force.{Location, slot, drive, mailslot}
use fossilsafe_t.Controller.Operations.{
  Operation, load, unload, force, move, clean, shutdown, perform,
}
use fossilsafe_t.Controller.Keeps.{Kept}
use fossilsafe_t.Controller.Keeps.Operations.{Allowed, MayMove, perform-keeps}
use fossilsafe_t.Controller.Mounted.{get-set_mounted_tape, get-set_other, tape-Kept}
use fossilsafe_t.Controller.Returned.{elsewhere-Kept, load_tape-meets}
use fossilsafe_t.Controller.Emptied.{unload_tape-meets, force_unload-meets}

abbrev pub Drives : Type 0
Drives = ℕ → Option String

unfoldable pub drives_of : Controller → Drives
drives_of c d = get_mounted_tape d c

-- Every drive but `d` holds what it held.
abbrev pub Elsewhere : ℕ → Drives → Drives → Type 0
Elsewhere d before after = (e : ℕ) → d ≢ e → after e ≡ before e

abbrev pub KeptOrGone : Option String → Option String → Type 0
KeptOrGone before after = after ≡ before ⊎ after ≡ none

-- A move changes the drives that it names.
abbrev pub Unnamed : Location → Location → ℕ → Type 0
Unnamed (slot a) (drive b) e = b ≢ e
Unnamed (drive a) (slot b) e = a ≢ e
Unnamed _ _ e = Unit

-- What an operation may do to the drives, by its answer.
abbrev pub Step : Operation → Answer Bool → Drives → Drives → Type 0
Step (load barcode d) (ok a) before after = Elsewhere d before after × after d ≡ some barcode
Step (load barcode d) (raised e) before after =
    Elsewhere d before after × (KeptOrGone (before d) (after d) ⊎ after d ≡ some barcode)
Step (unload d dest) (ok a) before after = Elsewhere d before after × truth (after d) ≡ false
Step (unload d dest) (raised e) before after =
    Elsewhere d before after × KeptOrGone (before d) (after d)
Step (force d dest) (ok a) before after = Elsewhere d before after × after d ≡ none
Step (force d dest) (raised e) before after =
    Elsewhere d before after × KeptOrGone (before d) (after d)
Step (move a b barcode) answer before after = (e : ℕ) → Unnamed a b e → after e ≡ before e
Step (clean is_cleaning barcode d) answer before after = Elsewhere d before after
Step (shutdown drives) answer before after = (d : ℕ) → KeptOrGone (before d) (after d)

pub data Steps : List Operation → Drives → Drives → Type 0 where
  stay : {v : Drives} → Steps [] v v
  next :
      {o : Operation} {operations : List Operation} {u v w : Drives} (answer : Answer Bool)
      → Step o answer u v
      → Steps operations v w
      → Steps (o ∷ operations) u w

same_or_apart : (d e : ℕ) → (d ≡ e) ⊎ (d ≢ e)
same_or_apart d e = elim (Bool-cases (d == e)) [
  | inl here ↦ inl (ground (arith, nat_beq_iff d e))
  | inr there ↦ inr (ground (arith, nat_beq_iff d e))
]

-- What a drive's tape meets, where every tape that is noted meets it.
noted-Kept :
    (d : ℕ) (Q : Option String → Type 0) → Kept (λ n c. Q (get_mounted_tape d c)) (λ e b. Q b)
noted-Kept d Q =
    tape-Kept d Q (λ e b. Q b)
      λ e b c may q. elim (same_or_apart e d) [
        | inl same ↦
            subst Q
              (sym (
                ap (λ y. get_mounted_tape y (set_mounted_tape e b c)) (sym same)
                ∙ get-set_mounted_tape e b c))
              may
        | inr apart ↦ subst Q (sym (get-set_other e d b c apart)) q
      ]

module _ (hw : Hardware) (s : System hw) where
  abbrev before : Drives
  before = drives_of s.controller

  abbrev after : Operation → Drives
  after o = drives_of (perform hw o s).1.controller

  elsewhere-same : (o : Operation) (e : ℕ) → Allowed (λ d b. d ≢ e) o → after o e ≡ before e
  unfolding drives_of
  elsewhere-same o e may =
      (perform-keeps (elsewhere-Kept e λ x. x ≡ before e) hw 0 o may).holds s refl

  noted :
      (o : Operation) (d : ℕ) (Q : Option String → Type 0)
      → Allowed (λ e b. Q b) o
      → Q (before d)
      → Q (after o d)
  unfolding drives_of
  noted o d Q may q = (perform-keeps (noted-Kept d Q) hw 0 o may).holds s q

-- From what holds of an answer, and of the drives whatever the answer is.
by_answer :
    {hw : Hardware} (Q : Bool → System hw → Type 0) (E : Drives → Type 0) (o : Operation)
    (u : Drives) (r : Answer Bool × System hw)
    → Meets Q r
    → E (drives_of r.1.controller)
    → ((a : Bool) (t : System hw)
        → Q a t
        → E (drives_of t.controller)
        → Step o (ok a) u (drives_of t.controller))
    → ((e : Fault) (v : Drives) → E v → Step o (raised e) u v)
    → Step o r.0 u (drives_of r.1.controller)
by_answer Q E o u (ok a, t) q e returned failed = returned a t q e
by_answer Q E o u (raised x, t) q e returned failed = failed x (drives_of t.controller) e

module _ (hw : Hardware) (s : System hw) where
  load-Step :
      (b : String) (d : ℕ)
      → Step (load b d) (perform hw (load b d) s).0 (before hw s) (after hw s (load b d))
  unfolding perform drives_of
  load-Step b d =
      by_answer _
        (λ v. Elsewhere d (before hw s) v × (KeptOrGone (before hw s d) (v d) ⊎ v d ≡ some b))
        (load b d) (before hw s) (perform hw (load b d) s) ((load_tape-meets hw d b).meets s)
        (
          λ e ne. elsewhere-same hw s (load b d) e (ne, ne),
          noted hw s (load b d) d (λ x. KeptOrGone (before hw s d) x ⊎ x ≡ some b)
              (inl (inr refl), inr refl) (inl (inl refl)),
        )
        (λ a t q e. (e.0, q)) (λ x v e. e)

  unload-Step :
      (d : ℕ) (o : Option ℕ)
      → Step (unload d o) (perform hw (unload d o) s).0 (before hw s) (after hw s (unload d o))
  unfolding perform drives_of
  unload-Step d o =
      by_answer _ (λ v. Elsewhere d (before hw s) v × KeptOrGone (before hw s d) (v d)) (unload d o)
        (before hw s) (perform hw (unload d o) s) ((unload_tape-meets hw d o).meets s)
        (
          λ e ne. elsewhere-same hw s (unload d o) e ne,
          noted hw s (unload d o) d (KeptOrGone (before hw s d)) (inr refl) (inl refl),
        )
        (λ a t q e. (e.0, q)) (λ x v e. e)

  force-Step :
      (d : ℕ) (o : Option ℕ)
      → Step (force d o) (perform hw (force d o) s).0 (before hw s) (after hw s (force d o))
  unfolding perform drives_of
  force-Step d o =
      by_answer _ (λ v. Elsewhere d (before hw s) v × KeptOrGone (before hw s d) (v d)) (force d o)
        (before hw s) (perform hw (force d o) s) ((force_unload-meets hw d o).meets s)
        (
          λ e ne. elsewhere-same hw s (force d o) e ne,
          noted hw s (force d o) d (KeptOrGone (before hw s d)) (inr refl) (inl refl),
        )
        (λ a t q e. (e.0, q)) (λ x v e. e)

Unnamed-May :
    (a b : Location) (t : Option String) (e : ℕ) → Unnamed a b e → MayMove (λ d x. d ≢ e) a b t
Unnamed-May (slot a) (drive b) t e h = h
Unnamed-May (drive a) (slot b) t e h = h
Unnamed-May (slot a) (slot b) t e h = tt
Unnamed-May (slot a) (mailslot b) t e h = tt
Unnamed-May (drive a) (drive b) t e h = tt
Unnamed-May (drive a) (mailslot b) t e h = tt
Unnamed-May (mailslot a) b t e h = tt

-- Every operation takes a step of the specification.
pub perform-Step :
    (hw : Hardware) (s : System hw) (o : Operation)
    → Step o (perform hw o s).0 (drives_of s.controller) (drives_of (perform hw o s).1.controller)
perform-Step hw s (load b d) = load-Step hw s b d
perform-Step hw s (unload d o) = unload-Step hw s d o
perform-Step hw s (force d o) = force-Step hw s d o
perform-Step hw s (move a b t) = λ e h. elsewhere-same hw s (move a b t) e (Unnamed-May a b t e h)
perform-Step hw s (clean f t d) = λ e ne. elsewhere-same hw s (clean f t d) e (λ b. ne)
perform-Step hw s (shutdown drives) = λ d.
    noted hw s (shutdown drives) d (KeptOrGone (drives_of s.controller d)) (λ e. inr refl)
      (inl refl)
