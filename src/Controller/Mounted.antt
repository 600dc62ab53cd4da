-- ===== src/Controller/Mounted.antt =====
-- The tape that a drive is believed to hold, and which operations can change it.
use fossilsafe_t.Prelude.{
  ℕ, ◌-◌, String, ◌≡◌, refl, sym, subst, ◌∙◌, ◌≢◌, Bool, true, false, ◌&&◌, Option, none, some,
  arith, if◌then◌else◌, nat_beq_iff, ◌==◌, nat_eq, string_eq,
}
use fossilsafe_t.Prelude.Dict.{lookup-insert_self, lookup-insert_ne}
use fossilsafe_t.Controller.State.{
  LibraryState, online, degraded, Controller, mounted_in_dict, first_or, get_mounted_tape,
  set_mounted_tape, remember_home_slot, clear_home_slot, update_debounced_state, set_base_state,
  enter_busy, exit_busy,
}
use fossilsafe_t.Controller.Keeps.{Kept}

first_or-same : (t : Bool) (b m : Option String) → first_or t (if t then b else m) b ≡ b
first_or-same true none m = refl
first_or-same true (some x) m = refl
first_or-same false b m = refl

pub get-set_mounted_tape :
    (d : ℕ) (b : Option String) (c : Controller) → get_mounted_tape d (set_mounted_tape d b c) ≡ b
unfolding get_mounted_tape set_mounted_tape mounted_in_dict
get-set_mounted_tape d b c =
    rw (lookup-insert_self d b c.mounted_tapes) (first_or-same (d == 0) b c.mounted_tape)

first_or-apart :
    (s t : Bool) (b m x : Option String)
    → s && t ≡ false
    → first_or t (if s then b else m) x ≡ first_or t m x
first_or-apart true true b m x h = cc
first_or-apart true false b m x h = refl
first_or-apart false t b m x h = refl

not_both : (d e : ℕ) → d ≢ e → (d == 0) && (e == 0) ≡ false
not_both d e ne = ground (arith, nat_beq_iff d 0, nat_beq_iff e 0)

pub get-set_other :
    (d e : ℕ) (b : Option String) (c : Controller)
    → d ≢ e
    → get_mounted_tape e (set_mounted_tape d b c) ≡ get_mounted_tape e c
unfolding get_mounted_tape set_mounted_tape mounted_in_dict
get-set_other d e b c ne =
    rw (lookup-insert_ne d e b c.mounted_tapes ne)
      (first_or-apart (d == 0) (e == 0) b c.mounted_tape _ (not_both d e ne))

-- A property of either branch, with the test.
pub if-cases :
    (P : Controller → Type 0) (b : Bool) (x y : Controller)
    → (b ≡ true → P x)
    → (b ≡ false → P y)
    → P (if b then x else y)
if-cases P true x y hx hy = hx refl
if-cases P false x y hx hy = hy refl

if-update :
    {A : Type 0} (f : Controller → A) (t : Bool) (x y : Controller) (a : A)
    → f x ≡ a
    → f y ≡ a
    → f (if t then x else y) ≡ a
if-update f true x y a hx hy = hx
if-update f false x y a hx hy = hy

-- What a change of the library's state leaves.
module _ {A : Type 0} (f : Controller → A)
    (same : (c : Controller) (now : ℕ) (b : LibraryState)
      → f (record c { debounced_state = b; state_changed_at = now }) ≡ f c) where
  pub set_base_state-leaves :
      {a : A} (now : ℕ) (b : LibraryState) (c : Controller)
      → f (record c { base_library_state = b }) ≡ a
      → f (set_base_state now b c) ≡ a
  unfolding set_base_state update_debounced_state
  set_base_state-leaves {a} now b c h =
      if-update f _ _ _ a h (if-update f _ _ _ a h (same _ now b ∙ h))

module _ (e : ℕ) where
  -- A drive's tape is changed only where a tape is noted for it.
  tape_after :
      (now : ℕ) (b : LibraryState) (c : Controller)
      → get_mounted_tape e (set_base_state now b c) ≡ get_mounted_tape e c
  unfolding get_mounted_tape mounted_in_dict
  tape_after now b c = set_base_state-leaves (get_mounted_tape e) (λ x t y. refl) now b c refl

  tape_after_exit :
      (now : ℕ) (b : Bool) (c : Controller)
      → get_mounted_tape e (exit_busy now b c) ≡ get_mounted_tape e c
  unfolding exit_busy get_mounted_tape mounted_in_dict
  tape_after_exit now b c =
      tape_after now (if b then online else degraded)
        (record c { busy_operations = c.busy_operations - 1 })

  -- `Q` is a property of the drive's tape that every tape noted for it has.
  pub tape-Kept :
      (Q : Option String → Type 0) (May : ℕ → Option String → Type 0)
      → ((d : ℕ) (b : Option String) (c : Controller)
          → May d b
          → Q (get_mounted_tape e c)
          → Q (get_mounted_tape e (set_mounted_tape d b c)))
      → Kept (λ n c. Q (get_mounted_tape e c)) May
  unfolding get_mounted_tape mounted_in_dict enter_busy remember_home_slot clear_home_slot
  tape-Kept Q May mounts = record {
    cached = λ n c x p. p;
    stated = λ n now b c p. subst Q (sym (tape_after now b c)) p;
    entered = λ n c p. p;
    exited = λ n now b c p. subst Q (sym (tape_after_exit now b c)) p;
    claimed = λ n c x p. p;
    remembered = λ n d s b c p. p;
    cleared = λ n d c p. p;
    mounted = λ n d b c may p. mounts d b c may p;
  }

busy_after_exit :
    (now : ℕ) (b : Bool) (c : Controller)
    → (exit_busy now b c).busy_operations ≡ c.busy_operations - 1
unfolding exit_busy
busy_after_exit now b c =
    set_base_state-leaves (λ x. x.busy_operations) (λ x t y. refl) now
      (if b then online else degraded) (record c { busy_operations = c.busy_operations - 1 }) refl

-- The number of busy operations is what it was before.
pub busy-Kept : Kept (λ n c. c.busy_operations ≡ n) (λ d b. Unit)
unfolding enter_busy remember_home_slot clear_home_slot set_mounted_tape
busy-Kept = record {
  cached = λ n c x p. p;
  stated = λ n now b c p.
      set_base_state-leaves (λ x. x.busy_operations) (λ x t y. refl) now b c refl ∙ p;
  entered = λ n c p. omega arith;
  exited = λ n now b c p. let left = busy_after_exit now b c in omega arith;
  claimed = λ n c x p. p;
  remembered = λ n d s b c p. p;
  cleared = λ n d c p. p;
  mounted = λ n d b c may p. p;
}
