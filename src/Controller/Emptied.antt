-- ===== src/Controller/Emptied.antt =====
-- What is believed of a drive once an unload or a forced unload has returned.
use fossilsafe_t.Prelude.{
  ℕ, String, ◌≡◌, ap, ◌≢◌, Bool, true, false, not, ◌||◌, Option, none, some, nat_eq, string_eq,
  truth,
}
use fossilsafe_t.Controller.Hardware.{Hardware}
use fossilsafe_t.Controller.State.{
  Controller, set_mounted_tape, mounted_in_dict, get_mounted_tape, clear_home_slot, enter_busy,
}
use fossilsafe_t.Controller.Action.{
  tape_unload, Answer, ok, raised, pure, raise, reads, writes, choose, finally, ◌>>=◌,
}
use fossilsafe_t.Controller.Action.Rules.{
  Meets, Returns, return_rules, Returns-bind, Returns-raise, Returns-rethrow, bind-meets,
  choose-meets, Preserves-meets, finish-meets, weaken-meets,
}
use fossilsafe_t.Controller.Commands.{System, update}
use fossilsafe_t.Controller.Moves.{
  leave_busy, note_unloaded, run_unload, after_unload, poll_tape_alerts, unload_section, unload_to,
  forget_tape, look_in_drive, release, unload_tape,
}
use fossilsafe_t.Controller.Force.{
  force_command, settle, force_section, force_to, force_by_hand, force_unload_tape,
}
use fossilsafe_t.Controller.Keeps.{Kept}
use fossilsafe_t.Controller.Keeps.Moves.{look_with-keeps, poll-keeps}
use fossilsafe_t.Controller.Mounted.{get-set_mounted_tape}
use fossilsafe_t.Controller.Returned.{elsewhere-Kept, tape_of, leave_busy-tape}

module _ (hw : Hardware) (d : ℕ) where
  cleared-tape :
      (c : Controller) → get_mounted_tape d (clear_home_slot d (set_mounted_tape d none c)) ≡ none
  unfolding clear_home_slot get_mounted_tape mounted_in_dict
  cleared-tape c = get-set_mounted_tape d none c

  forget-tape : (c : Controller) → get_mounted_tape d (forget_tape d c) ≡ none
  unfolding forget_tape get_mounted_tape mounted_in_dict
  forget-tape c = get-set_mounted_tape d none c

  abbrev pub IsEmpty : Bool → System hw → Type 0
  IsEmpty answer s = truth (tape_of hw d s) ≡ false

  abbrev pub IsNone : Bool → System hw → Type 0
  IsNone answer s = tape_of hw d s ≡ none

  -- `A tape that is falsy` is kept by whatever does not note one.
  empty-Kept : Kept (λ n c. truth (get_mounted_tape d c) ≡ false) (λ e b. e ≢ d)
  empty-Kept = elsewhere-Kept d λ x. truth x ≡ false

  note_unloaded-meets : Returns IsEmpty (note_unloaded hw d)
  unfolding note_unloaded writes pure ◌>>=◌ update
  note_unloaded-meets = record { meets = λ t. ap truth (cleared-tape t.controller) }

  run_unload-meets : (s : ℕ) → Returns IsEmpty (run_unload hw d s)
  unfolding run_unload
  run_unload-meets s = search (return_rules, note_unloaded-meets)

  poll-meets :
      (b : Bool) (s : System hw)
      → IsEmpty b s
      → Meets IsEmpty ((poll_tape_alerts hw d >>= λ _. pure b) s)
  unfolding pure
  poll-meets b s q =
      bind-meets (λ u t. IsEmpty true t) IsEmpty (poll_tape_alerts hw d) (λ _. pure b) s
        (Preserves-meets (λ t. IsEmpty true t) _ (poll-keeps empty-Kept hw 0 d) s q) (λ a t r. r)

  after_unload-meets :
      (r : Answer Bool × System hw) → Meets IsEmpty r → Meets IsEmpty (after_unload hw d r)
  unfolding finally
  after_unload-meets (ok b, s) q =
      finish-meets IsEmpty (λ _. leave_busy hw true)
        (λ a t u h. leave_busy-tape hw d (λ y. truth y ≡ false) true u h) _ (poll-meets b s q)
  after_unload-meets (raised e, s) q = tt

  unload_section-meets : (s : ℕ) → Returns IsEmpty (unload_section hw d s)
  unfolding unload_section
  unload_section-meets s = record {
    meets = λ t. after_unload-meets _ ((run_unload-meets s).meets (update hw enter_busy t));
  }

  unload_to-meets : (o : Option ℕ) → Returns IsEmpty (unload_to hw d o)
  unfolding unload_to
  unload_to-meets none = Returns-bind _ _ λ _. Returns-raise tape_unload
  unload_to-meets (some s) = Returns-bind _ _ λ _. unload_section-meets s

  forgotten-meets : Returns IsNone (writes (update hw (forget_tape d)) >>= λ _. pure true)
  unfolding writes pure ◌>>=◌ update
  forgotten-meets = record { meets = λ t. forget-tape t.controller }

  forgotten-IsEmpty : Returns IsEmpty (writes (update hw (forget_tape d)) >>= λ _. pure true)
  forgotten-IsEmpty = record {
    meets = λ t. weaken-meets IsNone IsEmpty (λ a u h. ap truth h) _ (forgotten-meets.meets t);
  }

  release-meets : (o : Option ℕ) (b : Option String) → Returns IsEmpty (release hw d o b)
  unfolding release
  release-meets o b = search (return_rules, forgotten-IsEmpty, unload_to-meets)

  -- A look that finds no tape leaves a drive that is believed to be empty.
  abbrev EmptyUnless : Bool × Option String → System hw → Type 0
  EmptyUnless found s = found.0 ≡ false → truth (tape_of hw d s) ≡ false

  falsy : (b c : Bool) → b || c ≡ false → c ≡ false
  falsy true c h = cc
  falsy false c h = h

  look-meets : (s : System hw) → Meets EmptyUnless (look_in_drive hw d s)
  unfolding look_in_drive reads ◌>>=◌ pure
  look-meets s =
      choose-meets EmptyUnless _ _ _ s (λ yes h. h)
        λ no.
          weaken-meets (λ a t. IsEmpty true t) EmptyUnless (λ a t h _. h) _
            (Preserves-meets (λ t. IsEmpty true t) _ (look_with-keeps empty-Kept hw 0 d _) s
              (falsy _ _ no))

  pub unload_tape-meets : (o : Option ℕ) → Returns IsEmpty (unload_tape hw d o)
  unfolding unload_tape pure
  unload_tape-meets o = Returns-rethrow tape_unload _ (record {
    meets = λ s. bind-meets EmptyUnless IsEmpty _ _ s (look-meets s) λ found t h.
        choose-meets IsEmpty found.0 _ _ t (λ yes. (release-meets o found.1).meets t) (λ no. h no);
  })

  -- A forced unload.
  emptied-meets :
      (v : Bool)
      → Returns IsNone
          (writes (update hw λ c. clear_home_slot d (set_mounted_tape d none c)) >>= λ _. pure v)
  unfolding writes pure ◌>>=◌ update
  emptied-meets v = record { meets = λ t. cleared-tape t.controller }

  force_command-meets : (s : ℕ) (failed : Bool) → Returns IsNone (force_command hw d s failed)
  unfolding force_command
  force_command-meets s failed =
      Returns-bind _ _ λ _. Returns-bind _ _ λ sure. emptied-meets (failed || not sure)

  settle-meets :
      (failed : Bool) (r : Answer Bool × System hw)
      → Meets IsNone r
      → Meets IsNone (settle hw d failed r)
  settle-meets failed (ok true, s) h = tt
  settle-meets failed (ok false, s) h = leave_busy-tape hw d (λ y. y ≡ none) true s h
  settle-meets failed (raised e, s) h = tt

  force_to-meets : (failed : Bool) (o : Option ℕ) → Returns IsNone (force_to hw d failed o)
  unfolding force_to force_section
  force_to-meets failed none = Returns-raise _
  force_to-meets failed (some s) = record {
    meets =
        λ t. settle-meets failed _ ((force_command-meets s failed).meets (update hw enter_busy t));
  }

  by_hand-meets : (failed : Bool) → Returns IsNone (force_by_hand hw d failed)
  unfolding force_by_hand writes pure ◌>>=◌ update choose raise
  by_hand-meets true = record { meets = λ t. tt }
  by_hand-meets false = record { meets = λ t. forget-tape t.controller }

  pub force_unload-meets : (o : Option ℕ) → Returns IsNone (force_unload_tape hw d o)
  unfolding force_unload_tape
  force_unload-meets o = search (return_rules, by_hand-meets, force_to-meets)
