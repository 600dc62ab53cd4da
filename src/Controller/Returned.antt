-- ===== src/Controller/Returned.antt =====
-- What is believed of a drive once a load has returned.
use fossilsafe_t.Prelude.{
  ℕ, String, ◌≡◌, refl, sym, subst, ◌∙◌, ◌≢◌, Bool, Option, none, some, nat_eq, string_eq,
}
use fossilsafe_t.Controller.Hardware.{Hardware}
use fossilsafe_t.Controller.State.{
  Controller, set_mounted_tape, get_mounted_tape, remember_home_slot, clear_home_slot, enter_busy,
}
use fossilsafe_t.Controller.Status.{DriveStatus}
use fossilsafe_t.Controller.Action.{tape_load, pure, writes, ◌>>=◌}
use fossilsafe_t.Controller.Action.Rules.{
  Returns, return_rules, Returns-bind, Returns-raise, Returns-finally,
}
use fossilsafe_t.Controller.Commands.{System, update}
use fossilsafe_t.Controller.Moves.{leave_busy, busy_section, note_loaded, run_load, remember_source}
use fossilsafe_t.Controller.Loads.{
  claim_tape, load_by_hand, already_loaded, load_from, load_after, load_by_changer, load_tape,
}
use fossilsafe_t.Controller.Keeps.{Kept}
use fossilsafe_t.Controller.Keeps.Moves.{leave_busy-keeps}
use fossilsafe_t.Controller.Mounted.{get-set_mounted_tape, get-set_other, tape-Kept}

-- What no note for another drive changes.
abbrev pub elsewhere-Kept :
    (e : ℕ) (Q : Option String → Type 0) → Kept (λ n c. Q (get_mounted_tape e c)) (λ d b. d ≢ e)
elsewhere-Kept e Q =
    tape-Kept e Q (λ d b. d ≢ e) λ d b c ne q. subst Q (sym (get-set_other d e b c ne)) q

module _ (hw : Hardware) (d : ℕ) where
  -- The believed tape of the drive, in what a state says.
  abbrev pub tape_of : System hw → Option String
  tape_of s = get_mounted_tape d s.controller

  pub leave_busy-tape :
      (Q : Option String → Type 0) (b : Bool) (s : System hw)
      → Q (tape_of s)
      → Q (tape_of (leave_busy hw b s))
  leave_busy-tape Q b s q = leave_busy-keeps (elsewhere-Kept d Q) hw 0 b s q

  remember-tape :
      (s : ℕ) (b : Option String) (c : Controller)
      → get_mounted_tape d (remember_home_slot d s b c) ≡ get_mounted_tape d c
  unfolding remember_home_slot get_mounted_tape fossilsafe_t.Controller.State.mounted_in_dict
  remember-tape s b c = refl

  -- Loads.
  module _ (b : String) where
    abbrev pub IsLoaded : Bool → System hw → Type 0
    IsLoaded answer s = tape_of s ≡ some b

    note_loaded-meets : (s : ℕ) → Returns IsLoaded (note_loaded hw b d s)
    unfolding note_loaded writes pure ◌>>=◌ update
    note_loaded-meets s = record {
      meets = λ t. remember-tape s (some b) _ ∙ get-set_mounted_tape d (some b) t.controller;
    }

    run_load-meets : (s : ℕ) → Returns IsLoaded (run_load hw b d s)
    unfolding run_load
    run_load-meets s = search (return_rules, note_loaded-meets)

    load_from-meets : (o : Option ℕ) → Returns IsLoaded (load_from hw b d o)
    unfolding load_from busy_section
    load_from-meets none = Returns-raise tape_load
    load_from-meets (some s) = Returns-bind _ _ λ _. Returns-bind _ _ λ _.
        Returns-finally (leave_busy hw) _ (λ a t x q. leave_busy-tape (λ y. y ≡ some b) t x q)
          (run_load-meets s)

    claim-meets : Returns IsLoaded (claim_tape hw b d)
    unfolding claim_tape writes pure ◌>>=◌ update
    claim-meets = record { meets = λ t. get-set_mounted_tape d (some b) _ }

    remember_source-tape :
        (o : Option ℕ) (c : Controller)
        → get_mounted_tape d (remember_source d o (some b) c) ≡ get_mounted_tape d c
    unfolding remember_source
    remember_source-tape none c = refl
    remember_source-tape (some s) c = remember-tape s (some b) c

    already-meets : (status : DriveStatus) → Returns IsLoaded (already_loaded hw b d status)
    unfolding already_loaded writes pure ◌>>=◌ update
    already-meets status = record {
      meets = λ t. remember_source-tape status.source_slot _ ∙ get-set_mounted_tape d (some b) _;
    }

    load_after-meets : (status : DriveStatus) → Returns IsLoaded (load_after hw b d status)
    unfolding load_after
    load_after-meets status = search (return_rules, load_from-meets)

    by_changer-meets : Returns IsLoaded (load_by_changer hw b d)
    unfolding load_by_changer
    by_changer-meets = search (return_rules, already-meets, load_after-meets)

    by_hand-meets : Returns IsLoaded (load_by_hand hw b d)
    unfolding load_by_hand
    by_hand-meets = search (return_rules, claim-meets)

    pub load_tape-meets : Returns IsLoaded (load_tape hw b d)
    unfolding load_tape
    load_tape-meets = search (return_rules, by_hand-meets, by_changer-meets)
