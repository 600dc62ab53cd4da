-- ===== src/Controller/Keeps/Moves.antt =====
-- What moves of tapes keep, for a property of the controller that allows them.
use fossilsafe_t.Prelude.{ℕ, suc, String, Bool, true, false, Option, none, some, nat_eq, string_eq}
use fossilsafe_t.Controller.Hardware.{Hardware}
use fossilsafe_t.Controller.State.{Controller, degraded, enter_busy, exit_busy}
use fossilsafe_t.Controller.Action.{Answer, ok, raised, Action, writes, ◌>>=◌}
use fossilsafe_t.Controller.Action.Rules.{
  Preserves, preserve_rules, Preserves-writes, Preserves-bind, Preserves-choose, Preserves-rethrow,
  Preserves-pure, Preserves-raise, finally-holds,
}
use fossilsafe_t.Controller.Commands.{System, with_world, update, clock}
use fossilsafe_t.Controller.Moves.{
  poll_tape_alerts, unmount_ltfs, unmount_if_mounted, leave_busy, busy_section, note_unloaded,
  run_unload, after_unload, unload_section, unload_to, chosen_slot, forget_tape, remember_source,
  look_with_changer, look_in_drive, release, unload_tape,
}
use fossilsafe_t.Controller.Keeps.{
  Kept, Holds, run_mtx_command-keeps, get_drive_status-keeps, refresh-keeps, confirm_unloaded-keeps,
  resolve_slot-keeps,
}

module _ {P : ℕ → Controller → Type 0} {May : ℕ → Option String → Type 0} (k : Kept P May)
    (hw : Hardware) where
  pub writes-keeps :
      (n : ℕ) (f : Controller → Controller)
      → ((c : Controller) → P n c → P n (f c))
      → Preserves (Holds k hw n) (writes (update hw f))
  unfolding update
  writes-keeps n f h = Preserves-writes (update hw f) λ s p. h s.controller p

  pub poll-keeps : (n drive : ℕ) → Preserves (Holds k hw n) (poll_tape_alerts hw drive)
  unfolding poll_tape_alerts with_world
  poll-keeps n drive = record { holds = λ s p. p }

  pub unmount-keeps : (n drive : ℕ) → Preserves (Holds k hw n) (unmount_ltfs hw drive)
  unfolding unmount_ltfs with_world
  unmount-keeps n drive = record { holds = λ s p. p }

  pub unmount_if-keeps : (n drive : ℕ) → Preserves (Holds k hw n) (unmount_if_mounted hw drive)
  unmount_if-keeps n drive = search (preserve_rules, unmount-keeps)

  pub leave_busy-keeps :
      (n : ℕ) (b : Bool) (s : System hw)
      → P (suc n) s.controller
      → P n (leave_busy hw b s).controller
  unfolding leave_busy update
  leave_busy-keeps n b s p =
      (refresh-keeps k hw n).holds (update hw (exit_busy (clock hw s) b) s)
        (k.exited n (clock hw s) b s.controller p)

  pub busy_section-keeps :
      {A : Type 0} (n : ℕ) (body : Action (System hw) A)
      → Preserves (Holds k hw (suc n)) body
      → Preserves (Holds k hw n) (busy_section hw body)
  unfolding busy_section writes ◌>>=◌ update
  busy_section-keeps n body h = record {
    holds = λ s p.
        finally-holds (Holds k hw (suc n)) (Holds k hw n) (leave_busy hw) body (leave_busy-keeps n)
          (update hw enter_busy s) (h.holds (update hw enter_busy s) (k.entered n s.controller p));
  }

  note_unloaded-keeps :
      (n drive : ℕ) → May drive none → Preserves (Holds k hw n) (note_unloaded hw drive)
  unfolding note_unloaded
  note_unloaded-keeps n drive may =
      Preserves-bind _ _
        (writes-keeps n _ λ c p. k.cleared n drive _ (k.mounted n drive none c may p))
        (λ _. Preserves-pure true)

  run_unload-keeps :
      (n drive slot : ℕ) → May drive none → Preserves (Holds k hw n) (run_unload hw drive slot)
  unfolding run_unload
  run_unload-keeps n drive slot may =
      search (preserve_rules, run_mtx_command-keeps, confirm_unloaded-keeps, note_unloaded-keeps)

  after_unload-keeps :
      (n drive : ℕ) (r : Answer Bool × System hw)
      → Holds k hw (suc n) r.1
      → Holds k hw n (after_unload hw drive r).1
  after_unload-keeps n drive (ok b, s) p =
      finally-holds (Holds k hw (suc n)) (Holds k hw n) (λ _. leave_busy hw true) _
        (λ _. leave_busy-keeps n true) s
        ((Preserves-bind _ _ (poll-keeps (suc n) drive) (λ _. Preserves-pure b)).holds s p)
  after_unload-keeps n drive (raised e, s) p = leave_busy-keeps n false s p

  unload_section-keeps :
      (n drive slot : ℕ) → May drive none → Preserves (Holds k hw n) (unload_section hw drive slot)
  unfolding unload_section update
  unload_section-keeps n drive slot may = record {
    holds = λ s p. after_unload-keeps n drive _ (
        (run_unload-keeps (suc n) drive slot may).holds (update hw enter_busy s)
          (k.entered n s.controller p));
  }

  unload_to-keeps :
      (n drive : ℕ) (slot : Option ℕ)
      → May drive none
      → Preserves (Holds k hw n) (unload_to hw drive slot)
  unfolding unload_to with_world update
  unload_to-keeps n drive none may =
      Preserves-bind _ _ (Preserves-writes _ λ s p. k.stated n (clock hw s) degraded s.controller p)
        (λ _. Preserves-raise _)
  unload_to-keeps n drive (some slot) may =
      Preserves-bind _ _ (Preserves-writes _ λ s p. p) (λ _. unload_section-keeps n drive slot may)

  pub chosen_slot-keeps :
      (n : ℕ) (dest : Option ℕ) (drive : ℕ) (b : Option String)
      → Preserves (Holds k hw n) (chosen_slot hw dest drive b)
  chosen_slot-keeps n none drive b = resolve_slot-keeps k hw n drive b
  chosen_slot-keeps n (some slot) drive b = Preserves-pure _

  pub forget-keeps :
      (n drive : ℕ)
      → May drive none
      → Preserves (Holds k hw n) (writes (update hw (forget_tape drive)))
  unfolding forget_tape
  forget-keeps n drive may =
      writes-keeps n _ λ c p. k.claimed n _ none (k.mounted n drive none c may p)

  pub remember_source-keeps :
      (n drive : ℕ) (slot : Option ℕ) (b : Option String) (c : Controller)
      → P n c
      → P n (remember_source drive slot b c)
  unfolding remember_source
  remember_source-keeps n drive none b c p = p
  remember_source-keeps n drive (some slot) b c p = k.remembered n drive slot b c p

  noted_source-keeps :
      (n drive : ℕ) (slot : Option ℕ) (b : Option String)
      → Preserves (Holds k hw n) (writes (update hw (remember_source drive slot b)))
  noted_source-keeps n drive slot b = writes-keeps n _ (remember_source-keeps n drive slot b)

  pub look_with-keeps :
      (n drive : ℕ) (b : Option String) → Preserves (Holds k hw n) (look_with_changer hw drive b)
  unfolding look_with_changer
  look_with-keeps n drive b =
      search (preserve_rules, refresh-keeps, get_drive_status-keeps, noted_source-keeps)

  look_in_drive-keeps : (n drive : ℕ) → Preserves (Holds k hw n) (look_in_drive hw drive)
  unfolding look_in_drive
  look_in_drive-keeps n drive = search (preserve_rules, look_with-keeps)

  release-keeps :
      (n drive : ℕ) (dest : Option ℕ) (b : Option String)
      → May drive none
      → Preserves (Holds k hw n) (release hw drive dest b)
  unfolding release
  release-keeps n drive dest b may =
      search (preserve_rules, unmount_if-keeps, forget-keeps, chosen_slot-keeps, unload_to-keeps)

  pub unload_tape-keeps :
      (n drive : ℕ) (dest : Option ℕ)
      → May drive none
      → Preserves (Holds k hw n) (unload_tape hw drive dest)
  unfolding unload_tape
  unload_tape-keeps n drive dest may = Preserves-rethrow _ _ (
      Preserves-bind _ _ (look_in_drive-keeps n drive) λ (occupied, tape).
        Preserves-choose occupied _ _ (release-keeps n drive dest tape may) (Preserves-pure true))
