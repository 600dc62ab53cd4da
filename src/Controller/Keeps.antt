-- ===== src/Controller/Keeps.antt =====
-- What the operations of the controller keep: a property that the parts of an operation keep is kept
-- by the whole, whether it returns or raises.
pub mod Moves
pub mod Loads
pub mod Operations
use fossilsafe_t.Prelude.{
  ℕ, zero, suc, ◌+◌, ◌-◌, ◌*◌, ◌/◌, ◌%◌, ◌^◌, ◌≤◌, ◌<◌, String, ◌≡◌, refl, sym, ap, subst, ◌∙◌, ◌≢◌,
  ◌↔◌, ◌⊎◌, inl, inr, Bool, true, false, not, ◌&&◌, ◌||◌, Option, none, some, List, [], ◌∷◌, ◌++◌,
  map, arith, ltb, leb, nat_beq, if◌then◌else◌, nat_beq_iff, Bool-cases, Option-cases, length, take,
  drop, keep, find, last?, length-append, length-keep-le, last?-append, All, All-append, Eq, ◌==◌,
  nat_eq, string_eq, beq_refl, str_iff, is_text, text_truth, truth,
}
use fossilsafe_t.Controller.Hardware.{
  Line, Reply, exited, timed_out, not_run, StatusReply, printed, status_timed_out, status_not_run,
  Hardware,
}
use fossilsafe_t.Controller.State.{
  LibraryState, Controller, set_mounted_tape, remember_home_slot, clear_home_slot, set_base_state,
  enter_busy, exit_busy,
}
use fossilsafe_t.Controller.Status.{MailSlots}
use fossilsafe_t.Controller.Action.{Fault, Answer, ok, raised, Action, reads, ◌>>=◌}
use fossilsafe_t.Controller.Action.Rules.{
  Preserves, preserve_rules, Preserves-writes, Preserves-bind, Preserves-reads, Preserves-choose,
  Preserves-or_default, Preserves-rethrow, Preserves-pure, Preserves-raise, finally-holds,
}
use fossilsafe_t.Controller.Commands.{
  System, with_world, update, clock, receive_status, cached_status, run_status, receive,
  run_mtx_command, get_drive_status, entries_of, scan_status_only, scan_changer, scan_library,
  scan_barcodes, refresh_inventory_cache, confirm_drive_loaded, confirm_drive_unloaded,
  find_empty_slot, or_empty_slot, resolve_unload_slot,
}

-- A property of the controller with the number of operations that are busy. `May drive tape` says
-- which tapes may be noted as mounted.
pub record Kept (P : ℕ → Controller → Type 0) (May : ℕ → Option String → Type 0) : Type 0 where
  pub cached :
      (n : ℕ) (c : Controller) (x : Option (ℕ × List Line))
      → P n c
      → P n (record c { mtx_status_cache = x })
  pub stated :
      (n now : ℕ) (b : LibraryState) (c : Controller) → P n c → P n (set_base_state now b c)
  pub entered : (n : ℕ) (c : Controller) → P n c → P (suc n) (enter_busy c)
  pub exited : (n now : ℕ) (b : Bool) (c : Controller) → P (suc n) c → P n (exit_busy now b c)
  pub claimed :
      (n : ℕ) (c : Controller) (x : Option String)
      → P n c
      → P n (record c { manual_tape_barcode = x })
  pub remembered :
      (n drive slot : ℕ) (b : Option String) (c : Controller)
      → P n c
      → P n (remember_home_slot drive slot b c)
  pub cleared : (n drive : ℕ) (c : Controller) → P n c → P n (clear_home_slot drive c)
  pub mounted :
      (n drive : ℕ) (b : Option String) (c : Controller)
      → May drive b
      → P n c
      → P n (set_mounted_tape drive b c)

module _ {P : ℕ → Controller → Type 0} {May : ℕ → Option String → Type 0} (k : Kept P May)
    (hw : Hardware) (n : ℕ) where
  abbrev pub Holds : System hw → Type 0
  Holds s = P n s.controller

  cached-if :
      (b : Bool) (x : Option (ℕ × List Line)) (s : System hw)
      → P n s.controller
      → P n (if b then update hw (λ c. record c { mtx_status_cache = x }) s else s).controller
  unfolding update
  cached-if true x s p = k.cached n s.controller x p
  cached-if false x s p = p

  receive_status-keeps :
      (at : ℕ) (s : System hw) (r : StatusReply × hw.World)
      → P n s.controller
      → P n (receive_status hw at s r).1.controller
  unfolding receive_status with_world
  receive_status-keeps at s (printed rc lines, w) p =
      cached-if (rc == 0) (some (at, lines)) (with_world hw w s) p
  receive_status-keeps at s (status_timed_out, w) p = p
  receive_status-keeps at s (status_not_run, w) p = p

  if-keeps :
      {A : Type 0} (b : Bool) (x y : Answer A × System hw)
      → Holds x.1
      → Holds y.1
      → Holds (if b then x else y).1
  if-keeps true x y hx hy = hx
  if-keeps false x y hx hy = hy

  cached_status-keeps :
      (o : Option (ℕ × List Line)) (s : System hw) → Holds s → Holds (cached_status hw o s).1
  unfolding cached_status
  cached_status-keeps none s p = receive_status-keeps (clock hw s) s (hw.status s.world) p
  cached_status-keeps (some (at, lines)) s p =
      if-keeps _ (ok (some lines), s) (receive_status hw (clock hw s) s (hw.status s.world)) p
        (receive_status-keeps (clock hw s) s (hw.status s.world) p)

  pub run_status-keeps : Preserves Holds (run_status hw)
  unfolding run_status
  run_status-keeps = record { holds = λ s p. cached_status-keeps s.controller.mtx_status_cache s p }

  receive-keeps :
      (s : System hw) (r : Reply × hw.World) → P n s.controller → P n (receive hw s r).1.controller
  unfolding receive with_world
  receive-keeps s (exited rc, w) p = p
  receive-keeps s (timed_out, w) p = p
  receive-keeps s (not_run, w) p = p

  pub run_mtx_command-keeps :
      (command : hw.World → Reply × hw.World) → Preserves Holds (run_mtx_command hw command)
  unfolding run_mtx_command
  run_mtx_command-keeps command = record { holds = λ s p. receive-keeps s (command s.world) p }

  pub get_drive_status-keeps : Preserves Holds (get_drive_status hw)
  unfolding get_drive_status
  get_drive_status-keeps = search (preserve_rules, run_status-keeps)

  entries_of-keeps :
      (mail : MailSlots) (o : Option (List Line)) → Preserves Holds (entries_of hw mail o)
  entries_of-keeps mail none = Preserves-raise _
  entries_of-keeps mail (some lines) = Preserves-pure _

  scan_status-keeps : Preserves Holds (scan_status_only hw)
  unfolding scan_status_only
  scan_status-keeps = search (preserve_rules, run_status-keeps, entries_of-keeps)

  scan_changer-keeps : (deep : Bool) → Preserves Holds (scan_changer hw deep)
  unfolding scan_changer
  scan_changer-keeps deep = search (preserve_rules, run_mtx_command-keeps, scan_status-keeps)

  pub scan_barcodes-keeps : Preserves Holds (scan_barcodes hw)
  unfolding scan_barcodes scan_library
  scan_barcodes-keeps = search (preserve_rules, scan_changer-keeps)

  pub refresh-keeps : Preserves Holds (refresh_inventory_cache hw)
  unfolding refresh_inventory_cache
  refresh-keeps = search (preserve_rules, scan_barcodes-keeps)

  pub confirm_loaded-keeps : (b : String) → Preserves Holds (confirm_drive_loaded hw b)
  unfolding confirm_drive_loaded
  confirm_loaded-keeps b = search (preserve_rules, get_drive_status-keeps)

  pub confirm_unloaded-keeps : Preserves Holds (confirm_drive_unloaded hw)
  unfolding confirm_drive_unloaded
  confirm_unloaded-keeps = search (preserve_rules, get_drive_status-keeps)

  or_empty-keeps : (o : Option ℕ) → Preserves Holds (or_empty_slot hw o)
  unfolding find_empty_slot
  or_empty-keeps none = search (preserve_rules, run_status-keeps)
  or_empty-keeps (some slot) = Preserves-pure _

  pub resolve_slot-keeps :
      (drive : ℕ) (b : Option String) → Preserves Holds (resolve_unload_slot hw drive b)
  unfolding resolve_unload_slot
  resolve_slot-keeps drive b = search (preserve_rules, or_empty-keeps)
