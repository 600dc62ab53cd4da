-- ===== src/Spanning/Wait.antt =====
-- `wait_for_tape` of the backup thread, in the two halves between which the other threads run:
-- the event is cleared, and later the wait ends, woken or at its timeout.
use fossilsafe_t.Prelude.{ℕ, Bool, false, Option, none, some, if◌then◌else◌, nat_eq, string_eq}
use fossilsafe_t.Spanning.Manager.{Manager, get_session, write_session, is_running, fail}

-- `False` at once if there is no session; otherwise the wait begins, with the event cleared.
unfoldable pub begin_wait : ℕ → Manager → Option Bool × Manager
begin_wait job m = elim (get_session job m) [
  | none ↦ (some false, m)
  | some s ↦ (none, record m { event = false })
]

-- `Event.wait(timeout)` returns whether the event is set.
unfoldable pub end_wait : ℕ → Manager → Bool × Manager
end_wait job m = elim (get_session job m) [
  | none ↦ (false, m)
  | some s ↦
      if m.event
      then (is_running s.state, m)
      else (false, write_session job (fail "Tape change timeout" s) m)
]
