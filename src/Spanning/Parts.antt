-- ===== src/Spanning/Parts.antt =====
-- The parts of `provide_next_tape` after its test of the state, between which other threads may run
-- since the source holds no lock there. A part of a call whose session is not that of the job any
-- more changes nothing that `get_session` finds, and is no step.
use fossilsafe_t.Prelude.{ℕ, String, true, none, some, nat_eq, string_eq}
use fossilsafe_t.Spanning.Sequence.{SpanningSession, running, tape_change_in_progress, add_tape}
use fossilsafe_t.Spanning.Manager.{Manager, get_session, write_session, fail}

unfoldable pub change_session : (SpanningSession → SpanningSession) → ℕ → Manager → Manager
change_session change job m = elim (get_session job m) [
  | none ↦ m
  | some s ↦ write_session job (change s) m
]

abbrev pub mark_in_progress : ℕ → Manager → Manager
mark_in_progress = change_session (λ s. record s { state = tape_change_in_progress })

-- `session.tape_sequence.add_tape(barcode)`, taken whole.
abbrev pub append_tape : String → ℕ → Manager → Manager
append_tape barcode =
    change_session (λ s. record s { tape_sequence = add_tape barcode none s.tape_sequence })

abbrev pub resume : ℕ → Manager → Manager
resume = change_session (λ s. record s { current_tape_bytes = 0; state = running })

abbrev pub signal : Manager → Manager
signal m = record m { event = true }

abbrev pub mark_failed : String → ℕ → Manager → Manager
mark_failed message = change_session (fail message)
