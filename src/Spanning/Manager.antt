-- ===== src/Spanning/Manager.antt =====
-- The methods of `TapeSpanningManager`. A session is an object that its job's entry of `_sessions`
-- names, so a method writes it there. `event` is the one `_tape_change_event` of the manager.
use fossilsafe_t.Prelude.{
  ℕ, String, Bool, true, false, Option, none, some, [], if◌then◌else◌, length, nat_eq, string_eq,
}
use fossilsafe_t.Prelude.Dict.{Dict, lookup, insert}
use fossilsafe_t.Spanning.Changer.{Changer, Outcome, done, raised}
use fossilsafe_t.Spanning.Sequence.{
  SpanningState, idle, running, waiting_for_tape, tape_change_in_progress, completed, failed,
  TapeInfo, TapeSequence, add_tape, get_current_tape, SpanningSession,
}

pub record Manager : Type 0 where
  pub sessions : Dict ℕ SpanningSession
  pub event : Bool

-- A method returns a Boolean, or raises since the current tape is `None`.
pub data Reply : Type 0 where
  returned : Bool → Reply
  type_error : Reply

unfoldable pub get_session : ℕ → Manager → Option SpanningSession
get_session job m = lookup job m.sessions

unfoldable pub write_session : ℕ → SpanningSession → Manager → Manager
write_session job s m = record m { sessions = insert job s m.sessions }

unfoldable pub create_session : ℕ → String → Manager → Manager
create_session job initial_tape m =
    let q : TapeSequence = record { job_id = job; tapes = []; current_index = 0 } in
    write_session job
      (record {
        job_id = job;
        state = idle;
        tape_sequence = add_tape initial_tape none q;
        total_bytes_written = 0;
        current_tape_bytes = 0;
        error = none;
        waiting_since = none;
      })
      m

-- The reply of `request_tape_change` reads the barcode of the current tape.
abbrev has_tape : Option TapeInfo → Reply
has_tape none = type_error
has_tape (some t) = returned true

unfoldable pub request_tape_change : ℕ → ℕ → Manager → Reply × Manager
request_tape_change now job m = elim (get_session job m) [
  | none ↦ (returned false, m)
  | some s ↦ (
    has_tape (get_current_tape s.tape_sequence),
    write_session job (record s { state = waiting_for_tape; waiting_since = some now }) m,
  )
]

abbrev pub is_waiting : SpanningState → Bool
is_waiting waiting_for_tape = true
is_waiting _ = false

abbrev pub is_running : SpanningState → Bool
is_running running = true
is_running _ = false

abbrev pub fail : String → SpanningSession → SpanningSession
fail message s = record s { state = failed; error = some message }

-- The session once the new tape is in.
abbrev pub changed : String → SpanningSession → SpanningSession
changed barcode s = record s {
  tape_sequence = add_tape barcode none s.tape_sequence;
  current_tape_bytes = 0;
  state = running;
}

module _ (c : Changer) where
  open c use {State, unload, load}

  -- The `try` block, after `unload_tape` and after `load_tape`.
  abbrev pub after_load :
      ℕ → String → SpanningSession → Manager → Outcome × State → Bool × Manager × State
  after_load job barcode s m (done, x) =
      (true, record (write_session job (changed barcode s) m) { event = true }, x)
  after_load job barcode s m (raised e, x) = (false, write_session job (fail e s) m, x)

  abbrev pub after_unload :
      ℕ → String → SpanningSession → Manager → Outcome × State → Bool × Manager × State
  after_unload job barcode s m (done, x) = after_load job barcode s m (load barcode x)
  after_unload job barcode s m (raised e, x) = (false, write_session job (fail e s) m, x)

  unfoldable pub provide_next_tape : ℕ → String → Manager → State → Bool × Manager × State
  provide_next_tape job barcode m x = elim (get_session job m) [
    | none ↦ (false, m, x)
    | some s ↦
        if is_waiting s.state
        then after_unload job barcode (record s { state = tape_change_in_progress }) m (unload x)
        else (false, m, x)
  ]

unfoldable pub complete_session : ℕ → Manager → Manager
complete_session job m = elim (get_session job m) [
  | none ↦ m
  | some s ↦ write_session job (record s { state = completed }) m
]

unfoldable pub fail_session : ℕ → String → Manager → Manager
fail_session job message m = elim (get_session job m) [
  | none ↦ m
  | some s ↦ write_session job (fail message s) m
]

pub record Status : Type 0 where
  pub job_id : ℕ
  pub state : SpanningState
  pub tape_count : ℕ
  pub current_tape : Option TapeInfo
  pub total_bytes : ℕ
  pub waiting_since : Option ℕ
  pub error : Option String

abbrev status_of : ℕ → SpanningSession → Status
status_of job s = record {
  job_id = job;
  state = s.state;
  tape_count = length s.tape_sequence.tapes;
  current_tape = get_current_tape s.tape_sequence;
  total_bytes = s.total_bytes_written;
  waiting_since = s.waiting_since;
  error = s.error;
}

unfoldable pub get_session_status : ℕ → Manager → Option Status
get_session_status job m = elim (get_session job m) [
  | none ↦ none
  | some s ↦ some (status_of job s)
]
