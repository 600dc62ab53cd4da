-- ===== src/Spanning/Tests.antt =====
-- Runs of the spanning manager with the virtual library, and the theorems at concrete inputs.
use fossilsafe_t.Prelude.{
  String, ◌≡◌, refl, ◌⊎◌, true, false, none, some, [], ◌∷◌, nat_eq, string_eq,
}
use fossilsafe_t.Prelude.Dict.{lookup, insert}
use fossilsafe_t.Vtl.State.{Vtl, get, find_holder}
use fossilsafe_t.Vtl.Inventory.{load_tape, unload_tape}
use fossilsafe_t.Vtl.Conservation.{IsWellFormed}
use fossilsafe_t.Spanning.Changer.{Changer}
use fossilsafe_t.Spanning.VtlChanger.{vtl_changer, load_first, unload_first}
use fossilsafe_t.Spanning.Sequence.{
  waiting_for_tape, failed, SpanningSession, add_tape, get_current_tape,
}
use fossilsafe_t.Spanning.Manager.{
  Manager, get_session, write_session, create_session, request_tape_change, provide_next_tape, fail,
  is_waiting,
}
use fossilsafe_t.Spanning.Parts.{mark_in_progress, append_tape}
use fossilsafe_t.Spanning.Wait.{begin_wait, end_wait}
use fossilsafe_t.Spanning.Races.{provide_before_wait}
use fossilsafe_t.Spanning.Changes.{
  IsChanged, begun, provide_next_tape-IsChanged, provide_next_tape-refused,
}
use fossilsafe_t.Spanning.Reachable.{
  Reach, start, next, creates, requests, marks, appends, IsSound, Reach-IsSound,
}

abbrev library : Vtl
library = record {
  num_drives = 1;
  num_slots = 3;
  drive_only_mode = false;
  vtl_state = record { slots = (2, some "B") ∷ []; drives = (0, some "A") ∷ []; tapes = [] };
  saved = none;
  tape_dirs = [];
  mounts = [];
  mounted_tapes = [];
}

library-IsWellFormed : IsWellFormed library
unfolding lookup
library-IsWellFormed = record { library = refl; slots = (refl, tt); drives = (refl, tt) }

-- The text of an exception is of no account here.
abbrev changer : Changer
changer = vtl_changer (λ e. "")

abbrev at_hand : (v : Vtl) × IsWellFormed v
at_hand = (library, library-IsWellFormed)

abbrev empty : Manager
empty = record { sessions = []; event = false }

-- Jobs 7 and 8 both wait for a tape.
abbrev two_waiting : Manager
two_waiting =
    (request_tape_change 11 8
      (create_session 8 "Z" (request_tape_change 10 7 (create_session 7 "A" empty)).1)).1

provided : (provide_next_tape changer 7 "B" two_waiting at_hand).0 ≡ true
unfolding provide_next_tape request_tape_change create_session get_session write_session add_tape
    get_current_tape lookup insert load_first unload_first load_tape unload_tape get find_holder
provided = refl

refused : (provide_next_tape changer 9 "B" two_waiting at_hand).0 ≡ false
unfolding provide_next_tape request_tape_change create_session get_session write_session add_tape
    get_current_tape lookup insert
refused = refl

provide_next_tape-IsChanged_example :
    (s : SpanningSession) × (get_session 7 two_waiting ≡ some s)
    × (is_waiting s.state ≡ true)
    × (let (_, m', x') = provide_next_tape changer 7 "B" two_waiting at_hand in
        IsChanged changer 7 "B" s m' x')
provide_next_tape-IsChanged_example =
    provide_next_tape-IsChanged changer 7 "B" two_waiting at_hand provided

provide_next_tape-refused_example :
    (((s : SpanningSession) → get_session 9 two_waiting ≡ some s → is_waiting s.state ≡ false)
      × (provide_next_tape changer 9 "B" two_waiting at_hand ≡ (false, two_waiting, at_hand)))
    ⊎ ((s : SpanningSession) × (get_session 9 two_waiting ≡ some s)
        × (is_waiting s.state ≡ true)
        × (message : String) × ((provide_next_tape changer 9 "B" two_waiting at_hand).1
            ≡ write_session 9 (fail message (begun s)) two_waiting))
provide_next_tape-refused_example =
    provide_next_tape-refused changer 9 "B" two_waiting at_hand refused

provide_before_wait_example :
    let m' = (provide_next_tape changer 7 "B" two_waiting at_hand).1 in
    let m'' = (begin_wait 7 m').1 in
    ((begin_wait 7 m').0 ≡ none)
    × ((end_wait 7 m'').0 ≡ false)
    × ((s : SpanningSession) × (get_session 7 (end_wait 7 m'').1 ≡ some s)
        × (s.state ≡ failed)
        × (s.error ≡ some "Tape change timeout"))
provide_before_wait_example = provide_before_wait changer 7 "B" two_waiting at_hand provided

provided_in_wait : (provide_next_tape changer 7 "B" (begin_wait 7 two_waiting).1 at_hand).0 ≡ true
unfolding provide_next_tape request_tape_change create_session get_session write_session add_tape
    get_current_tape lookup insert load_first unload_first load_tape unload_tape get find_holder
    begin_wait
provided_in_wait = refl

abbrev session_8 : SpanningSession
session_8 = record {
  job_id = 8;
  state = waiting_for_tape;
  tape_sequence = record {
    job_id = 8;
    tapes = record { barcode = "Z"; index = 0; start_file = none } ∷ [];
    current_index = 0;
  };
  total_bytes_written = 0;
  current_tape_bytes = 0;
  error = none;
  waiting_since = some 11;
}

session_8_waits : get_session 8 two_waiting ≡ some session_8
unfolding request_tape_change create_session get_session write_session add_tape get_current_tape
    lookup insert
session_8_waits = refl

-- Two calls for one job that both pass the test of the state.
abbrev two_calls : Manager
two_calls = append_tape "C" 7 (
    append_tape "B" 7 (
      mark_in_progress 7
        (mark_in_progress 7 (request_tape_change 10 7 (create_session 7 "A" empty)).1)))

reached : Reach changer two_calls at_hand
reached =
    next
      (next
        (next (next (next (next (start at_hand) (creates 7 "A")) (requests 10 7)) (marks 7))
          (marks 7))
        (appends "B" 7))
      (appends "C" 7)

Reach-IsSound_example : IsSound two_calls
Reach-IsSound_example = Reach-IsSound changer reached
