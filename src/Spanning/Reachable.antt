-- ===== src/Spanning/Reachable.antt =====
-- The backup thread, the browser's requests and the waits: the steps of a manager and its
-- controller, and what holds of every manager that they reach. A call of `provide_next_tape` is a
-- step, and so is each of its parts at any time, which stands for a call that others interrupt. The
-- moves of tapes meanwhile are `moves`. A call of `add_tape` is one step.
use fossilsafe_t.Prelude.{
  ℕ, String, ◌≡◌, refl, subst, inl, inr, Bool, true, false, none, some, [], arith, Bool-cases,
  Option-cases, ◌==◌, nat_eq, string_eq,
}
use fossilsafe_t.Prelude.Dict.{lookup}
use fossilsafe_t.Spanning.Changer.{Changer, Outcome, done, raised}
use fossilsafe_t.Spanning.Sequence.{
  SpanningSession, IsOrdered, AreNumbered-add_tape, get_current_tape-some,
}
use fossilsafe_t.Spanning.Manager.{
  Manager, returned, get_session, write_session, create_session, request_tape_change, is_waiting,
  provide_next_tape, after_load, after_unload, changed, fail, complete_session, fail_session,
}
use fossilsafe_t.Spanning.Parts.{
  change_session, mark_in_progress, append_tape, resume, signal, mark_failed,
}
use fossilsafe_t.Spanning.Wait.{begin_wait, end_wait}
use fossilsafe_t.Spanning.Changes.{get_session-write, provide_other, provide_waiting, begun}
use fossilsafe_t.Spanning.Races.{end_wait-unknown, end_wait-signalled, end_wait-timeout}

module _ (c : Changer) where
  open c use {State}

  pub data Step (m : Manager) (x : State) : Manager → State → Type 0 where
    creates : (job : ℕ) (barcode : String) → Step m x (create_session job barcode m) x
    requests : (now job : ℕ) → Step m x (request_tape_change now job m).1 x
    provides :
        (job : ℕ) (barcode : String)
        → Step m x (provide_next_tape c job barcode m x).1 (provide_next_tape c job barcode m x).2
    marks : (job : ℕ) → Step m x (mark_in_progress job m) x
    appends : (barcode : String) (job : ℕ) → Step m x (append_tape barcode job m) x
    resumes : (job : ℕ) → Step m x (resume job m) x
    signals : Step m x (signal m) x
    marks_failed : (message : String) (job : ℕ) → Step m x (mark_failed message job m) x
    begins : (job : ℕ) → Step m x (begin_wait job m).1 x
    ends : (job : ℕ) → Step m x (end_wait job m).1 x
    completes : (job : ℕ) → Step m x (complete_session job m) x
    fails : (job : ℕ) (message : String) → Step m x (fail_session job message m) x
    -- the drive and the library change by other hands
    moves : (y : State) → Step m x m y

  pub data Reach : Manager → State → Type 0 where
    start : (x : State) → Reach (record { sessions = []; event = false }) x
    next : {m m' : Manager} {x x' : State} → Reach m x → Step m x m' x' → Reach m' x'

abbrev pub IsSound : Manager → Type 0
IsSound m = (job : ℕ) (s : SpanningSession) → get_session job m ≡ some s → IsOrdered s.tape_sequence

write_session-IsSound :
    (job : ℕ) (s : SpanningSession) (m : Manager)
    → IsSound m
    → IsOrdered s.tape_sequence
    → IsSound (write_session job s m)
write_session-IsSound job s m sound o k t e = elim (Bool-cases (job == k)) [
  | inl same ↦
      let eq : s ≡ t = ground (arith, get_session-write job k s m) in
      subst (λ (u : SpanningSession). IsOrdered u.tape_sequence) eq o
  | inr other ↦ sound k t (ground (arith, get_session-write job k s m))
]

empty-IsSound : IsSound (record { sessions = []; event = false })
unfolding get_session lookup
empty-IsSound job s e = cc

event-IsSound : (m : Manager) (b : Bool) → IsSound m → IsSound (record m { event = b })
unfolding get_session
event-IsSound m b sound = sound

create_session-IsSound :
    (job : ℕ) (barcode : String) (m : Manager) → IsSound m → IsSound (create_session job barcode m)
unfolding create_session
create_session-IsSound job barcode m sound =
    write_session-IsSound job _ m sound (AreNumbered-add_tape barcode none _ tt)

-- A method that finds the session, and writes one with the same tapes.
module _ (job : ℕ) (m : Manager) (sound : IsSound m) where
  request-IsSound : (now : ℕ) → IsSound (request_tape_change now job m).1
  unfolding request_tape_change
  request-IsSound now = elim (Option-cases (get_session job m)) [
    | inl e ↦ rw (e, request_tape_change) sound
    | inr (s, e) ↦ rw (e, request_tape_change) (write_session-IsSound job _ m sound (sound job s e))
  ]

  change_session-IsSound :
      (change : SpanningSession → SpanningSession)
      → ((s : SpanningSession) → IsOrdered s.tape_sequence → IsOrdered (change s).tape_sequence)
      → IsSound (change_session change job m)
  unfolding change_session
  change_session-IsSound change keeps = elim (Option-cases (get_session job m)) [
    | inl e ↦ rw (e, change_session) sound
    | inr (s, e) ↦
        rw (e, change_session) (write_session-IsSound job _ m sound (keeps s (sound job s e)))
  ]

  begin_wait-IsSound : IsSound (begin_wait job m).1
  unfolding begin_wait
  begin_wait-IsSound = elim (Option-cases (get_session job m)) [
    | inl e ↦ rw (e, begin_wait) sound
    | inr (s, e) ↦ rw (e, begin_wait) (event-IsSound m false sound)
  ]

  end_wait-IsSound : IsSound (end_wait job m).1
  end_wait-IsSound = elim (Option-cases (get_session job m)) [
    | inl e ↦ rw (end_wait-unknown job m e) sound
    | inr (s, e) ↦ elim (Bool-cases m.event) [
      | inl set ↦ rw (end_wait-signalled job m e set) sound
      | inr unset ↦
          rw (end_wait-timeout job m e unset) (write_session-IsSound job _ m sound (sound job s e))
    ]
  ]

  complete_session-IsSound : IsSound (complete_session job m)
  unfolding complete_session
  complete_session-IsSound = elim (Option-cases (get_session job m)) [
    | inl e ↦ rw (e, complete_session) sound
    | inr (s, e) ↦ rw (e, complete_session) (write_session-IsSound job _ m sound (sound job s e))
  ]

  fail_session-IsSound : (message : String) → IsSound (fail_session job message m)
  unfolding fail_session
  fail_session-IsSound message = elim (Option-cases (get_session job m)) [
    | inl e ↦ rw (e, fail_session) sound
    | inr (s, e) ↦ rw (e, fail_session) (write_session-IsSound job _ m sound (sound job s e))
  ]

module _ (c : Changer) where
  open c use {State, unload, load}

  after_load-IsSound :
      (job : ℕ) (barcode : String) (s : SpanningSession) (m : Manager) (r : Outcome × State)
      → IsSound m
      → IsOrdered s.tape_sequence
      → IsSound (after_load c job barcode s m r).1
  after_load-IsSound job barcode s m (done, x) sound o = event-IsSound _ true (
      write_session-IsSound job (changed barcode s) m sound
        (AreNumbered-add_tape barcode none s.tape_sequence o.numbered))
  after_load-IsSound job barcode s m (raised message, x) sound o =
      write_session-IsSound job (fail message s) m sound o

  after_unload-IsSound :
      (job : ℕ) (barcode : String) (s : SpanningSession) (m : Manager) (r : Outcome × State)
      → IsSound m
      → IsOrdered s.tape_sequence
      → IsSound (after_unload c job barcode s m r).1
  after_unload-IsSound job barcode s m (done, x) sound o =
      after_load-IsSound job barcode s m (load barcode x) sound o
  after_unload-IsSound job barcode s m (raised message, x) sound o =
      write_session-IsSound job (fail message s) m sound o

  provide-IsSound :
      (job : ℕ) (barcode : String) (m : Manager) (x : State)
      → IsSound m
      → IsSound (provide_next_tape c job barcode m x).1
  provide-IsSound job barcode m x sound = elim (Option-cases (get_session job m)) [
    | inl unknown ↦ rw (provide_other c job barcode m x (λ s p. cc)) sound
    | inr (s, known) ↦ elim (Bool-cases (is_waiting s.state)) [
      | inl waits ↦
          rw (provide_waiting c job barcode m x known waits)
            (after_unload-IsSound job barcode (begun s) m (unload x) sound (sound job s known))
      | inr busy ↦ rw (provide_other c job barcode m x (λ t p. ground (arith, known, busy))) sound
    ]
  ]

  Step-IsSound :
      {m : Manager} {x : State} {m' : Manager} {x' : State}
      → Step c m x m' x'
      → IsSound m
      → IsSound m'
  Step-IsSound {m} (creates job barcode) sound = create_session-IsSound job barcode m sound
  Step-IsSound {m} (requests now job) sound = request-IsSound job m sound now
  Step-IsSound {m} {x} (provides job barcode) sound = provide-IsSound job barcode m x sound
  Step-IsSound {m} (marks job) sound = change_session-IsSound job m sound _ (λ s o. o)
  Step-IsSound {m} (appends barcode job) sound =
      change_session-IsSound job m sound _
        (λ s o. AreNumbered-add_tape barcode none s.tape_sequence o.numbered)
  Step-IsSound {m} (resumes job) sound = change_session-IsSound job m sound _ (λ s o. o)
  Step-IsSound {m} signals sound = event-IsSound m true sound
  Step-IsSound {m} (marks_failed message job) sound =
      change_session-IsSound job m sound _ (λ s o. o)
  Step-IsSound {m} (begins job) sound = begin_wait-IsSound job m sound
  Step-IsSound {m} (ends job) sound = end_wait-IsSound job m sound
  Step-IsSound {m} (completes job) sound = complete_session-IsSound job m sound
  Step-IsSound {m} (fails job message) sound = fail_session-IsSound job m sound message
  Step-IsSound (moves y) sound = sound

  -- The tapes of each session are numbered by their positions, and its current tape is the last one,
  -- in every manager that starts with no session and is reached by calls of its methods in any order,
  -- with the parts of any number of calls of provide_next_tape among them in any order, and the waits
  -- in two halves. Of a call of add_tape no other thread is assumed to see the middle.
  pub Reach-IsSound : {m : Manager} {x : State} → Reach c m x → IsSound m
  Reach-IsSound (start x) = empty-IsSound
  Reach-IsSound (next r st) = Step-IsSound st (Reach-IsSound r)

  -- In every manager that is reached so a request for a tape change never fails for want of a current tape: it
  -- returns whether the job has a session.
  pub request_tape_change-returns :
      (now job : ℕ) {m : Manager} {x : State}
      → Reach c m x
      → (request_tape_change now job m).0
        ≡ returned (elim (get_session job m) [ none ↦ false | some s ↦ true ])
  unfolding request_tape_change
  request_tape_change-returns now job {m} r = elim (Option-cases (get_session job m)) [
    | inl e ↦ rw (e, request_tape_change) refl
    | inr (s, e) ↦
        let (t, current) = get_current_tape-some s.tape_sequence (Reach-IsSound r job s e) in
        rw (e, request_tape_change, current) refl
  ]
