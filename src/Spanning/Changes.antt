-- ===== src/Spanning/Changes.antt =====
-- What a call of `provide_next_tape` does, for any controller. The source holds no lock from the
-- test of the state to the end of the change; the theorems are about a call by itself.
use fossilsafe_t.Prelude.{
  ℕ, String, ◌≡◌, refl, ◌≢◌, ◌⊎◌, inl, inr, true, false, none, some, [], ◌∷◌, ◌++◌, arith,
  if◌then◌else◌, Bool-cases, Option-cases, length, ◌==◌, nat_eq, string_eq,
}
use fossilsafe_t.Prelude.Dict.{lookup-insert, lookup-insert_self, lookup-insert_ne}
use fossilsafe_t.Spanning.Changer.{Changer, Outcome, done, raised}
use fossilsafe_t.Spanning.Sequence.{
  running, tape_change_in_progress, TapeInfo, add_tape, get_current_tape, SpanningSession,
  get_current_tape-add_tape,
}
use fossilsafe_t.Spanning.Manager.{
  Manager, get_session, write_session, provide_next_tape, after_load, after_unload, changed, fail,
  is_waiting,
}

pub get_session-write :
    (j k : ℕ) (s : SpanningSession) (m : Manager)
    → get_session k (write_session j s m) ≡ (if j == k then some s else get_session k m)
unfolding get_session write_session
get_session-write j k s m = lookup-insert j k s m.sessions

-- The session whose change has begun.
abbrev pub begun : SpanningSession → SpanningSession
begun s = record s { state = tape_change_in_progress }

module _ (c : Changer) where
  open c use {State, unload, load, loaded, loaded-load}

  -- The session of the job runs; its tapes are the old ones and after them the new tape, numbered by
  -- its position, which is the current one and in the drive; the waiting thread is signalled.
  pub record IsChanged (job : ℕ) (barcode : String) (old : SpanningSession) (m : Manager)
      (x : State) : Type 0 where
    pub session : SpanningSession
    pub found : get_session job m ≡ some session
    pub runs : session.state ≡ running
    pub tape : TapeInfo
    pub appended : session.tape_sequence.tapes ≡ old.tape_sequence.tapes ++ tape ∷ []
    pub numbered : tape.index ≡ length old.tape_sequence.tapes
    pub current : get_current_tape session.tape_sequence ≡ some tape
    pub named : tape.barcode ≡ barcode
    pub in_drive : loaded x ≡ some barcode
    pub signalled : m.event ≡ true

  pub provide_waiting :
      (job : ℕ) (barcode : String) (m : Manager) (x : State) {s : SpanningSession}
      → get_session job m ≡ some s
      → is_waiting s.state ≡ true
      → provide_next_tape c job barcode m x ≡ after_unload c job barcode (begun s) m (unload x)
  unfolding provide_next_tape
  provide_waiting job barcode m x known waits = rw (known, provide_next_tape, waits) refl

  pub provide_other :
      (job : ℕ) (barcode : String) (m : Manager) (x : State)
      → ((s : SpanningSession) → get_session job m ≡ some s → is_waiting s.state ≡ false)
      → provide_next_tape c job barcode m x ≡ (false, m, x)
  unfolding provide_next_tape
  provide_other job barcode m x busy = elim (Option-cases (get_session job m)) [
    | inl unknown ↦ rw (unknown, provide_next_tape) refl
    | inr (s, known) ↦ rw (known, provide_next_tape, busy s known) refl
  ]

  after_load-IsChanged :
      (job : ℕ) (barcode : String) (s : SpanningSession) (m : Manager) (r : Outcome × State)
      → (r.0 ≡ done → loaded r.1 ≡ some barcode)
      → (after_load c job barcode (begun s) m r).0 ≡ true
      → IsChanged job barcode s
          (after_load c job barcode (begun s) m r).1
          (after_load c job barcode (begun s) m r).2
  unfolding get_session write_session add_tape
  after_load-IsChanged job barcode s m (done, x) inside e = record {
    session = changed barcode (begun s);
    found = lookup-insert_self job (changed barcode (begun s)) m.sessions;
    runs = refl;
    appended = refl;
    numbered = refl;
    tape = record { barcode = barcode; index = length s.tape_sequence.tapes; start_file = none };
    current = get_current_tape-add_tape barcode none s.tape_sequence;
    named = refl;
    in_drive = inside refl;
    signalled = refl;
  }
  after_load-IsChanged job barcode s m (raised message, x) inside e = absurd (cc)

  after_unload-IsChanged :
      (job : ℕ) (barcode : String) (s : SpanningSession) (m : Manager) (r : Outcome × State)
      → (after_unload c job barcode (begun s) m r).0 ≡ true
      → IsChanged job barcode s
          (after_unload c job barcode (begun s) m r).1
          (after_unload c job barcode (begun s) m r).2
  after_unload-IsChanged job barcode s m (done, x) e =
      after_load-IsChanged job barcode s m (load barcode x) (loaded-load barcode x) e
  after_unload-IsChanged job barcode s m (raised message, x) e = absurd (cc)

  -- A call of provide_next_tape that returns true had a session of the job that waited for a tape.
  -- If no other thread runs in between, it leaves the session running, with the tape appended to its
  -- tapes as the last one, under its position and as the current one; the tape is in the drive, as the
  -- controller's load is assumed to put it there; and the waiting thread is signalled.
  pub provide_next_tape-IsChanged :
      (job : ℕ) (barcode : String) (m : Manager) (x : State)
      → (provide_next_tape c job barcode m x).0 ≡ true
      → (s : SpanningSession) × (get_session job m ≡ some s)
        × (is_waiting s.state ≡ true)
        × (let (_, m', x') = provide_next_tape c job barcode m x in IsChanged job barcode s m' x')
  provide_next_tape-IsChanged job barcode m x e = elim (Option-cases (get_session job m)) [
    | inl unknown ↦ cc (provide_other job barcode m x (λ s p. cc), e)
    | inr (s, known) ↦ elim (Bool-cases (is_waiting s.state)) [
      | inl waits ↦ (
        s,
        known,
        waits,
        let eq = provide_waiting job barcode m x known waits in
            rw eq (after_unload-IsChanged job barcode s m (unload x) (rw eq at e)),
      )
      | inr busy ↦ cc (provide_other job barcode m x (λ t p. ground (arith, known, busy)), e)
    ]
  ]

  after_unload-refused :
      (job : ℕ) (barcode : String) (s : SpanningSession) (m : Manager) (r : Outcome × State)
      → (after_unload c job barcode (begun s) m r).0 ≡ false
      → (message : String) × ((after_unload c job barcode (begun s) m r).1
          ≡ write_session job (fail message (begun s)) m)
  after_unload-refused job barcode s m (raised message, x) e = (message, refl)
  after_unload-refused job barcode s m (done, x) e = after_load-refused (load barcode x) e
    where
      after_load-refused :
          (r : Outcome × State)
          → (after_load c job barcode (begun s) m r).0 ≡ false
          → (message : String) × ((after_load c job barcode (begun s) m r).1
              ≡ write_session job (fail message (begun s)) m)
      after_load-refused (raised message, y) f = (message, refl)
      after_load-refused (done, y) f = absurd (cc)

  -- A call of provide_next_tape that returns false, with no other thread in between, either found no
  -- session of the job that waited for a tape, and then leaves everything as it was; or it found one,
  -- and then marks that session, with the change begun, as failed with a message and changes no
  -- other session and not the event.
  pub provide_next_tape-refused :
      (job : ℕ) (barcode : String) (m : Manager) (x : State)
      → (provide_next_tape c job barcode m x).0 ≡ false
      → (((s : SpanningSession) → get_session job m ≡ some s → is_waiting s.state ≡ false)
          × (provide_next_tape c job barcode m x ≡ (false, m, x)))
        ⊎ ((s : SpanningSession) × (get_session job m ≡ some s)
            × (is_waiting s.state ≡ true)
            × (message : String) × ((provide_next_tape c job barcode m x).1
                ≡ write_session job (fail message (begun s)) m))
  provide_next_tape-refused job barcode m x e = elim (Option-cases (get_session job m)) [
    | inl unknown ↦
        let idle : (s : SpanningSession) → get_session job m ≡ some s → is_waiting s.state ≡ false =
          λ s p. cc in
        inl (idle, provide_other job barcode m x idle)
    | inr (s, known) ↦ elim (Bool-cases (is_waiting s.state)) [
      | inl waits ↦
          let eq = provide_waiting job barcode m x known waits in
          let (message, same) = after_unload-refused job barcode s m (unload x) (rw eq at e) in
          inr (s, known, waits, message, rw eq same)
      | inr busy ↦
          let idle : (t : SpanningSession)
              → get_session job m ≡ some t
              → is_waiting t.state ≡ false =
            λ t p. ground (arith, known, busy) in
          inl (idle, provide_other job barcode m x idle)
    ]
  ]

  after_load-others :
      (job k : ℕ) (barcode : String) (s : SpanningSession) (m : Manager) (r : Outcome × State)
      → job ≢ k
      → get_session k (after_load c job barcode s m r).1 ≡ get_session k m
  unfolding get_session write_session
  after_load-others job k barcode s m (done, x) ne =
      lookup-insert_ne job k (changed barcode s) m.sessions ne
  after_load-others job k barcode s m (raised message, x) ne =
      lookup-insert_ne job k (fail message s) m.sessions ne

  after_unload-others :
      (job k : ℕ) (barcode : String) (s : SpanningSession) (m : Manager) (r : Outcome × State)
      → job ≢ k
      → get_session k (after_unload c job barcode s m r).1 ≡ get_session k m
  unfolding get_session write_session
  after_unload-others job k barcode s m (done, x) ne =
      after_load-others job k barcode s m (load barcode x) ne
  after_unload-others job k barcode s m (raised message, x) ne =
      lookup-insert_ne job k (fail message s) m.sessions ne

  pub provide_next_tape-others :
      (job k : ℕ) (barcode : String) (m : Manager) (x : State)
      → job ≢ k
      → get_session k (provide_next_tape c job barcode m x).1 ≡ get_session k m
  unfolding provide_next_tape
  provide_next_tape-others job k barcode m x ne = elim (Option-cases (get_session job m)) [
    | inl unknown ↦ rw (unknown, provide_next_tape) refl
    | inr (s, known) ↦
        rw (known, provide_next_tape)
          (ground (arith, after_unload-others job k barcode (begun s) m (unload x) ne))
  ]
