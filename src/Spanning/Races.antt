-- ===== src/Spanning/Races.antt =====
-- How the backup thread's wait and the provided tape can meet. There is one event for the whole
-- manager, and `wait_for_tape` clears it first.
use fossilsafe_t.Prelude.{
  ℕ, String, ◌≡◌, refl, ap, ◌∙◌, ◌≢◌, Bool, true, false, none, some, arith, nat_eq, string_eq,
}
use fossilsafe_t.Spanning.Changer.{Changer}
use fossilsafe_t.Spanning.Sequence.{SpanningState, waiting_for_tape, failed, SpanningSession}
use fossilsafe_t.Spanning.Manager.{
  Manager, get_session, write_session, provide_next_tape, is_running, fail,
}
use fossilsafe_t.Spanning.Wait.{begin_wait, end_wait}
use fossilsafe_t.Spanning.Changes.{
  provide_next_tape-IsChanged, provide_next_tape-others, get_session-write,
}

pub end_wait-unknown :
    (job : ℕ) (m : Manager) → get_session job m ≡ none → end_wait job m ≡ (false, m)
unfolding end_wait
end_wait-unknown job m e = ground arith

pub end_wait-signalled :
    (job : ℕ) (m : Manager) {s : SpanningSession}
    → get_session job m ≡ some s
    → m.event ≡ true
    → end_wait job m ≡ (is_running s.state, m)
unfolding end_wait
end_wait-signalled job m known set = ground arith

begin_wait-known :
    (job : ℕ) (m : Manager) {s : SpanningSession}
    → get_session job m ≡ some s
    → begin_wait job m ≡ (none, record m { event = false })
unfolding begin_wait
begin_wait-known job m known = ground arith

get_session-event :
    (job : ℕ) (m : Manager) (b : Bool)
    → get_session job (record m { event = b }) ≡ get_session job m
unfolding get_session
get_session-event job m b = refl

pub end_wait-timeout :
    (job : ℕ) (m : Manager) {s : SpanningSession}
    → get_session job m ≡ some s
    → m.event ≡ false
    → end_wait job m ≡ (false, write_session job (fail "Tape change timeout" s) m)
unfolding end_wait
end_wait-timeout job m known unset = ground arith

module _ (c : Changer) where
  open c use {State}

  -- A tape that is provided with success during the wait: the wait succeeds and changes nothing.
  pub provide_during_wait :
      (job : ℕ) (barcode : String) (m : Manager) (x : State)
      → (provide_next_tape c job barcode (begin_wait job m).1 x).0 ≡ true
      → let m' = (provide_next_tape c job barcode (begin_wait job m).1 x).1 in
        end_wait job m' ≡ (true, m')
  provide_during_wait job barcode m x e =
      let (s, known, waits, r) =
        provide_next_tape-IsChanged c job barcode (begin_wait job m).1 x e in
      end_wait-signalled job _ r.found r.signalled
      ∙ ap
          (λ (st : SpanningState).
            (is_running st, (provide_next_tape c job barcode (begin_wait job m).1 x).1))
          r.runs

  -- A call of provide_next_tape returns true, and then wait_for_tape begins, with no other call
  -- between them or during the wait: the wait clears the signal, so that it ends only by its timeout,
  -- and then it returns false and marks the session, which had its tape, as failed with that error.
  pub provide_before_wait :
      (job : ℕ) (barcode : String) (m : Manager) (x : State)
      → (provide_next_tape c job barcode m x).0 ≡ true
      → let m' = (provide_next_tape c job barcode m x).1 in
        let m'' = (begin_wait job m').1 in
        ((begin_wait job m').0 ≡ none)
        × ((end_wait job m'').0 ≡ false)
        × ((s : SpanningSession) × (get_session job (end_wait job m'').1 ≡ some s)
            × (s.state ≡ failed)
            × (s.error ≡ some "Tape change timeout"))
  provide_before_wait job barcode m x e =
      let (s, known, waits, r) = provide_next_tape-IsChanged c job barcode m x e in
      let m' : Manager = (provide_next_tape c job barcode m x).1 in
      let cleared : Manager = record m' { event = false } in
      let late = end_wait-timeout job cleared (get_session-event job m' false ∙ r.found) refl in
      rw (begin_wait-known job m' r.found) (
        refl,
        ap (λ (p : Bool × Manager). p.0) late,
        (
          fail "Tape change timeout" r.session,
          rw (late, get_session-write job job) (ground arith),
          refl,
          refl,
        ),
      )

  -- While two jobs wait, a tape for the one ends the wait of the other, which reports failure
  -- although its session still waits for its tape.
  pub provide_wakes_other :
      (job other : ℕ) (barcode : String) (m : Manager) (x : State) {s : SpanningSession}
      → job ≢ other
      → get_session other m ≡ some s
      → s.state ≡ waiting_for_tape
      → (provide_next_tape c job barcode m x).0 ≡ true
      → let m' = (provide_next_tape c job barcode m x).1 in
        (end_wait other m' ≡ (false, m')) × (get_session other m' ≡ some s)
  provide_wakes_other job other barcode m x {s} ne known waits e =
      let (_, _, _, r) = provide_next_tape-IsChanged c job barcode m x e in
      let same = provide_next_tape-others c job other barcode m x ne ∙ known in
      (
        end_wait-signalled other _ same r.signalled
            ∙ ap (λ (st : SpanningState). (is_running st, (provide_next_tape c job barcode m x).1))
                waits,
        same,
      )
