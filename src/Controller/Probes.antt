-- ===== src/Controller/Probes.antt =====
-- Failing probes, and the state that they lead to.
use fossilsafe_t.Prelude.{
  ℕ, ◌+◌, ◌-◌, ◌≤◌, ◌≡◌, refl, ap, ◌∙◌, true, false, List, [], ◌∷◌, ◌++◌, arith, ltb, leb,
  if◌then◌else◌, length, length-append, All, All-append, nat_eq, string_eq,
}
use fossilsafe_t.Controller.State.{
  online, offline, degraded, Controller, Settings, drop_old, remember_failure, note_failure,
  failure_state, record_probe_success, record_probe_failure,
}
use fossilsafe_t.Controller.Mounted.{set_base_state-leaves}

-- Probes that fail at the given times.
unfoldable pub fail_at : List ℕ → Controller → Controller
fail_at [] c = c
fail_at (t ∷ times) c = fail_at times (record_probe_failure t c)

-- A failure that lies in the span.
abbrev IsWithin : ℕ → ℕ → ℕ → Type 0
IsWithin start w t = start ≤ t × t ≤ start + w

drop_old-fresh :
    (start w now : ℕ) (times : List ℕ)
    → IsWithin start w now
    → All (IsWithin start w) times
    → drop_old w now times ≡ times
unfolding drop_old
drop_old-fresh start w now [] h all = refl
drop_old-fresh start w now (t ∷ times) h all =
    let fresh : ltb w (now - t) ≡ false = ground (arith, h.0, h.1, all.0.0, all.0.1) in
    rw fresh refl

remember-room :
    (now : ℕ) (times : List ℕ)
    → length times + 1 ≤ 20
    → remember_failure now times ≡ times ++ now ∷ []
unfolding remember_failure
remember-room now times h = let room : ltb (length times) 20 ≡ true = ground arith in rw room refl

-- One failure, where all that are remembered lie in the span.
times-in_span :
    (start w t : ℕ) (known : List ℕ)
    → IsWithin start w t
    → All (IsWithin start w) known
    → length known + 1 ≤ 20
    → drop_old w t (remember_failure t known) ≡ known ++ t ∷ []
times-in_span start w t known h all room =
    rw (remember-room t known room)
      (drop_old-fresh start w t (known ++ t ∷ []) h (All-append _ known (t ∷ []) all (h, tt)))

module _ (settings : Settings) (known : List ℕ) (start t : ℕ) (c : Controller)
    (es : c.settings ≡ settings) (ek : c.probe_failure_timestamps ≡ known)
    (h : IsWithin start settings.offline_window t)
    (all : All (IsWithin start settings.offline_window) known) (room : length known + 1 ≤ 20) where
  noted : (note_failure t c).probe_failure_timestamps ≡ known ++ t ∷ []
  unfolding note_failure
  noted =
      ap (λ x. drop_old x.offline_window t (remember_failure t c.probe_failure_timestamps)) es
      ∙ ap (λ x. drop_old settings.offline_window t (remember_failure t x)) ek
      ∙ times-in_span start settings.offline_window t known h all room

  times_after : (record_probe_failure t c).probe_failure_timestamps ≡ known ++ t ∷ []
  unfolding record_probe_failure
  times_after =
      set_base_state-leaves (λ x. x.probe_failure_timestamps) (λ x n y. refl) t
        (failure_state c.settings (note_failure t c).probe_failure_timestamps) (note_failure t c)
        noted

  base_after :
      (record_probe_failure t c).base_library_state ≡ failure_state settings (known ++ t ∷ [])
  unfolding record_probe_failure
  base_after =
      set_base_state-leaves (λ x. x.base_library_state) (λ x n y. refl) t
        (failure_state c.settings (note_failure t c).probe_failure_timestamps) (note_failure t c)
        (ap (λ x. failure_state x (note_failure t c).probe_failure_timestamps) es
          ∙ ap (failure_state settings) noted)

settings_after : (t : ℕ) (c : Controller) → (record_probe_failure t c).settings ≡ c.settings
unfolding record_probe_failure note_failure
settings_after t c =
    set_base_state-leaves (λ x. x.settings) (λ x n y. refl) t
      (failure_state c.settings (note_failure t c).probe_failure_timestamps) (note_failure t c) refl

append_assoc : (xs : List ℕ) (t : ℕ) (ys : List ℕ) → (xs ++ t ∷ []) ++ ys ≡ xs ++ t ∷ ys
append_assoc [] t ys = refl
append_assoc (x ∷ xs) t ys = ap (λ zs. x ∷ zs) (append_assoc xs t ys)

fails-state :
    (times : List ℕ) (start t : ℕ) (settings : Settings) (known : List ℕ) (c : Controller)
    → c.settings ≡ settings
    → c.probe_failure_timestamps ≡ known
    → All (IsWithin start settings.offline_window) known
    → All (IsWithin start settings.offline_window) (t ∷ times)
    → length known + length (t ∷ times) ≤ 20
    → (fail_at (t ∷ times) c).base_library_state ≡ failure_state settings (known ++ t ∷ times)
unfolding fail_at
fails-state [] start t settings known c es ek old new room =
    base_after settings known start t c es ek new.0 old room
fails-state (u ∷ times) start t settings known c es ek old new room =
    fails-state times start u settings (known ++ t ∷ []) (record_probe_failure t c)
      (settings_after t c ∙ es) (times_after settings known start t c es ek new.0 old (omega arith))
      (All-append _ known (t ∷ []) old (new.0, tt)) new.1
      (let len = length-append known (t ∷ []) in omega arith)
    ∙ ap (failure_state settings) (append_assoc known t (u ∷ times))

-- After a success, probes that fail within one window, twenty of them at most, make the library
-- offline once there are as many as the threshold, and degraded before.
pub fail_at-offline :
    (start now t : ℕ) (times : List ℕ) (c : Controller)
    → All (IsWithin start c.settings.offline_window) (t ∷ times)
    → length (t ∷ times) ≤ 20
    → (fail_at (t ∷ times) (record_probe_success now c)).base_library_state
      ≡ (if leb c.settings.offline_threshold (length (t ∷ times)) then offline else degraded)
unfolding record_probe_success
fail_at-offline start now t times c new room =
    fails-state times start t c.settings [] (record_probe_success now c)
      (set_base_state-leaves (λ x. x.settings) (λ x n y. refl) now online
        (record c { probe_failures = 0; probe_failure_timestamps = [] }) refl)
      (set_base_state-leaves (λ x. x.probe_failure_timestamps) (λ x n y. refl) now online
        (record c { probe_failures = 0; probe_failure_timestamps = [] }) refl)
      tt new (omega arith)
