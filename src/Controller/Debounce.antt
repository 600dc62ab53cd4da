-- ===== src/Controller/Debounce.antt =====
-- The debounce of the library's state.
use fossilsafe_t.Prelude.{
  ℕ, ◌-◌, ◌≤◌, ◌≡◌, refl, sym, subst, ◌≢◌, ◌⊎◌, inl, inr, Bool, true, false, List, [], ◌∷◌, arith,
  ltb, if◌then◌else◌, nat_eq, string_eq,
}
use fossilsafe_t.Controller.State.{
  LibraryState, online, offline, degraded, busy, same_state, Controller, update_debounced_state,
  set_base_state,
}
use fossilsafe_t.Controller.Mounted.{if-cases, set_base_state-leaves}

-- The times at which the debounced state changes.
unfoldable pub changes : List (ℕ × LibraryState) → Controller → List ℕ
changes [] c = []
changes ((now, state) ∷ events) c =
    let next = set_base_state now state c in
    let rest = changes events next in
    if same_state c.debounced_state next.debounced_state then rest else now ∷ rest

abbrev pub IsSpaced : ℕ → ℕ → List ℕ → Type 0
IsSpaced gap last [] = Unit
IsSpaced gap last (t ∷ times) = gap ≤ t - last × IsSpaced gap t times

same_state_refl : (x : LibraryState) → same_state x x ≡ true
same_state_refl online = refl
same_state_refl offline = refl
same_state_refl degraded = refl
same_state_refl busy = refl

-- `x` is the controller before a change of state to `y`.
abbrev KeptOrChanged : ℕ → Controller → Controller → Type 0
KeptOrChanged now x y =
    (same_state x.debounced_state y.debounced_state ≡ true
      × y.state_changed_at ≡ x.state_changed_at)
    ⊎ (same_state x.debounced_state y.debounced_state ≡ false
        × y.state_changed_at ≡ now
        × x.settings.state_debounce ≤ now - x.state_changed_at)

clash : true ≢ false
clash h = cc

update-cases :
    (now : ℕ) (state : LibraryState) (c : Controller)
    → KeptOrChanged now c (set_base_state now state c)
unfolding set_base_state update_debounced_state
update-cases now state c =
    if-cases (KeptOrChanged now c) (same_state c.debounced_state state) _ _
      (λ same. inl (same_state_refl c.debounced_state, refl))
      λ differ.
        if-cases (KeptOrChanged now c) (ltb (now - c.state_changed_at) c.settings.state_debounce) _
          _ (λ early. inl (same_state_refl c.debounced_state, refl))
          (λ late. inr (differ, refl, ground arith))

settings_kept :
    (now : ℕ) (state : LibraryState) (c : Controller)
    → (set_base_state now state c).settings ≡ c.settings
settings_kept now state c = set_base_state-leaves (λ x. x.settings) (λ x n y. refl) now state c refl

IsSpaced-next :
    (gap last now changed : ℕ) (same : Bool) (rest : List ℕ)
    → (same ≡ true × changed ≡ last) ⊎ (same ≡ false × changed ≡ now × gap ≤ now - last)
    → IsSpaced gap changed rest
    → IsSpaced gap last (if same then rest else now ∷ rest)
IsSpaced-next gap last now changed true rest (inl h) spaced =
    subst (λ x. IsSpaced gap x rest) h.1 spaced
IsSpaced-next gap last now changed true rest (inr h) spaced = elim (clash h.0) [ ]
IsSpaced-next gap last now changed false rest (inl h) spaced = elim (clash (sym h.0)) [ ]
IsSpaced-next gap last now changed false rest (inr h) spaced =
    (h.2, subst (λ x. IsSpaced gap x rest) h.1 spaced)

-- Whatever states are reported and whenever, two changes of the debounced state are at
-- least the debounce apart, and so is the first one from the change before it.
pub changes-IsSpaced :
    (events : List (ℕ × LibraryState)) (c : Controller)
    → IsSpaced c.settings.state_debounce c.state_changed_at (changes events c)
unfolding changes
changes-IsSpaced [] c = tt
changes-IsSpaced ((now, state) ∷ events) c =
    IsSpaced-next c.settings.state_debounce c.state_changed_at now
      (set_base_state now state c).state_changed_at _ (changes events (set_base_state now state c))
      (update-cases now state c)
      (subst
        (λ x.
          IsSpaced x.state_debounce (set_base_state now state c).state_changed_at
            (changes events (set_base_state now state c)))
        (settings_kept now state c) (changes-IsSpaced events (set_base_state now state c)))
