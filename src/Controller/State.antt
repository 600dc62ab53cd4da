-- ===== src/Controller/State.antt =====
-- What the controller remembers: mounted tapes, home slots, and the state of the library.
use fossilsafe_t.Prelude.{
  ℕ, ◌+◌, ◌-◌, String, Bool, true, false, not, ◌&&◌, Option, none, some, List, [], ◌∷◌, ◌++◌, ltb,
  leb, if◌then◌else◌, length, drop, ◌==◌, nat_eq, string_eq, is_text, text_truth, truth,
}
use fossilsafe_t.Prelude.Dict.{Dict, lookup, insert, remove}
use fossilsafe_t.Controller.Hardware.{Line}

pub data LibraryState : Type 0 where
  online : LibraryState
  offline : LibraryState
  degraded : LibraryState
  busy : LibraryState

pub record Settings : Type 0 where
  pub drive_number : ℕ
  pub status_cache_ttl : ℕ
  pub offline_threshold : ℕ
  pub offline_window : ℕ
  pub state_debounce : ℕ

-- The slot that a drive's tape came from, with its barcode.
pub record Home : Type 0 where
  pub slot : ℕ
  pub barcode : Option String

pub record Controller : Type 0 where
  pub settings : Settings
  pub drive_only_mode : Bool
  pub mounted_tape : Option String
  pub mounted_tapes : Dict ℕ (Option String)
  pub manual_tape_barcode : Option String
  pub home_slots : Dict ℕ Home
  pub busy_operations : ℕ
  pub base_library_state : LibraryState
  pub debounced_state : LibraryState
  pub state_changed_at : ℕ
  pub probe_failures : ℕ
  pub probe_failure_timestamps : List ℕ
  pub mtx_status_cache : Option (ℕ × List Line)

unfoldable pub set_mounted_tape : ℕ → Option String → Controller → Controller
set_mounted_tape drive barcode c = record c {
  mounted_tapes = insert drive barcode c.mounted_tapes;
  mounted_tape = if drive == 0 then barcode else c.mounted_tape;
}

abbrev pub or_nothing : Option (Option String) → Option String
or_nothing none = none
or_nothing (some b) = b

unfoldable pub mounted_in_dict : ℕ → Controller → Option String
mounted_in_dict drive c = or_nothing (lookup drive c.mounted_tapes)

-- `drive == 0 and self.mounted_tape is not None` decides for the first.
abbrev pub first_or : Bool → Option String → Option String → Option String
first_or true (some b) other = some b
first_or true none other = other
first_or false tape other = other

unfoldable pub get_mounted_tape : ℕ → Controller → Option String
unfolding mounted_in_dict
get_mounted_tape drive c = first_or (drive == 0) c.mounted_tape (mounted_in_dict drive c)

unfoldable pub set_manual_tape : String → Controller → Controller
unfolding set_mounted_tape
set_manual_tape barcode c =
    set_mounted_tape 0 (some barcode) (record c { manual_tape_barcode = some barcode })

unfoldable pub remember_home_slot : ℕ → ℕ → Option String → Controller → Controller
remember_home_slot drive slot barcode c = record c {
  home_slots = insert drive (record { slot = slot; barcode = barcode }) c.home_slots;
}

unfoldable pub clear_home_slot : ℕ → Controller → Controller
clear_home_slot drive c = record c { home_slots = remove drive c.home_slots }

-- `barcode and entry.get("barcode") and entry.get("barcode") != barcode`
unfoldable pub is_other_tape : Option String → Option String → Bool
is_other_tape none known = false
is_other_tape (some b) known = text_truth b && truth known && not (is_text known b)

abbrev pub home_for : Option String → Option Home → Option ℕ
home_for barcode none = none
home_for barcode (some home) = if is_other_tape barcode home.barcode then none else some home.slot

unfoldable pub get_home_slot : ℕ → Option String → Controller → Option ℕ
unfolding is_other_tape
get_home_slot drive barcode c = home_for barcode (lookup drive c.home_slots)

abbrev pub same_state : LibraryState → LibraryState → Bool
same_state online online = true
same_state offline offline = true
same_state degraded degraded = true
same_state busy busy = true
same_state _ _ = false

unfoldable pub update_debounced_state : ℕ → Controller → Controller
update_debounced_state now c =
    if same_state c.debounced_state c.base_library_state
    then c
    else if ltb (now - c.state_changed_at) c.settings.state_debounce
    then c
    else record c { debounced_state = c.base_library_state; state_changed_at = now }

unfoldable pub set_base_state : ℕ → LibraryState → Controller → Controller
unfolding update_debounced_state
set_base_state now state c = update_debounced_state now (record c { base_library_state = state })

unfoldable pub enter_busy : Controller → Controller
enter_busy c = record c { busy_operations = c.busy_operations + 1 }

unfoldable pub exit_busy : ℕ → Bool → Controller → Controller
unfolding set_base_state
exit_busy now success c =
    set_base_state now (if success then online else degraded)
      (record c { busy_operations = c.busy_operations - 1 })

unfoldable pub get_library_state : Controller → LibraryState
get_library_state c =
    if same_state c.debounced_state offline
    then offline
    else if ltb 0 c.busy_operations
    then busy
    else c.debounced_state

unfoldable pub record_probe_success : ℕ → Controller → Controller
unfolding set_base_state
record_probe_success now c =
    set_base_state now online (record c { probe_failures = 0; probe_failure_timestamps = [] })

-- The loop that drops the failures before the window from the left.
unfoldable pub drop_old : ℕ → ℕ → List ℕ → List ℕ
drop_old window now [] = []
drop_old window now (t ∷ ts) =
    let rest = drop_old window now ts in if ltb window (now - t) then rest else t ∷ ts

-- The deque holds at most 20 failures: an append to a full one drops the oldest.
unfoldable pub remember_failure : ℕ → List ℕ → List ℕ
remember_failure now times =
    if ltb (length times) 20 then times ++ now ∷ [] else drop 1 times ++ now ∷ []

unfoldable pub note_failure : ℕ → Controller → Controller
unfolding drop_old remember_failure
note_failure now c = record c {
  probe_failures = c.probe_failures + 1;
  probe_failure_timestamps =
      drop_old c.settings.offline_window now (remember_failure now c.probe_failure_timestamps);
}

abbrev pub failure_state : Settings → List ℕ → LibraryState
failure_state settings times =
    if leb settings.offline_threshold (length times) then offline else degraded

unfoldable pub record_probe_failure : ℕ → Controller → Controller
unfolding set_base_state note_failure
record_probe_failure now c =
    set_base_state now (failure_state c.settings (note_failure now c).probe_failure_timestamps)
      (note_failure now c)
