-- ===== src/Vtl/State.antt =====
-- The state of `VirtualTapeController`, and its file `state.json`.
use fossilsafe_t.Prelude.{
  ℕ, String, Bool, false, Option, none, some, List, [], ◌∷◌, if◌then◌else◌, nat_eq, string_eq,
  is_text,
}
use fossilsafe_t.Prelude.Dict.{Dict, lookup, insert}

-- A value of `vtl_state['tapes']`.
pub record Tape : Type 0 where
  pub formatted : Bool
  pub label : String

pub record VtlState : Type 0 where
  pub slots : Dict ℕ (Option String)
  pub drives : Dict ℕ (Option String)
  pub tapes : Dict String Tape

-- `saved` is the content of `state.json`, `tape_dirs` the tapes with a directory under
-- `tape_dir`, and `mounts` the drives whose mount point is a link, with the tape that it leads to.
pub record Vtl : Type 0 where
  pub num_drives : ℕ
  pub num_slots : ℕ
  pub drive_only_mode : Bool
  pub vtl_state : VtlState
  pub open vtl_state use *
  pub saved : Option VtlState
  pub tape_dirs : List String
  pub mounts : Dict ℕ String
  pub mounted_tapes : Dict ℕ String

pub data VtlError : Type 0 where
  drive_not_empty not_in_slots no_free_slots no_tape key_error not_loaded not_formatted : VtlError
  in_other_drive : ℕ → VtlError

pub data Result (A : Type 0) : Type 0 where
  ok : A → Result A
  err : VtlError → Result A

-- `_save_state`
unfoldable pub save_state : Vtl → Vtl
save_state v = record v { saved = some v.vtl_state }

-- `d.get(str(i))`, where a key may hold `None`.
unfoldable pub get : ℕ → Dict ℕ (Option String) → Option String
get i d = elim (lookup i d) [ none ↦ none | some held ↦ held ]

-- `self.vtl_state['drives'][str(drive)] = held`, and the same for a slot.
unfoldable pub set_drive : ℕ → Option String → Vtl → Vtl
set_drive drive held v = record v {
  vtl_state = record v.vtl_state { drives = insert drive held v.drives };
}

unfoldable pub set_slot : ℕ → Option String → Vtl → Vtl
set_slot slot held v = record v {
  vtl_state = record v.vtl_state { slots = insert slot held v.slots };
}

-- The first key that holds the tape, in the order of `items()`.
unfoldable pub find_holder : String → Dict ℕ (Option String) → Option ℕ
find_holder barcode [] = none
find_holder barcode ((i, held) ∷ d) = if is_text held barcode then some i else find_holder barcode d

abbrev blank : Tape
blank = record { formatted = false; label = "" }

-- `_init_default_state`
abbrev pub default_state : VtlState
default_state = record {
  slots =
      (1, some "VTL001L8")
      ∷ (2, some "VTL002L8")
      ∷ (3, some "VTL003L8")
      ∷ (4, some "VTL004L8")
      ∷ (5, some "VTL005L8")
      ∷ [];
  drives = [];
  tapes =
      ("VTL001L8", blank)
      ∷ ("VTL002L8", blank)
      ∷ ("VTL003L8", blank)
      ∷ ("VTL004L8", blank)
      ∷ ("VTL005L8", blank)
      ∷ [];
}

-- `_load_state`: the saved state, or the default where the file is missing or cannot be read.
unfoldable pub load_state : Vtl → Vtl
unfolding save_state
load_state v = elim v.saved [
  | some state ↦ record v { vtl_state = state }
  | none ↦ save_state (record v { vtl_state = default_state })
]
