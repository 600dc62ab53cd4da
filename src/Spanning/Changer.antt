-- ===== src/Spanning/Changer.antt =====
-- What the spanning manager asks of a tape controller: `unload_tape()` and `load_tape(barcode)`,
-- each of which may raise.
use fossilsafe_t.Prelude.{String, ◌≡◌, Option, some}

pub data Outcome : Type 0 where
  done : Outcome
  raised : String → Outcome

-- `loaded` is the tape in the drive.
pub record Changer : Type 1 where
  pub State : Type 0
  pub unload : State → Outcome × State
  pub load : String → State → Outcome × State
  pub loaded : State → Option String
  pub loaded-load : (b : String) (s : State) → (load b s).0 ≡ done → loaded (load b s).1 ≡ some b
