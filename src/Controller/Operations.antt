-- ===== src/Controller/Operations.antt =====
-- The operations of the controller that move tapes, and sequences of them.
use fossilsafe_t.Prelude.{ℕ, String, Bool, true, Option, List, [], ◌∷◌, nat_eq, string_eq}
use fossilsafe_t.Controller.Hardware.{Hardware}
use fossilsafe_t.Controller.Action.{Action, ◌>>=◌, pure}
use fossilsafe_t.Controller.Commands.{System}
use fossilsafe_t.Controller.Moves.{unload_tape}
use fossilsafe_t.Controller.Loads.{load_tape, clean_drive}
use fossilsafe_t.Controller.Force.{Location, force_unload_tape, move_tape, safe_shutdown_cleanup}

pub data Operation : Type 0 where
  load : String → ℕ → Operation
  unload : ℕ → Option ℕ → Operation
  force : ℕ → Option ℕ → Operation
  move : Location → Location → Option String → Operation
  clean : (String → Bool) → Option String → ℕ → Operation
  shutdown : List ℕ → Operation

module _ (hw : Hardware) where
  unfoldable pub perform : Operation → Action (System hw) Bool
  perform (load barcode d) = load_tape hw barcode d
  perform (unload d dest) = unload_tape hw d dest
  perform (force d dest) = force_unload_tape hw d dest
  perform (move source destination barcode) = move_tape hw source destination barcode
  perform (clean is_cleaning barcode d) = clean_drive hw is_cleaning barcode d
  perform (shutdown drives) = safe_shutdown_cleanup hw drives >>= λ _. pure true

  -- One operation after another: one that raises leaves what it did, and the next one follows.
  unfoldable pub perform_all : List Operation → System hw → System hw
  unfolding perform
  perform_all [] s = s
  perform_all (o ∷ operations) s = perform_all operations (perform o s).1
