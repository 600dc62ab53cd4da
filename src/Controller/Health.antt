-- ===== src/Controller/Health.antt =====
-- The count of busy operations.
use fossilsafe_t.Prelude.{String, ◌≡◌, refl, Option, List, [], ◌∷◌, All, nat_eq, string_eq}
use fossilsafe_t.Controller.Hardware.{Hardware}
use fossilsafe_t.Controller.Commands.{System}
use fossilsafe_t.Controller.Operations.{
  Operation, load, unload, force, move, clean, shutdown, perform_all,
}
use fossilsafe_t.Controller.Force.{Location, slot, drive, mailslot}
use fossilsafe_t.Controller.Keeps.Operations.{Allowed, MayMove, perform_all-keeps}
use fossilsafe_t.Controller.Mounted.{busy-Kept}

allowed_move : (a b : Location) (t : Option String) → MayMove (λ d x. Unit {0}) a b t
allowed_move (slot a) (drive b) t = tt
allowed_move (drive a) (slot b) t = tt
allowed_move (slot a) (slot b) t = tt
allowed_move (slot a) (mailslot b) t = tt
allowed_move (drive a) (drive b) t = tt
allowed_move (drive a) (mailslot b) t = tt
allowed_move (mailslot a) b t = tt

allowed : (o : Operation) → Allowed (λ d x. Unit) o
allowed (load b d) = (tt, tt)
allowed (unload d o) = tt
allowed (force d o) = tt
allowed (move a b t) = allowed_move a b t
allowed (clean f t d) = λ x. tt
allowed (shutdown drives) = λ d. tt

All-allowed : (operations : List Operation) → All (Allowed λ d x. Unit) operations
All-allowed [] = tt
All-allowed (o ∷ operations) = (allowed o, All-allowed operations)

-- Whatever the hardware does and whichever operations raise, a sequence of operations ends with as
-- many busy operations as it began with.
pub perform_all-busy :
    (hw : Hardware) (operations : List Operation) (s : System hw)
    → (perform_all hw operations s).controller.busy_operations ≡ s.controller.busy_operations
perform_all-busy hw operations s =
    perform_all-keeps busy-Kept hw s.controller.busy_operations operations s
      (All-allowed operations) refl
