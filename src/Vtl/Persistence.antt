-- ===== src/Vtl/Persistence.antt =====
-- The file `state.json` always holds the inventory that the controller works with.
use fossilsafe_t.Prelude.{
  ℕ, zero, suc, String, ◌≡◌, none, some, List, [], ◌∷◌, arith, nat_eq, string_eq,
}
use fossilsafe_t.Vtl.State.{Vtl, load_state}
use fossilsafe_t.Vtl.Inventory.{load_tape}
use fossilsafe_t.Vtl.Media.{Call, load, unload, format, mount, unmount, call, run}

abbrev pub IsSaved : Vtl → Type 0
IsSaved v = v.saved ≡ some v.vtl_state

load_tape-IsSaved :
    (barcode : String) (drive : ℕ) (v : Vtl) → IsSaved v → IsSaved (load_tape barcode drive v).1
unfolding load_tape
load_tape-IsSaved barcode drive v h = ground arith

pub call-IsSaved : (c : Call) (v : Vtl) → IsSaved v → IsSaved (call c v)
unfolding call
call-IsSaved (load barcode drive) v h = load_tape-IsSaved barcode drive v h
call-IsSaved (unload drive none) v h = ground arith
call-IsSaved (unload drive (some zero)) v h = ground arith
call-IsSaved (unload drive (some (suc slot))) v h = ground arith
call-IsSaved (format drive label) v h = ground arith
call-IsSaved (mount barcode drive) v h = ground (arith, load_tape-IsSaved barcode drive v h)
call-IsSaved (unmount drive) v h = ground arith

run-IsSaved : (cs : List Call) (v : Vtl) → IsSaved v → IsSaved (run cs v)
unfolding run
run-IsSaved [] v h = h
run-IsSaved (c ∷ cs) v h = run-IsSaved cs (call c v) (call-IsSaved c v h)

load_state-IsSaved : (v : Vtl) → IsSaved (load_state v)
unfolding load_state
load_state-IsSaved v = ground arith

load_state-eq : (v : Vtl) → IsSaved v → (load_state v).vtl_state ≡ v.vtl_state
unfolding load_state
load_state-eq v h = ground arith

-- After the start of the controller and any history of calls, failed ones included, a controller
-- that starts on the same disk reads back the inventory that was left.
pub load_state-run :
    (cs : List Call) (v : Vtl)
    → (load_state (run cs (load_state v))).vtl_state ≡ (run cs (load_state v)).vtl_state
load_state-run cs v = load_state-eq _ (run-IsSaved cs (load_state v) (load_state-IsSaved v))
