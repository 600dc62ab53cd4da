-- ===== src/Spanning/VtlChanger.antt =====
-- The virtual tape library as the controller of the spanning manager, with its first drive.
use fossilsafe_t.Prelude.{String, ◌≡◌, refl, Bool, none, some, nat_eq, string_eq}
use fossilsafe_t.Vtl.State.{Vtl, VtlError, Result, ok, err, get}
use fossilsafe_t.Vtl.Inventory.{load_tape, unload_tape}
use fossilsafe_t.Vtl.Conservation.{IsWellFormed, load_tape-IsWellFormed, unload_tape-IsWellFormed}
use fossilsafe_t.Vtl.Mounts.{load_tape-get}
use fossilsafe_t.Spanning.Changer.{Changer, Outcome, done, raised}

-- `message` is `str(e)`.
abbrev pub outcome : (VtlError → String) → Result Bool → Outcome
outcome message (ok _) = done
outcome message (err e) = raised (message e)

outcome-done :
    (message : VtlError → String) (r : Result Bool)
    → outcome message r ≡ done
    → (b : Bool) × (r ≡ ok b)
outcome-done message (ok b) e = (b, refl)
outcome-done message (err x) e = cc

unfoldable pub load_first :
    (VtlError → String)
    → String
    → (v : Vtl) × IsWellFormed v
    → Outcome × ((v : Vtl) × IsWellFormed v)
load_first message barcode (v, w) = (
  outcome message (load_tape barcode 0 v).0,
  ((load_tape barcode 0 v).1, load_tape-IsWellFormed barcode 0 v w),
)

unfoldable pub unload_first :
    (VtlError → String) → (v : Vtl) × IsWellFormed v → Outcome × ((v : Vtl) × IsWellFormed v)
unload_first message (v, w) = (
  outcome message (unload_tape 0 none v).0,
  ((unload_tape 0 none v).1, unload_tape-IsWellFormed 0 none v w),
)

pub loaded-load_first :
    (message : VtlError → String) (barcode : String) (x : (v : Vtl) × IsWellFormed v)
    → (load_first message barcode x).0 ≡ done
    → get 0 (load_first message barcode x).1.0.drives ≡ some barcode
unfolding load_first
loaded-load_first message barcode (v, w) e =
    let (b, returned) = outcome-done message (load_tape barcode 0 v).0 e in
    load_tape-get barcode 0 v w.drives returned

abbrev pub vtl_changer : (VtlError → String) → Changer
vtl_changer message = record {
  State = (v : Vtl) × IsWellFormed v;
  unload = unload_first message;
  load = load_first message;
  loaded = λ x. get 0 x.0.drives;
  loaded-load = loaded-load_first message;
}
