-- ===== src/Spanning/Sequence.antt =====
-- `SpanningState`, `TapeSequence` and `SpanningSession`.
use fossilsafe_t.Prelude.{
  ℕ, zero, suc, ◌+◌, ◌-◌, ◌<◌, String, ◌≡◌, refl, ap, ◌∙◌, Option, none, some, List, [], ◌∷◌, ◌++◌,
  arith, length, length-append, nat_eq, string_eq,
}

pub data SpanningState : Type 0 where
  idle running waiting_for_tape tape_change_in_progress completed failed : SpanningState

-- An entry of `TapeSequence.tapes`.
pub record TapeInfo : Type 0 where
  pub barcode : String
  pub index : ℕ
  pub start_file : Option String

pub record TapeSequence : Type 0 where
  pub job_id : ℕ
  pub tapes : List TapeInfo
  pub current_index : ℕ

unfoldable pub add_tape : String → Option String → TapeSequence → TapeSequence
add_tape barcode start_file q =
    let info : TapeInfo = record {
      barcode = barcode;
      index = length q.tapes;
      start_file = start_file;
    } in
    let tapes = q.tapes ++ info ∷ [] in record q { tapes = tapes; current_index = length tapes - 1 }

-- `None` past the end.
unfoldable pub item : List TapeInfo → ℕ → Option TapeInfo
item [] i = none
item (t ∷ ts) zero = some t
item (t ∷ ts) (suc i) = item ts i

unfoldable pub get_current_tape : TapeSequence → Option TapeInfo
get_current_tape q = item q.tapes q.current_index

pub record SpanningSession : Type 0 where
  pub job_id : ℕ
  pub state : SpanningState
  pub tape_sequence : TapeSequence
  pub total_bytes_written : ℕ
  pub current_tape_bytes : ℕ
  pub error : Option String
  pub waiting_since : Option ℕ

-- The entries from position `i` on carry their own positions.
abbrev pub AreNumbered : ℕ → List TapeInfo → Type 0
AreNumbered i [] = Unit
AreNumbered i (t ∷ ts) = (t.index ≡ i) × AreNumbered (suc i) ts

-- There is a tape, every entry carries its position, and the current entry is the last one.
pub record IsOrdered (q : TapeSequence) : Type 0 where
  pub numbered : AreNumbered 0 q.tapes
  pub current : suc q.current_index ≡ length q.tapes

AreNumbered-append :
    (i : ℕ) (ts : List TapeInfo) (t : TapeInfo)
    → AreNumbered i ts
    → t.index ≡ i + length ts
    → AreNumbered i (ts ++ t ∷ [])
AreNumbered-append i [] t h e = ground arith
AreNumbered-append i (u ∷ ts) t h e = (h.0, AreNumbered-append (suc i) ts t h.1 (omega arith))

item-length : (ts : List TapeInfo) (t : TapeInfo) → item (ts ++ t ∷ []) (length ts) ≡ some t
unfolding item
item-length [] t = refl
item-length (u ∷ ts) t = item-length ts t

-- A tape that is added is the current tape.
pub get_current_tape-add_tape :
    (barcode : String) (start : Option String) (q : TapeSequence)
    → get_current_tape (add_tape barcode start q)
      ≡ some (record { barcode = barcode; index = length q.tapes; start_file = start })
unfolding get_current_tape add_tape
get_current_tape-add_tape barcode start q =
    let info : TapeInfo = record {
      barcode = barcode;
      index = length q.tapes;
      start_file = start;
    } in
    let last : length (q.tapes ++ info ∷ []) - 1 ≡ length q.tapes =
      omega (arith, length-append q.tapes (info ∷ [])) in
    ap (item (q.tapes ++ info ∷ [])) last ∙ item-length q.tapes info

pub AreNumbered-add_tape :
    (barcode : String) (start : Option String) (q : TapeSequence)
    → AreNumbered 0 q.tapes
    → IsOrdered (add_tape barcode start q)
unfolding add_tape
AreNumbered-add_tape barcode start q h =
    let info : TapeInfo = record {
      barcode = barcode;
      index = length q.tapes;
      start_file = start;
    } in
    record {
      numbered = AreNumbered-append 0 q.tapes info h (omega arith);
      current = omega (arith, length-append q.tapes (info ∷ []));
    }

item-some : (ts : List TapeInfo) (i : ℕ) → i < length ts → (t : TapeInfo) × (item ts i ≡ some t)
unfolding item
item-some [] i h = absurd (omega arith)
item-some (t ∷ ts) zero h = (t, refl)
item-some (t ∷ ts) (suc i) h = item-some ts i (omega arith)

pub get_current_tape-some :
    (q : TapeSequence) → IsOrdered q → (t : TapeInfo) × (get_current_tape q ≡ some t)
unfolding get_current_tape
get_current_tape-some q o = item-some q.tapes q.current_index (omega (arith, o.current))
