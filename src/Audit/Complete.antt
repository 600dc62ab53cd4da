-- ===== src/Audit/Complete.antt =====
-- A log that was only appended to verifies.
use fossilsafe_t.Prelude.{
  ℕ, ◌+◌, String, ◌≡◌, refl, sym, ap, subst, ◌∙◌, Option, none, some, List, [], ◌∷◌, ◌++◌, arith,
  length, length-append, nat_eq, string_eq, str_iff,
}
use native.Mathlib.Nat.{add-zero}
use fossilsafe_t.Audit.Log.{
  Crypto, Entry, Row, AuditLog, or_else, or_text, get_default, payload, sign, verify-sign,
  compute_audit_hash,
}
use fossilsafe_t.Audit.Build.{
  last_hash_from, get_last_audit_hash, Arguments, Columns, columns_of, entry_of, append_row,
  add_audit_log,
}
use fossilsafe_t.Audit.Verify.{
  Report, entry_data, check_row, next_hash, verify_rows, verify_audit_chain, end_hash,
  verify_rows-append,
}

abbrev pub empty : AuditLog
empty = record { rows = []; next_id = 1 }

module _ (c : Crypto) where
  -- The log verifies, and the next entry is linked to where the verification ends.
  pub record IsChained (log : AuditLog) : Type 0 where
    pub valid : (total : ℕ) → (verify_rows c total "" 0 log.rows).first_invalid ≡ none
    pub linked : get_last_audit_hash log ≡ end_hash c "" log.rows

  last_hash_from-append :
      (h : String) (rows : List Row) (r : Row)
      → last_hash_from h (rows ++ r ∷ []) ≡ or_text r.entry_hash ""
  unfolding last_hash_from
  last_hash_from-append h [] r = refl
  last_hash_from-append h (s ∷ rows) r = last_hash_from-append (or_text s.entry_hash "") rows r

  end_hash-append :
      (h : String) (rows : List Row) (r : Row)
      → end_hash c h (rows ++ r ∷ []) ≡ next_hash c (end_hash c h rows) r
  unfolding end_hash
  end_hash-append h [] r = refl
  end_hash-append h (s ∷ rows) r = end_hash-append (next_hash c h s) rows r

  -- The row that `append_row` inserts.
  abbrev pub row_of : String → Columns → Entry → AuditLog → Row
  row_of now cols entry log =
      let previous = get_last_audit_hash log in
      let stamp = get_default entry.timestamp now in
      let h = compute_audit_hash c (record entry { timestamp = some stamp }) (some previous) in
      record {
        id = log.next_id;
        action = some cols.action;
        details = cols.details;
        username = some cols.user;
        message = some cols.message;
        level = some cols.level;
        category = some cols.category;
        ip = cols.ip;
        timestamp = stamp;
        previous_hash = some previous;
        entry_hash = some h;
        signature = some (sign c h);
      }

  pub or_text_self : (s : String) → or_text (some s) "" ≡ s
  or_text_self s = ground (arith, str_iff s "")

  or_else_idem : (u : Option String) → or_else (or_else u none) none ≡ or_else u none
  or_else_idem none = refl
  or_else_idem (some s) = ground arith

  -- What is hashed for a call is what is hashed again for its row.
  same-hash :
      (now : String) (a : Arguments) (log : AuditLog)
      → let previous = get_last_audit_hash log in
        compute_audit_hash c (record (entry_of a) { timestamp = some (some now) }) (some previous)
        ≡ compute_audit_hash c
            (entry_data (row_of now (columns_of a) (entry_of a) log))
            (some previous)
  unfolding compute_audit_hash payload entry_data
  same-hash now a log =
      ap
        (λ (name : Option String). c.hash (record {
          action = some a.action;
          message = some a.message;
          username = name;
          details = a.detail;
          level = some a.level;
          category = some a.category;
          timestamp = some now;
          previous_hash = or_text (some (get_last_audit_hash log)) "";
        }))
        (sym (or_else_idem (some a.username)))

  sound-checks :
      (previous h : String) (r : Row)
      → r.previous_hash ≡ some previous
      → r.entry_hash ≡ some h
      → r.signature ≡ some (sign c h)
      → h ≡ compute_audit_hash c (entry_data r) (some previous)
      → (check_row c previous r ≡ none) × (next_hash c previous r ≡ h)
  unfolding check_row next_hash
  sound-checks previous h r link stored signed same = ground (
    arith,
    or_text_self previous,
    or_text_self h,
    str_iff previous previous,
    str_iff h "",
    str_iff h (compute_audit_hash c (entry_data r) (some previous)),
    verify-sign c h,
  )

  row-checks :
      (now : String) (a : Arguments) (log : AuditLog)
      → let r = row_of now (columns_of a) (entry_of a) log in
        (check_row c (get_last_audit_hash log) r ≡ none)
        × (next_hash c (get_last_audit_hash log) r ≡ or_text r.entry_hash "")
  row-checks now a log =
      let (fine, next) =
        sound-checks (get_last_audit_hash log) _ (row_of now (columns_of a) (entry_of a) log) refl
          refl refl (same-hash now a log) in
      (fine, next ∙ sym (or_text_self _))

  pub one_row :
      (total verified : ℕ) (previous : String) (r : Row)
      → check_row c previous r ≡ none
      → verify_rows c total previous verified (r ∷ [])
        ≡ record { total_entries = total; verified = verified + 1; first_invalid = none }
  unfolding verify_rows
  one_row total verified previous r e = ground arith

  add-IsChained :
      (now : String) (a : Arguments) (log : AuditLog)
      → IsChained log
      → IsChained (add_audit_log c now a log).1
  unfolding add_audit_log append_row
  add-IsChained now a log h =
      let r : Row = row_of now (columns_of a) (entry_of a) log in
      let (fine, next) = row-checks now a log in
      record {
        valid = λ total.
            ap (λ (p : Report). p.first_invalid)
              (verify_rows-append c total 0 "" log.rows (r ∷ []) (h.valid total)
                ∙ one_row total _ _ r
                    (subst (λ (s : String). check_row c s r ≡ none) h.linked fine));
        linked =
            unfold get_last_audit_hash in
            last_hash_from-append "" log.rows r
            ∙ sym next
            ∙ ap (λ (s : String). next_hash c s r) h.linked
            ∙ sym (end_hash-append "" log.rows r);
      }

-- A log as the calls with arguments leave it, each at its time.
unfoldable pub build : Crypto → List (String × Arguments) → AuditLog
build c [] = empty
build c ((now, a) ∷ calls) = (add_audit_log c now a (build c calls)).1

pub build-IsChained : (c : Crypto) (calls : List (String × Arguments)) → IsChained c (build c calls)
unfolding build verify_rows end_hash get_last_audit_hash last_hash_from
build-IsChained c [] = record { valid = λ total. refl; linked = refl }
build-IsChained c ((now, a) ∷ calls) =
    add-IsChained c now a (build c calls) (build-IsChained c calls)

pub length-build :
    (c : Crypto) (calls : List (String × Arguments)) → length (build c calls).rows ≡ length calls
unfolding build add_audit_log append_row
length-build c [] = refl
length-build c ((now, a) ∷ calls) =
    omega (arith, length-append (build c calls).rows (_ ∷ []), length-build c calls)

-- A report without a problem has verified every row.
pub verified-all :
    (c : Crypto) (total verified : ℕ) (previous : String) (rows : List Row)
    → (verify_rows c total previous verified rows).first_invalid ≡ none
    → verify_rows c total previous verified rows
      ≡ record { total_entries = total; verified = verified + length rows; first_invalid = none }
unfolding verify_rows
verified-all c total verified previous [] e = rw add-zero refl
verified-all c total verified previous (r ∷ rows) e =
    ground (arith, verified-all c total (verified + 1) (next_hash c previous r) rows)

-- The log of any calls of `add_audit_log` with arguments (the last call first in the list) is valid
-- from end to end: every row is counted and verified. All signers are taken to have the same key,
-- whose signatures are accepted, or no key.
pub verify-build :
    (c : Crypto) (calls : List (String × Arguments))
    → verify_audit_chain c (build c calls)
      ≡ record { total_entries = length calls; verified = length calls; first_invalid = none }
unfolding verify_audit_chain
verify-build c calls =
    verified-all c _ 0 "" (build c calls).rows ((build-IsChained c calls).valid _)
    ∙ ap (λ (n : ℕ). (record { total_entries = n; verified = 0 + n; first_invalid = none }))
        (length-build c calls)
    ∙ ap (λ (n : ℕ). (record { total_entries = length calls; verified = n; first_invalid = none }))
        (omega arith)
