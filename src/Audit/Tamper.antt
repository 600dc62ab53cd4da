-- ===== src/Audit/Tamper.antt =====
-- What the verification detects, and what it does not.
use fossilsafe_t.Prelude.{
  ℕ, ◌+◌, String, ◌≡◌, refl, sym, ap, subst, ◌∙◌, ◌≢◌, Option, none, some, List, [], ◌∷◌, ◌++◌,
  arith, length, length-append, nat_eq, string_eq, str_iff,
}
use mathlib.Core.Path.{ap₂}
use fossilsafe_t.Audit.Log.{
  Payload, Crypto, Row, AuditLog, or_text, get_default, payload, compute_audit_hash,
}
use fossilsafe_t.Audit.Build.{
  get_last_audit_hash, Arguments, Message, columns_of_message, entry_of_message, append_row,
  add_audit_message,
}
use fossilsafe_t.Audit.Verify.{
  Problem, hash_mismatch, Report, entry_data, check_row, next_hash, verify_rows, verify_audit_chain,
  end_hash, verify_rows-append, verify_rows-prefix,
}
use fossilsafe_t.Audit.Complete.{
  build, build-IsChained, row_of, or_text_self, one_row, length-build,
}

-- What is hashed for a row behind a row with the given hash.
abbrev pub hashed : Row → String → Payload
hashed r previous = payload (entry_data r) (or_text (some previous) "")

module _ (c : Crypto) where
  first_bad :
      (total verified : ℕ) (previous : String) (r : Row) (rows : List Row) {p : Problem}
      → check_row c previous r ≡ some p
      → verify_rows c total previous verified (r ∷ rows)
        ≡ record { total_entries = total; verified = verified; first_invalid = some (r.id, p) }
  unfolding verify_rows
  first_bad total verified previous r rows e = ground arith

  -- The first row of a valid chain.
  head_checks :
      (total verified : ℕ) (previous : String) (r : Row) (rows : List Row)
      → (verify_rows c total previous verified (r ∷ rows)).first_invalid ≡ none
      → check_row c previous r ≡ none
  unfolding verify_rows
  head_checks total verified previous r rows e = ground arith

  first_invalid-total :
      (total other verified : ℕ) (previous : String) (rows : List Row)
      → (verify_rows c total previous verified rows).first_invalid
        ≡ (verify_rows c other previous verified rows).first_invalid
  unfolding verify_rows
  first_invalid-total total other verified previous [] = refl
  first_invalid-total total other verified previous (r ∷ rows) =
      ground (arith, first_invalid-total total other (verified + 1) (next_hash c previous r) rows)

  -- In a valid chain the rows before any row are valid, and so is that row.
  middle_checks :
      (total : ℕ) (before after : List Row) (r : Row)
      → (verify_rows c total "" 0 (before ++ r ∷ after)).first_invalid ≡ none
      → ((other : ℕ) → (verify_rows c other "" 0 before).first_invalid ≡ none)
        × (check_row c (end_hash c "" before) r ≡ none)
  middle_checks total before after r valid =
      let prefix = verify_rows-prefix c total 0 "" before (r ∷ after) valid in
      (
        (λ other. first_invalid-total other total 0 "" before ∙ prefix),
        head_checks total _ _ r after (
            ap (λ (p : Report). p.first_invalid)
              (sym (verify_rows-append c total 0 "" before (r ∷ after) prefix))
            ∙ valid),
      )

  -- A row that keeps the link and the hash of a valid row, with another content.
  changed_row :
      (previous h : String) (r s : Row)
      → h ≢ ""
      → r.entry_hash ≡ some h
      → s.entry_hash ≡ some h
      → s.previous_hash ≡ r.previous_hash
      → check_row c previous r ≡ none
      → ¬ (c.hash (hashed s previous) ≡ c.hash (hashed r previous))
      → check_row c previous s ≡ some hash_mismatch
  unfolding check_row compute_audit_hash
  changed_row previous h r s text stored kept link fine differs = ground (
    arith,
    or_text_self c h,
    str_iff h "",
    str_iff h (c.hash (hashed r previous)),
    str_iff h (c.hash (hashed s previous)),
  )

  blank_row :
      (previous : String) (r s : Row)
      → check_row c previous r ≡ none
      → s.previous_hash ≡ r.previous_hash
      → s.entry_hash ≡ none
      → s.signature ≡ none
      → check_row c previous s ≡ none
  unfolding check_row
  blank_row previous r s fine link blank unsigned = ground (
    arith,
    str_iff (or_text s.entry_hash "") "",
    ap (λ (o : Option String). or_text o "") blank,
    ap (λ (o : Option String). or_text o "") link,
  )

  -- In a valid log, one row is given another content, with its link, its non-empty hash and all the
  -- other rows kept. If the hash does not collide on the two contents, the verification reports the
  -- changed row as the first invalid one, for its hash, and counts the rows before it as verified.
  pub tampering_detected :
      (before after : List Row) (r s : Row) (h : String) (n : ℕ)
      → (verify_audit_chain c (record { rows = before ++ r ∷ after; next_id = n })).first_invalid
        ≡ none
      → h ≢ ""
      → r.entry_hash ≡ some h
      → s.entry_hash ≡ some h
      → s.previous_hash ≡ r.previous_hash
      → (let previous = end_hash c "" before in
          (hashed s previous ≢ hashed r previous)
          × (c.hash (hashed s previous) ≡ c.hash (hashed r previous)
              → hashed s previous ≡ hashed r previous))
      → verify_audit_chain c (record { rows = before ++ s ∷ after; next_id = n }) ≡ record {
        total_entries = length (before ++ s ∷ after);
        verified = length before;
        first_invalid = some (s.id, hash_mismatch);
      }
  unfolding verify_audit_chain
  tampering_detected before after r s h n valid text stored kept link (other, collision_free) =
      let (prefix, fine) = middle_checks _ before after r valid in
      let bad =
        changed_row (end_hash c "" before) h r s text stored kept link fine
          (λ e. other (collision_free e)) in
      verify_rows-append c _ 0 "" before (s ∷ after) (prefix _)
      ∙ first_bad _ _ _ s after bad
      ∙ ap
          (λ (k : ℕ). (record {
            total_entries = length (before ++ s ∷ after);
            verified = k;
            first_invalid = some (s.id, hash_mismatch);
          }))
          (omega arith)

  -- The newest row of a valid log can be replaced by one with any content at all, if that keeps the
  -- link and leaves its hash and its signature empty: the log still verifies, and every row counts as
  -- verified.
  pub newest_row_unprotected :
      (before : List Row) (r s : Row) (n : ℕ)
      → (verify_audit_chain c (record { rows = before ++ r ∷ []; next_id = n })).first_invalid
        ≡ none
      → s.previous_hash ≡ r.previous_hash
      → s.entry_hash ≡ none
      → s.signature ≡ none
      → verify_audit_chain c (record { rows = before ++ s ∷ []; next_id = n }) ≡ record {
        total_entries = length before + 1;
        verified = length before + 1;
        first_invalid = none;
      }
  unfolding verify_audit_chain
  newest_row_unprotected before r s n valid link blank unsigned =
      let (prefix, fine) = middle_checks _ before [] r valid in
      let good = blank_row (end_hash c "" before) r s fine link blank unsigned in
      verify_rows-append c _ 0 "" before (s ∷ []) (prefix _)
      ∙ one_row c _ _ _ s good
      ∙ ap₂ (λ (t k : ℕ). (record { total_entries = t; verified = k; first_invalid = none }))
          (length-append before (s ∷ [])) (omega arith)

  unsound_row :
      (previous h : String) (r : Row)
      → r.previous_hash ≡ some previous
      → r.entry_hash ≡ some h
      → h ≢ ""
      → h ≢ compute_audit_hash c (entry_data r) (some previous)
      → check_row c previous r ≡ some hash_mismatch
  unfolding check_row
  unsound_row previous h r link stored text differs = ground (
    arith,
    or_text_self c previous,
    or_text_self c h,
    str_iff previous previous,
    str_iff h "",
    str_iff h (compute_audit_hash c (entry_data r) (some previous)),
  )

-- What `add_audit_log` hashes for a dict behind the given hash, and the row that it stores.
abbrev pub message_hashed : String → Message → String → Payload
message_hashed now m previous =
    payload (record (entry_of_message m) { timestamp = some (get_default m.timestamp now) })
      (or_text (some previous) "")

abbrev pub message_row : Crypto → String → Message → AuditLog → Row
message_row c now m log = row_of c now (columns_of_message m) (entry_of_message m) log

message-differs :
    (c : Crypto) (now : String) (m : Message) (log : AuditLog) (previous : String)
    → m.message ≡ none
    → message_hashed now m previous ≢ hashed (message_row c now m log) previous
unfolding payload entry_data
message-differs c now m log previous e same =
    ground (arith, e, ap (λ (p : Payload). p.message) same)

-- A dict entry without a message, as the settings handler writes it, appended to a log that calls
-- with arguments built. Its hash covers no message and its row stores an empty one. If the hash is
-- not empty and does not collide on the two, the log that `add_audit_log` wrote is invalid: the
-- verification stops at that row, for its hash, with only the rows before it verified.
pub message-less_entry_breaks :
    (c : Crypto) (calls : List (String × Arguments)) (now : String) (m : Message)
    → m.message ≡ none
    → (let log = build c calls in
        let previous = get_last_audit_hash log in
        let p = message_hashed now m previous in
        let q = hashed (message_row c now m log) previous in
        (c.hash p ≢ "") × (c.hash p ≡ c.hash q → p ≡ q))
    → verify_audit_chain c (add_audit_message c now m (build c calls)).1 ≡ record {
      total_entries = length calls + 1;
      verified = length calls;
      first_invalid = some ((build c calls).next_id, hash_mismatch);
    }
unfolding verify_audit_chain add_audit_message append_row compute_audit_hash
message-less_entry_breaks c calls now m e (text, collision_free) =
    let log : AuditLog = build c calls in
    let r : Row = message_row c now m log in
    let previous : String = get_last_audit_hash log in
    let chained = build-IsChained c calls in
    let bad =
      unsound_row c previous _ r refl refl text
        (λ same. message-differs c now m log previous e (collision_free same)) in
    verify_rows-append c _ 0 "" log.rows (r ∷ []) (chained.valid _)
    ∙ first_bad c _ _ _ r []
        (subst (λ (s : String). check_row c s r ≡ some hash_mismatch) chained.linked bad)
    ∙ ap₂
        (λ (t k : ℕ). (record {
          total_entries = t;
          verified = k;
          first_invalid = some (log.next_id, hash_mismatch);
        }))
        (length-append log.rows (r ∷ []) ∙ ap (λ (k : ℕ). k + 1) (length-build c calls))
        (omega (arith, length-build c calls))
