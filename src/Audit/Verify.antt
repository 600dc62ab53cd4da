-- ===== src/Audit/Verify.antt =====
-- `verify_audit_chain`.
use fossilsafe_t.Prelude.{
  ℕ, ◌+◌, String, ◌≡◌, refl, inl, inr, Bool, true, false, not, ◌&&◌, ◌||◌, Option, none, some, List,
  [], ◌∷◌, ◌++◌, arith, if◌then◌else◌, Option-cases, length, ◌==◌, nat_eq, string_eq,
}
use native.Mathlib.Nat.{add-zero}
use fossilsafe_t.Audit.Log.{
  Crypto, Entry, Row, AuditLog, or_else, or_text, verify, compute_audit_hash,
}

-- What is wrong with the first invalid row.
pub data Problem : Type 0 where
  previous_mismatch hash_mismatch bad_signature : Problem

pub record Report : Type 0 where
  pub total_entries : ℕ
  pub verified : ℕ
  pub first_invalid : Option (ℕ × Problem)

-- `result['valid']`
abbrev pub is_valid : Report → Bool
is_valid r = elim r.first_invalid [ none ↦ true | some _ ↦ false ]

unfoldable pub entry_data : Row → Entry
entry_data r = record {
  action = r.action;
  message = r.message;
  username = or_else r.username none;
  user = none;
  details = r.details;
  level = some r.level;
  category = some r.category;
  timestamp = some r.timestamp;
}

-- The link to the previous row, the hash unless it is empty, and the signature if there is one.
module _ (c : Crypto) where
  abbrev pub signature_holds : String → Option String → Bool
  signature_holds stored none = true
  signature_holds stored (some s) = (s == "") || verify c stored s

  unfoldable pub check_row : String → Row → Option Problem
  check_row previous r =
      let stored = or_text r.entry_hash "" in
      let expected = compute_audit_hash c (entry_data r) (some previous) in
      if or_text r.previous_hash "" == previous
      then if not (stored == "") && not (stored == expected)
        then some hash_mismatch
        else if signature_holds stored r.signature
        then none
        else some bad_signature
      else some previous_mismatch

  -- `stored_hash or expected_hash`
  unfoldable pub next_hash : String → Row → String
  next_hash previous r = or_text r.entry_hash (compute_audit_hash c (entry_data r) (some previous))

  -- The loop: the previous hash, the number of rows verified, and the rows left.
  unfoldable pub verify_rows : ℕ → String → ℕ → List Row → Report
  verify_rows total previous verified [] = record {
    total_entries = total;
    verified = verified;
    first_invalid = none;
  }
  verify_rows total previous verified (r ∷ rows) =
      let rest = verify_rows total (next_hash previous r) (verified + 1) rows in
      elim (check_row previous r) [
        | none ↦ rest
        | some problem ↦ record {
          total_entries = total;
          verified = verified;
          first_invalid = some (r.id, problem);
        }
      ]

  unfoldable pub verify_audit_chain : AuditLog → Report
  verify_audit_chain log = verify_rows (length log.rows) "" 0 log.rows

  -- The previous hash after the rows.
  unfoldable pub end_hash : String → List Row → String
  end_hash previous [] = previous
  end_hash previous (r ∷ rows) = end_hash (next_hash previous r) rows

  -- A chain with a valid prefix is checked from the end of the prefix on.
  pub verify_rows-append :
      (total verified : ℕ) (previous : String) (xs ys : List Row)
      → (verify_rows total previous verified xs).first_invalid ≡ none
      → verify_rows total previous verified (xs ++ ys)
        ≡ verify_rows total (end_hash previous xs) (verified + length xs) ys
  unfolding verify_rows end_hash
  verify_rows-append total verified previous [] ys e = rw add-zero refl
  verify_rows-append total verified previous (r ∷ xs) ys e =
      elim (Option-cases (check_row previous r)) [
        | inl fine ↦
            ground
              (arith, fine, verify_rows-append total (verified + 1) (next_hash previous r) xs ys)
        | inr (problem, bad) ↦ absurd (ground (arith, bad))
      ]

  -- A prefix of a valid chain is valid.
  pub verify_rows-prefix :
      (total verified : ℕ) (previous : String) (xs ys : List Row)
      → (verify_rows total previous verified (xs ++ ys)).first_invalid ≡ none
      → (verify_rows total previous verified xs).first_invalid ≡ none
  unfolding verify_rows
  verify_rows-prefix total verified previous [] ys e = refl
  verify_rows-prefix total verified previous (r ∷ xs) ys e =
      ground (arith, verify_rows-prefix total (verified + 1) (next_hash previous r) xs ys)
