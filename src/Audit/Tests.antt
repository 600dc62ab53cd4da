-- ===== src/Audit/Tests.antt =====
-- The audit log with a toy hash, and the theorems at concrete inputs.
use fossilsafe_t.Prelude.{
  String, ◌≡◌, refl, ap, ◌≢◌, true, false, none, some, List, [], ◌∷◌, arith, nat_eq, string_eq,
  str_iff,
}
use fossilsafe_t.Audit.Log.{Payload, Crypto, Row, payload, compute_audit_hash}
use fossilsafe_t.Audit.Build.{Arguments, Message, add_audit_message}
use fossilsafe_t.Audit.Verify.{
  hash_mismatch, entry_data, check_row, next_hash, verify_rows, verify_audit_chain, end_hash,
}
use fossilsafe_t.Audit.Complete.{build, verify-build}
use fossilsafe_t.Audit.Tamper.{
  hashed, tampering_detected, newest_row_unprotected, message-less_entry_breaks,
}

-- The hash of a payload is its message, and a missing message is "null".
abbrev toy : Crypto
toy = record {
  hash = λ p. elim p.message [ none ↦ "null" | some m ↦ m ];
  has_key = false;
  ed_sign = λ t. t;
  ed_verify = λ t s. true;
  ed_verify-sign = λ t. refl;
}

abbrev login : Arguments
login = record {
  action = "LOGIN";
  username = "ann";
  message = "ann logged in";
  level = "info";
  category = "auth";
  detail = none;
}

abbrev calls : List (String × Arguments)
calls = ("t2", login) ∷ ("t1", login) ∷ []

verify-build_example :
    verify_audit_chain toy (build toy calls)
    ≡ record { total_entries = 2; verified = 2; first_invalid = none }
verify-build_example = verify-build toy calls

-- A row of the toy log, and the same row with another message.
abbrev first : Row
first = record {
  id = 1;
  action = some "LOGIN";
  details = none;
  username = some "ann";
  message = some "ann logged in";
  level = some "info";
  category = some "auth";
  ip = none;
  timestamp = some "t1";
  previous_hash = some "";
  entry_hash = some "ann logged in";
  signature = some "";
}

abbrev forged : Row
forged = record first { message = some "bob logged in" }

abbrev unhashed : Row
unhashed = record forged { entry_hash = none; signature = none }

first_valid :
    (verify_audit_chain toy (record { rows = first ∷ []; next_id = 2 })).first_invalid ≡ none
unfolding verify_audit_chain verify_rows check_row next_hash compute_audit_hash payload entry_data
first_valid = refl

forged_differs : hashed forged "" ≢ hashed first ""
unfolding payload entry_data
forged_differs e =
    ground (arith, ap (λ (p : Payload). p.message) e, str_iff "bob logged in" "ann logged in")

tampering_detected_example :
    verify_audit_chain toy (record { rows = forged ∷ []; next_id = 2 })
    ≡ record { total_entries = 1; verified = 0; first_invalid = some (1, hash_mismatch) }
unfolding payload entry_data end_hash
tampering_detected_example =
    tampering_detected toy [] [] first forged "ann logged in" 2 first_valid
      (ground (arith, str_iff "ann logged in" "")) refl refl refl
      (forged_differs, λ e. ground (arith, str_iff "bob logged in" "ann logged in"))

newest_row_unprotected_example :
    verify_audit_chain toy (record { rows = unhashed ∷ []; next_id = 2 })
    ≡ record { total_entries = 1; verified = 1; first_invalid = none }
newest_row_unprotected_example =
    newest_row_unprotected toy [] first unhashed 2 first_valid refl refl refl

-- The dict of the settings handler.
abbrev toggle : Message
toggle = record {
  action = "VERIFICATION_TOGGLE";
  message = none;
  username = none;
  user = some "unknown";
  details = none;
  level = none;
  category = none;
  ip = none;
  timestamp = some (some "t3");
}

null_differs : ◌≢◌ {A = String} "null" ""
null_differs = ground (arith, str_iff "null" "")

message-less_entry_breaks_example :
    verify_audit_chain toy (add_audit_message toy "t3" toggle (build toy calls)).1 ≡ record {
      total_entries = 3;
      verified = 2;
      first_invalid = some ((build toy calls).next_id, hash_mismatch);
    }
unfolding payload entry_data
message-less_entry_breaks_example =
    message-less_entry_breaks toy calls "t3" toggle refl
      (null_differs, λ e. absurd (null_differs e))
