-- ===== src/Audit/Log.antt =====
-- Rows of the table `audit_log`, and the hash of an entry. A text that may be `None` is an
-- `Option`; `details` is the serialised text.
use fossilsafe_t.Prelude.{
  ℕ, String, ◌≡◌, refl, Bool, true, false, ◌||◌, Option, none, some, List, if◌then◌else◌, ◌==◌,
  nat_eq, string_eq, beq_refl, truth,
}

-- The fields that `_compute_audit_hash` serialises and hashes.
pub record Payload : Type 0 where
  pub action : Option String
  pub message : Option String
  pub username : Option String
  pub details : Option String
  pub level : Option String
  pub category : Option String
  pub timestamp : Option String
  pub previous_hash : String

-- What the log takes from libraries: `json.dumps` with sha256 of the payload, whether there is an
-- Ed25519 key, and signing and checking with it, where a signature made is accepted. Every
-- `AuditSigner` has the same key, or none has one: the key file is there and can be read or not, or it
-- can be written when the first is made. Where a new key cannot be saved, each instance makes its own,
-- and what this library says of the log does not hold.
pub record Crypto : Type 0 where
  pub hash : Payload → String
  pub has_key : Bool
  pub ed_sign : String → String
  pub ed_verify : String → String → Bool
  pub ed_verify-sign : (text : String) → ed_verify text (ed_sign text) ≡ true

or_true : (b : Bool) → (b || true) ≡ true
or_true true = refl
or_true false = refl

-- `AuditSigner.sign` and `AuditSigner.verify` of backend/utils/hashing.py.
unfoldable pub sign : Crypto → String → String
sign c text = if c.has_key then c.ed_sign text else ""

unfoldable pub verify : Crypto → String → String → Bool
verify c text signature = if c.has_key then c.ed_verify text signature else false

-- A signature made is empty or accepted.
pub verify-sign :
    (c : Crypto) (text : String) → ((sign c text == "") || verify c text (sign c text)) ≡ true
unfolding sign verify
verify-sign c text = split c.has_key refl
  where
    split : (k : Bool) → c.has_key ≡ k → ((sign c text == "") || verify c text (sign c text)) ≡ true
    split true e = rw (e, c.ed_verify-sign text) (or_true (c.ed_sign text == ""))
    split false e = rw (e, beq_refl {A = String} "") refl

-- What both `add_audit_log` and `verify_audit_chain` hand to `_compute_audit_hash`, as a dict. A
-- missing key is `none`; where the code tells it from a key with the value `None`, that is
-- `some none`.
pub record Entry : Type 0 where
  pub action : Option String
  pub message : Option String
  pub username : Option String
  pub user : Option String
  pub details : Option String
  pub level : Option (Option String)
  pub category : Option (Option String)
  pub timestamp : Option (Option String)

pub record Row : Type 0 where
  pub id : ℕ
  pub action : Option String
  pub details : Option String
  pub username : Option String
  pub message : Option String
  pub level : Option String
  pub category : Option String
  pub ip : Option String
  pub timestamp : Option String
  pub previous_hash : Option String
  pub entry_hash : Option String
  pub signature : Option String

-- The rows in the order of their ids; `next_id` is the next value of the primary key.
pub record AuditLog : Type 0 where
  pub rows : List Row
  pub next_id : ℕ

-- `a or b`
abbrev pub or_else : Option String → Option String → Option String
or_else a b = if truth a then a else b

-- `a or 'text'`
abbrev pub or_text : Option String → String → String
or_text none b = b
or_text (some a) b = if a == "" then b else a

-- `entry.get(key, default)`
abbrev pub get_default : Option (Option String) → String → Option String
get_default none d = some d
get_default (some a) d = a

-- `entry.get(key)`
abbrev pub get_key : Option (Option String) → Option String
get_key none = none
get_key (some a) = a

unfoldable pub payload : Entry → String → Payload
payload e previous = record {
  action = e.action;
  message = e.message;
  username = or_else e.username e.user;
  details = e.details;
  level = get_default e.level "info";
  category = get_default e.category "system";
  timestamp = get_key e.timestamp;
  previous_hash = previous;
}

module _ (c : Crypto) where
  unfoldable pub compute_audit_hash : Entry → Option String → String
  compute_audit_hash e previous = c.hash (payload e (or_text previous ""))
