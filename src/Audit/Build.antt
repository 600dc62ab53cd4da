-- ===== src/Audit/Build.antt =====
-- `_get_last_audit_hash` and `add_audit_log`, in its two forms.
use fossilsafe_t.Prelude.{◌+◌, String, Option, none, some, List, [], ◌∷◌, ◌++◌, nat_eq, string_eq}
use fossilsafe_t.Audit.Log.{
  Crypto, Entry, Row, AuditLog, or_text, get_default, get_key, sign, compute_audit_hash,
}

-- The hash of the row with the greatest id, or the empty text.
unfoldable pub last_hash_from : String → List Row → String
last_hash_from h [] = h
last_hash_from h (r ∷ rows) = last_hash_from (or_text r.entry_hash "") rows

unfoldable pub get_last_audit_hash : AuditLog → String
get_last_audit_hash log = last_hash_from "" log.rows

-- The arguments of the first form, with `details` serialised.
pub record Arguments : Type 0 where
  pub action : String
  pub username : String
  pub message : String
  pub level : String
  pub category : String
  pub detail : Option String

-- The dict of the second form; a missing key as in `Entry`.
pub record Message : Type 0 where
  pub action : String
  pub message : Option String
  pub username : Option String
  pub user : Option String
  pub details : Option String
  pub level : Option (Option String)
  pub category : Option (Option String)
  pub ip : Option String
  pub timestamp : Option (Option String)

-- The row that is inserted is filled from the variables, its hash from the dict `entry`.
pub record Columns : Type 0 where
  pub action : String
  pub details : Option String
  pub user : String
  pub message : String
  pub level : String
  pub category : String
  pub ip : Option String

-- The branch for a call with arguments.
abbrev pub columns_of : Arguments → Columns
columns_of a = record {
  action = a.action;
  details = a.detail;
  user = a.username;
  message = a.message;
  level = a.level;
  category = a.category;
  ip = none;
}

abbrev pub entry_of : Arguments → Entry
entry_of a = record {
  action = some a.action;
  message = some a.message;
  username = some a.username;
  user = none;
  details = a.detail;
  level = some (some a.level);
  category = some (some a.category);
  timestamp = none;
}

-- The branch for a call with a dict.
abbrev pub columns_of_message : Message → Columns
columns_of_message e = record {
  action = e.action;
  details = e.details;
  user = or_text e.user (or_text e.username "system");
  message = or_text e.message "";
  level = or_text (get_key e.level) "info";
  category = or_text (get_key e.category) "system";
  ip = e.ip;
}

abbrev pub entry_of_message : Message → Entry
entry_of_message e = record {
  action = some e.action;
  message = e.message;
  username = e.username;
  user = e.user;
  details = e.details;
  level = e.level;
  category = e.category;
  timestamp = e.timestamp;
}

module _ (c : Crypto) where
  -- From the previous hash to the insert; `now` is `now_utc_iso()`.
  unfoldable pub append_row : String → Columns → Entry → AuditLog → String × AuditLog
  append_row now cols entry log =
      let previous = get_last_audit_hash log in
      let stamp = get_default entry.timestamp now in
      let entry' : Entry = record entry { timestamp = some stamp } in
      let h = compute_audit_hash c entry' (some previous) in
      let row : Row = record {
        id = log.next_id;
        action = some cols.action;
        details = cols.details;
        username = some cols.user;
        message = some cols.message;
        level = some cols.level;
        category = some cols.category;
        ip = cols.ip;
        timestamp = stamp;
        previous_hash = some previous;
        entry_hash = some h;
        signature = some (sign c h);
      } in
      (h, record { rows = log.rows ++ row ∷ []; next_id = log.next_id + 1 })

  unfoldable pub add_audit_log : String → Arguments → AuditLog → String × AuditLog
  add_audit_log now a log = append_row now (columns_of a) (entry_of a) log

  unfoldable pub add_audit_message : String → Message → AuditLog → String × AuditLog
  add_audit_message now e log = append_row now (columns_of_message e) (entry_of_message e) log
