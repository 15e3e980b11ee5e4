-- ===== src/Database/Audit.antt =====
-- `record_audit_event` of data-adapters/src/adapters/storage.py. The hooks that it fires
-- (MQTT publishing) never raise and do not touch the database.
use radiobeacon.Common.{
  Bool, false, ◌&&◌, ◌||◌, str_eq, ℕ, String, Option, none, some, List, [], ◌∷◌, ◌++◌,
}
use radiobeacon.Database.{Db, Value}

-- One row appended to `audit_log` and committed.
abbrev pub record_audit_event :
    ℕ → String → String → Option String → Option String → List (String × Value) → Db → Db
record_audit_event now event_type actor source item_id details db = record db {
  audit_log =
      db.audit_log
      ++ record {
        event_type = event_type;
        actor = actor;
        source = source;
        item_id = item_id;
        details = details;
        recorded_at = now;
      }
        ∷ [];
}

-- None is null in JSON.
abbrev pub opt_text : Option String → Value
opt_text none = Value.null
opt_text (some s) = Value.text s

-- `json_extract(details, '$.key') = ?`
unfoldable pub has_text : String → String → List (String × Value) → Bool
has_text key v [] = false
has_text key v ((k, Value.text s) ∷ details) =
    (str_eq k key && str_eq s v) || has_text key v details
has_text key v ((k, _) ∷ details) = has_text key v details
