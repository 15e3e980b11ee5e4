-- ===== src/Database/Settings.antt =====
-- The settings table of data-adapters/src/adapters/storage.py: DB row, then environment, then
-- default.
pub mod Laws
use radiobeacon.Common.{
  ℕ, String, Bool, true, false, Option, none, some, List, [], ◌∷◌, ◌++◌, str_eq, exists, select,
  update, delete, if◌then◌else◌,
}
use radiobeacon.Database.{Db, SettingRow, Value}
use radiobeacon.Database.Audit.{record_audit_event, opt_text}

-- The process environment, `os.environ.get`.
abbrev pub Environ : Type 0
Environ = String → Option String

abbrev or_default : Option String → Option String → Option String
or_default none default = default
or_default (some v) default = some v

-- What a settings row gives: nothing if it is missing or its value is NULL.
abbrev pub db_value : String → List SettingRow → Option String
db_value key [] = none
db_value key (r ∷ rs) = let rest = db_value key rs in if str_eq r.key key then r.value else rest

unfoldable pub get_setting : Environ → Bool → String → Option String → Db → Option String
get_setting environ env_fallback key default db =
    or_default (db_value key db.settings)
      (if env_fallback then or_default (environ key) default else default)

-- The loop of `get_settings` over the rows that its one SELECT returned.
bulk :
    Environ → Bool → List SettingRow → List (String × Option String) → List (String × Option String)
bulk environ env_fallback rows [] = []
bulk environ env_fallback rows ((key, default) ∷ keys) =
    (
      key,
      or_default (db_value key rows)
          (if env_fallback then or_default (environ key) default else default),
    )
    ∷ bulk environ env_fallback rows keys

abbrev asked : List (String × Option String) → SettingRow → Bool
asked keys r = exists (λ k. str_eq k.0 r.key) keys

-- `SELECT … WHERE key IN (…)`, then each key from those rows.
unfoldable pub get_settings :
    Environ → Bool → List (String × Option String) → Db → List (String × Option String)
unfolding bulk
get_settings environ env_fallback keys db =
    bulk environ env_fallback (select (asked keys) db.settings) keys

abbrev pub has_key : String → SettingRow → Bool
has_key key r = str_eq r.key key

abbrev write : ℕ → String → Option String → Bool → String → List SettingRow → List SettingRow
write now key value is_secret actor rows =
    let row : SettingRow = record {
      key = key;
      value = value;
      is_secret = is_secret;
      updated_at = now;
      updated_by = actor;
    } in
    if exists (has_key key) rows then update (has_key key) (λ _. row) rows else rows ++ row ∷ []

-- A secret's value is left out of the audit row.
unfoldable pub set_setting : ℕ → String → Option String → Bool → String → Db → Db
set_setting now key value is_secret actor db =
    record_audit_event now "setting.changed" actor none none
      (if is_secret
        then ("key", Value.text key) ∷ ("is_secret", Value.flag is_secret) ∷ []
        else ("key", Value.text key)
          ∷ ("is_secret", Value.flag is_secret)
          ∷ ("value", opt_text value)
          ∷ [])
      (record db { settings = write now key value is_secret actor db.settings })

unfoldable pub delete_setting : ℕ → String → String → Db → Bool × Db
delete_setting now key actor db =
    let db' : Db = record db { settings = delete (has_key key) db.settings } in
    if exists (has_key key) db.settings
    then (
      true,
      record_audit_event now "setting.reset" actor none none (("key", Value.text key) ∷ []) db',
    )
    else (false, db')
