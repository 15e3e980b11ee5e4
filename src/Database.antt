-- ===== src/Database.antt =====
-- The SQLite database that the packages share (data-adapters/src/adapters/storage.py and
-- dispatcher/src/dispatcher/watcher.py): one list of rows for each table, in rowid order.
pub mod Audit
pub mod Settings
pub mod Status
use radiobeacon.Common.{ℕ, String, Bool, Option, List, [], ◌∷◌, ◌&&◌, str_eq, ltb, if◌then◌else◌, ℤ}

-- `items`, with the columns that the modelled code reads and SQLite's rowid. `source_date_time` is
-- the ISO text, compared as text by SQL.
pub record Item : Type 0 where
  pub rowid : ℕ
  pub source : String
  pub item_id : String
  pub extracted_title : Option String
  pub extracted_contents : Option String
  pub summary : Option String
  pub url : Option String
  pub event_key : Option String
  pub type : Option String
  pub subtype : Option String
  pub policy : Option String
  pub source_date_time : Option String

-- A value of the JSON object in `audit_log.details`.
pub data Value : Type 0 where
  null : Value
  text : String → Value
  num : ℕ → Value
  int : ℤ → Value
  flag : Bool → Value
  -- created, updated, skipped, warned
  counts : ℕ → ℕ → ℕ → ℕ → Value

-- `audit_log`; `recorded_at` is `datetime('now')`, whole seconds.
pub record AuditRow : Type 0 where
  pub event_type : String
  pub actor : String
  pub source : Option String
  pub item_id : Option String
  pub details : List (String × Value)
  pub recorded_at : ℕ

-- The kinds of a schedule that the code knows, and any other text in the column.
pub data Kind : Type 0 where
  once interval cron : Kind
  other : String → Kind

-- `policies`
pub record PolicyRow : Type 0 where
  pub name : String
  pub fetch_kind : Kind
  pub fetch_interval_seconds : Option ℤ
  pub fetch_cron : Option String
  pub process_mode : String
  pub transmit_kind : Kind
  pub transmit_count : ℤ
  pub transmit_interval_seconds : ℤ
  pub transmit_cron : Option String
  pub description : Option String

-- `beacon_tx_schedule`. `created_at` and `updated_at` are `datetime('now')`, whole seconds;
-- `last_transmitted_at` is the ISO text of an instant, in microseconds.
pub record TxRow : Type 0 where
  pub source : String
  pub item_id : String
  pub kind : String
  pub ref : String
  pub policy : Option String
  pub sent_count : ℕ
  pub last_transmitted_at : Option ℕ
  pub enqueued_event_id : Option String
  pub created_at : ℕ
  pub updated_at : ℕ

-- `beacon_manual_tx`; `id` is AUTOINCREMENT.
pub record ManualRow : Type 0 where
  pub id : ℕ
  pub kind : String
  pub text : String
  pub actor : String
  pub created_at : ℕ

-- `chunks`
pub record ChunkRow : Type 0 where
  pub source : String
  pub item_id : String
  pub chunk_index : ℕ
  pub chunk_count : ℕ
  pub text : String

-- `item_readiness`; `published_at` in whole seconds.
pub record ReadyRow : Type 0 where
  pub source : String
  pub item_id : String
  pub published_at : ℕ

-- `settings`
pub record SettingRow : Type 0 where
  pub key : String
  pub value : Option String
  pub is_secret : Bool
  pub updated_at : ℕ
  pub updated_by : String

-- `dispatcher_state`, `trigger_dispatches` and `item_policy_state`
pub record StateRow : Type 0 where
  pub consumer : String
  pub last_seen_rowid : ℕ

pub record ArmedRow : Type 0 where
  pub consumer : String
  pub source : String
  pub item_id : String

pub record SeenRow : Type 0 where
  pub consumer : String
  pub source : String
  pub item_id : String
  pub policy : Option String

-- `users`; `id` is AUTOINCREMENT. `sessions`, with the time of expiry in whole seconds.
pub record UserRow : Type 0 where
  pub id : ℕ
  pub username : String
  pub password_hash : String
  pub role : String
  pub disabled : Bool
  pub created_at : ℕ
  pub updated_at : ℕ

pub record SessionRow : Type 0 where
  pub token_hash : String
  pub user_id : ℕ
  pub created_at : ℕ
  pub last_seen_at : ℕ
  pub expires_at : ℕ

-- `sources` and `adapter_instances`; `config` is JSON text.
pub record SourceRow : Type 0 where
  pub source : String
  pub display_name : String
  pub site_url : Option String
  pub updated_at : ℕ

pub record AdapterRow : Type 0 where
  pub source : String
  pub adapter_type : String
  pub enabled : Bool
  pub policy : Option String
  pub config : String
  pub updated_at : ℕ
  pub updated_by : Option String

pub record Db : Type 0 where
  pub items : List Item
  pub policies : List PolicyRow
  pub beacon_tx_schedule : List TxRow
  pub beacon_manual_tx : List ManualRow
  pub manual_sequence : ℕ
  pub chunks : List ChunkRow
  pub item_readiness : List ReadyRow
  pub settings : List SettingRow
  pub beacon_status : List (String × Option String)
  pub dispatcher_state : List StateRow
  pub trigger_dispatches : List ArmedRow
  pub item_policy_state : List SeenRow
  pub users : List UserRow
  pub user_sequence : ℕ
  pub sessions : List SessionRow
  pub sources : List SourceRow
  pub adapter_instances : List AdapterRow
  pub audit_log : List AuditRow

-- An empty database.
abbrev pub empty : Db
empty = record {
  items = [];
  policies = [];
  beacon_tx_schedule = [];
  beacon_manual_tx = [];
  manual_sequence = 0;
  chunks = [];
  item_readiness = [];
  settings = [];
  beacon_status = [];
  dispatcher_state = [];
  trigger_dispatches = [];
  item_policy_state = [];
  users = [];
  user_sequence = 0;
  sessions = [];
  sources = [];
  adapter_instances = [];
  audit_log = [];
}

-- WHERE source = ? AND item_id = ? on `items`.
abbrev pub is_item : String → String → Item → Bool
is_item source item_id i = str_eq i.source source && str_eq i.item_id item_id

-- COALESCE(MAX(rowid), 0)
unfoldable pub max_rowid : List Item → ℕ
max_rowid [] = 0
max_rowid (i ∷ items) = let rest = max_rowid items in if ltb rest i.rowid then i.rowid else rest
