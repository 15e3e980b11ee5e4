-- ===== src/Readings.antt =====
-- What an adapter fetched becomes rows of `items`: `store_reading` of
-- data-adapters/src/adapters/storage.py. `json.dumps` is a parameter: whether it returns for an item.
pub mod Kept
pub mod Found
use radiobeacon.Common.{
  ℕ, suc, ◌+◌, String, Bool, not, Option, none, some, List, [], ◌∷◌, ◌++◌, truthy, str_eq, exists,
  if◌then◌else◌,
}
use radiobeacon.Database.{Db, Item, AdapterRow, is_item, max_rowid}
use radiobeacon.Database.Audit.{record_audit_event}

-- An item of a reading, each attribute as `_as_text` gives it.
pub record Fetched : Type 0 where
  pub id : Option String
  pub title : Option String
  pub contents : Option String
  pub url : Option String
  pub event_key : Option String
  pub type : Option String
  pub subtype : Option String
  pub policy : Option String
  pub source_date_time : Option String

-- `items_data` is the attribute `data`, none where it is not a list.
pub record Reading : Type 0 where
  pub source : String
  pub items_data : Option (List Fetched)

abbrev pub Dumps : Type 0
Dumps = Fetched → Bool

-- SELECT policy FROM adapter_instances WHERE source = ?
pub instance_policy : String → List AdapterRow → Option String
instance_policy source [] = none
instance_policy source (a ∷ rows) =
    let rest = instance_policy source rows in if str_eq a.source source then a.policy else rest

-- `item.policy or instance_policy`
abbrev policy_or : Option String → Option String → Option String
policy_or own default = if truthy own then own else default

pub new_row : ℕ → String → String → Option String → Fetched → Item
new_row rowid source item_id default f = record {
  rowid = rowid;
  source = source;
  item_id = item_id;
  extracted_title = f.title;
  extracted_contents = f.contents;
  summary = none;
  url = f.url;
  event_key = f.event_key;
  type = f.type;
  subtype = f.subtype;
  policy = policy_or f.policy default;
  source_date_time = f.source_date_time;
}

-- INSERT OR IGNORE of one item, with the number of rows that it inserted.
pub insert_item : ℕ → String → Option String → String → Fetched → Db → Db × ℕ
unfolding new_row
insert_item now source default item_id f db =
    let row = new_row (suc (max_rowid db.items)) source item_id default f in
    if exists (is_item source item_id) db.items then (db, 0) else (
      record_audit_event now "item.stored" "adapters.storage" (some source) (some item_id) []
          (record db { items = db.items ++ row ∷ [] }),
      1,
    )

-- An item without an id is skipped, as is one that cannot be serialised.
pub store_item : Dumps → ℕ → String → Option String → Option String → Fetched → Db → Db × ℕ
unfolding insert_item
store_item dumps now source default none f db = (db, 0)
store_item dumps now source default (some item_id) f db =
    if dumps f then insert_item now source default item_id f db else (db, 0)

pub store_items : Dumps → ℕ → String → Option String → List Fetched → Db → Db × ℕ
unfolding store_item
store_items dumps now source default [] db = (db, 0)
store_items dumps now source default (f ∷ fs) db =
    let (db1, n) = store_item dumps now source default f.id f db in
    let (db2, stored) = store_items dumps now source default fs db1 in (db2, n + stored)

pub listed : Option (List Fetched) → List Fetched
listed none = []
listed (some fs) = fs

-- The number of newly stored items is returned.
unfoldable pub store_reading : Dumps → ℕ → Reading → Db → Db × ℕ
unfolding instance_policy store_items listed
store_reading dumps now reading db =
    store_items dumps now reading.source (instance_policy reading.source db.adapter_instances)
      (listed reading.items_data) db

unfoldable pub item_exists : String → String → Db → Bool
item_exists source item_id db = exists (is_item source item_id) db.items
