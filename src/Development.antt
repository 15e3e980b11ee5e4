-- ===== src/Development.antt =====
-- ui/src/ui/dev_ops.py: a developer's direct writes to the table `items`.
pub mod Recreated
pub mod Silenced
use radiobeacon.Common.{
  ℕ, ◌+◌, String, Bool, true, false, ◌&&◌, Option, some, List, [], ◌∷◌, ◌++◌, str_eq, exists,
  update, delete, if◌then◌else◌,
}
use radiobeacon.Common.Result.{Result, ok, raised, integrity_error}
use radiobeacon.Database.{Db, Item, ChunkRow, ArmedRow, SeenRow, TxRow, Value, is_item, max_rowid}
use radiobeacon.Database.Audit.{record_audit_event, opt_text}

-- What the form has of an item, besides its key.
pub record Fields : Type 0 where
  pub extracted_title : Option String
  pub extracted_contents : Option String
  pub summary : Option String
  pub url : Option String
  pub event_key : Option String
  pub type : Option String
  pub subtype : Option String
  pub policy : Option String
  pub source_date_time : Option String

abbrev item_of : ℕ → String → String → Fields → Item
item_of rowid source item_id f = record {
  rowid = rowid;
  source = source;
  item_id = item_id;
  extracted_title = f.extracted_title;
  extracted_contents = f.extracted_contents;
  summary = f.summary;
  url = f.url;
  event_key = f.event_key;
  type = f.type;
  subtype = f.subtype;
  policy = f.policy;
  source_date_time = f.source_date_time;
}

-- SQLite gives a row of a table without AUTOINCREMENT one more than the largest rowid in use.
unfoldable pub create_item : ℕ → String → String → Fields → Db → Db × Result (Unit {0})
unfolding max_rowid
create_item now source item_id f db =
    if exists (is_item source item_id) db.items then (db, raised integrity_error) else (
      record_audit_event now "item.created" "ui.dev" (some source) (some item_id)
          (("policy", opt_text f.policy) ∷ [])
          (record db {
            items = db.items ++ item_of (max_rowid db.items + 1) source item_id f ∷ [];
          }),
      ok tt,
    )

unfoldable pub update_item : ℕ → String → String → Fields → Db → Bool × Db
update_item now source item_id f db =
    if exists (is_item source item_id) db.items
    then (
      true,
      record_audit_event now "item.dev_edited" "ui.dev" (some source) (some item_id)
          (("policy", opt_text f.policy) ∷ [])
          (record db {
            items =
                update (is_item source item_id) (λ i. item_of i.rowid i.source i.item_id f)
                  db.items;
          }),
    )
    else (false, db)

-- The item and the rows that are about it.
abbrev without : String → String → Db → Db
without source item_id db = record db {
  chunks = delete (λ (c : ChunkRow). str_eq c.source source && str_eq c.item_id item_id) db.chunks;
  trigger_dispatches =
      delete (λ (a : ArmedRow). str_eq a.source source && str_eq a.item_id item_id)
        db.trigger_dispatches;
  item_policy_state =
      delete (λ (s : SeenRow). str_eq s.source source && str_eq s.item_id item_id)
        db.item_policy_state;
  beacon_tx_schedule =
      delete (λ (r : TxRow). str_eq r.source source && str_eq r.item_id item_id)
        db.beacon_tx_schedule;
  items = delete (is_item source item_id) db.items;
}

unfoldable pub delete_item : ℕ → String → String → Db → Bool × Db
delete_item now source item_id db =
    if exists (is_item source item_id) db.items
    then (
      true,
      record_audit_event now "item.deleted" "ui.dev" (some source) (some item_id) []
          (without source item_id db),
    )
    else (false, without source item_id db)
