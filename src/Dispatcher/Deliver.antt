-- ===== src/Dispatcher/Deliver.antt =====
-- `dispatch_due_items` and `check_for_new_items` of dispatcher/src/dispatcher/watcher.py. The
-- handlers, which get the item's row and no database, are parameters.
pub mod Armed
use radiobeacon.Common.{
  ℕ, suc, String, Bool, true, false, ◌&&◌, Option, none, some, List, [], ◌∷◌, str_eq, length,
  select, delete, find_row, if◌then◌else◌,
}
use radiobeacon.Common.Result.{Result, ok, raised}
use radiobeacon.Database.{Db, Item, Value, ArmedRow, is_item}
use radiobeacon.Database.Audit.{record_audit_event, opt_text}
use radiobeacon.Dispatcher.{is_armed}
use radiobeacon.Dispatcher.Discover.{Parse, discover_new_items}
use radiobeacon.Dispatcher.Sync.{sync_policy_changes}

-- A handler's name, and the text of the exception that it raises on an item, if any.
pub record Handler : Type 0 where
  pub name : String
  pub run : Item → Option String

-- FROM trigger_dispatches d JOIN items i … WHERE d.consumer = ?
unfoldable pub armed_items : String → List Item → List ArmedRow → List Item
armed_items consumer items [] = []
armed_items consumer items (a ∷ rows) =
    let rest = armed_items consumer items rows in
    if str_eq a.consumer consumer
    then joined (find_row (is_item a.source a.item_id) items) rest
    else rest
  where
    joined : Option Item → List Item → List Item
    joined none rest = rest
    joined (some i) rest = i ∷ rest

pub outcome : ℕ → String → String → Item → Option String → Db → Db
outcome now consumer name i none db =
    record_audit_event now "item.dispatched" name (some i.source) (some i.item_id)
      (("consumer", Value.text consumer) ∷ ("policy", opt_text i.policy) ∷ []) db
outcome now consumer name i (some error) db =
    record_audit_event now "item.dispatch_failed" name (some i.source) (some i.item_id)
      (("consumer", Value.text consumer)
        ∷ ("policy", opt_text i.policy)
        ∷ ("error", Value.text error)
        ∷ [])
      db

pub run_handlers : ℕ → String → Item → List Handler → Db → Db
unfolding outcome
run_handlers now consumer i [] db = db
run_handlers now consumer i (h ∷ handlers) db =
    run_handlers now consumer i handlers (outcome now consumer h.name i (h.run i) db)

abbrev pub disarm : String → Item → Db → Db
disarm consumer i db = record db {
  trigger_dispatches = delete (is_armed consumer i.source i.item_id) db.trigger_dispatches;
}

pub dispatch_rows : ℕ → String → List Handler → List Item → Db → Db
unfolding run_handlers
dispatch_rows now consumer handlers [] db = db
dispatch_rows now consumer handlers (i ∷ items) db =
    dispatch_rows now consumer handlers items
      (disarm consumer i (run_handlers now consumer i handlers db))

unfoldable pub dispatch_due_items : ℕ → String → List Handler → Db → ℕ × Db
unfolding armed_items dispatch_rows
dispatch_due_items now consumer handlers db =
    let armed = armed_items consumer db.items db.trigger_dispatches in
    (length armed, dispatch_rows now consumer handlers armed db)

-- One poll. An exception of the first step leaves out the other two.
unfoldable pub after_discovery : ℕ → String → List Handler → Db × Result ℕ → Db × Result ℕ
after_discovery now consumer handlers (db, raised e) = (db, raised e)
after_discovery now consumer handlers (db, ok found) =
    let (changed, db1) = sync_policy_changes now consumer db in
    let (dispatched, db2) = dispatch_due_items now consumer handlers db1 in (db2, ok dispatched)

unfoldable pub check_for_new_items :
    Parse → ℕ → String → List Handler → Option ℕ → Db → Db × Result ℕ
unfolding after_discovery
check_for_new_items parse now consumer handlers not_before db =
    after_discovery now consumer handlers (discover_new_items parse now consumer not_before db)
