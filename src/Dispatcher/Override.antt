-- ===== src/Dispatcher/Override.antt =====
-- dispatcher/src/dispatcher/override.py.
pub mod Rearmed
use radiobeacon.Common.{
  ℕ, String, Bool, true, false, not, ◌||◌, Option, none, some, [], ◌∷◌, exists, update, delete,
  if◌then◌else◌,
}
use radiobeacon.Database.{Db, Item, Value, is_item}
use radiobeacon.Database.Audit.{record_audit_event}
use radiobeacon.Dispatcher.{is_armed, is_seen, arm}

abbrev pub with_policy : String → Item → Item
with_policy policy i = record i { policy = some policy }

unfoldable pub override_item : ℕ → String → String → Option String → Db → Bool × Db
override_item now source item_id none db = (false, db)
override_item now source item_id (some policy) db =
    if exists (is_item source item_id) db.items
    then (
      true,
      record_audit_event now "item.policy_overridden" "dispatcher.override" (some source)
          (some item_id) (("policy", Value.text policy) ∷ [])
          (record db { items = update (is_item source item_id) (with_policy policy) db.items }),
    )
    else (false, db)

unfoldable pub rearm_item : ℕ → String → String → String → Db → Bool × Db
rearm_item now consumer source item_id db =
    if not (exists (is_item source item_id) db.items)
    then (false, db)
    else if exists (is_armed consumer source item_id) db.trigger_dispatches
    then (false, db)
    else (
      true,
      record_audit_event now "item.reprocessed" "dispatcher.override" (some source) (some item_id)
          (("consumer", Value.text consumer) ∷ []) (arm consumer source item_id db),
    )

unfoldable pub reset_dispatch_state : ℕ → String → String → String → Db → Bool × Db
reset_dispatch_state now consumer source item_id db =
    let db' : Db = record db {
      trigger_dispatches = delete (is_armed consumer source item_id) db.trigger_dispatches;
      item_policy_state = delete (is_seen consumer source item_id) db.item_policy_state;
    } in
    if exists (is_armed consumer source item_id) db.trigger_dispatches
      || exists (is_seen consumer source item_id) db.item_policy_state
    then (
      true,
      record_audit_event now "item.dispatch_state_reset" "ui.dev" (some source) (some item_id)
          (("consumer", Value.text consumer) ∷ []) db',
    )
    else (false, db')
