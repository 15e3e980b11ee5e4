-- ===== src/Dispatcher/Sync.antt =====
-- `sync_policy_changes` of dispatcher/src/dispatcher/watcher.py.
pub mod Loop
pub mod Settled
use radiobeacon.Common.{
  ℕ, String, not, Option, none, some, List, [], ◌∷◌, ◌++◌, opt_str_eq, length, select, exists,
  update, find_row, if◌then◌else◌,
}
use radiobeacon.Database.{Db, Item, Value, SeenRow}
use radiobeacon.Database.Audit.{record_audit_event, opt_text}
use radiobeacon.Dispatcher.{is_seen, arm}

-- LEFT JOIN item_policy_state … WHERE s.source IS NULL
pub never_seen : String → Db → List Item
never_seen consumer db =
    select (λ i. not (exists (is_seen consumer i.source i.item_id) db.item_policy_state)) db.items

pub baseline : String → List Item → List SeenRow
baseline consumer [] = []
baseline consumer (i ∷ items) =
    record { consumer = consumer; source = i.source; item_id = i.item_id; policy = i.policy }
    ∷ baseline consumer items

-- JOIN item_policy_state … WHERE i.policy IS NOT s.policy: the items, each with the policy seen.
pub drifted_of : String → List SeenRow → List Item → List (Item × Option String)
drifted_of consumer seen [] = []
drifted_of consumer seen (i ∷ items) =
    joined i (find_row (is_seen consumer i.source i.item_id) seen) (drifted_of consumer seen items)
  where
    joined : Item → Option SeenRow → List (Item × Option String) → List (Item × Option String)
    joined i none rest = rest
    joined i (some s) rest = if opt_str_eq i.policy s.policy then rest else (i, s.policy) ∷ rest

abbrev pub set_policy : Option String → SeenRow → SeenRow
set_policy policy s = record s { policy = policy }

pub drift_row : ℕ → String → Item → Option String → Db → Db
drift_row now consumer i old_policy db =
    let db1 = arm consumer i.source i.item_id db in
    record_audit_event now "item.policy_drifted" "dispatcher.watcher" (some i.source)
      (some i.item_id)
      (("consumer", Value.text consumer)
        ∷ ("old_policy", opt_text old_policy)
        ∷ ("new_policy", opt_text i.policy)
        ∷ [])
      (record db1 {
        item_policy_state =
            update (is_seen consumer i.source i.item_id) (set_policy i.policy)
              db1.item_policy_state;
      })

pub drift_rows : ℕ → String → List (Item × Option String) → Db → Db
unfolding drift_row
drift_rows now consumer [] db = db
drift_rows now consumer ((i, old_policy) ∷ rows) db =
    drift_rows now consumer rows (drift_row now consumer i old_policy db)

pub with_baseline : String → Db → Db
unfolding never_seen baseline
with_baseline consumer db = record db {
  item_policy_state = db.item_policy_state ++ baseline consumer (never_seen consumer db);
}

unfoldable pub sync_policy_changes : ℕ → String → Db → ℕ × Db
unfolding with_baseline drifted_of drift_rows
sync_policy_changes now consumer db =
    let db1 = with_baseline consumer db in
    let rows = drifted_of consumer db1.item_policy_state db1.items in
    (length rows, drift_rows now consumer rows db1)
