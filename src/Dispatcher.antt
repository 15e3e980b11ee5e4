-- ===== src/Dispatcher.antt =====
-- dispatcher/src/dispatcher: the watcher that turns new items, and items whose policy was changed,
-- into one delivery each, and the overrides of a person. Each consumer has a watermark
-- (`dispatcher_state`), armed items (`trigger_dispatches`) and the policies that it saw
-- (`item_policy_state`).
pub mod Discover
pub mod Sync
pub mod Deliver
pub mod Override
use radiobeacon.Common.{
  ℕ, String, Bool, true, false, ◌&&◌, Option, none, some, List, [], ◌∷◌, ◌++◌, str_eq, update,
  delete, exists, find_row, if◌then◌else◌,
}
use radiobeacon.Database.{Db, StateRow, ArmedRow, SeenRow}

-- WHERE consumer = ? AND source = ? AND item_id = ?
abbrev pub is_armed : String → String → String → ArmedRow → Bool
is_armed consumer source item_id a =
    str_eq a.consumer consumer && (str_eq a.source source && str_eq a.item_id item_id)

abbrev pub is_seen : String → String → String → SeenRow → Bool
is_seen consumer source item_id s =
    str_eq s.consumer consumer && (str_eq s.source source && str_eq s.item_id item_id)

-- INSERT … ON CONFLICT DO NOTHING
unfoldable pub arm : String → String → String → Db → Db
arm consumer source item_id db =
    if exists (is_armed consumer source item_id) db.trigger_dispatches then db else record db {
      trigger_dispatches =
          db.trigger_dispatches
          ++ record { consumer = consumer; source = source; item_id = item_id } ∷ [];
    }

abbrev pub is_consumer : String → StateRow → Bool
is_consumer consumer s = str_eq s.consumer consumer
