-- ===== src/Tests/Delivery.antt =====
-- The dispatcher on a table with one new item and one handler that fails.
use radiobeacon.Common.{exists, arith, true, ◌≡◌, refl, none, some, List, [], ◌∷◌}
use radiobeacon.Common.Result.{ok, raised, type_error}
use radiobeacon.Database.{Db, Item, empty, is_item}
use radiobeacon.Development.{Fields, create_item, delete_item}
use radiobeacon.Development.Recreated.{recreated_missed}
use radiobeacon.Development.Silenced.{IsSilent, delete_item-IsSilent}
use radiobeacon.Dispatcher.Discover.{Parse, Parsed, naive, aware, discover_new_items}
use radiobeacon.Dispatcher.Discover.Watermark.{discover_once}
use radiobeacon.Dispatcher.Discover.Naive.{naive_wedges}
use radiobeacon.Dispatcher.Sync.{sync_policy_changes}
use radiobeacon.Dispatcher.Sync.Settled.{sync_once}
use radiobeacon.Dispatcher.Deliver.{Handler, dispatch_due_items, check_for_new_items}
use radiobeacon.Dispatcher.Deliver.Armed.{dispatch_once}

abbrev item : Item
item = record {
  rowid = 7;
  source = "csn";
  item_id = "1";
  extracted_title = none;
  extracted_contents = none;
  summary = none;
  url = none;
  event_key = none;
  type = none;
  subtype = none;
  policy = none;
  source_date_time = some "2024-01-01T00:00:00";
}

abbrev watched_db : Db
watched_db = record empty {
  items = item ∷ [];
  dispatcher_state = record { consumer = "mq"; last_seen_rowid = 3 } ∷ [];
}

abbrev armed_db : Db
armed_db = record watched_db {
  trigger_dispatches = record { consumer = "mq"; source = "csn"; item_id = "1" } ∷ [];
}

abbrev handlers : List Handler
handlers =
    record { name = "publish"; run = λ i. some "broker down" }
    ∷ record { name = "log"; run = λ i. none }
    ∷ []

-- Every text is a date with a zone, or none is.
abbrev zoned : Parse
zoned s = aware 5

abbrev unzoned : Parse
unzoned s = naive

discovered : (db : Db) × (discover_new_items zoned 60 "mq" (some 1) watched_db ≡ (db, ok 1))
unfolding discover_new_items radiobeacon.Dispatcher.Discover.last_seen_rowid
discovered = (_, refl)

discover_once_example :
    discover_new_items zoned 61 "mq" (some 1) discovered.0 ≡ (discovered.0, ok 0)
discover_once_example =
    discover_once zoned 60 61 "mq" (some 1) 1 watched_db discovered.0 discovered.1

dispatch_once_example :
    dispatch_due_items 61 "mq" handlers (dispatch_due_items 60 "mq" handlers armed_db).1
    ≡ (0, (dispatch_due_items 60 "mq" handlers armed_db).1)
dispatch_once_example = dispatch_once 60 61 "mq" handlers armed_db

naive_wedges_example :
    check_for_new_items unzoned 60 "mq" handlers (some 1) watched_db
    ≡ (watched_db, raised type_error)
unfolding radiobeacon.Dispatcher.Discover.watermark radiobeacon.Dispatcher.Discover.new_items
naive_wedges_example =
    naive_wedges unzoned 60 "mq" handlers 1 3 watched_db item [] "2024-01-01T00:00:00" refl refl
      refl refl refl

-- The recorded policy of the item is another one.
abbrev drifted_db : Db
drifted_db = record watched_db {
  item_policy_state =
      record { consumer = "mq"; source = "csn"; item_id = "1"; policy = some "fast" } ∷ [];
}

sync_once_example :
    sync_policy_changes 61 "mq" (sync_policy_changes 60 "mq" drifted_db).1
    ≡ (0, (sync_policy_changes 60 "mq" drifted_db).1)
sync_once_example = sync_once 60 61 "mq" drifted_db (refl, tt)

-- A form that was left blank.
abbrev blank : Fields
blank = record {
  extracted_title = none;
  extracted_contents = none;
  summary = none;
  url = none;
  event_key = none;
  type = none;
  subtype = none;
  policy = none;
  source_date_time = none;
}

abbrev seen_db : Db
seen_db = record watched_db {
  dispatcher_state = record { consumer = "mq"; last_seen_rowid = 7 } ∷ [];
}

recreated_missed_example :
    let created = (create_item 61 "csn" "2" blank (delete_item 60 "csn" "1" seen_db).1).0 in
    (exists (is_item "csn" "2") created.items ≡ true)
    × (discover_new_items zoned 62 "mq" (some 1) created ≡ (created, ok 0))
unfolding radiobeacon.Dispatcher.Discover.watermark radiobeacon.Database.max_rowid
recreated_missed_example =
    recreated_missed zoned 60 61 62 "mq" "csn" "1" "csn" "2" blank (some 1) 7 seen_db refl refl refl
      (omega arith) refl

delete_item-IsSilent_example : IsSilent "csn" "1" (delete_item 60 "csn" "1" armed_db).1
delete_item-IsSilent_example = delete_item-IsSilent 60 "csn" "1" armed_db
