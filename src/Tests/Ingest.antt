-- ===== src/Tests/Ingest.antt =====
-- Scheduling of two items about one event.
use radiobeacon.Common.{
  ℕ, ◌≤◌, String, ◌≡◌, refl, Bool, true, false, Option, none, some, List, [], ◌∷◌, arith, exists,
  pos,
}
use radiobeacon.Common.Result.{ok}
use radiobeacon.Database.{Db, Item, TxRow, ReadyRow, empty}
use radiobeacon.Beacon.Enqueue.{older, handle_content_ready_event, resolve_beacon_type}
use radiobeacon.Beacon.Enqueue.Once.{handle-twice}
use radiobeacon.Beacon.Enqueue.Retire.{handle-retires_older}
use radiobeacon.Tests.Data.{world, voice_row}

abbrev old_item : Item
old_item = record {
  rowid = 1;
  source = "csn";
  item_id = "1";
  extracted_title = none;
  extracted_contents = none;
  summary = none;
  url = none;
  event_key = some "quake";
  type = none;
  subtype = none;
  policy = none;
  source_date_time = some "2024-01-01T00:00:00+00:00";
}

abbrev new_item : Item
new_item = record old_item {
  rowid = 2;
  item_id = "2";
  source_date_time = some "2024-01-02T00:00:00+00:00";
}

-- The older item is scheduled, the newer one is published.
abbrev event_db : Db
event_db = record empty {
  items = old_item ∷ new_item ∷ [];
  beacon_tx_schedule = voice_row ∷ [];
  item_readiness = record { source = "csn"; item_id = "2"; published_at = 50 } ∷ [];
}

handled :
    (db : Db) × (handle_content_ready_event world.environ 60 "csn" "2" (some "e1") event_db
      ≡ (db, ok tt))
unfolding handle_content_ready_event radiobeacon.Beacon.Enqueue.already_enqueued
    radiobeacon.Beacon.Enqueue.superseded_by_newer resolve_beacon_type radiobeacon.Common.Text.lower
    radiobeacon.Common.Text.strip radiobeacon.Database.Settings.get_setting
    radiobeacon.Common.Text.int radiobeacon.Beacon.Enqueue.retire_older_for_event_key
handled = (_, refl)

handle-retires_older_example :
    exists
      (older "csn" "2" "quake" (resolve_beacon_type world.environ event_db) event_db)
      handled.0.beacon_tx_schedule
    ≡ false
unfolding radiobeacon.Beacon.Enqueue.already_enqueued radiobeacon.Beacon.Enqueue.superseded_by_newer
    resolve_beacon_type radiobeacon.Common.Text.lower radiobeacon.Common.Text.strip
    radiobeacon.Database.Settings.get_setting
handle-retires_older_example =
    handle-retires_older world.environ 60 "csn" "2" "quake" (some "e1") event_db handled.0 refl refl
      refl refl handled.1

handle-twice_example :
    handle_content_ready_event world.environ 61 "csn" "2" (some "e1") handled.0 ≡ (handled.0, ok tt)
unfolding radiobeacon.Beacon.Enqueue.superseded_by_newer resolve_beacon_type
    radiobeacon.Common.Text.lower radiobeacon.Common.Text.strip
    radiobeacon.Database.Settings.get_setting
handle-twice_example =
    handle-twice world.environ 60 61 "csn" "2" "e1" event_db handled.0 refl refl handled.1

abbrev ready_row : ReadyRow
ready_row = record { source = "csn"; item_id = "2"; published_at = 50 }

-- The newer item is scheduled, the older one is published.
abbrev late_db : Db
late_db = record event_db {
  beacon_tx_schedule = record voice_row { item_id = "2" } ∷ [];
  item_readiness = record { source = "csn"; item_id = "1"; published_at = 50 } ∷ [];
}

abbrev late_row : ReadyRow
late_row = record { source = "csn"; item_id = "1"; published_at = 50 }
