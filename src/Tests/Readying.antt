-- ===== src/Tests/Readying.antt =====
-- The publication of an item whose actions have finished.
use radiobeacon.Common.{◌≡◌, some, [], ◌∷◌, arith}
use radiobeacon.Database.{Db, AuditRow, empty}
use radiobeacon.Readiness.{find_settled_items, check_and_publish}
use radiobeacon.Readiness.Once.{publish_once}

abbrev chunked : AuditRow
chunked = record {
  event_type = "action.chunk.executed";
  actor = "chunk";
  source = some "csn";
  item_id = some "1";
  details = [];
  recorded_at = 40;
}

abbrev summarised : AuditRow
summarised = record chunked { event_type = "action.ai.executed"; actor = "ai"; recorded_at = 39 }

abbrev done_db : Db
done_db = record empty { audit_log = summarised ∷ chunked ∷ [] }

publish_once_example : find_settled_items (check_and_publish 40 "ready" done_db).1 ≡ []
publish_once_example = publish_once 40 "ready" done_db (omega arith, (omega arith, tt))
