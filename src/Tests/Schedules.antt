-- ===== src/Tests/Schedules.antt =====
-- The schedule table, the settings table and cron on small tables.
use radiobeacon.Common.{false, none, some, List, [], ◌∷◌, pos}
use radiobeacon.Database.{Db, empty}
use radiobeacon.Schedule.Keys.{Write}

writes : List Write
writes =
    Write.add 5 "csn" "2" "voice" "" none none (some (pos 3))
    ∷ Write.add 6 "csn" "2" "voice" "" none none none
    ∷ Write.sent 7000000 7 "csn" "1" "voice" "" false
    ∷ []

abbrev set_db : Db
set_db = record empty {
  settings =
      record {
        key = "BEACON_TYPE";
        value = some "frame";
        is_secret = false;
        updated_at = 1;
        updated_by = "ui";
      }
      ∷ [];
}
