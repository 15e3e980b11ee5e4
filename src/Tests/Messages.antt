-- ===== src/Tests/Messages.antt =====
-- The operator's messages and the beacon's status.
use radiobeacon.Common.{refl, none, [], ◌∷◌}
use radiobeacon.Database.{Db, ManualRow, empty}
use radiobeacon.Manual.{ManualTransmit}
use radiobeacon.Manual.Drained.{LeavesQueue}

abbrev send : ManualTransmit
send r db = (db, none)

send-LeavesQueue : LeavesQueue send
send-LeavesQueue = record { silent = λ r db. refl; queue = λ r db. refl }

abbrev message : ManualRow
message = record { id = 4; kind = "voice"; text = "test"; actor = "op"; created_at = 1 }

abbrev queue_db : Db
queue_db = record empty {
  beacon_manual_tx =
      message ∷ record message { id = 2 } ∷ record message { id = 3; kind = "frame" } ∷ [];
}
