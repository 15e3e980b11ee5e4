-- ===== src/Tests/Airings.antt =====
-- The transmit loop on a table with one voice unit and one frame.
use radiobeacon.Common.{ℕ, ◌≡◌, refl, some, List, [], ◌∷◌, find_row}
use radiobeacon.Common.Result.{raised, other_error}
use radiobeacon.Database.{Db, PolicyRow, cron}
use radiobeacon.Cron.{Croniter}
use radiobeacon.Schedule.{is_unit, bump}
use radiobeacon.Beacon.Drain.{drain_kind}
use radiobeacon.Beacon.Drain.Pass
use radiobeacon.Beacon.Drain.Budget
use radiobeacon.Tests.Data.{
  scheduled-HasKeys, minutely, default_row, world, voice_row, scheduled_db, sched, reads, air,
  air-IsCalm, never,
}

-- Ten seconds after the epoch.
abbrev now : ℕ
now = 10000000

drain_kind-fate_example :
    find_row
      (is_unit "csn" "1" "voice" "")
      (drain_kind world air "voice" now never scheduled_db).0.beacon_tx_schedule
    ≡ some (bump now 10 voice_row)
unfolding radiobeacon.Beacon.Due.transmit_due
drain_kind-fate_example =
    Pass.drain_kind-fate world air air-IsCalm "voice" now scheduled_db sched reads never (λ k. refl)
      voice_row scheduled-HasKeys refl refl

-- Passes every 100 seconds.
abbrev passes : List ℕ
passes = 100000000 ∷ 200000000 ∷ 300000000 ∷ []

-- A policy whose expression is valid and has no occurrence, and a row of it before another that is due.
abbrev impossible : Croniter
impossible = record minutely { get_prev = λ tz e b. raised other_error }

abbrev never_row : PolicyRow
never_row = record default_row {
  name = "never";
  transmit_kind = cron;
  transmit_cron = some "0 0 30 2 *";
}

abbrev blocked_db : Db
blocked_db = record scheduled_db {
  policies = default_row ∷ never_row ∷ [];
  beacon_tx_schedule = record voice_row { item_id = "0"; policy = some "never" } ∷ voice_row ∷ [];
}

-- Nothing is aired, and nothing is stamped.
blocked :
    drain_kind (record world { croniter = impossible }) air "voice" now never blocked_db
    ≡ (blocked_db, raised other_error)
unfolding drain_kind radiobeacon.Schedule.due_tx_schedule_rows radiobeacon.Policy.policy_for
    radiobeacon.Policy.resolve_policy radiobeacon.Policy.get_policy_object
    radiobeacon.Policy.row_to_policy radiobeacon.Beacon.Due.transmit_due
    radiobeacon.Cron.latest_fire_at_or_before radiobeacon.Cron.is_valid_cron
    radiobeacon.Cron.display_tz radiobeacon.Common.Text.strip
blocked = refl
