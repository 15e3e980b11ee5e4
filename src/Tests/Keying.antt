-- ===== src/Tests/Keying.antt =====
-- The transmit monitor on a short log.
use radiobeacon.Common.{String, ◌≡◌, refl, true, false, List, some, none, [], ◌∷◌}
use radiobeacon.Database.{Db, empty}
use radiobeacon.Beacon.Monitor.{
  Files, Round, Monitor, starting, tx_state, monitor_round, read_lines, run_tx_monitor,
}
use radiobeacon.Beacon.Monitor.Agrees.{Agrees, shows_keyed, run_tx_monitor-Agrees}
use radiobeacon.Tests.Data.{world}

abbrev log_lines : List String
log_lines = "Tx1: Turning the transmitter ON" ∷ "Rx1: The squelch is OPEN" ∷ []

abbrev files_of : List String → Files
files_of lines = record { stat = λ path. some 7; opens = λ path. true; content = λ ino. lines }

-- The log is empty when it is opened.
abbrev opening : Round
opening = record { files = files_of []; monotonic = 1000000; isoformat = "12:00:00" }

abbrev keying : Round
keying = record { files = files_of log_lines; monotonic = 1500000; isoformat = "12:00:01" }

-- Six minutes later.
abbrev stuck : Round
stuck = record { files = files_of log_lines; monotonic = 361500000; isoformat = "12:06:01" }

abbrev after : List Round → Monitor × Db
after rounds = run_tx_monitor world.environ rounds starting empty

key_up : tx_state "Tx1: Turning the transmitter ON" ≡ some true
unfolding tx_state radiobeacon.Common.Text.starts_with
key_up = refl

shows_key_up : shows_keyed (after (opening ∷ keying ∷ [])).1 ≡ true
unfolding radiobeacon.Database.Status.get_beacon_status run_tx_monitor monitor_round
    radiobeacon.Common.Text.lower radiobeacon.Common.Text.strip
    radiobeacon.Database.Settings.get_setting radiobeacon.Beacon.Monitor.ensure_open read_lines
    radiobeacon.Beacon.Monitor.readlines tx_state radiobeacon.Beacon.Monitor.record_keyed
    radiobeacon.Database.Status.set_beacon_status radiobeacon.Common.Text.starts_with
shows_key_up = refl

takes_back : shows_keyed (after (opening ∷ keying ∷ stuck ∷ [])).1 ≡ false
unfolding radiobeacon.Database.Status.get_beacon_status run_tx_monitor monitor_round
    radiobeacon.Common.Text.lower radiobeacon.Common.Text.strip
    radiobeacon.Database.Settings.get_setting radiobeacon.Beacon.Monitor.ensure_open read_lines
    radiobeacon.Beacon.Monitor.readlines tx_state radiobeacon.Beacon.Monitor.record_keyed
    radiobeacon.Database.Status.set_beacon_status radiobeacon.Common.Text.starts_with
takes_back = refl

run_tx_monitor-Agrees_example :
    let before = after (opening ∷ []) in
    Agrees 1500000 (monitor_round world.environ keying before.0 before.1)
unfolding radiobeacon.Database.Status.get_beacon_status
run_tx_monitor-Agrees_example =
    run_tx_monitor-Agrees world.environ (opening ∷ []) keying starting empty refl
