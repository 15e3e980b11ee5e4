-- ===== src/Beacon/Monitor.antt =====
-- beacon/src/beacon/tx_monitor.py: the thread that reads from SvxLink's log whether the transmitter is
-- keyed, and records it for the dashboard. The log files are a parameter, read once for each round of
-- the loop, as are the clocks; a line is seen when it is complete.
pub mod Agrees
use Prim.Native.Char.{Char, code}
use radiobeacon.Common.{
  ℕ, ◌+◌, ◌-◌, ◌==◌, String, Bool, true, false, not, ◌&&◌, ◌||◌, Option, none, some, List, [], ◌∷◌,
  ltb, leb, length, str_eq, if◌then◌else◌,
}
use radiobeacon.Common.Text.{strip, lower, starts_with}
use radiobeacon.Database.{Db}
use radiobeacon.Database.Settings.{Environ, get_setting}
use radiobeacon.Database.Status.{set_beacon_status}
use radiobeacon.Cron.{text_or}

-- The instants are microseconds of the monotonic clock.
abbrev pub heartbeat_interval : ℕ
heartbeat_interval = 2000000

abbrev pub max_keyed : ℕ
max_keyed = 300000000

-- `_TX_RE.search(line)`: the state in the first match, true for ON.
unfoldable pub tx_state : String → Option Bool
tx_state String.[] = none
tx_state (String.◌∷◌ c s) =
    let rest = tx_state s in
    if starts_with "Turning the transmitter ON" (String.◌∷◌ c s)
    then some true
    else if starts_with "Turning the transmitter OFF" (String.◌∷◌ c s)
    then some false
    else rest

-- A file that is open: its inode, and how many of its lines were read.
pub record Handle : Type 0 where
  pub ino : ℕ
  pub position : ℕ

pub record LogTail : Type 0 where
  pub path : String
  pub handle : Option Handle

-- The files as a round finds them: the inode of a path, whether it opens, and the lines of an inode.
pub record Files : Type 0 where
  pub stat : String → Option ℕ
  pub opens : String → Bool
  pub content : ℕ → List String

pub record Round : Type 0 where
  pub files : Files
  pub monotonic : ℕ
  pub isoformat : String

pub record Monitor : Type 0 where
  pub tail : LogTail
  pub active : Bool
  pub keyed : Bool
  pub keyed_since : ℕ
  pub last_heartbeat : ℕ

abbrev pub starting : Monitor
starting = record {
  tail = record { path = ""; handle = none };
  active = false;
  keyed = false;
  keyed_since = 0;
  last_heartbeat = 0;
}

close : LogTail → LogTail
close t = record t { handle = none }

-- A first open starts at the end of the file, an open after a rotation at its beginning.
start_of : Option Handle → List String → ℕ
start_of none lines = length lines
start_of (some h) lines = 0

is_open : ℕ → Option Handle → Bool
is_open ino none = false
is_open ino (some h) = h.ino == ino

found : Files → LogTail → Option ℕ → LogTail × Bool
unfolding close start_of is_open
found fs t none = (close t, false)
found fs t (some ino) =
    if is_open ino t.handle
    then (t, true)
    else if fs.opens t.path
    then (
      record t {
        handle = some (record { ino = ino; position = start_of t.handle (fs.content ino) });
      },
      true,
    )
    else (close t, false)

unfoldable pub ensure_open : Files → LogTail → LogTail × Bool
unfolding close found
ensure_open fs t =
    let opened = found fs t (fs.stat t.path) in
    if str_eq t.path "" then (close t, false) else opened

drop_lines : ℕ → List String → List String
drop_lines Prim.Native.Nat.zero lines = lines
drop_lines (Prim.Native.Nat.suc n) [] = []
drop_lines (Prim.Native.Nat.suc n) (l ∷ lines) = drop_lines n lines

-- The lines that were not read, and the tail behind them.
handle_lines : Files → LogTail → Option Handle → LogTail × List String
unfolding drop_lines
handle_lines fs t none = (t, [])
handle_lines fs t (some h) =
    let lines = drop_lines h.position (fs.content h.ino) in
    (record t { handle = some (record h { position = h.position + length lines }) }, lines)

unfoldable pub readlines : Files → LogTail → LogTail × List String
unfolding handle_lines
readlines fs t = handle_lines fs t t.handle

unfoldable pub record_keyed : String → Bool → Db → Db
record_keyed now true db =
    set_beacon_status "tx_keyed_at" (some now) (set_beacon_status "tx_keyed" (some "1") db)
record_keyed now false db =
    set_beacon_status "tx_unkeyed_at" (some now) (set_beacon_status "tx_keyed" (some "0") db)

abbrev same : Bool → Bool → Bool
same true b = b
same false b = not b

turned : Round → Option Bool → Monitor → Db → Monitor × Db
turned r none m db = (m, db)
turned r (some want) m db =
    if same want m.keyed
    then (m, db)
    else (record m { keyed = want; keyed_since = r.monotonic }, record_keyed r.isoformat want db)

unfoldable pub read_lines : Round → List String → Monitor → Db → Monitor × Db
unfolding turned
read_lines r [] m db = (m, db)
read_lines r (line ∷ lines) m db =
    let (m', db') = turned r (tx_state line) m db in read_lines r lines m' db'

-- A key-up that no key-down followed for too long is taken back.
watchdog : Round → Monitor × Db → Monitor × Db
watchdog r (m, db) =
    if m.keyed && ltb max_keyed (r.monotonic - m.keyed_since)
    then (record m { keyed = false }, record_keyed r.isoformat false db)
    else (m, db)

heartbeat : Round → Monitor × Db → Monitor × Db
heartbeat r (m, db) =
    if leb heartbeat_interval (r.monotonic - m.last_heartbeat)
    then (
      record m { last_heartbeat = r.monotonic },
      set_beacon_status "tx_monitor_heartbeat_at" (some r.isoformat) db,
    )
    else (m, db)

tailing : Round → Monitor → LogTail × List String → Db → Monitor × Db
unfolding watchdog heartbeat
tailing r m (tail, lines) db =
    heartbeat r (watchdog r (read_lines r lines (record m { tail = tail; active = true }) db))

dormant : Round → Monitor → Db → Monitor × Db
dormant r m db =
    if m.active || m.keyed
    then (
      record m { active = false; keyed = false },
      if m.keyed then record_keyed r.isoformat false db else db,
    )
    else (m, db)

opened : Round → Monitor → LogTail × Bool → Db → Monitor × Db
unfolding tailing dormant
opened r m (tail, false) db = dormant r (record m { tail = tail }) db
opened r m (tail, true) db = tailing r m (readlines r.files tail) db

-- The setting of another path closes the file.
on_path : String → Monitor → Monitor
on_path path m =
    if str_eq path m.tail.path
    then m
    else record m { tail = record { path = path; handle = none }; active = false }

-- A monitor that is switched off does not touch the file.
switched : Round → Bool → Monitor → Db → Monitor × Db
unfolding opened dormant
switched r false m db = dormant r m db
switched r true m db = opened r m (ensure_open r.files m.tail) db

monitor_enabled : Environ → Db → Bool
monitor_enabled environ db =
    str_eq
      (lower (
        strip
          (text_or "true" (get_setting environ true "BEACON_TX_MONITOR_ENABLED" (some "true") db))))
      "true"

log_path : Environ → Db → String
log_path environ db = strip (
    text_or "/var/log/svxlink"
      (get_setting environ true "BEACON_SVXLINK_LOG_PATH" (some "/var/log/svxlink") db))

-- One round of the loop of `run_tx_monitor`.
unfoldable pub monitor_round : Environ → Round → Monitor → Db → Monitor × Db
unfolding switched on_path monitor_enabled log_path
monitor_round environ r m db =
    switched r (monitor_enabled environ db) (on_path (log_path environ db) m) db

-- `run_tx_monitor`, round after round.
unfoldable pub run_tx_monitor : Environ → List Round → Monitor → Db → Monitor × Db
run_tx_monitor environ [] m db = (m, db)
run_tx_monitor environ (r ∷ rounds) m db =
    let (m', db') = monitor_round environ r m db in run_tx_monitor environ rounds m' db'
