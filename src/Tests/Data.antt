-- ===== src/Tests/Data.antt =====
-- A world with a cron that fires every minute, and small tables.
use radiobeacon.Common.{
  ℕ, ◌+◌, ◌-◌, ◌*◌, ◌/◌, ◌%◌, String, ◌≡◌, refl, Bool, true, false, Option, none, some, [], ◌∷◌,
  arith, pos,
}
use radiobeacon.Common.Result.{ok}
use radiobeacon.Database.{Db, PolicyRow, TxRow, interval, empty}
use radiobeacon.Cron.{Croniter, World, Documented}
use radiobeacon.Schedule.Keys.{HasKeys}
use radiobeacon.Policy.{Schedule, policy_for}
use radiobeacon.Policy.Resolution.{transmit_of, only_default}
use radiobeacon.Beacon.Drain.{Transmit}
use radiobeacon.Beacon.Drain.Fate.{Reads, IsCalm}

abbrev pub minutely : Croniter
minutely = record {
  is_valid = λ e. true;
  get_prev = λ tz e b. ok (((b - 1) / 60000000) * 60000000);
  get_next = λ tz e b. ok ((b / 60000000 + 1) * 60000000);
}

abbrev pub Minute : String → String → ℕ → Type 0
Minute tz e t = t % 60000000 ≡ 0

ok_eq : {a b : ℕ} → ok a ≡ ok b → a ≡ b
ok_eq e = cc

pub minutely-Documented : Documented minutely Minute
minutely-Documented = record {
  prev = λ tz e b t p is o lt.
      rw⁻¹ (ok_eq is) (omega (arith, o, lt), omega (arith, o, lt), omega (arith, o, lt));
  next = λ tz e b t p is o lt.
      rw⁻¹ (ok_eq is) (omega (arith, o, lt), omega (arith, o, lt), omega (arith, o, lt));
}

abbrev pub world : World
world = record { environ = λ key. none; croniter = minutely; zone_info = λ name. ok name }

-- Two airings, a minute apart.
abbrev pub default_row : PolicyRow
default_row = record {
  name = "default";
  fetch_kind = interval;
  fetch_interval_seconds = some (pos 10);
  fetch_cron = none;
  process_mode = "immediate";
  transmit_kind = interval;
  transmit_count = pos 2;
  transmit_interval_seconds = pos 60;
  transmit_cron = none;
  description = none;
}

abbrev pub voice_row : TxRow
voice_row = record {
  source = "csn";
  item_id = "1";
  kind = "voice";
  ref = "";
  policy = none;
  sent_count = 0;
  last_transmitted_at = none;
  enqueued_event_id = none;
  created_at = 1;
  updated_at = 1;
}

abbrev pub frame_row : TxRow
frame_row = record voice_row { kind = "frame"; ref = "0" }

abbrev pub scheduled_db : Db
scheduled_db = record empty {
  policies = default_row ∷ [];
  beacon_tx_schedule = frame_row ∷ voice_row ∷ [];
}

abbrev pub sched : Option String → Schedule
sched name = transmit_of default_row

resolves : (name : Option String) → policy_for world scheduled_db name ≡ ok (sched name)
resolves = only_default world scheduled_db default_row (pos 10) refl refl refl

pub reads : Reads world scheduled_db sched
reads name = (resolves name, λ k at. absurd (cc k))

pub scheduled-HasKeys : HasKeys scheduled_db
scheduled-HasKeys = (refl, (refl, tt))

-- A transmission that succeeds.
abbrev pub air : Transmit
air r db = (db, none)

pub air-IsCalm : IsCalm air
air-IsCalm = record {
  silent = λ r db. refl;
  schedule = λ r db. refl;
  config = λ r db. record { policies = refl; settings = refl };
}

abbrev pub never : ℕ → Bool
never k = false
