-- ===== src/Beacon/Drain/Budget.antt =====
-- Passes of `_drain_kind` in a row: how often a unit goes on air in all.
use radiobeacon.Common.{
  ℕ, ◌+◌, ◌≤◌, String, ◌≡◌, refl, Bool, true, false, Option, none, some, List, [], ◌∷◌, arith, pos,
  find_row, ◌*◌, if◌then◌else◌,
}
use radiobeacon.Database.{Db, TxRow}
use radiobeacon.Schedule.{second, is_unit}
use radiobeacon.Schedule.Keys.{HasKeys}
use radiobeacon.Cron.{World}
use radiobeacon.Policy.{Schedule}
use radiobeacon.Beacon.Due.{spaced}
use radiobeacon.Beacon.Drain.{Transmit, drain_kind}
use radiobeacon.Beacon.Drain.Fate.{IsCalm, Reads, Reads-config, airs}
use radiobeacon.Beacon.Drain.Pass.{drain_kind-absent, drain_kind-kept}

-- Whether a pass at `now` transmits the row that stands for a unit.
abbrev aired_now : World → Db → ℕ → (Option String → Schedule) → Option TxRow → ℕ
aired_now w db now sched none = 0
aired_now w db now sched (some r) = if airs w db now (sched r.policy) r then 1 else 0

-- How many of the passes at the instants `nows` transmit a unit.
abbrev pub airings :
    World
    → Transmit
    → (ℕ → Bool)
    → (Option String → Schedule)
    → String
    → String
    → String
    → String
    → List ℕ
    → Db
    → ℕ
airings w transmit stop sched source item_id kind ref [] db = 0
airings w transmit stop sched source item_id kind ref (now ∷ nows) db =
    aired_now w db now sched (find_row (is_unit source item_id kind ref) db.beacon_tx_schedule)
    + airings w transmit stop sched source item_id kind ref nows
        (drain_kind w transmit kind now stop db).0

-- Passes at least `i` seconds apart, the first one too from an earlier airing.
abbrev pub Spaced : ℕ → Option ℕ → List ℕ → Type 0
Spaced i last [] = Unit
Spaced i none (now ∷ nows) = Spaced i (some now) nows
Spaced i (some last) (now ∷ nows) = (last + i * second ≤ now) × Spaced i (some now) nows

-- What the first pass of such a list finds.
abbrev IsReady : ℕ → Option ℕ → List ℕ → Type 0
IsReady i last [] = Unit
IsReady i last (now ∷ nows) = (spaced now (pos i) last ≡ true) × Spaced i (some now) nows

module _ (w : World) (transmit : Transmit) (calm : IsCalm transmit)
    (sched : Option String → Schedule) (stop : ℕ → Bool) (runs : (k : ℕ) → stop k ≡ false) where
  pub drain_kind-Reads :
      (kind : String) (now : ℕ) (db : Db)
      → Reads w db sched
      → HasKeys db
      → Reads w (drain_kind w transmit kind now stop db).0 sched
  drain_kind-Reads kind now db resolves keys =
      Reads-config w sched
        (drain_kind-kept w transmit calm kind now db sched resolves stop runs keys).0 resolves

  pub drain_kind-HasKeys :
      (kind : String) (now : ℕ) (db : Db)
      → Reads w db sched
      → HasKeys db
      → HasKeys (drain_kind w transmit kind now stop db).0
  drain_kind-HasKeys kind now db resolves keys =
      (drain_kind-kept w transmit calm kind now db sched resolves stop runs keys).1

  -- A unit with no row is not aired.
  pub airings-gone :
      (source item_id kind ref : String) (nows : List ℕ) (db : Db)
      → Reads w db sched
      → HasKeys db
      → find_row (is_unit source item_id kind ref) db.beacon_tx_schedule ≡ none
      → airings w transmit stop sched source item_id kind ref nows db ≡ 0
  airings-gone source item_id kind ref [] db resolves keys gone = refl
  airings-gone source item_id kind ref (now ∷ nows) db resolves keys gone = rw gone (
      omega (
        arith,
        airings-gone source item_id kind ref nows (drain_kind w transmit kind now stop db).0
            (drain_kind-Reads kind now db resolves keys)
            (drain_kind-HasKeys kind now db resolves keys)
            (drain_kind-absent w transmit calm kind now db sched resolves stop runs source item_id
              ref gone),
      ))
