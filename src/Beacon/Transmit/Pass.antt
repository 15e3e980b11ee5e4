-- ===== src/Beacon/Transmit/Pass.antt =====
-- A pass of the beacon with its own voice transmitter.
use radiobeacon.Common.{◌==◌, ℕ, String, ◌≡◌, Bool, false, Option, some}
use radiobeacon.Database.{Db, TxRow}
use radiobeacon.Schedule.{is_unit}
use radiobeacon.Schedule.Keys.{HasKeys}
use radiobeacon.Common.{find_row}
use radiobeacon.Cron.{World}
use radiobeacon.Policy.{Schedule}
use radiobeacon.Beacon.Drain.{drain_kind}
use radiobeacon.Beacon.Drain.Fate.{Reads, fate}
use radiobeacon.Beacon.Drain.Pass.{drain_kind-fate}
use radiobeacon.Beacon.Transmit.{Studio, Context, transmit_voice_unit, transmitter}
use radiobeacon.Beacon.Transmit.Calm.{
  IsDated, IsSpeakable, calmed, calmed-IsCalm, transmitter-same, transmitter-content,
}
use radiobeacon.Beacon.Drain.Same.{drain_kind-same}

-- One pass of the beacon over its voice rows, whatever comes of each transmission (no call sign,
-- nothing to say, a failed synthesis, a clip that is not handed over): a row is gone if its count is
-- spent, is as it was if it is not due, and otherwise counts one more airing stamped with the pass's
-- instant, or is gone if that airing spends the count; when the stop event is not set, every policy
-- name resolves to a schedule whose cron can be evaluated, every date of an item can be read, has a time
-- zone and can be shown, no voice replacement has an empty key and each can be put in, the cap on the
-- spoken text is not 0, and the table has its primary key.
pub voice_pass-fate :
    (w : World) (s : Studio) (ctx : Context) (now : ℕ) (db : Db) (sched : Option String → Schedule)
    (stop : ℕ → Bool) (x : TxRow)
    → (ctx.voice_max_chars == 0) ≡ false
    → IsDated s db
    → IsSpeakable s db
    → Reads w db sched
    → ((k : ℕ) → stop k ≡ false)
    → HasKeys db
    → x.kind ≡ "voice"
    → find_row (is_unit x.source x.item_id x.kind x.ref) db.beacon_tx_schedule ≡ some x
    → find_row
        (is_unit x.source x.item_id x.kind x.ref)
        (drain_kind w
          (transmitter (transmit_voice_unit s ctx now))
          "voice"
          now
          stop
          db).0.beacon_tx_schedule
      ≡ fate w db now (sched x.policy) x
voice_pass-fate w s ctx now db sched stop x cap dates says reads runs keys kind found =
    let air = transmitter (transmit_voice_unit s ctx now) in
    rw
      (drain_kind-same w "voice" now air (calmed air) db
        (transmitter-same s ctx now cap db dates says)
        (transmitter-content s ctx now cap db dates says) stop)
      (drain_kind-fate w (calmed air) (calmed-IsCalm air) "voice" now db sched reads stop runs x
        keys kind found)
