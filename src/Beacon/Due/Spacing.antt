-- ===== src/Beacon/Due/Spacing.antt =====
-- How far apart the airings of one row are.
use radiobeacon.Common.{
  ℕ, ◌+◌, ◌*◌, ◌/◌, ◌<◌, ◌≤◌, String, ◌≡◌, refl, true, false, none, some, arith, leb, pos,
}
use radiobeacon.Common.Text.{strip}
use radiobeacon.Common.Result.{ok}
use radiobeacon.Database.{Db, once, interval, cron, TxRow}
use radiobeacon.Schedule.{second, bump}
use radiobeacon.Cron.{World, Documented, display_tz, latest_fire_at_or_before}
use radiobeacon.Cron.Boundary.{latest_fire_window}
use radiobeacon.Policy.{Schedule, or_empty}
use radiobeacon.Beacon.Due.{transmit_due}

-- Right after an airing at `t`, an interval row with a spacing of `i` seconds is due again exactly
-- from `t` plus the spacing on.
pub interval_spacing :
    (w : World) (sched : Schedule) (i : ℕ) (r : TxRow) (t sec now : ℕ) (db : Db)
    → sched.kind ≡ interval
    → sched.interval_seconds ≡ pos i
    → transmit_due w sched (bump t sec r) now db ≡ ok (leb (t + i * second) now)
unfolding transmit_due
interval_spacing w sched i r t sec now db k e = rw (k, e) refl

-- A `once` row is due exactly until its first airing, at whatever time.
pub once_is_final :
    (w : World) (sched : Schedule) (r : TxRow) (t sec now : ℕ) (db : Db)
    → sched.kind ≡ once
    → transmit_due w sched (bump t sec r) now db ≡ ok false
unfolding transmit_due
once_is_final w sched r t sec now db k = rw k refl

-- A cron occurrence `o` makes a row due twice: asked less than a second before `o`, the row is due
-- and, aired then, it is due again at any instant from `o` up to a second before the next
-- occurrence. Both airings are for the one slot `o`.
cron_airs_twice :
    (w : World) (Occurs : String → String → ℕ → Type 0) (sched : Schedule) (r : TxRow) (tz : String)
    (o early late sec : ℕ) (db : Db) {first again : ℕ}
    → sched.kind ≡ cron
    → Documented w.croniter Occurs
    → display_tz w db ≡ ok tz
    → Occurs tz (strip (or_empty sched.cron)) o
    → ((t : ℕ) → Occurs tz (strip (or_empty sched.cron)) t → t < late + second → t ≤ o)
    → latest_fire_at_or_before w (or_empty sched.cron) early db ≡ ok (some first)
    → latest_fire_at_or_before w (or_empty sched.cron) late db ≡ ok (some again)
    → early < o
    → o < early + second
    → o ≤ late
    → r.last_transmitted_at ≡ none
    → r.created_at ≤ o / second
    → (first ≡ o)
      × (again ≡ o)
      × (transmit_due w sched r early db ≡ ok true)
      × (transmit_due w sched (bump early sec r) late db ≡ ok true)
unfolding transmit_due
cron_airs_twice w Occurs sched r tz o early late sec db {first} {again} k doc zone occurs only f a
      lt near after fresh created =
    let x =
      latest_fire_window w Occurs (or_empty sched.cron) tz early o db doc f zone occurs near in
    let y =
      latest_fire_window w Occurs (or_empty sched.cron) tz late o db doc a zone occurs
        (omega arith) in
    let p : first ≡ o = omega (arith, x.1, x.2, only first x.0) in
    let q : again ≡ o = omega (arith, y.1, y.2, only again y.0) in
    (p, q, rw (k, f, p, fresh) (ground arith), rw (k, a, q) (ground arith))

-- A cron row aired at `t` is not due at `now` while no occurrence lies after `t` and before one second
-- after `now`, given that some occurrence lies before that bound.
cron_waits :
    (w : World) (Occurs : String → String → ℕ → Type 0) (sched : Schedule) (r : TxRow) (tz : String)
    (o t sec now : ℕ) (db : Db) {occ : ℕ}
    → sched.kind ≡ cron
    → Documented w.croniter Occurs
    → display_tz w db ≡ ok tz
    → Occurs tz (strip (or_empty sched.cron)) o
    → o < now + second
    → ((x : ℕ) → Occurs tz (strip (or_empty sched.cron)) x → x < now + second → x ≤ t)
    → latest_fire_at_or_before w (or_empty sched.cron) now db ≡ ok (some occ)
    → transmit_due w sched (bump t sec r) now db ≡ ok false
unfolding transmit_due
cron_waits w Occurs sched r tz o t sec now db {occ} k doc zone occurs near none_after f =
    let x = latest_fire_window w Occurs (or_empty sched.cron) tz now o db doc f zone occurs near in
    rw (k, f) (ground (arith, none_after occ x.0, x.1))
