-- ===== src/Beacon/Due.antt =====
-- `_transmit_due` of beacon/src/beacon/__main__.py.
pub mod Spacing
use radiobeacon.Common.{
  ℕ, suc, ◌+◌, ◌*◌, ◌/◌, Bool, true, false, Option, none, some, leb, ltb, ℤ, pos, negsuc,
}
use radiobeacon.Common.Result.{Result, ok, ◌>>=◌}
use radiobeacon.Database.{Db, Kind, once, interval, cron, other, TxRow}
use radiobeacon.Schedule.{second}
use radiobeacon.Cron.{World, latest_fire_at_or_before}
use radiobeacon.Policy.{Schedule, or_empty}

-- `now >= last + timedelta(seconds=i)`
abbrev pub elapsed : ℕ → ℕ → ℤ → Bool
elapsed now last (pos i) = leb (last + i * second) now
elapsed now last (negsuc i) = leb last (now + suc i * second)

-- `occ.isoformat() > since`, as texts. Against the ISO text of an airing the order of the texts is
-- that of the instants ("+" sorts before "."). Against SQLite's text of `created_at`, which is a
-- prefix of any ISO text of the same second, it is the order of the seconds, equal ones included.
abbrev pub text_after : ℕ → Option ℕ → ℕ → Bool
text_after occ (some last) created_at = ltb last occ
text_after occ none created_at = leb created_at (occ / second)

abbrev pub fires : Option ℕ → TxRow → Bool
fires none r = false
fires (some occ) r = text_after occ r.last_transmitted_at r.created_at

abbrev pub never_sent : TxRow → Bool
never_sent r = elim r.last_transmitted_at [ none ↦ true | some last ↦ false ]

abbrev pub spaced : ℕ → ℤ → Option ℕ → Bool
spaced now i none = true
spaced now i (some last) = elapsed now last i

-- A kind that the code does not know is treated as `once`.
abbrev pub due_as : World → Schedule → TxRow → ℕ → Db → Kind → Result Bool
due_as w sched r now db cron = do
  occ ← latest_fire_at_or_before w (or_empty sched.cron) now db
  ok (fires occ r)
due_as w sched r now db interval = ok (spaced now sched.interval_seconds r.last_transmitted_at)
due_as w sched r now db _ = ok (never_sent r)

unfoldable pub transmit_due : World → Schedule → TxRow → ℕ → Db → Result Bool
transmit_due w sched r now db = due_as w sched r now db sched.kind
