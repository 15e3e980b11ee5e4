-- ===== src/Beacon/Drain.antt =====
-- `_drain_kind`, `_record_retired` and `_purge_stale_rows` of beacon/src/beacon/__main__.py. What a
-- unit's transmission does (`KIND_TRANSMITTERS[kind]`) is a parameter of the loop here.
pub mod Fate
pub mod Loop
pub mod Rows
pub mod Pass
pub mod Budget
pub mod Same
use radiobeacon.Common.{
  ℕ, zero, suc, ◌+◌, ◌-◌, ◌/◌, String, Bool, true, false, Option, none, some, List, [], ◌∷◌, length,
  ℤ, pos, reaches, if◌then◌else◌,
}
use radiobeacon.Common.Result.{Exception, Result, ok, raised}
use radiobeacon.Database.{Db, TxRow, Value}
use radiobeacon.Database.Audit.{record_audit_event}
use radiobeacon.Schedule.{
  second, due_tx_schedule_rows, record_tx_schedule_sent, delete_stale_tx_schedule,
}
use radiobeacon.Cron.{World}
use radiobeacon.Policy.{Schedule, policy_for}
use radiobeacon.Beacon.Due.{transmit_due}

-- One transmission of a unit: the database after it, and the exception that it lets out, if any. The
-- result that the source's functions return is not used by the loop.
abbrev pub Transmit : Type 0
Transmit = TxRow → Db → Db × Option Exception

-- `datetime('now')` in a pass that looks at `now`: the second of the pass, though its transmissions take
-- time. It goes to `updated_at` and to the audit log.
abbrev pub sql_now : ℕ → ℕ
sql_now now = now / second

unfoldable pub record_retired : ℕ → TxRow → String → Db → Db
record_retired now r kind db =
    record_audit_event (sql_now now) "beacon.tx.retired" "beacon" (some r.source) (some r.item_id)
      (("kind", Value.text kind)
        ∷ ("ref", Value.text r.ref)
        ∷ ("sent_count", Value.num (r.sent_count + 1))
        ∷ [])
      db

-- `sched.count if sched.count is not None else 1`
abbrev pub cap_of : Schedule → ℤ
cap_of s = elim s.count [ none ↦ pos 1 | some n ↦ n ]

abbrev pub mark : ℕ → TxRow → String → Bool → Db → Db
mark now r kind retire db =
    record_tx_schedule_sent now (sql_now now) r.source r.item_id kind r.ref retire db

-- What one turn of the loop does with a row: the database after it, and whether it counts as an
-- attempt. What was written before an exception stays written.
abbrev pub Turn : Type 0
Turn = Db × Result Bool

after_transmit : String → ℕ → ℤ → TxRow → Db × Option Exception → Turn
after_transmit kind now cap r (db, some e) = (db, raised e)
after_transmit kind now cap r (db, none) =
    let retire = reaches (r.sent_count + 1) cap in
    let db' = mark now r kind retire db in
    (if retire then record_retired now r kind db' else db', ok true)

with_due : Transmit → String → ℕ → ℤ → TxRow → Db → Result Bool → Turn
unfolding after_transmit
with_due transmit kind now cap r db (raised e) = (db, raised e)
with_due transmit kind now cap r db (ok true) = after_transmit kind now cap r (transmit r db)
with_due transmit kind now cap r db (ok false) = (db, ok false)

scheduled : World → Transmit → String → ℕ → TxRow → Db → Schedule → Turn
unfolding with_due
scheduled w transmit kind now r db sched =
    if reaches r.sent_count (cap_of sched)
    then (record_retired now r kind (mark now r kind true db), ok false)
    else with_due transmit kind now (cap_of sched) r db (transmit_due w sched r now db)

with_policy : World → Transmit → String → ℕ → TxRow → Db → Result Schedule → Turn
unfolding scheduled
with_policy w transmit kind now r db (raised e) = (db, raised e)
with_policy w transmit kind now r db (ok sched) = scheduled w transmit kind now r db sched

pub turn : World → Transmit → String → ℕ → TxRow → Db → Turn
unfolding with_policy
turn w transmit kind now r db = with_policy w transmit kind now r db (policy_for w db r.policy)

abbrev pub count : Bool → ℕ → ℕ
count true n = suc n
count false n = n

-- An exception leaves the loop.
pub after_turn : ℕ → (ℕ → Db → Db × Result ℕ) → Turn → Db × Result ℕ
after_turn attempted next (db, raised e) = (db, raised e)
after_turn attempted next (db, ok sent) = next (count sent attempted) db

-- `stop` tells, for each turn of the loop, whether the stop event is set by then.
pub drain_rows :
    World → Transmit → String → ℕ → (ℕ → Bool) → ℕ → ℕ → List TxRow → Db → Db × Result ℕ
unfolding turn after_turn
drain_rows w transmit kind now stop k attempted [] db = (db, ok attempted)
drain_rows w transmit kind now stop k attempted (r ∷ rs) db =
    if stop k
    then (db, ok attempted)
    else after_turn attempted (λ n db'. drain_rows w transmit kind now stop (suc k) n rs db')
        (turn w transmit kind now r db)

-- The rows are read once, before the first turn.
unfoldable pub drain_kind : World → Transmit → String → ℕ → (ℕ → Bool) → Db → Db × Result ℕ
unfolding drain_rows
drain_kind w transmit kind now stop db =
    drain_rows w transmit kind now stop 0 0 (due_tx_schedule_rows kind db) db

stale_details : ℕ → ℤ → String → TxRow → List (String × Value)
stale_details now max_age kind r =
    ("kind", Value.text kind)
    ∷ ("ref", Value.text r.ref)
    ∷ ("updated_at", Value.num r.updated_at)
    ∷ ("age_seconds", Value.num (now / second - r.updated_at))
    ∷ ("max_age_seconds", Value.int max_age)
    ∷ []

audit_stale : ℕ → ℤ → String → List TxRow → Db → Db
unfolding stale_details
audit_stale now max_age kind [] db = db
audit_stale now max_age kind (r ∷ rs) db = audit_stale now max_age kind rs (
    record_audit_event (sql_now now) "beacon.tx.skipped_stale" "beacon" (some r.source)
      (some r.item_id) (stale_details now max_age kind r) db)

unfoldable pub purge_stale_rows : String → ℤ → ℕ → Db → ℕ × Db
unfolding audit_stale
purge_stale_rows kind max_age now db =
    let (stale, db') = delete_stale_tx_schedule kind max_age now db in
    (length stale, audit_stale now max_age kind stale db')
