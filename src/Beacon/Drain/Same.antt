-- ===== src/Beacon/Drain/Same.antt =====
-- Two transmissions that do the same on the tables at hand make the same of a pass.
use radiobeacon.Common.{
  ℕ, suc, ◌+◌, String, ◌≡◌, refl, ap, ◌∙◌, Bool, true, false, Option, none, some, List, [], ◌∷◌, ℤ,
  inl, inr, Bool-cases, reaches,
}
use radiobeacon.Common.Result.{Exception, Result, ok, raised}
use radiobeacon.Database.{Db, TxRow, Item, AdapterRow, SettingRow}
use radiobeacon.Schedule.{record_tx_schedule_sent, due_tx_schedule_rows}
use radiobeacon.Cron.{World}
use radiobeacon.Policy.{Schedule, policy_for}
use radiobeacon.Beacon.Due.{transmit_due}
use radiobeacon.Beacon.Drain.{
  Transmit, Turn, cap_of, after_transmit, record_retired, with_due, scheduled, with_policy, turn,
  after_turn, count, drain_rows, drain_kind,
}

-- What a transmission reads and no turn writes.
abbrev pub content : Db → List Item × List AdapterRow × List SettingRow
content db = (db.items, db.adapter_instances, db.settings)

module _ (w : World) (kind : String) (now : ℕ) (t t' : Transmit) (start : Db)
    (same : (r : TxRow) (db : Db) → content db ≡ content start → t r db ≡ t' r db)
    (kept : (r : TxRow) (db : Db)
      → content db ≡ content start
      → content (t r db).0 ≡ content db) where
  with_due-same :
      (cap : ℤ) (r : TxRow) (db : Db) (due : Result Bool)
      → content db ≡ content start
      → with_due t kind now cap r db due ≡ with_due t' kind now cap r db due
  unfolding with_due
  with_due-same cap r db (raised e) at = refl
  with_due-same cap r db (ok true) at = ap (after_transmit kind now cap r) (same r db at)
  with_due-same cap r db (ok false) at = refl

  policy-same :
      (r : TxRow) (db : Db) (sched : Result Schedule)
      → content db ≡ content start
      → with_policy w t kind now r db sched ≡ with_policy w t' kind now r db sched
  unfolding with_policy scheduled
  policy-same r db (raised e) at = refl
  policy-same r db (ok sched) at = elim (Bool-cases (reaches r.sent_count (cap_of sched))) [
    | inl spent ↦ rw spent refl
    | inr left ↦ rw left (with_due-same (cap_of sched) r db (transmit_due w sched r now db) at)
  ]

  after-content :
      (cap : ℤ) (r : TxRow) (out : Db × Option Exception)
      → content (after_transmit kind now cap r out).0 ≡ content out.0
  unfolding after_transmit record_tx_schedule_sent record_retired
  after-content cap r (db, some e) = refl
  after-content cap r (db, none) = elim (Bool-cases (reaches (r.sent_count + 1) cap)) [
    | inl retire ↦ rw retire refl
    | inr more ↦ rw more refl
  ]

  due-content :
      (cap : ℤ) (r : TxRow) (db : Db) (due : Result Bool)
      → content db ≡ content start
      → content (with_due t kind now cap r db due).0 ≡ content db
  unfolding with_due
  due-content cap r db (raised e) at = refl
  due-content cap r db (ok true) at = after-content cap r (t r db) ∙ kept r db at
  due-content cap r db (ok false) at = refl

  policy-content :
      (r : TxRow) (db : Db) (sched : Result Schedule)
      → content db ≡ content start
      → content (with_policy w t kind now r db sched).0 ≡ content db
  unfolding with_policy scheduled record_tx_schedule_sent record_retired
  policy-content r db (raised e) at = refl
  policy-content r db (ok sched) at = elim (Bool-cases (reaches r.sent_count (cap_of sched))) [
    | inl spent ↦ rw spent refl
    | inr left ↦ rw left (due-content (cap_of sched) r db (transmit_due w sched r now db) at)
  ]

  after_turn-same :
      (n : ℕ) (f g : ℕ → Db → Db × Result ℕ) (out : Turn)
      → ((m : ℕ) → f m out.0 ≡ g m out.0)
      → after_turn n f out ≡ after_turn n g out
  unfolding after_turn
  after_turn-same n f g (db, raised e) h = refl
  after_turn-same n f g (db, ok sent) h = h (count sent n)

  rows-same :
      (stop : ℕ → Bool) (k n : ℕ) (rows : List TxRow) (db : Db)
      → content db ≡ content start
      → drain_rows w t kind now stop k n rows db ≡ drain_rows w t' kind now stop k n rows db
  unfolding drain_rows turn
  rows-same stop k n [] db at = refl
  rows-same stop k n (r ∷ rows) db at = elim (Bool-cases (stop k)) [
    | inl stopped ↦ rw stopped refl
    | inr runs ↦ rw runs (
        after_turn-same n (λ m d. drain_rows w t kind now stop (suc k) m rows d)
          (λ m d. drain_rows w t' kind now stop (suc k) m rows d) (turn w t kind now r db)
          (λ m.
            rows-same stop (suc k) m rows (turn w t kind now r db).0
              (policy-content r db (policy_for w db r.policy) at ∙ at))
        ∙ ap (after_turn n (λ m d. drain_rows w t' kind now stop (suc k) m rows d))
            (policy-same r db (policy_for w db r.policy) at))
  ]

  pub drain_kind-same :
      (stop : ℕ → Bool) → drain_kind w t kind now stop start ≡ drain_kind w t' kind now stop start
  unfolding drain_kind
  drain_kind-same stop = rows-same stop 0 0 (due_tx_schedule_rows kind start) start refl
