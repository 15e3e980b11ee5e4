-- ===== src/Beacon/Drain/Pass.antt =====
-- What `_drain_kind` makes of the whole table, and how many of its rows it transmits.
use radiobeacon.Common.{
  ℕ, suc, ◌+◌, String, ◌≡◌, refl, sym, ap, ◌∙◌, subst, Bool, false, Option, none, some, List, [],
  ◌∷◌, arith, eq_iff, reaches, exists, find_row, select, All, Distinct, length, Distinct-delete,
  Distinct-update, inl, inr, Bool-cases,
}
use radiobeacon.Common.Result.{ok}
use radiobeacon.Common.Sort.{exists-order_by, not-exists-select}
use radiobeacon.Database.{Db, TxRow}
use radiobeacon.Schedule.{is_unit, same_unit, of_kind, created, bump, due_tx_schedule_rows}
use radiobeacon.Schedule.Keys.{HasKeys}
use radiobeacon.Cron.{World}
use radiobeacon.Policy.{Schedule}
use radiobeacon.Policy.Config.{SameConfig}
use radiobeacon.Beacon.Drain.{Transmit, sql_now, cap_of, turn, count, drain_rows, drain_kind}
use radiobeacon.Beacon.Drain.Rows.{due-kinds, due-Distinct, due-find_row, exists-none}
use radiobeacon.Beacon.Drain.Loop.{step, rows_other, rows_self}
use radiobeacon.Beacon.Drain.Fate.{
  IsCalm, Reads, is_due, fate, airs, settled, trans_config, turn-After,
}

-- A row that stands for a key.
abbrev key : String → String → String → String → TxRow
key source item_id kind ref = record {
  source = source;
  item_id = item_id;
  kind = kind;
  ref = ref;
  policy = none;
  sent_count = 0;
  last_transmitted_at = none;
  enqueued_event_id = none;
  created_at = 0;
  updated_at = 0;
}

module _ (w : World) (transmit : Transmit) (calm : IsCalm transmit) (kind : String) (now : ℕ)
    (db : Db) (sched : Option String → Schedule) (resolves : Reads w db sched) (stop : ℕ → Bool)
    (runs : (k : ℕ) → stop k ≡ false) where
  -- One pass for a kind, when the stop event is not set, every policy name resolves to a schedule whose cron can be evaluated, transmissions
  -- raise nothing and leave the schedule, the policies and the settings alone, and the table has
  -- its primary key: a row of the kind is gone if its count is spent, is as it was if it is not
  -- due, and otherwise counts one more airing stamped with the pass's instant, or is gone if that
  -- airing spends the count.
  pub drain_kind-fate :
      (x : TxRow)
      → HasKeys db
      → x.kind ≡ kind
      → find_row (is_unit x.source x.item_id x.kind x.ref) db.beacon_tx_schedule ≡ some x
      → find_row
          (is_unit x.source x.item_id x.kind x.ref)
          (drain_kind w transmit kind now stop db).0.beacon_tx_schedule
        ≡ fate w db now (sched x.policy) x
  unfolding drain_kind
  drain_kind-fate x keys k found =
      rows_self w transmit calm kind now db sched resolves stop runs 0 0 x
        (due_tx_schedule_rows kind db) db (record { policies = refl; settings = refl })
        (due-kinds kind db) (due-Distinct kind db keys)
        (ap (λ v. find_row (is_unit x.source x.item_id x.kind x.ref) (due_tx_schedule_rows v db))
            (sym k)
          ∙ due-find_row x db keys
          ∙ found)
        found

  settled-Distinct :
      (r : TxRow) (rows : List TxRow)
      → Distinct same_unit rows
      → Distinct same_unit (settled w db now (sched r.policy) kind r rows)
  settled-Distinct r rows d =
      let gone = Distinct-delete same_unit (is_unit r.source r.item_id kind r.ref) rows d in
      let bumped =
        Distinct-update same_unit (is_unit r.source r.item_id kind r.ref) (bump now (sql_now now))
          rows (λ x y. refl) (λ x y. refl) d in
      elim (Bool-cases (reaches r.sent_count (cap_of (sched r.policy)))) [
        | inl spent ↦ rw spent gone
        | inr live ↦ elim (Bool-cases (is_due w (sched r.policy) r now db)) [
          | inl due ↦ elim (Bool-cases (reaches (r.sent_count + 1) (cap_of (sched r.policy)))) [
            | inl last ↦ rw (live, due, last) gone
            | inr more ↦ rw (live, due, more) bumped
          ]
          | inr idle ↦ rw (live, idle) d
        ]
      ]

  -- What the loop keeps.
  rows-kept :
      (k n : ℕ) (rows : List TxRow) (at : Db)
      → SameConfig at db
      → Distinct same_unit at.beacon_tx_schedule
      → SameConfig (drain_rows w transmit kind now stop k n rows at).0 db
        × Distinct same_unit (drain_rows w transmit kind now stop k n rows at).0.beacon_tx_schedule
  unfolding drain_rows
  rows-kept k n [] at same d = (same, d)
  rows-kept k n (r ∷ rs) at same d =
      let a = turn-After w transmit calm kind now db sched resolves r at same in
      subst (λ o. SameConfig o.0 db × Distinct same_unit o.0.beacon_tx_schedule)
        (sym (step w transmit calm kind now db sched resolves stop runs k n r rs at same))
        (rows-kept (suc k) (count (airs w db now (sched r.policy) r) n) rs
          (turn w transmit kind now r at).0 (trans_config a.config same)
          (subst (Distinct same_unit) (sym a.table) (settled-Distinct r at.beacon_tx_schedule d)))

  pub drain_kind-kept :
      HasKeys db
      → SameConfig (drain_kind w transmit kind now stop db).0 db
        × HasKeys (drain_kind w transmit kind now stop db).0
  unfolding drain_kind
  drain_kind-kept keys =
      rows-kept 0 0 (due_tx_schedule_rows kind db) db (record { policies = refl; settings = refl })
        keys

  rows-count :
      (k n : ℕ) (rows : List TxRow) (at : Db)
      → SameConfig at db
      → (drain_rows w transmit kind now stop k n rows at).1
        ≡ ok (n + length (select (λ r. airs w db now (sched r.policy) r) rows))
  unfolding drain_rows
  rows-count k n [] at same = ap ok (omega arith)
  rows-count k n (r ∷ rs) at same =
      let a = turn-After w transmit calm kind now db sched resolves r at same in
      ap (λ o. o.1) (step w transmit calm kind now db sched resolves stop runs k n r rs at same)
      ∙ rows-count (suc k) (count (airs w db now (sched r.policy) r) n) rs
          (turn w transmit kind now r at).0 (trans_config a.config same)
      ∙ ap ok (elim (Bool-cases (airs w db now (sched r.policy) r)) [
        | inl hit ↦ rw hit (omega arith)
        | inr miss ↦ rw miss refl
      ])

  -- A pass raises nothing and returns the number of rows of its kind that are due and whose count
  -- is not spent, when the stop event is not set, every policy name resolves to a schedule whose cron can be evaluated, and transmissions
  -- raise nothing and leave the schedule, the policies and the settings alone.
  drain_kind-count :
      (drain_kind w transmit kind now stop db).1
      ≡ ok (length (select (λ r. airs w db now (sched r.policy) r) (due_tx_schedule_rows kind db)))
  unfolding drain_kind
  drain_kind-count =
      rows-count 0 0 (due_tx_schedule_rows kind db) db (record { policies = refl; settings = refl })
      ∙ ap ok (omega arith)

  -- A unit that no row of the pass stands for is found as before.
  unlisted :
      (x : TxRow)
      → exists (is_unit x.source x.item_id x.kind x.ref) (due_tx_schedule_rows kind db) ≡ false
      → find_row
          (is_unit x.source x.item_id x.kind x.ref)
          (drain_kind w transmit kind now stop db).0.beacon_tx_schedule
        ≡ find_row (is_unit x.source x.item_id x.kind x.ref) db.beacon_tx_schedule
  unfolding drain_kind
  unlisted x =
      rows_other w transmit calm kind now db sched resolves stop runs 0 0 x
        (due_tx_schedule_rows kind db) db (record { policies = refl; settings = refl })
        (due-kinds kind db)

  -- A pass leaves what is found under the key of a row of another kind as it was, when the stop
  -- event is not set, every policy name resolves to a schedule whose cron can be evaluated, and transmissions raise nothing and leave the
  -- schedule, the policies and the settings alone.
  drain_kind-other :
      (x : TxRow)
      → of_kind kind x ≡ false
      → find_row
          (is_unit x.source x.item_id x.kind x.ref)
          (drain_kind w transmit kind now stop db).0.beacon_tx_schedule
        ≡ find_row (is_unit x.source x.item_id x.kind x.ref) db.beacon_tx_schedule
  drain_kind-other x other = unlisted x (absent x _ other (due-kinds kind db))
    where
      absent :
          (x : TxRow) (rows : List TxRow)
          → of_kind kind x ≡ false
          → All (λ r. r.kind ≡ kind) rows
          → exists (is_unit x.source x.item_id x.kind x.ref) rows ≡ false
      absent x [] other a = refl
      absent x (r ∷ rs) other a =
          ground (arith, absent x rs other a.1, a.0, eq_iff r.kind x.kind, eq_iff x.kind kind)

  pub drain_kind-absent :
      (source item_id ref : String)
      → find_row (is_unit source item_id kind ref) db.beacon_tx_schedule ≡ none
      → find_row
          (is_unit source item_id kind ref)
          (drain_kind w transmit kind now stop db).0.beacon_tx_schedule
        ≡ none
  unfolding due_tx_schedule_rows
  drain_kind-absent source item_id ref gone =
      unlisted (key source item_id kind ref) (
        not_due source item_id ref
          (exists-none (is_unit source item_id kind ref) db.beacon_tx_schedule gone))
      ∙ gone
    where
      not_due :
          (source item_id ref : String)
          → exists (is_unit source item_id kind ref) db.beacon_tx_schedule ≡ false
          → exists (is_unit source item_id kind ref) (due_tx_schedule_rows kind db) ≡ false
      not_due source item_id ref out =
          exists-order_by (is_unit source item_id kind ref) created _
          ∙ not-exists-select (of_kind kind) (is_unit source item_id kind ref) db.beacon_tx_schedule
              out
