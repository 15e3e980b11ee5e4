-- ===== src/Beacon/Drain/Loop.antt =====
-- The loop of `_drain_kind`, row by row.
use radiobeacon.Common.{
  ℕ, suc, String, ◌≡◌, refl, sym, ap, ◌∙◌, subst, Bool, false, Option, some, List, [], ◌∷◌, arith,
  exists, find_row, All, Distinct, inl, inr, Bool-cases,
}
use radiobeacon.Database.{Db, TxRow}
use radiobeacon.Schedule.{is_unit, same_unit}
use radiobeacon.Cron.{World}
use radiobeacon.Policy.{Schedule}
use radiobeacon.Policy.Config.{SameConfig}
use radiobeacon.Beacon.Drain.{Transmit, turn, count, drain_rows, after_turn}
use radiobeacon.Beacon.Drain.Fate.{
  IsCalm, Reads, fate, airs, settled, neither, trans_config, not_again, turn-After, settled_other,
  settled_self,
}

module _ (w : World) (transmit : Transmit) (calm : IsCalm transmit) (kind : String) (now : ℕ)
    (db0 : Db) (sched : Option String → Schedule) (resolves : Reads w db0 sched) (stop : ℕ → Bool)
    (runs : (k : ℕ) → stop k ≡ false) where
  -- One turn of the loop.
  pub step :
      (k n : ℕ) (r : TxRow) (rs : List TxRow) (db : Db)
      → SameConfig db db0
      → drain_rows w transmit kind now stop k n (r ∷ rs) db
        ≡ drain_rows w transmit kind now stop
            (suc k)
            (count (airs w db0 now (sched r.policy) r) n)
            rs
            (turn w transmit kind now r db).0
  unfolding drain_rows after_turn
  step k n r rs db same =
      let a = turn-After w transmit calm kind now db0 sched resolves r db same in
      rw (runs k, after_turn, a.sent) refl

  pub rows_other :
      (k n : ℕ) (x : TxRow) (rows : List TxRow) (db : Db)
      → SameConfig db db0
      → All (λ r. r.kind ≡ kind) rows
      → exists (is_unit x.source x.item_id x.kind x.ref) rows ≡ false
      → find_row
          (is_unit x.source x.item_id x.kind x.ref)
          (drain_rows w transmit kind now stop k n rows db).0.beacon_tx_schedule
        ≡ find_row (is_unit x.source x.item_id x.kind x.ref) db.beacon_tx_schedule
  unfolding drain_rows
  rows_other k n x [] db same kinds out = refl
  rows_other k n x (r ∷ rs) db same kinds out =
      let a = turn-After w transmit calm kind now db0 sched resolves r db same in
      let (missed, later) = neither (is_unit x.source x.item_id x.kind x.ref r) _ out in
      ap (λ o. find_row (is_unit x.source x.item_id x.kind x.ref) o.0.beacon_tx_schedule)
        (step k n r rs db same)
      ∙ rows_other (suc k) (count (airs w db0 now (sched r.policy) r) n) x rs
          (turn w transmit kind now r db).0 (trans_config a.config same) kinds.1 later
      ∙ ap (find_row (is_unit x.source x.item_id x.kind x.ref)) a.table
      ∙ settled_other w transmit calm kind now db0 sched resolves r x db.beacon_tx_schedule kinds.0
          missed

  -- The row of the loop's list that is `x`.
  pub rows_self :
      (k n : ℕ) (x : TxRow) (rows : List TxRow) (db : Db)
      → SameConfig db db0
      → All (λ r. r.kind ≡ kind) rows
      → Distinct same_unit rows
      → find_row (is_unit x.source x.item_id x.kind x.ref) rows ≡ some x
      → find_row (is_unit x.source x.item_id x.kind x.ref) db.beacon_tx_schedule ≡ some x
      → find_row
          (is_unit x.source x.item_id x.kind x.ref)
          (drain_rows w transmit kind now stop k n rows db).0.beacon_tx_schedule
        ≡ fate w db0 now (sched x.policy) x
  rows_self k n x [] db same kinds distinct listed found = absurd (cc listed)
  rows_self k n x (r ∷ rs) db same kinds distinct listed found =
      let a = turn-After w transmit calm kind now db0 sched resolves r db same in
      ap (λ o. find_row (is_unit x.source x.item_id x.kind x.ref) o.0.beacon_tx_schedule)
        (step k n r rs db same)
      ∙ elim (Bool-cases (is_unit x.source x.item_id x.kind x.ref r)) [
        | inl hit ↦
            let here : r ≡ x = ground (arith, hit, listed) in
            let gone : exists (is_unit x.source x.item_id x.kind x.ref) rs ≡ false =
              not_again r x rs here distinct.0 in
            rows_other (suc k) (count (airs w db0 now (sched r.policy) r) n) x rs
              (turn w transmit kind now r db).0 (trans_config a.config same) kinds.1 gone
            ∙ ap (find_row (is_unit x.source x.item_id x.kind x.ref)) a.table
            ∙ subst
                (λ y.
                  find_row (is_unit x.source x.item_id x.kind x.ref)
                    (settled w db0 now (sched y.policy) kind y db.beacon_tx_schedule)
                  ≡ fate w db0 now (sched x.policy) x)
                (sym here)
                (settled_self w transmit calm kind now db0 sched resolves x db.beacon_tx_schedule
                  (subst (λ y. y.kind ≡ kind) here kinds.0) found)
        | inr miss ↦
            rows_self (suc k) (count (airs w db0 now (sched r.policy) r) n) x rs
              (turn w transmit kind now r db).0 (trans_config a.config same) kinds.1 distinct.1
              (ground (arith, miss, listed))
              (ap (find_row (is_unit x.source x.item_id x.kind x.ref)) a.table
                ∙ settled_other w transmit calm kind now db0 sched resolves r x
                    db.beacon_tx_schedule kinds.0 miss
                ∙ found)
      ]
