-- ===== src/Beacon/Drain/Rows.antt =====
-- The rows that a pass of `_drain_kind` reads.
use radiobeacon.Common.{
  String, ◌≡◌, refl, ◌∙◌, Bool, true, false, none, List, [], ◌∷◌, arith, eq_iff, exists, find_row,
  select, All, Distinct,
}
use radiobeacon.Common.Sort.{
  Single, find_row-order_by, All-order_by, All-select, find_row-select, Distinct-select,
  Distinct-order_by,
}
use radiobeacon.Database.{Db, TxRow}
use radiobeacon.Schedule.{is_unit, same_unit, of_kind, created, due_tx_schedule_rows}
use radiobeacon.Beacon.Drain.Fate.{same_unit_symmetric}

-- A table with the primary key has one row at most for a unit.
Distinct-Single :
    (x : TxRow) (rows : List TxRow)
    → Distinct same_unit rows
    → Single (is_unit x.source x.item_id x.kind x.ref) rows
Distinct-Single x [] d = tt
Distinct-Single x (r ∷ rs) d = (λ hit. alone r rs hit d.0, Distinct-Single x rs d.1)
  where
    alone :
        (r : TxRow) (rs : List TxRow)
        → is_unit x.source x.item_id x.kind x.ref r ≡ true
        → exists (same_unit r) rs ≡ false
        → exists (is_unit x.source x.item_id x.kind x.ref) rs ≡ false
    alone r [] hit h = refl
    alone r (y ∷ rs) hit h = ground (
      arith,
      alone r rs hit,
      eq_iff r.source x.source,
      eq_iff r.item_id x.item_id,
      eq_iff r.kind x.kind,
      eq_iff r.ref x.ref,
      eq_iff y.source x.source,
      eq_iff y.item_id x.item_id,
      eq_iff y.kind x.kind,
      eq_iff y.ref x.ref,
      eq_iff y.source r.source,
      eq_iff y.item_id r.item_id,
      eq_iff y.kind r.kind,
      eq_iff y.ref r.ref,
    )

kinds_of :
    (kind : String) (rows : List TxRow)
    → All (λ r. of_kind kind r ≡ true) rows
    → All (λ r. r.kind ≡ kind) rows
kinds_of kind [] a = tt
kinds_of kind (r ∷ rs) a = (ground (arith, a.0, eq_iff r.kind kind), kinds_of kind rs a.1)

pub due-kinds : (kind : String) (db : Db) → All (λ r. r.kind ≡ kind) (due_tx_schedule_rows kind db)
unfolding due_tx_schedule_rows
due-kinds kind db = kinds_of kind _ (
    All-order_by (λ r. of_kind kind r ≡ true) created (select (of_kind kind) db.beacon_tx_schedule)
      (All-select (of_kind kind) db.beacon_tx_schedule))

pub due-Distinct :
    (kind : String) (db : Db)
    → Distinct same_unit db.beacon_tx_schedule
    → Distinct same_unit (due_tx_schedule_rows kind db)
unfolding due_tx_schedule_rows
due-Distinct kind db d =
    Distinct-order_by same_unit same_unit_symmetric created _
      (Distinct-select same_unit (of_kind kind) db.beacon_tx_schedule d)

pub due-find_row :
    (x : TxRow) (db : Db)
    → Distinct same_unit db.beacon_tx_schedule
    → find_row (is_unit x.source x.item_id x.kind x.ref) (due_tx_schedule_rows x.kind db)
      ≡ find_row (is_unit x.source x.item_id x.kind x.ref) db.beacon_tx_schedule
unfolding due_tx_schedule_rows
due-find_row x db d =
    find_row-order_by (is_unit x.source x.item_id x.kind x.ref) created _
      (Distinct-Single x _ (Distinct-select same_unit (of_kind x.kind) db.beacon_tx_schedule d))
    ∙ find_row-select (of_kind x.kind) (is_unit x.source x.item_id x.kind x.ref)
        db.beacon_tx_schedule (λ y h. ground (arith, h))

pub exists-none :
    (p : TxRow → Bool) (rows : List TxRow) → find_row p rows ≡ none → exists p rows ≡ false
exists-none p [] h = refl
exists-none p (r ∷ rs) h = ground (arith, exists-none p rs, h)
