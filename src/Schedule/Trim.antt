-- ===== src/Schedule/Trim.antt =====
-- The size limit of the queue: `max_size` of `add_tx_schedule_unit`.
use mathlib.Core.List.{reverse}
use radiobeacon.Common.{
  ℕ, suc, ◌≤◌, String, ◌≡◌, refl, ◌∙◌, true, false, not, ◌&&◌, Option, some, List, [], ◌∷◌, ◌++◌,
  update, Distinct, pos, arith, str_eq, eq_iff, exists, select, delete, length, order_by,
  length-take-le, length-select-matching, inl, inr, Bool-cases,
}
use radiobeacon.Database.{Db, TxRow}
use radiobeacon.Schedule.{
  is_unit, same_unit, of_kind, created, reset, upsert, newest, trim, add_tx_schedule_unit,
}
use radiobeacon.Schedule.Keys.{HasKeys, upsert-Distinct}

meet : (x y k : TxRow) → same_unit x k ≡ true → same_unit y k ≡ true → same_unit x y ≡ true
meet x y k p q = ground (
  arith,
  eq_iff x.source k.source,
  eq_iff y.source k.source,
  eq_iff x.source y.source,
  eq_iff x.item_id k.item_id,
  eq_iff y.item_id k.item_id,
  eq_iff x.item_id y.item_id,
  eq_iff x.kind k.kind,
  eq_iff y.kind k.kind,
  eq_iff x.kind y.kind,
  eq_iff x.ref k.ref,
  eq_iff y.ref k.ref,
  eq_iff x.ref y.ref,
)

-- The rows of the kind that a trim leaves are among those that match a kept row.
left_match :
    (kind : String) (kept rows : List TxRow)
    → length (
        select
          (of_kind kind)
          (delete (λ r. of_kind kind r && not (exists (same_unit r) kept)) rows))
      ≤ length (select (λ r. exists (same_unit r) kept) rows)
left_match kind kept [] = omega arith
left_match kind kept (r ∷ rs) = ground (arith, left_match kind kept rs)

other_left :
    (kind other : String) (kept rows : List TxRow)
    → str_eq kind other ≡ false
    → select (of_kind other) (delete (λ r. of_kind kind r && not (exists (same_unit r) kept)) rows)
      ≡ select (of_kind other) rows
other_left kind other kept [] h = refl
other_left kind other kept (r ∷ rs) h = ground (
  arith,
  other_left kind other kept rs h,
  eq_iff r.kind kind,
  eq_iff r.kind other,
  eq_iff kind other,
)

trim_bounded :
    (kind : String) (n : ℕ) (rows : List TxRow)
    → Distinct same_unit rows
    → length (select (of_kind kind) (trim kind n rows)) ≤ n
unfolding trim newest
trim_bounded kind n rows d =
    let kept : List TxRow = newest kind n rows in
    omega (
      arith,
      left_match kind kept rows,
      length-select-matching same_unit meet kept rows d,
      length-take-le n (reverse (order_by created (select (of_kind kind) rows))),
    )

select-append_other :
    (other : String) (rows : List TxRow) (r : TxRow)
    → str_eq r.kind other ≡ false
    → select (of_kind other) (rows ++ r ∷ []) ≡ select (of_kind other) rows
select-append_other other [] r h = ground arith
select-append_other other (x ∷ rs) r h = ground (arith, select-append_other other rs r h)

select-update_other :
    (source item_id kind ref other : String) (f : TxRow → TxRow) (rows : List TxRow)
    → str_eq kind other ≡ false
    → ((r : TxRow) → (f r).kind ≡ r.kind)
    → select (of_kind other) (update (is_unit source item_id kind ref) f rows)
      ≡ select (of_kind other) rows
select-update_other source item_id kind ref other f [] h k = refl
select-update_other source item_id kind ref other f (r ∷ rs) h k = ground (
  arith,
  select-update_other source item_id kind ref other f rs h k,
  k r,
  eq_iff r.kind kind,
  eq_iff kind other,
  eq_iff (f r).kind other,
  eq_iff r.kind other,
)

upsert_other :
    (now : ℕ) (source item_id kind ref other : String) (policy event_id : Option String)
    (rows : List TxRow)
    → str_eq kind other ≡ false
    → select (of_kind other) (upsert now source item_id kind ref policy event_id rows)
      ≡ select (of_kind other) rows
unfolding upsert
upsert_other now source item_id kind ref other policy event_id rows h =
    elim (Bool-cases (exists (is_unit source item_id kind ref) rows)) [
      | inl old ↦ rw old (
          select-update_other source item_id kind ref other (reset now policy event_id) rows h
            (λ r. refl))
      | inr new ↦ rw new (select-append_other other rows _ h)
    ]

trim_other :
    (kind other : String) (n : ℕ) (rows : List TxRow)
    → str_eq kind other ≡ false
    → select (of_kind other) (trim kind n rows) ≡ select (of_kind other) rows
unfolding trim
trim_other kind other n rows h = other_left kind other (newest kind n rows) rows h

-- With a positive `max_size`, an added unit leaves at most that many rows of its kind, and the rows
-- of every other kind are the ones that the insertion alone leaves.
add_bounded :
    (now n : ℕ) (source item_id kind ref other : String) (policy event_id : Option String) (db : Db)
    → HasKeys db
    → str_eq kind other ≡ false
    → let db' : Db =
        add_tx_schedule_unit now source item_id kind ref policy event_id (some (pos (suc n))) db in
      (length (select (of_kind kind) db'.beacon_tx_schedule) ≤ suc n)
      × (select (of_kind other) db'.beacon_tx_schedule
          ≡ select (of_kind other) db.beacon_tx_schedule)
unfolding add_tx_schedule_unit
add_bounded now n source item_id kind ref other policy event_id db d ne = (
  trim_bounded kind (suc n) _
      (upsert-Distinct now source item_id kind ref policy event_id db.beacon_tx_schedule d),
  trim_other kind other (suc n) _ ne
      ∙ upsert_other now source item_id kind ref other policy event_id db.beacon_tx_schedule ne,
)
