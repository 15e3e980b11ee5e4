-- ===== src/Readings/Kept.antt =====
-- A stored item is never touched again, and storing a reading twice is storing it once.
use radiobeacon.Common.{
  ℕ, suc, String, ◌≡◌, refl, sym, ap, ◌∙◌, arith, true, Option, none, some, List, [], ◌∷◌, ◌++◌,
  append_assoc, append-nil, inl, inr, Bool-cases, exists, exists-append, length, length-append, All,
  eq_iff, subst,
}
use radiobeacon.Database.{Db, Item, is_item, max_rowid}
use radiobeacon.Readings.{
  Fetched, Reading, Dumps, new_row, insert_item, store_item, store_items, instance_policy, listed,
  store_reading,
}

-- The table after a step is the table before it and the new rows.
abbrev pub Grown : Db → Db × ℕ → Type 0
Grown db out = (new : List Item) × (out.0.items ≡ db.items ++ new) × (length new ≡ out.1)

unchanged : (db : Db) → Grown db (db, 0)
unchanged db = ([], sym (append-nil db.items), refl)

module _ (dumps : Dumps) (now : ℕ) (source : String) (default : Option String) where
  insert_item-Grown :
      (item_id : String) (f : Fetched) (db : Db)
      → Grown db (insert_item now source default item_id f db)
  unfolding insert_item
  insert_item-Grown item_id f db = elim (Bool-cases (exists (is_item source item_id) db.items)) [
    | inl known ↦ rw known (unchanged db)
    | inr fresh ↦ rw fresh (_, refl, refl)
  ]

  store_item-Grown :
      (id : Option String) (f : Fetched) (db : Db)
      → Grown db (store_item dumps now source default id f db)
  unfolding store_item
  store_item-Grown none f db = unchanged db
  store_item-Grown (some item_id) f db = elim (Bool-cases (dumps f)) [
    | inl good ↦ rw good (insert_item-Grown item_id f db)
    | inr bad ↦ rw bad (unchanged db)
  ]

  store_items-Grown :
      (fs : List Fetched) (db : Db) → Grown db (store_items dumps now source default fs db)
  unfolding store_items
  store_items-Grown [] db = unchanged db
  store_items-Grown (f ∷ fs) db =
      let step = store_item dumps now source default f.id f db in
      let (new, e, n) = store_item-Grown f.id f db in
      let (more, e', m) = store_items-Grown fs step.0 in
      (
        new ++ more,
        e' ∙ ap (λ items. items ++ more) e ∙ append_assoc db.items new more,
        omega (arith, length-append new more, n, m),
      )

-- Nothing that is stored is changed or removed: the items after `store_reading` are those before it
-- and, behind them, as many new ones as it returns.
store_reading-append :
    (dumps : Dumps) (now : ℕ) (reading : Reading) (db : Db)
    → Grown db (store_reading dumps now reading db)
unfolding store_reading
store_reading-append dumps now reading db =
    store_items-Grown dumps now reading.source (instance_policy reading.source db.adapter_instances)
      (listed reading.items_data) db

-- An item that a second pass has nothing to do for.
Settled : Dumps → String → Db → Fetched → Type 0
Settled dumps source db f =
    (item_id : String)
    → f.id ≡ some item_id
    → dumps f ≡ true
    → exists (is_item source item_id) db.items ≡ true

module _ (dumps : Dumps) (source : String) where
  insert_item-Settled :
      (now : ℕ) (default : Option String) (item_id : String) (f : Fetched) (db : Db)
      → exists (is_item source item_id) (insert_item now source default item_id f db).0.items ≡ true
  unfolding insert_item new_row
  insert_item-Settled now default item_id f db =
      elim (Bool-cases (exists (is_item source item_id) db.items)) [
        | inl known ↦ rw known known
        | inr fresh ↦ rw fresh (
            ground (
              arith,
              exists-append (is_item source item_id) db.items
                  (new_row (suc (max_rowid db.items)) source item_id default f ∷ []),
              eq_iff source source,
              eq_iff item_id item_id,
            ))
      ]

  Grown-exists :
      (db : Db) (out : Db × ℕ) (item_id : String)
      → Grown db out
      → exists (is_item source item_id) db.items ≡ true
      → exists (is_item source item_id) out.0.items ≡ true
  Grown-exists db out item_id (new, e, n) h =
      rw e (ground (arith, h, exists-append (is_item source item_id) db.items new))

  store_item-Settled :
      (now : ℕ) (default : Option String) (item_id : String) (f : Fetched) (db : Db)
      → dumps f ≡ true
      → exists
          (is_item source item_id)
          (store_item dumps now source default (some item_id) f db).0.items
        ≡ true
  unfolding store_item
  store_item-Settled now default item_id f db good =
      rw good (insert_item-Settled now default item_id f db)

  store_items-Settled :
      (now : ℕ) (default : Option String) (fs : List Fetched) (db : Db)
      → All (Settled dumps source (store_items dumps now source default fs db).0) fs
  unfolding store_items Settled
  store_items-Settled now default [] db = tt
  store_items-Settled now default (f ∷ fs) db =
      let step = store_item dumps now source default f.id f db in
      (
        λ item_id named good.
            Grown-exists step.0 (store_items dumps now source default fs step.0) item_id
              (store_items-Grown dumps now source default fs step.0)
              (subst
                (λ id.
                  exists (is_item source item_id)
                    (store_item dumps now source default id f db).0.items
                  ≡ true)
                (sym named) (store_item-Settled now default item_id f db good)),
        store_items-Settled now default fs step.0,
      )

  skip-item :
      (now : ℕ) (default id : Option String) (f : Fetched) (db : Db)
      → ((item_id : String)
          → id ≡ some item_id
          → dumps f ≡ true
          → exists (is_item source item_id) db.items ≡ true)
      → store_item dumps now source default id f db ≡ (db, 0)
  unfolding store_item insert_item
  skip-item now default none f db h = refl
  skip-item now default (some item_id) f db h = elim (Bool-cases (dumps f)) [
    | inl good ↦ rw good (rw (h item_id refl good) refl)
    | inr bad ↦ rw bad refl
  ]

  skip-items :
      (now : ℕ) (default : Option String) (fs : List Fetched) (db : Db)
      → All (Settled dumps source db) fs
      → store_items dumps now source default fs db ≡ (db, 0)
  unfolding store_items Settled
  skip-items now default [] db h = refl
  skip-items now default (f ∷ fs) db h =
      rw (skip-item now default f.id f db h.0) (rw (skip-items now default fs db h.1) refl)

-- Storing a reading again, at any time, stores nothing and changes nothing.
store_reading-twice :
    (dumps : Dumps) (now later : ℕ) (reading : Reading) (db : Db)
    → let db' = (store_reading dumps now reading db).0 in
      store_reading dumps later reading db' ≡ (db', 0)
unfolding store_reading
store_reading-twice dumps now later reading db =
    skip-items dumps reading.source later _ (listed reading.items_data) _ (
      store_items-Settled dumps reading.source now
        (instance_policy reading.source db.adapter_instances) (listed reading.items_data) db)
