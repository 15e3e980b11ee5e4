-- ===== src/Schedule/Upsert.antt =====
-- What `add_tx_schedule_unit` does to its unit and to the others.
use radiobeacon.Common.{
  ℕ, String, ◌≡◌, refl, true, false, ◌&&◌, Option, none, some, List, [], ◌∷◌, ◌++◌, arith, str_eq,
  eq_iff, exists, find_row, update, inl, inr, Bool-cases,
}
use radiobeacon.Database.{Db, TxRow}
use radiobeacon.Schedule.{is_unit, reset, upsert, add_tx_schedule_unit}

-- The row of a unit after it was added: the old row reset, or a fresh one.
abbrev pub added :
    ℕ → String → String → String → String → Option String → Option String → Option TxRow → TxRow
added now source item_id kind ref policy event_id none = record {
  source = source;
  item_id = item_id;
  kind = kind;
  ref = ref;
  policy = policy;
  sent_count = 0;
  last_transmitted_at = none;
  enqueued_event_id = event_id;
  created_at = now;
  updated_at = now;
}
added now source item_id kind ref policy event_id (some old) = reset now policy event_id old

module _ (source item_id kind ref : String) where
  pub find_row-none :
      (rows : List TxRow)
      → exists (is_unit source item_id kind ref) rows ≡ false
      → find_row (is_unit source item_id kind ref) rows ≡ none
  find_row-none [] h = refl
  find_row-none (r ∷ rs) h = ground (arith, find_row-none rs)

  pub find_row-update_self :
      (f : TxRow → TxRow) (rows : List TxRow)
      → ((r : TxRow) → is_unit source item_id kind ref (f r) ≡ is_unit source item_id kind ref r)
      → exists (is_unit source item_id kind ref) rows ≡ true
      → (r : TxRow) × (find_row (is_unit source item_id kind ref) rows ≡ some r)
        × (find_row
              (is_unit source item_id kind ref)
              (update (is_unit source item_id kind ref) f rows)
            ≡ some (f r))
  find_row-update_self f [] k h = absurd (ground arith)
  find_row-update_self f (r ∷ rs) k h = elim (Bool-cases (is_unit source item_id kind ref r)) [
    | inl hit ↦ (r, rw hit refl, rw hit (rw (k r) (rw hit refl)))
    | inr miss ↦
        let (x, p, q) = find_row-update_self f rs k (rw miss at h) in
        (x, rw miss p, rw miss (rw miss q))
  ]

  find_row-append_self :
      (rows : List TxRow) (x : TxRow)
      → exists (is_unit source item_id kind ref) rows ≡ false
      → is_unit source item_id kind ref x ≡ true
      → find_row (is_unit source item_id kind ref) (rows ++ x ∷ []) ≡ some x
  find_row-append_self [] x h e = rw e refl
  find_row-append_self (r ∷ rs) x h e = ground (arith, find_row-append_self rs x)

self_unit :
    (source item_id kind ref : String) (r : TxRow)
    → r.source ≡ source
    → r.item_id ≡ item_id
    → r.kind ≡ kind
    → r.ref ≡ ref
    → is_unit source item_id kind ref r ≡ true
self_unit source item_id kind ref r a b c d =
    ground (
      arith,
      eq_iff r.source source,
      eq_iff r.item_id item_id,
      eq_iff r.kind kind,
      eq_iff r.ref ref,
    )

-- After a unit is added without a size limit, its row has no airing counted or stamped, carries the
-- given policy and event id and, if it is new, the time of the insertion; a row that was there keeps
-- its `created_at`.
add-find_row :
    (now : ℕ) (source item_id kind ref : String) (policy event_id : Option String) (db : Db)
    → find_row
        (is_unit source item_id kind ref)
        (add_tx_schedule_unit now source item_id kind ref policy event_id none
          db).beacon_tx_schedule
      ≡ some (
          added now source item_id kind ref policy event_id
            (find_row (is_unit source item_id kind ref) db.beacon_tx_schedule))
unfolding add_tx_schedule_unit upsert
add-find_row now source item_id kind ref policy event_id db =
    elim (Bool-cases (exists (is_unit source item_id kind ref) db.beacon_tx_schedule)) [
      | inl old ↦
          let (r, p, q) =
            find_row-update_self source item_id kind ref (reset now policy event_id)
              db.beacon_tx_schedule (λ r. refl) old in
          rw (old, p) q
      | inr new ↦
          rw (new, find_row-none source item_id kind ref db.beacon_tx_schedule new)
            (find_row-append_self source item_id kind ref db.beacon_tx_schedule
              (added now source item_id kind ref policy event_id none) new
              (self_unit source item_id kind ref
                (added now source item_id kind ref policy event_id none) refl refl refl refl))
    ]

module _ (source item_id kind ref s i k f : String)
    (ne : (str_eq source s && (str_eq item_id i && (str_eq kind k && str_eq ref f))) ≡ false) where
  pub not_both : (r : TxRow) → is_unit source item_id kind ref r ≡ true → is_unit s i k f r ≡ false
  not_both r h = ground (
    arith,
    ne,
    eq_iff r.source source,
    eq_iff r.source s,
    eq_iff source s,
    eq_iff r.item_id item_id,
    eq_iff r.item_id i,
    eq_iff item_id i,
    eq_iff r.kind kind,
    eq_iff r.kind k,
    eq_iff kind k,
    eq_iff r.ref ref,
    eq_iff r.ref f,
    eq_iff ref f,
  )

  pub find_row-update_ne :
      (g : TxRow → TxRow) (rows : List TxRow)
      → ((r : TxRow) → is_unit s i k f (g r) ≡ is_unit s i k f r)
      → find_row (is_unit s i k f) (update (is_unit source item_id kind ref) g rows)
        ≡ find_row (is_unit s i k f) rows
  find_row-update_ne g [] h = refl
  find_row-update_ne g (r ∷ rs) h = elim (Bool-cases (is_unit source item_id kind ref r)) [
    | inl hit ↦ rw (hit, h r, not_both r hit) (find_row-update_ne g rs h)
    | inr miss ↦ rw (miss, find_row-update_ne g rs h) refl
  ]

  find_row-append_ne :
      (rows : List TxRow) (x : TxRow)
      → is_unit s i k f x ≡ false
      → find_row (is_unit s i k f) (rows ++ x ∷ []) ≡ find_row (is_unit s i k f) rows
  find_row-append_ne [] x h = rw h refl
  find_row-append_ne (r ∷ rs) x h = rw (find_row-append_ne rs x h) refl

-- Adding a unit, without a size limit, leaves the row of every unit with another key as it was.
add-find_row_ne :
    (now : ℕ) (source item_id kind ref s i k f : String) (policy event_id : Option String) (db : Db)
    → (str_eq source s && (str_eq item_id i && (str_eq kind k && str_eq ref f))) ≡ false
    → find_row
        (is_unit s i k f)
        (add_tx_schedule_unit now source item_id kind ref policy event_id none
          db).beacon_tx_schedule
      ≡ find_row (is_unit s i k f) db.beacon_tx_schedule
unfolding add_tx_schedule_unit upsert
add-find_row_ne now source item_id kind ref s i k f policy event_id db ne =
    elim (Bool-cases (exists (is_unit source item_id kind ref) db.beacon_tx_schedule)) [
      | inl old ↦ rw old (
          find_row-update_ne source item_id kind ref s i k f ne (reset now policy event_id)
            db.beacon_tx_schedule (λ r. refl))
      | inr new ↦ rw new (
          find_row-append_ne source item_id kind ref s i k f ne db.beacon_tx_schedule
            (added now source item_id kind ref policy event_id none) ne)
    ]
