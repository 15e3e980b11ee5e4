-- ===== src/Dispatcher/Discover/Watermark.antt =====
-- A discovery takes every new item once: the watermark ends at the largest rowid.
use radiobeacon.Common.{
  ℕ, ◌≤◌, String, ◌≡◌, refl, sym, ap, ◌∙◌, Bool, true, false, Option, none, some, List, [], ◌∷◌,
  ◌++◌, arith, ltb, eq_iff, exists, select, update, length, order_by, All, inl, inr, Bool-cases,
  Option-cases,
}
use radiobeacon.Common.Sort.{Sorted, Sorted-order_by, exists-order_by, All-select, All-order_by}
use radiobeacon.Common.Result.{Result, Result-cases, ok, raised, ◌>>=◌}
use radiobeacon.Database.{Db, Item, StateRow}
use radiobeacon.Dispatcher.{is_armed, arm, is_consumer}
use radiobeacon.Dispatcher.Discover.{
  Parse, rowid, watermark, first_watermark, last_seen_rowid, new_items, is_stale, advance, note,
  discover_row, discover_rows, discover_known, discover_new_items,
}

-- The rowid of the last of some items.
abbrev last_of : ℕ → List Item → ℕ
last_of m [] = m
last_of m (i ∷ items) = last_of i.rowid items

last-le :
    (m : ℕ) (items : List Item)
    → All (λ i. m ≤ rowid i) items
    → Sorted rowid items
    → m ≤ last_of m items
last-le m [] all s = omega arith
last-le m (i ∷ items) all s = omega (arith, all.0, last-le i.rowid items s.0 s.1)

last-max :
    (m : ℕ) (items : List Item)
    → Sorted rowid items
    → exists (λ i. ltb (last_of m items) i.rowid) items ≡ false
last-max m [] s = refl
last-max m (i ∷ items) s = ground (arith, last-le i.rowid items s.0 s.1, last-max i.rowid items s.1)

watermark-advance :
    (consumer : String) (n m : ℕ) (rows : List StateRow)
    → watermark consumer rows ≡ some m
    → watermark consumer (update (is_consumer consumer) (advance n) rows) ≡ some n
unfolding watermark
watermark-advance consumer n m [] h = absurd (cc h)
watermark-advance consumer n m (s ∷ rows) h = ground (arith, h, watermark-advance consumer n m rows)

note-kept :
    (now : ℕ) (consumer : String) (i : Item) (stale : Bool) (db : Db)
    → ((note now consumer i stale db).items ≡ db.items)
      × ((note now consumer i stale db).dispatcher_state ≡ db.dispatcher_state)
unfolding note arm
note-kept now consumer i true db = (refl, refl)
note-kept now consumer i false db =
    elim (Bool-cases (exists (is_armed consumer i.source i.item_id) db.trigger_dispatches)) [
      | inl old ↦ rw old (refl, refl)
      | inr new ↦ rw new (refl, refl)
    ]

-- The watermark after a discovery, and the items, which it does not change.
record At (consumer : String) (n : ℕ) (items : List Item) (db : Db) : Type 0 where
  mark : watermark consumer db.dispatcher_state ≡ some n
  kept : db.items ≡ items

rows-At :
    (parse : Parse) (now : ℕ) (consumer : String) (not_before : Option ℕ) (rows : List Item) (m : ℕ)
    (db db' : Db)
    → watermark consumer db.dispatcher_state ≡ some m
    → discover_rows parse now consumer not_before rows db ≡ (db', ok tt)
    → At consumer (last_of m rows) db.items db'
unfolding discover_rows discover_row discover_known
rows-At parse now consumer not_before [] m db db' marked h =
    let same : db ≡ db' = ap (λ o. o.0) h in
    record {
      mark = ap (λ d. watermark consumer d.dispatcher_state) (sym same) ∙ marked;
      kept = ap (λ d. d.items) (sym same);
    }
rows-At parse now consumer not_before (i ∷ rows) m db db' marked h =
    elim (Result-cases (is_stale parse not_before i.source_date_time)) [
      | inr (e, r) ↦ absurd (cc (ap (λ o. o.1) (rw r at h)))
      | inl (stale, r) ↦
          let (items, state) = note-kept now consumer i stale db in
          let rest =
            rows-At parse now consumer not_before rows i.rowid
              (discover_row now consumer i stale db) db'
              (ap (λ t. watermark consumer (update (is_consumer consumer) (advance i.rowid) t))
                  state
                ∙ watermark-advance consumer i.rowid m db.dispatcher_state marked)
              (rw r at h) in
          record { mark = rest.mark; kept = rest.kept ∙ items }
    ]

watermark-append :
    (consumer : String) (n : ℕ) (rows : List StateRow)
    → watermark consumer rows ≡ none
    → watermark consumer (rows ++ record { consumer = consumer; last_seen_rowid = n } ∷ []) ≡ some n
unfolding watermark
watermark-append consumer n [] h = ground (arith, eq_iff consumer consumer)
watermark-append consumer n (s ∷ rows) h = ground (arith, h, watermark-append consumer n rows)

first-At :
    (consumer : String) (db : Db)
    → At consumer (last_seen_rowid consumer db).0 db.items (last_seen_rowid consumer db).1
unfolding last_seen_rowid first_watermark
first-At consumer db = elim (Option-cases (watermark consumer db.dispatcher_state)) [
  | inl fresh ↦
      rw fresh
        (record { mark = watermark-append consumer _ db.dispatcher_state fresh; kept = refl })
  | inr (n, marked) ↦ rw marked (record { mark = marked; kept = refl })
]

-- Items past a mark that no new item is past are none.
none_past :
    (m last : ℕ) (items : List Item)
    → m ≤ last
    → exists (λ i. ltb last i.rowid) (select (λ i. ltb m i.rowid) items) ≡ false
    → select (λ i. ltb last i.rowid) items ≡ []
none_past m last [] le h = refl
none_past m last (i ∷ items) le h = ground (arith, le, h, none_past m last items le)

past_le :
    (m : ℕ) (items : List Item)
    → All (λ i. ltb m (rowid i) ≡ true) items
    → All (λ i. m ≤ rowid i) items
past_le m [] all = tt
past_le m (i ∷ items) all = (ground (arith, all.0), past_le m items all.1)

new_items-none :
    (m : ℕ) (db db' : Db) → db'.items ≡ db.items → new_items (last_of m (new_items m db)) db' ≡ []
unfolding new_items
new_items-none m db db' same =
    let p : Item → Bool = λ i. ltb m i.rowid in
    let rows = order_by rowid (select p db.items) in
    let sorted = Sorted-order_by rowid (select p db.items) in
    let above =
      past_le m rows
        (All-order_by (λ i. p i ≡ true) rowid (select p db.items) (All-select p db.items)) in
    let top =
      sym (exists-order_by (λ i. ltb (last_of m rows) i.rowid) rowid (select p db.items))
      ∙ last-max m rows sorted in
    ap (λ items. order_by rowid (select (λ i. ltb (last_of m rows) i.rowid) items)) same
    ∙ ap (order_by rowid) (none_past m (last_of m rows) db.items (last-le m rows above sorted) top)

counted-ok : (n m : ℕ) (end : Result (Unit {0})) → (end >>= λ _. ok n) ≡ ok m → end ≡ ok tt
counted-ok n m (ok u) h = refl
counted-ok n m (raised e) h = absurd (cc h)

-- When a discovery returns, a second one on the same items finds nothing and changes nothing,
-- whatever the rowids and the dates of the items are.
pub discover_once :
    (parse : Parse) (now later : ℕ) (consumer : String) (not_before : Option ℕ) (n : ℕ)
    (db db' : Db)
    → discover_new_items parse now consumer not_before db ≡ (db', ok n)
    → discover_new_items parse later consumer not_before db' ≡ (db', ok 0)
unfolding discover_new_items last_seen_rowid first_watermark discover_rows
discover_once parse now later consumer not_before n db db' h =
    let first = first-At consumer db in
    let db1 = (last_seen_rowid consumer db).1 in
    let m = (last_seen_rowid consumer db).0 in
    let rows = new_items m db1 in
    let out = discover_rows parse now consumer not_before rows db1 in
    let end : out.1 ≡ ok tt = counted-ok (length rows) n out.1 (ap (λ o. o.1) h) in
    let same : out.0 ≡ db' = ap (λ o. o.0) h in
    let whole : out ≡ (db', ok tt) = λ i. (same i, end i) in
    let after = rows-At parse now consumer not_before rows m db1 db' first.mark whole in
    rw (after.mark, new_items-none m db1 db' after.kept) refl
