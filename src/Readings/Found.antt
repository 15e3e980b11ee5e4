-- ===== src/Readings/Found.antt =====
-- What the adapters store, the dispatcher finds.
use radiobeacon.Common.{
  ℕ, suc, ◌≤◌, ◌<◌, String, ◌≡◌, refl, sym, ap, ◌∙◌, arith, Option, none, some, List, [], ◌∷◌, ◌++◌,
  append_assoc, append-nil, inl, inr, Bool-cases, exists, length, length-append, ltb, select, All,
  truthy, if◌then◌else◌,
}
use radiobeacon.Common.Sort.{order_by-append}
use radiobeacon.Database.{Db, Item, is_item, max_rowid}
use radiobeacon.Dispatcher.Discover.{rowid, new_items}
use radiobeacon.Readings.{
  Fetched, Reading, Dumps, new_row, insert_item, store_item, store_items, instance_policy, listed,
  store_reading,
}

max_rowid-append :
    (items : List Item) (i : Item)
    → max_rowid items < i.rowid
    → max_rowid (items ++ i ∷ []) ≡ i.rowid
unfolding max_rowid
max_rowid-append [] i h = ground (arith, h)
max_rowid-append (j ∷ items) i h = ground (arith, h, max_rowid-append items i)

below_new :
    (n : ℕ) (items : List Item) (i : Item)
    → max_rowid items < i.rowid
    → All (λ j. rowid j ≤ rowid i) (select (λ j. ltb n j.rowid) items)
unfolding max_rowid
below_new n [] i h = tt
below_new n (j ∷ items) i h = elim (Bool-cases (ltb n j.rowid)) [
  | inl unseen ↦ rw unseen (ground (arith, h), below_new n items i (ground (arith, h)))
  | inr seen ↦ rw seen (below_new n items i (ground (arith, h)))
]

select-append :
    (n : ℕ) (items : List Item) (i : Item)
    → n < i.rowid
    → select (λ j. ltb n j.rowid) (items ++ i ∷ []) ≡ select (λ j. ltb n j.rowid) items ++ i ∷ []
select-append n [] i h = ground (arith, h)
select-append n (j ∷ items) i h = elim (Bool-cases (ltb n j.rowid)) [
  | inl unseen ↦ rw unseen (ap (λ is. j ∷ is) (select-append n items i h))
  | inr seen ↦ rw seen (select-append n items i h)
]

-- A new row is found behind those that were not seen.
new_items-append :
    (n : ℕ) (db db' : Db) (i : Item)
    → db'.items ≡ db.items ++ i ∷ []
    → max_rowid db.items < i.rowid
    → n < i.rowid
    → new_items n db' ≡ new_items n db ++ i ∷ []
unfolding new_items
new_items-append n db db' i grown last h =
    rw (grown, select-append n db.items i h)
      (order_by-append rowid _ i (below_new n db.items i last))

-- A row that holds an item of the list: under the source and the item's id, with the item's texts, the
-- item's policy or else the default one, and no summary yet.
pub record IsRowOf (source : String) (default : Option String) (fs : List Fetched) (i : Item)
    : Type 0 where
  pub fetched : Fetched
  pub before : List Fetched
  pub after : List Fetched
  pub listed : fs ≡ before ++ fetched ∷ after
  pub by_source : i.source ≡ source
  pub by_id : fetched.id ≡ some i.item_id
  pub title : i.extracted_title ≡ fetched.title
  pub contents : i.extracted_contents ≡ fetched.contents
  pub url : i.url ≡ fetched.url
  pub event_key : i.event_key ≡ fetched.event_key
  pub type : i.type ≡ fetched.type
  pub subtype : i.subtype ≡ fetched.subtype
  pub policy : i.policy ≡ (if truthy fetched.policy then fetched.policy else default)
  pub dated : i.source_date_time ≡ fetched.source_date_time
  pub summary : i.summary ≡ none

-- What is found after a step, beside what was to be found before it: as many rows as it counts, each of
-- an item of the list.
abbrev pub Found : ℕ → String → Option String → List Fetched → Db → Db × ℕ → Type 0
Found n source default fs db out =
    (rows : List Item) × (new_items n out.0 ≡ new_items n db ++ rows)
    × (length rows ≡ out.1)
    × All (IsRowOf source default fs) rows

behind :
    (source : String) (default : Option String) (f : Fetched) (fs : List Fetched) (i : Item)
    → IsRowOf source default fs i
    → IsRowOf source default (f ∷ fs) i
behind source default f fs i r = record {
  fetched = r.fetched;
  before = f ∷ r.before;
  after = r.after;
  listed = ap (λ gs. f ∷ gs) r.listed;
  by_source = r.by_source;
  by_id = r.by_id;
  title = r.title;
  contents = r.contents;
  url = r.url;
  event_key = r.event_key;
  type = r.type;
  subtype = r.subtype;
  policy = r.policy;
  dated = r.dated;
  summary = r.summary;
}

All-behind :
    (source : String) (default : Option String) (f : Fetched) (fs : List Fetched) (rows : List Item)
    → All (IsRowOf source default fs) rows
    → All (IsRowOf source default (f ∷ fs)) rows
All-behind source default f fs [] h = tt
All-behind source default f fs (i ∷ rows) h =
    (behind source default f fs i h.0, All-behind source default f fs rows h.1)

All-append : (P : Item → Type 0) (xs ys : List Item) → All P xs → All P ys → All P (xs ++ ys)
All-append P [] ys h k = k
All-append P (x ∷ xs) ys h k = (h.0, All-append P xs ys h.1 k)

-- As `Found`, of one item that is the first of a list; the watermark stays not past the last item.
Step : ℕ → String → Option String → List Fetched → Db → Db × ℕ → Type 0
Step n source default fs db out = Found n source default fs db out × (n ≤ max_rowid out.0.items)

unchanged :
    (n : ℕ) (source : String) (default : Option String) (fs : List Fetched) (db : Db)
    → n ≤ max_rowid db.items
    → Step n source default fs db (db, 0)
unfolding Step
unchanged n source default fs db h = (([], sym (append-nil (new_items n db)), refl, tt), h)

module _ (n now : ℕ) (source : String) (default : Option String) where
  insert_item-Found :
      (item_id : String) (f : Fetched) (fs : List Fetched) (db : Db)
      → f.id ≡ some item_id
      → n ≤ max_rowid db.items
      → Step n source default (f ∷ fs) db (insert_item now source default item_id f db)
  unfolding insert_item new_row Step
  insert_item-Found item_id f fs db id h =
      let row = new_row (suc (max_rowid db.items)) source item_id default f in
      elim (Bool-cases (exists (is_item source item_id) db.items)) [
        | inl known ↦ rw known (unchanged n source default (f ∷ fs) db h)
        | inr fresh ↦ rw fresh (
          (
            row ∷ [],
            new_items-append n db _ row refl (omega arith) (omega (arith, h)),
            refl,
            (
              record {
                fetched = f;
                before = [];
                after = fs;
                listed = refl;
                by_source = refl;
                by_id = id;
                title = refl;
                contents = refl;
                url = refl;
                event_key = refl;
                type = refl;
                subtype = refl;
                policy = refl;
                dated = refl;
                summary = refl;
              },
              tt,
            ),
          ),
          omega (arith, h, max_rowid-append db.items row (omega arith)),
        )
      ]

  store_item-Found :
      (dumps : Dumps) (id : Option String) (f : Fetched) (fs : List Fetched) (db : Db)
      → f.id ≡ id
      → n ≤ max_rowid db.items
      → Step n source default (f ∷ fs) db (store_item dumps now source default id f db)
  unfolding store_item
  store_item-Found dumps none f fs db e h = unchanged n source default (f ∷ fs) db h
  store_item-Found dumps (some item_id) f fs db e h = elim (Bool-cases (dumps f)) [
    | inl good ↦ rw good (insert_item-Found item_id f fs db e h)
    | inr bad ↦ rw bad (unchanged n source default (f ∷ fs) db h)
  ]

  store_items-Found :
      (dumps : Dumps) (fs : List Fetched) (db : Db)
      → n ≤ max_rowid db.items
      → Step n source default fs db (store_items dumps now source default fs db)
  unfolding store_items Step
  store_items-Found dumps [] db h = unchanged n source default [] db h
  store_items-Found dumps (f ∷ fs) db h =
      let step = store_item dumps now source default f.id f db in
      let ((one, e, c, p), h') = store_item-Found dumps f.id f fs db refl h in
      let ((more, e', c', p'), h'') = store_items-Found dumps fs step.0 h' in
      (
        (
          one ++ more,
          e' ∙ ap (λ is. is ++ more) e ∙ append_assoc (new_items n db) one more,
          omega (arith, length-append one more, c, c'),
          All-append (IsRowOf source default (f ∷ fs)) one more p
              (All-behind source default f fs more p'),
        ),
        h'',
      )

-- Given that its watermark is not past the last item, what the dispatcher finds after `store_reading` is
-- what it was to find before it, in that order, and behind that as many rows as `store_reading` returns:
-- each is an item of the reading that has an id, stored under the reading's source with the item's
-- texts, its event key, type, subtype and date, and the policy of the item or else of the adapter.
pub store_reading-Found :
    (dumps : Dumps) (n now : ℕ) (reading : Reading) (db : Db)
    → n ≤ max_rowid db.items
    → Found n reading.source
        (instance_policy reading.source db.adapter_instances)
        (listed reading.items_data)
        db
        (store_reading dumps now reading db)
unfolding store_reading Step
store_reading-Found dumps n now reading db h =
    (store_items-Found n now reading.source (instance_policy reading.source db.adapter_instances)
      dumps (listed reading.items_data) db h).0
