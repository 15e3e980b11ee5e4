-- ===== src/Dispatcher/Deliver/Armed.antt =====
-- An armed item is delivered once, whether its handlers fail or not.
use radiobeacon.Common.{
  ℕ, ◌+◌, ◌*◌, String, ◌≡◌, refl, sym, ap, ◌∙◌, subst, Bool, true, false, ◌&&◌, Option, none, some,
  List, [], ◌∷◌, arith, str_eq, eq_iff, exists, find_row, length, length-append, delete, inl, inr,
  Bool-cases, Option-cases,
}
use radiobeacon.Common.Cover.{left, left-delete, left-none, left-own}
use radiobeacon.Database.{Db, Item, ArmedRow, is_item}
use radiobeacon.Dispatcher.{is_armed}
use radiobeacon.Dispatcher.Deliver.{
  Handler, armed_items, outcome, run_handlers, disarm, dispatch_rows, dispatch_due_items,
}

is_some : Option Item → Bool
is_some none = false
is_some (some i) = true

-- An armed row of the consumer whose item is there.
deliverable : String → List Item → ArmedRow → Bool
deliverable consumer items a =
    str_eq a.consumer consumer && is_some (find_row (is_item a.source a.item_id) items)

abbrev names : String → Item → ArmedRow → Bool
names consumer i = is_armed consumer i.source i.item_id

find_row-holds :
    (source item_id : String) (items : List Item) (i : Item)
    → find_row (is_item source item_id) items ≡ some i
    → is_item source item_id i ≡ true
find_row-holds source item_id [] i h = absurd (cc h)
find_row-holds source item_id (j ∷ items) i h = elim (Bool-cases (is_item source item_id j)) [
  | inl hit ↦
      let here : some j ≡ some i = (rw hit at h) in
      let same : j ≡ i = cc here in subst (λ k. is_item source item_id k ≡ true) same hit
  | inr miss ↦ find_row-holds source item_id items i (rw miss at h)
]

joined-covered :
    (consumer : String) (items : List Item) (a : ArmedRow) (rows : List ArmedRow)
    → exists
        (left (deliverable consumer items) (names consumer) (armed_items consumer items rows))
        rows
      ≡ false
    → exists
        (left (deliverable consumer items) (names consumer) (armed_items consumer items (a ∷ rows)))
        (a ∷ rows)
      ≡ false
unfolding armed_items deliverable is_some
joined-covered consumer items a rows h = elim (Bool-cases (str_eq a.consumer consumer)) [
  | inr foreign ↦
      let listed : armed_items consumer items (a ∷ rows) ≡ armed_items consumer items rows =
        rw foreign refl in
      subst
        (λ keys.
          exists (left (deliverable consumer items) (names consumer) keys) (a ∷ rows) ≡ false)
        (sym listed) (rw foreign h)
  | inl ours ↦ elim (Option-cases (find_row (is_item a.source a.item_id) items)) [
    | inl orphan ↦
        let listed : armed_items consumer items (a ∷ rows) ≡ armed_items consumer items rows =
          rw (ours, orphan) refl in
        subst
          (λ keys.
            exists (left (deliverable consumer items) (names consumer) keys) (a ∷ rows) ≡ false)
          (sym listed) (rw (ours, orphan) h)
    | inr (i, found) ↦
        let listed : armed_items consumer items (a ∷ rows) ≡ i ∷ armed_items consumer items rows =
          rw (ours, found) refl in
        subst
          (λ keys.
            exists (left (deliverable consumer items) (names consumer) keys) (a ∷ rows) ≡ false)
          (sym listed)
          (left-own (deliverable consumer items) (names consumer) i
            (armed_items consumer items rows) a rows
            (ground (
              arith,
              ours,
              find_row-holds a.source a.item_id items i found,
              eq_iff i.source a.source,
              eq_iff a.source i.source,
              eq_iff i.item_id a.item_id,
              eq_iff a.item_id i.item_id,
            ))
            h)
  ]
]

armed-covered :
    (consumer : String) (items : List Item) (rows : List ArmedRow)
    → exists
        (left (deliverable consumer items) (names consumer) (armed_items consumer items rows))
        rows
      ≡ false
armed-covered consumer items [] = refl
armed-covered consumer items (a ∷ rows) =
    joined-covered consumer items a rows (armed-covered consumer items rows)

undeliverable :
    (consumer : String) (items : List Item) (rows : List ArmedRow)
    → exists (deliverable consumer items) rows ≡ false
    → armed_items consumer items rows ≡ []
unfolding armed_items deliverable is_some
undeliverable consumer items [] h = refl
undeliverable consumer items (a ∷ rows) h = elim (Bool-cases (str_eq a.consumer consumer)) [
  | inr foreign ↦ rw foreign (undeliverable consumer items rows (rw foreign at h))
  | inl ours ↦ elim (Option-cases (find_row (is_item a.source a.item_id) items)) [
    | inl orphan ↦ rw (ours, orphan) (undeliverable consumer items rows (rw (ours, orphan) at h))
    | inr (i, found) ↦ absurd (cc (rw (ours, found) at h))
  ]
]

-- What the handlers leave alone, and the audit rows that they add.
record Ran (n : ℕ) (db db' : Db) : Type 0 where
  armed : db'.trigger_dispatches ≡ db.trigger_dispatches
  items : db'.items ≡ db.items
  logged : length db'.audit_log ≡ length db.audit_log + n

outcome-Ran :
    (now : ℕ) (consumer name : String) (i : Item) (error : Option String) (db : Db)
    → Ran 1 db (outcome now consumer name i error db)
unfolding outcome
outcome-Ran now consumer name i none db = record {
  armed = refl;
  items = refl;
  logged = length-append db.audit_log _;
}
outcome-Ran now consumer name i (some error) db = record {
  armed = refl;
  items = refl;
  logged = length-append db.audit_log _;
}

handlers-Ran :
    (now : ℕ) (consumer : String) (i : Item) (handlers : List Handler) (db : Db)
    → Ran (length handlers) db (run_handlers now consumer i handlers db)
unfolding run_handlers
handlers-Ran now consumer i [] db = record { armed = refl; items = refl; logged = omega arith }
handlers-Ran now consumer i (h ∷ handlers) db =
    let one = outcome-Ran now consumer h.name i (h.run i) db in
    let rest = handlers-Ran now consumer i handlers (outcome now consumer h.name i (h.run i) db) in
    record {
      armed = rest.armed ∙ one.armed;
      items = rest.items ∙ one.items;
      logged = omega (arith, one.logged, rest.logged);
    }

rows-clear :
    (p : ArmedRow → Bool) (now : ℕ) (consumer : String) (handlers : List Handler)
    (items : List Item) (db : Db)
    → exists (left p (names consumer) items) db.trigger_dispatches ≡ false
    → exists p (dispatch_rows now consumer handlers items db).trigger_dispatches ≡ false
unfolding dispatch_rows
rows-clear p now consumer handlers [] db h = left-none p (names consumer) db.trigger_dispatches h
rows-clear p now consumer handlers (i ∷ items) db h =
    let ran = handlers-Ran now consumer i handlers db in
    rows-clear p now consumer handlers items _ (
      ap (λ t. exists (left p (names consumer) items) (delete (names consumer i) t)) ran.armed
      ∙ left-delete p (names consumer) i items db.trigger_dispatches h)

rows-ran :
    (now : ℕ) (consumer : String) (handlers : List Handler) (items : List Item) (db : Db)
    → ((dispatch_rows now consumer handlers items db).items ≡ db.items)
      × (length (dispatch_rows now consumer handlers items db).audit_log
          ≡ length db.audit_log + length items * length handlers)
unfolding dispatch_rows
rows-ran now consumer handlers [] db = (refl, omega arith)
rows-ran now consumer handlers (i ∷ items) db =
    let ran = handlers-Ran now consumer i handlers db in
    let (same, logged) =
      rows-ran now consumer handlers items
        (disarm consumer i (run_handlers now consumer i handlers db)) in
    (same ∙ ran.items, grind (arith, logged, ran.logged))

-- After a delivery pass, whether handlers failed or not, a second pass finds nothing to deliver
-- and changes nothing.
pub dispatch_once :
    (now later : ℕ) (consumer : String) (handlers : List Handler) (db : Db)
    → let db' = (dispatch_due_items now consumer handlers db).1 in
      dispatch_due_items later consumer handlers db' ≡ (0, db')
unfolding dispatch_due_items dispatch_rows
dispatch_once now later consumer handlers db =
    let rows = armed_items consumer db.items db.trigger_dispatches in
    let (same, logged) = rows-ran now consumer handlers rows db in
    let clear =
      rows-clear (deliverable consumer db.items) now consumer handlers rows db
        (armed-covered consumer db.items db.trigger_dispatches) in
    let nothing =
      ap
        (λ items.
          armed_items consumer items
            (dispatch_rows now consumer handlers rows db).trigger_dispatches)
        same
      ∙ undeliverable consumer db.items _ clear in
    rw nothing refl

-- A delivery pass adds one audit row for each handler and each delivered item, failed handlers
-- included.
dispatch-logged :
    (now : ℕ) (consumer : String) (handlers : List Handler) (db : Db)
    → let (n, db') = dispatch_due_items now consumer handlers db in
      length db'.audit_log ≡ length db.audit_log + n * length handlers
unfolding dispatch_due_items
dispatch-logged now consumer handlers db =
    (rows-ran now consumer handlers (armed_items consumer db.items db.trigger_dispatches) db).1
