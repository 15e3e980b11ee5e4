-- ===== src/Beacon/Reconcile/Missed.antt =====
-- Which items the reconciliation takes up again.
use radiobeacon.Common.{
  ℕ, String, ◌≡◌, refl, ap, ◌∙◌, ◌≤◌, true, false, ◌&&◌, Option, none, some, List, [], ◌∷◌, ◌++◌,
  arith, str_eq, eq_iff, ℤ, is_text, find_row, inl, inr, Bool-cases,
}
use radiobeacon.Common.Result.{ok}
use radiobeacon.Database.{Db, Value, AuditRow, ReadyRow, is_item}
use radiobeacon.Database.Audit.{opt_text}
use radiobeacon.Database.Settings.{Environ}
use radiobeacon.Beacon.Enqueue.{
  already_enqueued, superseded_by_newer, schedule_units, enqueue, schedule_item, is_enqueued,
  event_key_of, handle_content_ready_event,
}
use radiobeacon.Beacon.Enqueue.Once.{skipped, is_skipped, handle-enqueues}
use radiobeacon.Beacon.Reconcile.{latest, last_enqueued, before, is_missed}

-- A row that is no enqueued row does not count.
last_enqueued-other :
    (source item_id : String) (log : List AuditRow) (a : AuditRow)
    → is_enqueued a ≡ false
    → last_enqueued source item_id (log ++ a ∷ []) ≡ last_enqueued source item_id log
unfolding last_enqueued
last_enqueued-other source item_id [] a foreign = rw foreign refl
last_enqueued-other source item_id (b ∷ log) a foreign =
    rw (last_enqueued-other source item_id log a foreign) refl

before-latest : (a b : Option ℕ) (t : ℕ) → before (latest a b) t ≡ (before a t && before b t)
unfolding latest before
before-latest none b t = refl
before-latest (some a) none t = ground arith
before-latest (some a) (some b) t = ground arith

abbrev own_row : String → String → List (String × Value) → ℕ → AuditRow
own_row source item_id details now = record {
  event_type = "beacon.content_ready.enqueued";
  actor = "beacon";
  source = some source;
  item_id = some item_id;
  details = details;
  recorded_at = now;
}

last_enqueued-own :
    (source item_id : String) (t now : ℕ) (log : List AuditRow) (details : List (String × Value))
    → t ≤ now
    → before (last_enqueued source item_id (log ++ own_row source item_id details now ∷ [])) t
      ≡ false
unfolding last_enqueued before latest
last_enqueued-own source item_id t now [] details late =
    ground (arith, late, eq_iff source source, eq_iff item_id item_id)
last_enqueued-own source item_id t now (b ∷ log) details late =
    let ih = last_enqueued-own source item_id t now log details late in
    elim (Bool-cases (is_enqueued b && (is_text b.source source && is_text b.item_id item_id))) [
      | inl hit ↦ rw hit (before-latest (some b.recorded_at) _ t ∙ ground (arith, ih))
      | inr miss ↦ rw miss ih
    ]

skip-missed :
    (environ : Environ) (now : ℕ) (kind : String) (r : ReadyRow)
    (policy event_key event_id : Option String) (db : Db)
    → is_missed db r ≡ true
    → skipped kind r.source r.item_id event_key db ≡ true
    → is_missed (schedule_item environ now kind r.source r.item_id policy event_key event_id db).0 r
      ≡ true
unfolding is_missed schedule_item
skip-missed environ now kind r policy none event_id db missed skip = absurd (cc skip)
skip-missed environ now kind r policy (some key) event_id db missed skip =
    let given : str_eq key "" ≡ false = ground (arith, skip) in
    let newer : superseded_by_newer r.source r.item_id key kind db ≡ true =
      ground (arith, skip, given) in
    rw (given, newer)
      (ap (λ m. before m r.published_at)
          (last_enqueued-other r.source r.item_id db.audit_log _ refl)
        ∙ missed)

-- An item that is published and not enqueued, and is skipped for a newer item of its event, is
-- still counted as missed after it was handled.
superseded_stays_missed :
    (environ : Environ) (now : ℕ) (r : ReadyRow) (db : Db)
    → is_missed db r ≡ true
    → is_skipped environ r.source r.item_id db ≡ true
    → is_missed (handle_content_ready_event environ now r.source r.item_id none db).0 r ≡ true
unfolding is_missed handle_content_ready_event already_enqueued
superseded_stays_missed environ now r db missed skip =
    skip-missed environ now _ r _ (event_key_of (find_row (is_item r.source r.item_id) db.items))
      none db missed skip

enqueue-missed :
    (now : ℕ) (kind : String) (r : ReadyRow) (policy event_id : Option String) (size : ℤ) (at : Db)
    → r.published_at ≤ now
    → is_missed (enqueue now kind r.source r.item_id policy event_id size at) r ≡ false
unfolding is_missed enqueue
enqueue-missed now kind r policy event_id size at late =
    let out = schedule_units now kind r.source r.item_id policy event_id (some size) at in
    last_enqueued-own r.source r.item_id r.published_at now out.1.audit_log
      (("event_id", opt_text event_id)
        ∷ ("beacon_type", Value.text kind)
        ∷ ("frame_count", Value.num out.0)
        ∷ [])
      late

-- When an item's event is handled at the time of its publication or later, is not a repeated one,
-- is not skipped for a newer item and the handling returns, the reconciliation does not count the
-- item as missed any more.
enqueued_not_missed :
    (environ : Environ) (now : ℕ) (r : ReadyRow) (event_id : Option String) (db db' : Db)
    → r.published_at ≤ now
    → already_enqueued event_id db ≡ false
    → is_skipped environ r.source r.item_id db ≡ false
    → handle_content_ready_event environ now r.source r.item_id event_id db ≡ (db', ok tt)
    → is_missed db' r ≡ false
enqueued_not_missed environ now r event_id db db' late new kept h =
    let (n, e) = handle-enqueues environ now r.source r.item_id event_id db db' new kept h in
    ap (λ d. is_missed d r) e ∙ enqueue-missed now _ r _ event_id n _ late
