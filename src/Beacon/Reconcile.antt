-- ===== src/Beacon/Reconcile.antt =====
-- Scheduling that no event asks for: `_reconcile_missed_content_ready` of
-- beacon/src/beacon/__main__.py, and `schedule_retransmit` of
-- data-adapters/src/adapters/storage.py.
pub mod Missed
use radiobeacon.Common.{
  ℕ, String, Bool, true, ◌&&◌, Option, none, some, List, [], ◌∷◌, ltb, str_eq, is_text, length,
  select, find_row, if◌then◌else◌,
}
use radiobeacon.Common.Result.{Result, ok, raised, ◌>>=◌}
use radiobeacon.Database.{Db, Item, Value, AuditRow, ReadyRow, is_item}
use radiobeacon.Database.Audit.{record_audit_event}
use radiobeacon.Database.Settings.{Environ}
use radiobeacon.Beacon.Enqueue.{
  Outcome, resolve_beacon_type, is_enqueued, schedule_units, handle_content_ready_event,
}

pub latest : Option ℕ → Option ℕ → Option ℕ
latest none b = b
latest (some a) none = some a
latest (some a) (some b) = if ltb a b then some b else some a

-- `MAX(recorded_at)` of the item's enqueued rows.
pub last_enqueued : String → String → List AuditRow → Option ℕ
unfolding latest
last_enqueued source item_id [] = none
last_enqueued source item_id (a ∷ log) =
    let rest = last_enqueued source item_id log in
    if is_enqueued a && (is_text a.source source && is_text a.item_id item_id)
    then latest (some a.recorded_at) rest
    else rest

pub before : Option ℕ → ℕ → Bool
before none published_at = true
before (some enqueued) published_at = ltb enqueued published_at

-- Published, and not enqueued since.
unfoldable pub is_missed : Db → ReadyRow → Bool
unfolding last_enqueued before
is_missed db r = before (last_enqueued r.source r.item_id db.audit_log) r.published_at

pub handle_all : Environ → ℕ → List ReadyRow → Db → Outcome
handle_all environ now [] db = (db, ok tt)
handle_all environ now (r ∷ rows) db =
    after_handle (handle_all environ now rows)
      (handle_content_ready_event environ now r.source r.item_id none db)
  where
    after_handle : (Db → Outcome) → Outcome → Outcome
    after_handle next (db', ok u) = next db'
    after_handle next (db', raised e) = (db', raised e)

unfoldable pub reconcile_missed_content_ready : Environ → ℕ → Db → Db × Result ℕ
unfolding is_missed handle_all
reconcile_missed_content_ready environ now db =
    let rows = select (is_missed db) db.item_readiness in
    let (db', end) = handle_all environ now rows db in (db', end >>= λ _. ok (length rows))

-- What `schedule_retransmit` returns as "kind" and "scheduled".
retransmit_item : Environ → ℕ → String → String → Option Item → Db → (Option String × ℕ) × Db
unfolding schedule_units
retransmit_item environ now source item_id none db = ((none, 0), db)
retransmit_item environ now source item_id (some item) db =
    let kind = resolve_beacon_type environ db in
    let (n, db') = schedule_units now kind source item_id item.policy none none db in
    let scheduled = if str_eq kind "frame" then n else 1 in
    (
      (some kind, scheduled),
      record_audit_event now "beacon.retransmit.enqueued" "ui.retransmit" (some source)
          (some item_id)
          (("beacon_type", Value.text kind) ∷ ("scheduled", Value.num scheduled) ∷ []) db',
    )

unfoldable pub schedule_retransmit : Environ → ℕ → String → String → Db → (Option String × ℕ) × Db
unfolding retransmit_item
schedule_retransmit environ now source item_id db =
    retransmit_item environ now source item_id (find_row (is_item source item_id) db.items) db
