-- ===== src/Manual.antt =====
-- Messages that an operator sends once: enqueue_manual_tx, pending_manual_tx, delete_manual_tx and
-- count_manual_tx_by_kind of data-adapters/src/adapters/storage.py, and _drain_manual_tx of
-- beacon/src/beacon/__main__.py. The transmission of one message is a parameter.
pub mod Drained
use radiobeacon.Common.{
  ℕ, suc, ◌+◌, String, Bool, true, false, Option, none, some, List, [], ◌∷◌, ◌++◌, str_eq, ◌==◌,
  select, delete, length, order_by, if◌then◌else◌,
}
use radiobeacon.Common.Text.{chars}
use radiobeacon.Common.Result.{Exception, Result, ok, raised}
use radiobeacon.Database.{Db, ManualRow, Value}
use radiobeacon.Database.Audit.{record_audit_event}

-- An id is never used twice: AUTOINCREMENT keeps the largest one given.
unfoldable pub enqueue_manual_tx : ℕ → String → String → String → Db → ℕ × Db
enqueue_manual_tx now kind text actor db =
    let id = db.manual_sequence + 1 in
    (
      id,
      record_audit_event now "beacon.manual.enqueued" actor none none
          (("kind", Value.text kind) ∷ ("chars", Value.num (chars text)) ∷ [])
          (record db {
            manual_sequence = id;
            beacon_manual_tx =
                db.beacon_manual_tx
                ++ record { id = id; kind = kind; text = text; actor = actor; created_at = now }
                  ∷ [];
          }),
    )

abbrev pub manual_of_kind : String → ManualRow → Bool
manual_of_kind kind r = str_eq r.kind kind

abbrev pub manual_id : ManualRow → ℕ
manual_id r = r.id

abbrev pub has_id : ManualRow → ManualRow → Bool
has_id k r = r.id == k.id

unfoldable pub pending_manual_tx : String → Db → List ManualRow
pending_manual_tx kind db = order_by manual_id (select (manual_of_kind kind) db.beacon_manual_tx)

unfoldable pub delete_manual_tx : ℕ → Db → Db
delete_manual_tx id db = record db {
  beacon_manual_tx = delete (λ r. r.id == id) db.beacon_manual_tx;
}

-- A kind with no row has no entry in the source's dictionary.
unfoldable pub count_manual_tx_by_kind : Db → String → Option ℕ
count_manual_tx_by_kind db kind =
    let n = length (select (manual_of_kind kind) db.beacon_manual_tx) in
    if n == 0 then none else some n

-- `_transmit_manual_unit`: the database after it, and the exception that it lets out, if any.
abbrev pub ManualTransmit : Type 0
ManualTransmit = ManualRow → Db → Db × Option Exception

-- The row is deleted once the transmission returns; an exception leaves the loop before that.
pub after_manual : ManualRow → ℕ → (ℕ → Db → Db × Result ℕ) → Db × Option Exception → Db × Result ℕ
after_manual r attempted next (db, some e) = (db, raised e)
after_manual r attempted next (db, none) = next (attempted + 1) (delete_manual_tx r.id db)

-- `stop` tells, for each turn of the loop, whether the stop event is set by then.
pub manual_rows : ManualTransmit → (ℕ → Bool) → ℕ → ℕ → List ManualRow → Db → Db × Result ℕ
unfolding after_manual
manual_rows transmit stop k attempted [] db = (db, ok attempted)
manual_rows transmit stop k attempted (r ∷ rows) db =
    if stop k
    then (db, ok attempted)
    else after_manual r attempted (λ n db'. manual_rows transmit stop (suc k) n rows db')
        (transmit r db)

unfoldable pub drain_manual_tx : ManualTransmit → (ℕ → Bool) → String → Db → Db × Result ℕ
unfolding manual_rows
drain_manual_tx transmit stop kind db = manual_rows transmit stop 0 0 (pending_manual_tx kind db) db
