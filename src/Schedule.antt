-- ===== src/Schedule.antt =====
-- The `beacon_tx_schedule` table of data-adapters/src/adapters/storage.py: what the beacon still has
-- to put on air. The primary key is (source, item_id, kind, ref).
pub mod Keys
pub mod Upsert
pub mod Trim
use mathlib.Core.List.{reverse}
use radiobeacon.Common.{
  ℕ, zero, suc, ◌+◌, ◌/◌, String, Bool, true, false, not, ◌&&◌, Option, none, some, List, [], ◌∷◌,
  ◌++◌, ltb, ◌==◌, str_eq, ℤ, pos, negsuc, exists, select, delete, update, take, length, order_by,
  if◌then◌else◌,
}
use radiobeacon.Database.{Db, TxRow}

-- Microseconds in a second: an instant is a number of these.
abbrev pub second : ℕ
second = 1000000

abbrev pub is_unit : String → String → String → String → TxRow → Bool
is_unit source item_id kind ref r =
    str_eq r.source source && (str_eq r.item_id item_id && (str_eq r.kind kind && str_eq r.ref ref))

-- Two rows with one primary key.
abbrev pub same_unit : TxRow → TxRow → Bool
same_unit a b = is_unit b.source b.item_id b.kind b.ref a

abbrev pub of_kind : String → TxRow → Bool
of_kind kind r = str_eq r.kind kind

-- A conflict with the key resets the row, and keeps its `created_at` and its place.
abbrev pub reset : ℕ → Option String → Option String → TxRow → TxRow
reset now policy event_id r = record r {
  policy = policy;
  enqueued_event_id = event_id;
  sent_count = 0;
  last_transmitted_at = none;
  updated_at = now;
}

unfoldable pub upsert :
    ℕ → String → String → String → String → Option String → Option String → List TxRow → List TxRow
upsert now source item_id kind ref policy event_id rows =
    if exists (is_unit source item_id kind ref) rows
    then update (is_unit source item_id kind ref) (reset now policy event_id) rows
    else rows
      ++ record {
        source = source;
        item_id = item_id;
        kind = kind;
        ref = ref;
        policy = policy;
        sent_count = 0;
        last_transmitted_at = none;
        enqueued_event_id = event_id;
        created_at = now;
        updated_at = now;
      }
        ∷ []

abbrev pub created : TxRow → ℕ
created r = r.created_at

-- ORDER BY created_at DESC, rowid DESC LIMIT n
pub newest : String → ℕ → List TxRow → List TxRow
newest kind n rows = take n (reverse (order_by created (select (of_kind kind) rows)))

-- DELETE … WHERE kind = ? AND rowid NOT IN (…)
unfoldable pub trim : String → ℕ → List TxRow → List TxRow
unfolding newest
trim kind n rows =
    let kept = newest kind n rows in
    delete (λ r. of_kind kind r && not (exists (same_unit r) kept)) rows

abbrev pub trim_to : Option ℤ → String → List TxRow → List TxRow
trim_to none kind rows = rows
trim_to (some (negsuc n)) kind rows = rows
trim_to (some (pos zero)) kind rows = rows
trim_to (some (pos (suc n))) kind rows = trim kind (suc n) rows

unfoldable pub add_tx_schedule_unit :
    ℕ → String → String → String → String → Option String → Option String → Option ℤ → Db → Db
unfolding upsert trim
add_tx_schedule_unit now source item_id kind ref policy event_id max_size db = record db {
  beacon_tx_schedule =
      trim_to max_size kind
        (upsert now source item_id kind ref policy event_id db.beacon_tx_schedule);
}

unfoldable pub due_tx_schedule_rows : String → Db → List TxRow
due_tx_schedule_rows kind db = order_by created (select (of_kind kind) db.beacon_tx_schedule)

-- `updated_at < cutoff`, where the cutoff is `now - max_age` in whole seconds. The sum on the left
-- side keeps the difference exact.
abbrev pub is_stale : String → ℕ → ℕ → TxRow → Bool
is_stale kind max_age now r = of_kind kind r && ltb (r.updated_at + max_age) (now / second)

-- `now` is an instant, in microseconds. Returns the deleted rows too.
unfoldable pub delete_stale_tx_schedule : String → ℤ → ℕ → Db → List TxRow × Db
delete_stale_tx_schedule kind (negsuc n) now db = ([], db)
delete_stale_tx_schedule kind (pos zero) now db = ([], db)
delete_stale_tx_schedule kind (pos (suc n)) now db = (
  order_by created (select (is_stale kind (suc n) now) db.beacon_tx_schedule),
  record db { beacon_tx_schedule = delete (is_stale kind (suc n) now) db.beacon_tx_schedule },
)

abbrev pub bump : ℕ → ℕ → TxRow → TxRow
bump now_dt now r = record r {
  sent_count = r.sent_count + 1;
  last_transmitted_at = some now_dt;
  updated_at = now;
}

-- `now_dt` is the caller's instant, `now` the database's `datetime('now')`.
unfoldable pub record_tx_schedule_sent : ℕ → ℕ → String → String → String → String → Bool → Db → Db
record_tx_schedule_sent now_dt now source item_id kind ref retire db = record db {
  beacon_tx_schedule =
      if retire
      then delete (is_unit source item_id kind ref) db.beacon_tx_schedule
      else update (is_unit source item_id kind ref) (bump now_dt now) db.beacon_tx_schedule;
}

-- A kind with no row has no entry in the source's dictionary.
unfoldable pub count_tx_schedule_by_kind : Db → String → Option ℕ
count_tx_schedule_by_kind db kind =
    let n = length (select (of_kind kind) db.beacon_tx_schedule) in if n == 0 then none else some n

unfoldable pub delete_tx_schedule_for_item : String → String → Db → Db
delete_tx_schedule_for_item source item_id db = record db {
  beacon_tx_schedule =
      delete (λ r. str_eq r.source source && str_eq r.item_id item_id) db.beacon_tx_schedule;
}

unfoldable pub delete_tx_schedule_other_kinds : String → Db → ℕ × Db
delete_tx_schedule_other_kinds keep_kind db = (
  length (select (λ r. not (of_kind keep_kind r)) db.beacon_tx_schedule),
  record db { beacon_tx_schedule = delete (λ r. not (of_kind keep_kind r)) db.beacon_tx_schedule },
)
