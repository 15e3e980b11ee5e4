-- ===== src/Beacon/Enqueue.antt =====
-- The scheduling of items in beacon/src/beacon/__main__.py: `_already_enqueued`,
-- `_superseded_by_newer`, `_retire_older_for_event_key` and `_handle_content_ready_event`. The wake
-- event, which only ends a wait early, is left out.
pub mod Once
pub mod Retire
pub mod Returns
use radiobeacon.Common.{
  ℕ, String, Bool, true, false, not, ◌&&◌, ◌||◌, Option, none, some, List, [], ◌∷◌, str_eq, text_lt,
  is_text, ℤ, length, select, delete, exists, find_row, order_by, if◌then◌else◌,
}
use radiobeacon.Common.Text.{strip, lower, int, decimal}
use radiobeacon.Common.Result.{value_error, Result, ok, raised, or_raise}
use radiobeacon.Database.{Db, Item, Value, AuditRow, TxRow, ChunkRow, is_item}
use radiobeacon.Database.Audit.{record_audit_event, opt_text, has_text}
use radiobeacon.Database.Settings.{Environ, get_setting}
use radiobeacon.Schedule.{is_unit, add_tx_schedule_unit}

or_empty : Option String → String
or_empty none = ""
or_empty (some s) = s

unfoldable pub resolve_beacon_type : Environ → Db → String
unfolding or_empty
resolve_beacon_type environ db =
    let value =
      lower (strip (or_empty (get_setting environ true "BEACON_TYPE" (some "voice") db))) in
    if str_eq value "voice" || str_eq value "frame" then value else "voice"

abbrev pub is_enqueued : AuditRow → Bool
is_enqueued a = str_eq a.event_type "beacon.content_ready.enqueued"

unfoldable pub already_enqueued : Option String → Db → Bool
unfolding has_text
already_enqueued none db = false
already_enqueued (some event_id) db =
    not (str_eq event_id "")
    && exists (λ a. is_enqueued a && has_text "event_id" event_id a.details) db.audit_log

date_of : Option Item → Option String
date_of none = none
date_of (some i) = i.source_date_time

-- `(SELECT source_date_time FROM items WHERE source=? AND item_id=?)`
pub source_date : String → String → Db → Option String
unfolding date_of
source_date source item_id db = date_of (find_row (is_item source item_id) db.items)

-- The join: rows of the kind for other items of the source with this event key whose date passes a
-- test.
pub of_event : (Option String → Bool) → List Item → String → String → String → String → TxRow → Bool
of_event date items source item_id event_key kind s =
    str_eq s.source source
    && (str_eq s.kind kind
        && (not (str_eq s.item_id item_id)
            && exists
                (λ i.
                  is_item s.source s.item_id i
                  && (is_text i.event_key event_key && date i.source_date_time))
                items))

unfoldable pub superseded_by_newer : String → String → String → String → Db → Bool
unfolding of_event source_date
superseded_by_newer source item_id event_key kind db =
    exists
      (of_event (text_lt (source_date source item_id db)) db.items source item_id event_key kind)
      db.beacon_tx_schedule

pub older : String → String → String → String → Db → TxRow → Bool
unfolding of_event source_date
older source item_id event_key kind db =
    of_event (λ d. text_lt d (source_date source item_id db)) db.items source item_id event_key kind

pub retire_rows : ℕ → String → String → String → String → List TxRow → Db → Db
retire_rows now source item_id event_key kind [] db = db
retire_rows now source item_id event_key kind (s ∷ rows) db =
    retire_rows now source item_id event_key kind rows (
      record_audit_event now "beacon.tx.superseded" "beacon" (some source) (some s.item_id)
        (("kind", Value.text kind)
          ∷ ("ref", Value.text s.ref)
          ∷ ("superseded_by", Value.text item_id)
          ∷ ("event_key", Value.text event_key)
          ∷ [])
        (record db {
          beacon_tx_schedule = delete (is_unit source s.item_id kind s.ref) db.beacon_tx_schedule;
        }))

unfoldable pub retire_older_for_event_key : ℕ → String → String → String → String → Db → Db
unfolding retire_rows older
retire_older_for_event_key now source item_id event_key kind db =
    retire_rows now source item_id event_key kind
      (select (older source item_id event_key kind db) db.beacon_tx_schedule) db

abbrev chunk_index : ChunkRow → ℕ
chunk_index c = c.chunk_index

-- `SELECT chunk_index FROM chunks WHERE … ORDER BY chunk_index`
pub chunks_of : String → String → Db → List ChunkRow
chunks_of source item_id db =
    order_by chunk_index
      (select (λ c. str_eq c.source source && str_eq c.item_id item_id) db.chunks)

pub add_frames :
    ℕ → String → String → Option String → Option String → Option ℤ → List ChunkRow → Db → Db
add_frames now source item_id policy event_id max_size [] db = db
add_frames now source item_id policy event_id max_size (c ∷ chunks) db =
    add_frames now source item_id policy event_id max_size chunks (
      add_tx_schedule_unit now source item_id "frame" (decimal c.chunk_index) policy event_id
        max_size db)

-- The rows of one item for a kind, and how many of them are frames.
unfoldable pub schedule_units :
    ℕ → String → String → String → Option String → Option String → Option ℤ → Db → ℕ × Db
unfolding chunks_of add_frames
schedule_units now kind source item_id policy event_id max_size db =
    if str_eq kind "frame"
    then (let chunks = chunks_of source item_id db in
        (length chunks, add_frames now source item_id policy event_id max_size chunks db))
    else (0, add_tx_schedule_unit now source item_id "voice" "" policy event_id max_size db)

-- `int(get_setting("BEACON_QUEUE_MAX_SIZE", …))`; a value is always there, since the default is.
unfoldable pub max_size_of : Environ → Db → Result ℤ
unfolding or_empty
max_size_of environ db =
    or_raise value_error
      (int (or_empty (get_setting environ true "BEACON_QUEUE_MAX_SIZE" (some "200") db)))

-- From the retirement of older items on.
unfoldable pub enqueue : ℕ → String → String → String → Option String → Option String → ℤ → Db → Db
unfolding schedule_units
enqueue now kind source item_id policy event_id size db =
    let (n, db') = schedule_units now kind source item_id policy event_id (some size) db in
    record_audit_event now "beacon.content_ready.enqueued" "beacon" (some source) (some item_id)
      (("event_id", opt_text event_id)
        ∷ ("beacon_type", Value.text kind)
        ∷ ("frame_count", Value.num n)
        ∷ [])
      db'

abbrev pub Outcome : Type 0
Outcome = Db × Result (Unit {0})

pub sized : ℕ → String → String → String → Option String → Option String → Db → Result ℤ → Outcome
unfolding enqueue
sized now kind source item_id policy event_id db (ok size) =
    (enqueue now kind source item_id policy event_id size db, ok tt)
sized now kind source item_id policy event_id db (raised e) = (db, raised e)

unfoldable pub with_size :
    Environ → ℕ → String → String → String → Option String → Option String → Db → Outcome
unfolding sized max_size_of
with_size environ now kind source item_id policy event_id db =
    sized now kind source item_id policy event_id db (max_size_of environ db)

-- Once the event is not a repeated one. A key that is empty counts as none.
unfoldable pub schedule_item :
    Environ
    → ℕ
    → String
    → String
    → String
    → Option String
    → Option String
    → Option String
    → Db
    → Outcome
unfolding with_size
schedule_item environ now kind source item_id policy none event_id db =
    with_size environ now kind source item_id policy event_id db
schedule_item environ now kind source item_id policy (some key) event_id db =
    if str_eq key ""
    then with_size environ now kind source item_id policy event_id db
    else if superseded_by_newer source item_id key kind db
    then (
      record_audit_event now "beacon.tx.supersede_skip" "beacon" (some source) (some item_id)
          (("event_key", Value.text key) ∷ []) db,
      ok tt,
    )
    else with_size environ now kind source item_id policy event_id
        (retire_older_for_event_key now source item_id key kind db)

abbrev pub policy_of : Option Item → Option String
policy_of none = none
policy_of (some i) = i.policy

abbrev pub event_key_of : Option Item → Option String
event_key_of none = none
event_key_of (some i) = i.event_key

unfoldable pub handle_content_ready_event :
    Environ → ℕ → String → String → Option String → Db → Outcome
unfolding schedule_item
handle_content_ready_event environ now source item_id event_id db =
    if already_enqueued event_id db
    then (db, ok tt)
    else (let item = find_row (is_item source item_id) db.items in
        schedule_item environ now (resolve_beacon_type environ db) source item_id (policy_of item)
          (event_key_of item) event_id db)
