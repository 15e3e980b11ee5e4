-- ===== src/Dispatcher/Discover.antt =====
-- `_last_seen_rowid` and `discover_new_items` of dispatcher/src/dispatcher/watcher.py.
pub mod Watermark
pub mod Naive
pub mod Returns
use radiobeacon.Common.{
  ℕ, String, Bool, true, false, Option, none, some, List, [], ◌∷◌, ◌++◌, ltb, str_eq, length,
  select, delete, update, find_row, order_by, if◌then◌else◌,
}
use radiobeacon.Common.Result.{Exception, type_error, Result, ok, raised, ◌>>=◌}
use radiobeacon.Database.{Db, Item, Value, StateRow, SeenRow, max_rowid}
use radiobeacon.Database.Audit.{record_audit_event, opt_text}
use radiobeacon.Dispatcher.{is_seen, arm, is_consumer}

-- What `datetime.fromisoformat` makes of a text: a ValueError, a datetime without a time zone, or an
-- instant in microseconds.
pub data Parsed : Type 0 where
  invalid naive : Parsed
  aware : ℕ → Parsed

abbrev pub Parse : Type 0
Parse = String → Parsed

abbrev pub rowid : Item → ℕ
rowid i = i.rowid

unfoldable pub watermark : String → List StateRow → Option ℕ
watermark consumer [] = none
watermark consumer (s ∷ rows) =
    let rest = watermark consumer rows in
    if str_eq s.consumer consumer then some s.last_seen_rowid else rest

first_watermark : String → Option ℕ → Db → ℕ × Db
unfolding max_rowid
first_watermark consumer (some n) db = (n, db)
first_watermark consumer none db = (
  max_rowid db.items,
  record db {
    dispatcher_state =
        db.dispatcher_state
        ++ record { consumer = consumer; last_seen_rowid = max_rowid db.items } ∷ [];
  },
)

unfoldable pub last_seen_rowid : String → Db → ℕ × Db
unfolding watermark first_watermark
last_seen_rowid consumer db = first_watermark consumer (watermark consumer db.dispatcher_state) db

-- `event_dt < not_before`; a datetime without a zone cannot be compared with one that has one.
before_start : ℕ → Parsed → Result Bool
before_start not_before invalid = ok false
before_start not_before naive = raised type_error
before_start not_before (aware event) = ok (ltb event not_before)

-- `not_before` has a time zone: the process's start in UTC.
pub is_stale : Parse → Option ℕ → Option String → Result Bool
unfolding before_start
is_stale parse none date = ok false
is_stale parse (some not_before) none = ok false
is_stale parse (some not_before) (some date) =
    if str_eq date "" then ok false else before_start not_before (parse date)

-- INSERT OR REPLACE INTO item_policy_state
pub remember : String → Item → List SeenRow → List SeenRow
remember consumer i rows =
    delete (is_seen consumer i.source i.item_id) rows
    ++ record { consumer = consumer; source = i.source; item_id = i.item_id; policy = i.policy }
      ∷ []

abbrev pub advance : ℕ → StateRow → StateRow
advance n s = record s { last_seen_rowid = n }

-- The two ways to take note of a row.
pub note : ℕ → String → Item → Bool → Db → Db
note now consumer i true db =
    record_audit_event now "item.discovered_stale_skipped" "dispatcher.watcher" (some i.source)
      (some i.item_id)
      (("consumer", Value.text consumer) ∷ ("source_date_time", opt_text i.source_date_time) ∷ [])
      db
note now consumer i false db =
    record_audit_event now "item.discovered" "dispatcher.watcher" (some i.source) (some i.item_id)
      (("consumer", Value.text consumer) ∷ []) (arm consumer i.source i.item_id db)

pub discover_row : ℕ → String → Item → Bool → Db → Db
unfolding note remember
discover_row now consumer i stale db =
    let db' = note now consumer i stale db in
    record db' {
      item_policy_state = remember consumer i db'.item_policy_state;
      dispatcher_state = update (is_consumer consumer) (advance i.rowid) db'.dispatcher_state;
    }

-- The turn of a row whose staleness is known, then the others.
pub discover_known : (Bool → Db × Result (Unit {0})) → Db → Result Bool → Db × Result (Unit {0})
discover_known next db (ok stale) = next stale
discover_known next db (raised e) = (db, raised e)

unfoldable pub discover_rows :
    Parse → ℕ → String → Option ℕ → List Item → Db → Db × Result (Unit {0})
unfolding discover_known is_stale discover_row
discover_rows parse now consumer not_before [] db = (db, ok tt)
discover_rows parse now consumer not_before (i ∷ items) db =
    discover_known
      (λ stale.
        discover_rows parse now consumer not_before items (discover_row now consumer i stale db))
      db (is_stale parse not_before i.source_date_time)

-- WHERE rowid > ? ORDER BY rowid
unfoldable pub new_items : ℕ → Db → List Item
new_items last_seen db = order_by rowid (select (λ i. ltb last_seen i.rowid) db.items)

unfoldable pub discover_new_items : Parse → ℕ → String → Option ℕ → Db → Db × Result ℕ
unfolding discover_rows new_items
discover_new_items parse now consumer not_before db =
    let (last_seen, db1) = last_seen_rowid consumer db in
    let rows = new_items last_seen db1 in
    let (db2, end) = discover_rows parse now consumer not_before rows db1 in
    (db2, end >>= λ _. ok (length rows))
