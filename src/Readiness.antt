-- ===== src/Readiness.antt =====
-- actions/src/actions/content_ready.py, with mark_item_ready_published of
-- data-adapters/src/adapters/storage.py: the poll that publishes an item once both of its actions have
-- finished. The message that it publishes is recorded by its audit row alone.
pub mod Published
pub mod Once
use radiobeacon.Common.{
  ℕ, String, Bool, true, false, not, ◌&&◌, ◌||◌, Option, none, some, List, [], ◌∷◌, ◌++◌, ltb,
  str_eq, is_text, length, select, exists, update, if◌then◌else◌,
}
use radiobeacon.Database.{Db, AuditRow, ReadyRow}
use radiobeacon.Database.Audit.{record_audit_event}

abbrev pub is_ready : String → String → ReadyRow → Bool
is_ready source item_id r = str_eq r.source source && str_eq r.item_id item_id

abbrev pub published_now : ℕ → ReadyRow → ReadyRow
published_now now r = record r { published_at = now }

unfoldable pub mark_item_ready_published : ℕ → String → String → Db → Db
mark_item_ready_published now source item_id db = record db {
  item_readiness =
      if exists (is_ready source item_id) db.item_readiness
      then update (is_ready source item_id) (published_now now) db.item_readiness
      else db.item_readiness
        ++ record { source = source; item_id = item_id; published_at = now } ∷ [];
}

abbrev pub published : String → String → List ReadyRow → Option ℕ
published source item_id [] = none
published source item_id (r ∷ rows) =
    let rest = published source item_id rows in
    if is_ready source item_id r then some r.published_at else rest

unfoldable pub get_item_ready_published_at : String → String → Db → Option ℕ
get_item_ready_published_at source item_id db = published source item_id db.item_readiness

-- `event_type IN (…)`, the two required actions.
abbrev pub is_action : AuditRow → Bool
is_action a =
    str_eq a.event_type "action.chunk.executed" || str_eq a.event_type "action.ai.executed"

abbrev pub about : String → String → AuditRow → Bool
about source item_id a = is_text a.source source && is_text a.item_id item_id

-- COUNT(DISTINCT event_type) = 2 within the group.
pub has_both : String → String → List AuditRow → Bool
has_both source item_id log =
    exists (λ a. about source item_id a && str_eq a.event_type "action.chunk.executed") log
    && exists (λ a. about source item_id a && str_eq a.event_type "action.ai.executed") log

-- `MAX(a.recorded_at) > t` within the group: some row of the group is later than `t`.
pub later_than : String → String → ℕ → List AuditRow → Bool
later_than source item_id t log =
    exists (λ a. (about source item_id a && is_action a) && ltb t a.recorded_at) log

-- `MAX(r.published_at) IS NULL OR MAX(a.recorded_at) > MAX(r.published_at)`; a group has one
-- readiness row at most.
pub unpublished : String → String → Option ℕ → List AuditRow → Bool
unfolding later_than
unpublished source item_id none log = true
unpublished source item_id (some t) log = later_than source item_id t log

unfoldable pub is_settled : Db → String × String → Bool
unfolding has_both unpublished
is_settled db (source, item_id) =
    has_both source item_id db.audit_log
    && unpublished source item_id (get_item_ready_published_at source item_id db) db.audit_log

-- The groups: the keys of the actions' rows with a source and an item, each once.
abbrev pub same_item : String × String → String × String → Bool
same_item a b = str_eq a.0 b.0 && str_eq a.1 b.1

abbrev key_of : Option String → Option String → Option (String × String)
key_of none i = none
key_of (some s) none = none
key_of (some s) (some i) = some (s, i)

abbrev add_key : Option (String × String) → List (String × String) → List (String × String)
add_key none keys = keys
add_key (some k) keys = if exists (same_item k) keys then keys else k ∷ keys

pub groups : List AuditRow → List (String × String)
groups [] = []
groups (a ∷ log) =
    let rest = groups log in if is_action a then add_key (key_of a.source a.item_id) rest else rest

unfoldable pub find_settled_items : Db → List (String × String)
unfolding groups
find_settled_items db = select (is_settled db) (groups db.audit_log)

pub publish_all : ℕ → String → List (String × String) → Db → Db
publish_all now actor [] db = db
publish_all now actor ((source, item_id) ∷ items) db = publish_all now actor items (
    record_audit_event now "item.content_ready.published" actor (some source) (some item_id) []
      (mark_item_ready_published now source item_id db))

unfoldable pub check_and_publish : ℕ → String → Db → ℕ × Db
unfolding publish_all
check_and_publish now actor db =
    let items = find_settled_items db in (length items, publish_all now actor items db)
