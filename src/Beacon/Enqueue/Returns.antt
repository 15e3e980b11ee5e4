-- ===== src/Beacon/Enqueue/Returns.antt =====
-- When the handling of an event returns.
use radiobeacon.Common.{
  ℕ, String, ◌≡◌, refl, ◌∙◌, Option, none, some, List, [], ◌∷◌, str_eq, ℤ, select, find_row, inl,
  inr, Bool-cases,
}
use radiobeacon.Common.Result.{ok}
use radiobeacon.Database.{Db, TxRow, is_item}
use radiobeacon.Database.Settings.{Environ, get_setting}
use radiobeacon.Beacon.Enqueue.{
  Outcome, resolve_beacon_type, already_enqueued, superseded_by_newer, retire_rows,
  retire_older_for_event_key, max_size_of, older, enqueue, sized, with_size, schedule_item,
  policy_of, event_key_of, handle_content_ready_event,
}

-- That a call returned, with some database.
abbrev pub Returns : Outcome → Type 0
Returns out = (db : Db) × (out ≡ (db, ok tt))

retired-settings :
    (now : ℕ) (source item_id key kind : String) (rows : List TxRow) (db : Db)
    → (retire_rows now source item_id key kind rows db).settings ≡ db.settings
unfolding retire_rows
retired-settings now source item_id key kind [] db = refl
retired-settings now source item_id key kind (r ∷ rows) db =
    retired-settings now source item_id key kind rows _

sized-Returns :
    (environ : Environ) (now : ℕ) (kind source item_id : String) (policy event_id : Option String)
    (size : ℤ) (db : Db)
    → max_size_of environ db ≡ ok size
    → Returns (with_size environ now kind source item_id policy event_id db)
unfolding with_size sized
sized-Returns environ now kind source item_id policy event_id size db h =
    (enqueue now kind source item_id policy event_id size db, rw h refl)

max_size-settings :
    (environ : Environ) (a b : Db)
    → a.settings ≡ b.settings
    → max_size_of environ a ≡ max_size_of environ b
unfolding max_size_of get_setting
max_size-settings environ a b same = rw same refl

schedule_item-Returns :
    (environ : Environ) (now : ℕ) (kind source item_id : String)
    (policy event_key event_id : Option String) (size : ℤ) (db : Db)
    → max_size_of environ db ≡ ok size
    → Returns (schedule_item environ now kind source item_id policy event_key event_id db)
unfolding schedule_item retire_older_for_event_key
schedule_item-Returns environ now kind source item_id policy none event_id size db h =
    sized-Returns environ now kind source item_id policy event_id size db h
schedule_item-Returns environ now kind source item_id policy (some key) event_id size db h =
    elim (Bool-cases (str_eq key "")) [
      | inl empty ↦
          rw empty (sized-Returns environ now kind source item_id policy event_id size db h)
      | inr given ↦ elim (Bool-cases (superseded_by_newer source item_id key kind db)) [
        | inl newer ↦ rw (given, newer) (_, refl)
        | inr live ↦
            rw (given, live)
              (sized-Returns environ now kind source item_id policy event_id size _ (
                max_size-settings environ
                  (retire_older_for_event_key now source item_id key kind db) db
                  (retired-settings now source item_id key kind
                    (select (older source item_id key kind db) db.beacon_tx_schedule) db)
                ∙ h))
      ]
    ]

-- The handling of an event returns when the queue's size setting is a number, whatever the tables
-- hold.
handle-Returns :
    (environ : Environ) (now : ℕ) (source item_id : String) (event_id : Option String) (size : ℤ)
    (db : Db)
    → max_size_of environ db ≡ ok size
    → Returns (handle_content_ready_event environ now source item_id event_id db)
unfolding handle_content_ready_event
handle-Returns environ now source item_id event_id size db h =
    elim (Bool-cases (already_enqueued event_id db)) [
      | inl old ↦ rw old (db, refl)
      | inr new ↦ rw new (
          schedule_item-Returns environ now (resolve_beacon_type environ db) source item_id
            (policy_of (find_row (is_item source item_id) db.items))
            (event_key_of (find_row (is_item source item_id) db.items)) event_id size db h)
    ]
