-- ===== src/Beacon/Enqueue/Once.antt =====
-- One event is scheduled once.
use radiobeacon.Common.{
  ℕ, String, ◌≡◌, refl, sym, ap, subst, ◌∙◌, Bool, true, false, not, ◌&&◌, Option, none, some,
  arith, str_eq, eq_iff, ℤ, exists-append, find_row, if◌then◌else◌, inl, inr, Bool-cases,
}
use radiobeacon.Common.Result.{Result, ok, raised}
use radiobeacon.Database.{Db, is_item}
use radiobeacon.Database.Audit.{has_text}
use radiobeacon.Database.Settings.{Environ}
use radiobeacon.Beacon.Enqueue.{
  resolve_beacon_type, already_enqueued, superseded_by_newer, retire_older_for_event_key, enqueue,
  max_size_of, sized, with_size, schedule_item, event_key_of, policy_of, handle_content_ready_event,
}

-- Whether the item of an event is skipped for a newer one.
abbrev pub skipped : String → String → String → Option String → Db → Bool
skipped kind source item_id none db = false
skipped kind source item_id (some key) db =
    not (str_eq key "") && superseded_by_newer source item_id key kind db

abbrev pub is_skipped : Environ → String → String → Db → Bool
is_skipped environ source item_id db =
    skipped (resolve_beacon_type environ db) source item_id
      (event_key_of (find_row (is_item source item_id) db.items)) db

enqueue-marks :
    (now : ℕ) (kind source item_id : String) (policy : Option String) (event_id : String) (size : ℤ)
    (db : Db)
    → str_eq event_id "" ≡ false
    → already_enqueued
        (some event_id)
        (enqueue now kind source item_id policy (some event_id) size db)
      ≡ true
unfolding already_enqueued has_text enqueue
enqueue-marks now kind source item_id policy event_id size db given =
    let marked : str_eq event_id event_id ≡ true = ground (arith, eq_iff event_id event_id) in
    rw (given, exists-append) (ground (arith, marked))

sized-enqueues :
    (now : ℕ) (kind source item_id : String) (policy event_id : Option String) (db : Db)
    (size : Result ℤ) (db' : Db)
    → sized now kind source item_id policy event_id db size ≡ (db', ok tt)
    → (n : ℤ) × (db' ≡ enqueue now kind source item_id policy event_id n db)
unfolding sized
sized-enqueues now kind source item_id policy event_id db (ok n) db' h = (n, sym (ap (λ o. o.0) h))
sized-enqueues now kind source item_id policy event_id db (raised e) db' h =
    absurd (cc (ap (λ o. o.1) h))

-- The database that the rows of an item are added to.
abbrev pub cleared : ℕ → String → String → String → Option String → Db → Db
cleared now kind source item_id none db = db
cleared now kind source item_id (some key) db =
    if str_eq key "" then db else retire_older_for_event_key now source item_id key kind db

item-enqueues :
    (environ : Environ) (now : ℕ) (kind source item_id : String)
    (policy event_key event_id : Option String) (db db' : Db)
    → skipped kind source item_id event_key db ≡ false
    → schedule_item environ now kind source item_id policy event_key event_id db ≡ (db', ok tt)
    → (n : ℤ) × (db'
        ≡ enqueue now kind source item_id policy event_id n
            (cleared now kind source item_id event_key db))
unfolding schedule_item with_size
item-enqueues environ now kind source item_id policy none event_id db db' kept h =
    sized-enqueues now kind source item_id policy event_id db (max_size_of environ db) db' h
item-enqueues environ now kind source item_id policy (some key) event_id db db' kept h =
    elim (Bool-cases (str_eq key "")) [
      | inl empty ↦ rw empty (
          sized-enqueues now kind source item_id policy event_id db (max_size_of environ db) db'
            (rw empty at h))
      | inr given ↦
          let live : superseded_by_newer source item_id key kind db ≡ false =
            ground (arith, kept, given) in
          rw given (
            sized-enqueues now kind source item_id policy event_id
              (retire_older_for_event_key now source item_id key kind db) _ db'
              (rw (given, live) at h))
    ]

-- An event that is not a repeated one and whose item is not skipped ends in `enqueue`.
pub handle-enqueues :
    (environ : Environ) (now : ℕ) (source item_id : String) (event_id : Option String) (db db' : Db)
    → already_enqueued event_id db ≡ false
    → is_skipped environ source item_id db ≡ false
    → handle_content_ready_event environ now source item_id event_id db ≡ (db', ok tt)
    → (n : ℤ) × (db'
        ≡ enqueue now
            (resolve_beacon_type environ db)
            source
            item_id
            (policy_of (find_row (is_item source item_id) db.items))
            event_id
            n
            (cleared now
              (resolve_beacon_type environ db)
              source
              item_id
              (event_key_of (find_row (is_item source item_id) db.items))
              db))
unfolding handle_content_ready_event
handle-enqueues environ now source item_id event_id db db' new kept h =
    item-enqueues environ now (resolve_beacon_type environ db) source item_id
      (policy_of (find_row (is_item source item_id) db.items))
      (event_key_of (find_row (is_item source item_id) db.items)) event_id db db' kept (rw new at h)

repeated :
    (environ : Environ) (now : ℕ) (source item_id : String) (event_id : Option String) (db : Db)
    → already_enqueued event_id db ≡ true
    → handle_content_ready_event environ now source item_id event_id db ≡ (db, ok tt)
unfolding handle_content_ready_event
repeated environ now source item_id event_id db old = rw old refl

-- When an event with an id is handled, its item is not skipped for a newer one and the handling
-- returns, a second delivery of the same event, at any time, changes nothing.
pub handle-twice :
    (environ : Environ) (now later : ℕ) (source item_id event_id : String) (db db' : Db)
    → str_eq event_id "" ≡ false
    → is_skipped environ source item_id db ≡ false
    → handle_content_ready_event environ now source item_id (some event_id) db ≡ (db', ok tt)
    → handle_content_ready_event environ later source item_id (some event_id) db' ≡ (db', ok tt)
handle-twice environ now later source item_id event_id db db' given kept h =
    repeated environ later source item_id (some event_id) db'
      (elim (Bool-cases (already_enqueued (some event_id) db)) [
        | inl old ↦
            subst (λ d. already_enqueued (some event_id) d ≡ true)
              (ap (λ o. o.0) (sym (repeated environ now source item_id (some event_id) db old) ∙ h))
              old
        | inr new ↦
            let (n, e) =
              handle-enqueues environ now source item_id (some event_id) db db' new kept h in
            ap (already_enqueued (some event_id)) e
            ∙ enqueue-marks now _ source item_id _ event_id n _ given
      ])
