-- ===== src/Beacon/Enqueue/Retire.antt =====
-- A fresher item takes the place of older ones of the same event.
use radiobeacon.Common.{
  ℕ, zero, suc, String, ◌≡◌, refl, ap, ◌∙◌, Bool, true, false, Option, none, some, List, [], ◌∷◌,
  arith, str_eq, eq_iff, ℤ, pos, negsuc, exists, exists-append, delete, update, find_row, inl, inr,
  Bool-cases,
}
use radiobeacon.Common.Cover.{left, left-delete, left-none, left-select}
use radiobeacon.Common.Result.{ok}
use radiobeacon.Database.{Db, TxRow, ChunkRow, is_item}
use radiobeacon.Database.Settings.{Environ}
use radiobeacon.Schedule.{is_unit, reset, upsert, trim, trim_to, add_tx_schedule_unit}
use radiobeacon.Beacon.Enqueue.{
  resolve_beacon_type, already_enqueued, of_event, older, retire_rows, retire_older_for_event_key,
  add_frames, schedule_units, enqueue, event_key_of, handle_content_ready_event, chunks_of,
}
use radiobeacon.Beacon.Enqueue.Once.{is_skipped, cleared, handle-enqueues}

not-exists-delete :
    (p q : TxRow → Bool) (rows : List TxRow)
    → exists p rows ≡ false
    → exists p (delete q rows) ≡ false
not-exists-delete p q [] h = refl
not-exists-delete p q (r ∷ rs) h = ground (arith, not-exists-delete p q rs, h)

-- The DELETE of a listed row.
abbrev same_key : String → String → TxRow → TxRow → Bool
same_key source kind s = is_unit source s.item_id kind s.ref

retire-clears :
    (p : TxRow → Bool) (now : ℕ) (source item_id key kind : String) (rows : List TxRow) (db : Db)
    → exists (left p (same_key source kind) rows) db.beacon_tx_schedule ≡ false
    → exists p (retire_rows now source item_id key kind rows db).beacon_tx_schedule ≡ false
unfolding retire_rows
retire-clears p now source item_id key kind [] db h =
    left-none p (same_key source kind) db.beacon_tx_schedule h
retire-clears p now source item_id key kind (s ∷ rs) db h =
    retire-clears p now source item_id key kind rs _
      (left-delete p (same_key source kind) s rs db.beacon_tx_schedule h)

older-own :
    (source item_id key kind : String) (db : Db) (y : TxRow)
    → older source item_id key kind db y ≡ true
    → is_unit source y.item_id kind y.ref y ≡ true
unfolding older of_event
older-own source item_id key kind db y h =
    ground (arith, h, eq_iff y.item_id y.item_id, eq_iff y.ref y.ref)

cleared-older :
    (now : ℕ) (source item_id key kind : String) (db : Db)
    → exists
        (older source item_id key kind db)
        (retire_older_for_event_key now source item_id key kind db).beacon_tx_schedule
      ≡ false
unfolding retire_older_for_event_key
cleared-older now source item_id key kind db =
    retire-clears (older source item_id key kind db) now source item_id key kind _ db (
      left-select (older source item_id key kind db) (same_key source kind) db.beacon_tx_schedule
        (older-own source item_id key kind db))

-- The item's own rows are not older than itself.
module _ (source item_id key kind : String) (db : Db) where
  update-older :
      (now : ℕ) (q : TxRow → Bool) (policy event_id : Option String) (rows : List TxRow)
      → exists (older source item_id key kind db) (update q (reset now policy event_id) rows)
        ≡ exists (older source item_id key kind db) rows
  unfolding older of_event
  update-older now q policy event_id [] = refl
  update-older now q policy event_id (y ∷ ys) =
      ground (arith, update-older now q policy event_id ys)

  upsert-older :
      (now : ℕ) (k ref : String) (policy event_id : Option String) (rows : List TxRow)
      → exists (older source item_id key kind db) rows ≡ false
      → exists
          (older source item_id key kind db)
          (upsert now source item_id k ref policy event_id rows)
        ≡ false
  unfolding upsert older of_event
  upsert-older now k ref policy event_id rows h =
      elim (Bool-cases (exists (is_unit source item_id k ref) rows)) [
        | inl old ↦
            rw old (update-older now (is_unit source item_id k ref) policy event_id rows ∙ h)
        | inr new ↦ rw new (
            exists-append (older source item_id key kind db) rows _
            ∙ ground (arith, h, eq_iff item_id item_id))
      ]

  trim_to-older :
      (size : Option ℤ) (k : String) (rows : List TxRow)
      → exists (older source item_id key kind db) rows ≡ false
      → exists (older source item_id key kind db) (trim_to size k rows) ≡ false
  unfolding trim
  trim_to-older none k rows h = h
  trim_to-older (some (negsuc n)) k rows h = h
  trim_to-older (some (pos zero)) k rows h = h
  trim_to-older (some (pos (suc n))) k rows h = not-exists-delete _ _ rows h

  add-older :
      (now : ℕ) (k ref : String) (policy event_id : Option String) (size : Option ℤ) (at : Db)
      → exists (older source item_id key kind db) at.beacon_tx_schedule ≡ false
      → exists
          (older source item_id key kind db)
          (add_tx_schedule_unit now source item_id k ref policy event_id size at).beacon_tx_schedule
        ≡ false
  unfolding add_tx_schedule_unit
  add-older now k ref policy event_id size at h =
      trim_to-older size k _ (upsert-older now k ref policy event_id at.beacon_tx_schedule h)

  frames-older :
      (now : ℕ) (policy event_id : Option String) (size : Option ℤ) (chunks : List ChunkRow)
      (at : Db)
      → exists (older source item_id key kind db) at.beacon_tx_schedule ≡ false
      → exists
          (older source item_id key kind db)
          (add_frames now source item_id policy event_id size chunks at).beacon_tx_schedule
        ≡ false
  unfolding add_frames
  frames-older now policy event_id size [] at h = h
  frames-older now policy event_id size (c ∷ cs) at h =
      frames-older now policy event_id size cs _ (add-older now "frame" _ policy event_id size at h)

  enqueue-older :
      (now : ℕ) (policy event_id : Option String) (size : ℤ) (at : Db)
      → exists (older source item_id key kind db) at.beacon_tx_schedule ≡ false
      → exists
          (older source item_id key kind db)
          (enqueue now kind source item_id policy event_id size at).beacon_tx_schedule
        ≡ false
  unfolding enqueue schedule_units
  enqueue-older now policy event_id size at h = elim (Bool-cases (str_eq kind "frame")) [
    | inl frames ↦
        rw frames (frames-older now policy event_id (some size) (chunks_of source item_id at) at h)
    | inr voice ↦ rw voice (add-older now "voice" "" policy event_id (some size) at h)
  ]

-- When an event whose id was not seen before is handled for an item with an event key, the item is
-- not skipped for a newer one, and the handling returns, no row of the configured kind is left for
-- an item of the same source and event key with an older date.
pub handle-retires_older :
    (environ : Environ) (now : ℕ) (source item_id key : String) (event_id : Option String)
    (db db' : Db)
    → event_key_of (find_row (is_item source item_id) db.items) ≡ some key
    → str_eq key "" ≡ false
    → already_enqueued event_id db ≡ false
    → is_skipped environ source item_id db ≡ false
    → handle_content_ready_event environ now source item_id event_id db ≡ (db', ok tt)
    → exists (older source item_id key (resolve_beacon_type environ db) db) db'.beacon_tx_schedule
      ≡ false
handle-retires_older environ now source item_id key event_id db db' keyed given new kept h =
    let kind = resolve_beacon_type environ db in
    let (n, e) = handle-enqueues environ now source item_id event_id db db' new kept h in
    let p = older source item_id key kind db in
    let base : cleared now kind source item_id
          (event_key_of (find_row (is_item source item_id) db.items)) db
        ≡ retire_older_for_event_key now source item_id key kind db =
      rw (keyed, given) refl in
    ap (λ d. exists p d.beacon_tx_schedule) e
    ∙ enqueue-older source item_id key kind db now _ event_id n _ (
        ap (λ d. exists p d.beacon_tx_schedule) base ∙ cleared-older now source item_id key kind db)
