-- ===== src/Schedule/Keys.antt =====
-- The primary key (source, item_id, kind, ref) of `beacon_tx_schedule` under every operation on the
-- table.
use radiobeacon.Common.{
  ℕ, zero, suc, String, refl, Bool, true, false, Option, none, some, List, [], ◌∷◌, ℤ, pos, negsuc,
  exists, Distinct, Distinct-delete, Distinct-append_one, Distinct-update, inl, inr, Bool-cases,
}
use radiobeacon.Database.{Db, TxRow}
use radiobeacon.Schedule.{
  is_unit, same_unit, reset, upsert, trim, trim_to, add_tx_schedule_unit, delete_stale_tx_schedule,
  bump, record_tx_schedule_sent, delete_tx_schedule_for_item, delete_tx_schedule_other_kinds,
}

-- No two rows share a primary key.
abbrev pub HasKeys : Db → Type 0
HasKeys db = Distinct same_unit db.beacon_tx_schedule

pub upsert-Distinct :
    (now : ℕ) (source item_id kind ref : String) (policy event_id : Option String)
    (rows : List TxRow)
    → Distinct same_unit rows
    → Distinct same_unit (upsert now source item_id kind ref policy event_id rows)
unfolding upsert
upsert-Distinct now source item_id kind ref policy event_id rows d =
    elim (Bool-cases (exists (is_unit source item_id kind ref) rows)) [
      | inl old ↦ rw old (
          Distinct-update same_unit (is_unit source item_id kind ref) (reset now policy event_id)
            rows (λ x y. refl) (λ x y. refl) d)
      | inr new ↦ rw new (Distinct-append_one same_unit rows _ new d)
    ]

trim_to-Distinct :
    (size : Option ℤ) (kind : String) (rows : List TxRow)
    → Distinct same_unit rows
    → Distinct same_unit (trim_to size kind rows)
unfolding trim
trim_to-Distinct none kind rows d = d
trim_to-Distinct (some (negsuc n)) kind rows d = d
trim_to-Distinct (some (pos zero)) kind rows d = d
trim_to-Distinct (some (pos (suc n))) kind rows d = Distinct-delete same_unit _ rows d

add-HasKeys :
    (now : ℕ) (source item_id kind ref : String) (policy event_id : Option String) (size : Option ℤ)
    (db : Db)
    → HasKeys db
    → HasKeys (add_tx_schedule_unit now source item_id kind ref policy event_id size db)
unfolding add_tx_schedule_unit
add-HasKeys now source item_id kind ref policy event_id size db d =
    trim_to-Distinct size kind _
      (upsert-Distinct now source item_id kind ref policy event_id db.beacon_tx_schedule d)

sent-HasKeys :
    (now_dt now : ℕ) (source item_id kind ref : String) (retire : Bool) (db : Db)
    → HasKeys db
    → HasKeys (record_tx_schedule_sent now_dt now source item_id kind ref retire db)
unfolding record_tx_schedule_sent
sent-HasKeys now_dt now source item_id kind ref true db d = Distinct-delete same_unit _ _ d
sent-HasKeys now_dt now source item_id kind ref false db d =
    Distinct-update same_unit (is_unit source item_id kind ref) (bump now_dt now)
      db.beacon_tx_schedule (λ x y. refl) (λ x y. refl) d

stale-HasKeys :
    (kind : String) (age : ℤ) (now : ℕ) (db : Db)
    → HasKeys db
    → HasKeys (delete_stale_tx_schedule kind age now db).1
unfolding delete_stale_tx_schedule
stale-HasKeys kind (negsuc n) now db d = d
stale-HasKeys kind (pos zero) now db d = d
stale-HasKeys kind (pos (suc n)) now db d = Distinct-delete same_unit _ _ d

-- The operations that write the table.
pub data Write : Type 0 where
  add : ℕ → String → String → String → String → Option String → Option String → Option ℤ → Write
  sent : ℕ → ℕ → String → String → String → String → Bool → Write
  stale : String → ℤ → ℕ → Write
  for_item : String → String → Write
  other_kinds : String → Write

abbrev pub apply : Write → Db → Db
apply (add now source item_id kind ref policy event_id size) db =
    add_tx_schedule_unit now source item_id kind ref policy event_id size db
apply (sent now_dt now source item_id kind ref retire) db =
    record_tx_schedule_sent now_dt now source item_id kind ref retire db
apply (stale kind age now) db = (delete_stale_tx_schedule kind age now db).1
apply (for_item source item_id) db = delete_tx_schedule_for_item source item_id db
apply (other_kinds kind) db = (delete_tx_schedule_other_kinds kind db).1

abbrev pub apply_all : List Write → Db → Db
apply_all [] db = db
apply_all (w ∷ ws) db = apply_all ws (apply w db)

apply-HasKeys : (w : Write) (db : Db) → HasKeys db → HasKeys (apply w db)
unfolding delete_tx_schedule_for_item delete_tx_schedule_other_kinds
apply-HasKeys (add now source item_id kind ref policy event_id size) db d =
    add-HasKeys now source item_id kind ref policy event_id size db d
apply-HasKeys (sent now_dt now source item_id kind ref retire) db d =
    sent-HasKeys now_dt now source item_id kind ref retire db d
apply-HasKeys (stale kind age now) db d = stale-HasKeys kind age now db d
apply-HasKeys (for_item source item_id) db d = Distinct-delete same_unit _ _ d
apply-HasKeys (other_kinds kind) db d = Distinct-delete same_unit _ _ d

-- Whatever writes are made, and in whatever order, no two rows of the table share a primary key if
-- none did before.
apply_all-HasKeys : (ws : List Write) (db : Db) → HasKeys db → HasKeys (apply_all ws db)
apply_all-HasKeys [] db d = d
apply_all-HasKeys (w ∷ ws) db d = apply_all-HasKeys ws (apply w db) (apply-HasKeys w db d)
