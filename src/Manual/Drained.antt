-- ===== src/Manual/Drained.antt =====
-- A manual message is attempted once.
use radiobeacon.Common.{
  ℕ, suc, ◌+◌, String, ◌≡◌, refl, ap, ◌∙◌, Bool, false, none, List, [], ◌∷◌, arith, exists, select,
  delete, length, order_by,
}
use radiobeacon.Common.Sort.{exists-order_by}
use radiobeacon.Common.Cover.{left, left-delete, left-none, left-select}
use radiobeacon.Common.Result.{ok}
use radiobeacon.Database.{Db, ManualRow}
use radiobeacon.Manual.{
  manual_of_kind, manual_id, has_id, pending_manual_tx, delete_manual_tx, ManualTransmit,
  after_manual, manual_rows, drain_manual_tx,
}

-- A transmission that lets no exception out and does not touch the queue.
pub record LeavesQueue (transmit : ManualTransmit) : Type 0 where
  pub silent : (r : ManualRow) (db : Db) → (transmit r db).1 ≡ none
  pub queue : (r : ManualRow) (db : Db) → (transmit r db).0.beacon_manual_tx ≡ db.beacon_manual_tx

left-order_by :
    (p : ManualRow → Bool) (keys rows : List ManualRow)
    → exists (left p has_id keys) rows ≡ false
    → exists (left p has_id (order_by manual_id keys)) rows ≡ false
left-order_by p keys [] h = refl
left-order_by p keys (r ∷ rows) h =
    ground (arith, exists-order_by (λ k. has_id k r) manual_id keys, left-order_by p keys rows, h)

none_pending :
    (kind : String) (rows : List ManualRow)
    → exists (manual_of_kind kind) rows ≡ false
    → select (manual_of_kind kind) rows ≡ []
none_pending kind [] h = refl
none_pending kind (r ∷ rows) h = ground (arith, none_pending kind rows, h)

module _ (transmit : ManualTransmit) (calm : LeavesQueue transmit) (stop : ℕ → Bool)
    (runs : (k : ℕ) → stop k ≡ false) where
  step :
      (k n : ℕ) (r : ManualRow) (rows : List ManualRow) (db : Db)
      → manual_rows transmit stop k n (r ∷ rows) db
        ≡ manual_rows transmit stop (suc k) (n + 1) rows (delete_manual_tx r.id (transmit r db).0)
  unfolding manual_rows
  step k n r rows db = rw (runs k, after_manual, calm.silent r db) refl

  rows-clear :
      (p : ManualRow → Bool) (k n : ℕ) (keys : List ManualRow) (db : Db)
      → exists (left p has_id keys) db.beacon_manual_tx ≡ false
      → (exists p (manual_rows transmit stop k n keys db).0.beacon_manual_tx ≡ false)
        × ((manual_rows transmit stop k n keys db).1 ≡ ok (n + length keys))
  unfolding manual_rows delete_manual_tx
  rows-clear p k n [] db h = (left-none p has_id db.beacon_manual_tx h, ap ok (omega arith))
  rows-clear p k n (r ∷ keys) db h =
      let (clear, counted) =
        rows-clear p (suc k) (n + 1) keys (delete_manual_tx r.id (transmit r db).0) (
          ap (λ t. exists (left p has_id keys) (delete (has_id r) t)) (calm.queue r db)
          ∙ left-delete p has_id r keys db.beacon_manual_tx h) in
      (
        ap (λ o. exists p o.0.beacon_manual_tx) (step k n r keys db) ∙ clear,
        ap (λ o. o.1) (step k n r keys db) ∙ counted ∙ ap ok (omega arith),
      )

  -- When the stop event is not set, transmissions raise nothing and leave the queue alone, a pass
  -- attempts every pending message of its kind, and none of that kind is pending after it.
  drain_manual-empties :
      (kind : String) (db : Db)
      → ((drain_manual_tx transmit stop kind db).1 ≡ ok (length (pending_manual_tx kind db)))
        × (pending_manual_tx kind (drain_manual_tx transmit stop kind db).0 ≡ [])
  unfolding drain_manual_tx pending_manual_tx
  drain_manual-empties kind db =
      let (clear, counted) =
        rows-clear (manual_of_kind kind) 0 0
          (order_by manual_id (select (manual_of_kind kind) db.beacon_manual_tx)) db
          (left-order_by (manual_of_kind kind) (select (manual_of_kind kind) db.beacon_manual_tx)
            db.beacon_manual_tx
            (left-select (manual_of_kind kind) has_id db.beacon_manual_tx (λ r h. ground arith))) in
      (counted ∙ ap ok (omega arith), ap (order_by manual_id) (none_pending kind _ clear))
