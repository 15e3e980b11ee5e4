-- ===== src/Development/Silenced.antt =====
-- A deleted item on the air.
use radiobeacon.Common.{
  ℕ, String, ◌≡◌, refl, ap, arith, false, ◌&&◌, none, List, [], ◌∷◌, str_eq, exists, find_row,
  exists-delete, delete, inl, inr, Bool-cases,
}
use radiobeacon.Common.Exists.{find_row-none}
use radiobeacon.Database.{Db, ChunkRow, ArmedRow, TxRow, is_item}
use radiobeacon.Dispatcher.{is_armed}
use radiobeacon.Beacon.Content.{
  is_chunk, summary_of, chunk_text, resolve_voice_text, resolve_frame_text,
}
use radiobeacon.Development.{without, delete_item}

-- Nothing to say, nothing to send, no unit to air, nothing to deliver.
pub record IsSilent (source item_id : String) (db : Db) : Type 0 where
  pub voice : resolve_voice_text source item_id db ≡ none
  pub frames : (n : ℕ) → resolve_frame_text source item_id n db ≡ none
  pub units :
      exists
        (λ (r : TxRow). str_eq r.source source && str_eq r.item_id item_id)
        db.beacon_tx_schedule
      ≡ false
  pub armed :
      (consumer : String) → exists (is_armed consumer source item_id) db.trigger_dispatches ≡ false

module _ (source item_id : String) where
  chunks-gone :
      (n : ℕ) (rows : List ChunkRow)
      → find_row
          (is_chunk source item_id n)
          (delete (λ (c : ChunkRow). str_eq c.source source && str_eq c.item_id item_id) rows)
        ≡ none
  chunks-gone n [] = refl
  chunks-gone n (c ∷ rows) = ground (arith, chunks-gone n rows)

  armed-gone :
      (consumer : String) (rows : List ArmedRow)
      → exists
          (is_armed consumer source item_id)
          (delete (λ (a : ArmedRow). str_eq a.source source && str_eq a.item_id item_id) rows)
        ≡ false
  armed-gone consumer [] = refl
  armed-gone consumer (a ∷ rows) = ground (arith, armed-gone consumer rows)

  without-IsSilent : (db : Db) → IsSilent source item_id (without source item_id db)
  unfolding resolve_voice_text resolve_frame_text summary_of chunk_text
  without-IsSilent db = record {
    voice = ap summary_of (
        find_row-none (is_item source item_id) (delete (is_item source item_id) db.items)
          (exists-delete (is_item source item_id) db.items));
    frames = λ n. ap chunk_text (chunks-gone n db.chunks);
    units = exists-delete _ db.beacon_tx_schedule;
    armed = λ consumer. armed-gone consumer db.trigger_dispatches;
  }

-- After a developer's delete, whether the item was there or not, the beacon has nothing to say or to
-- send of it and no unit of it on its schedule, and no consumer has it armed.
pub delete_item-IsSilent :
    (now : ℕ) (source item_id : String) (db : Db)
    → IsSilent source item_id (delete_item now source item_id db).1
unfolding delete_item resolve_voice_text resolve_frame_text
delete_item-IsSilent now source item_id db =
    let gone = without-IsSilent source item_id db in
    elim (Bool-cases (exists (is_item source item_id) db.items)) [
      | inl there ↦ rw there (record {
        voice = gone.voice;
        frames = gone.frames;
        units = gone.units;
        armed = gone.armed;
      })
      | inr absent ↦ rw absent gone
    ]
