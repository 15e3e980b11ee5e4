-- ===== src/Chunking/Stored.antt =====
-- What the beacon reads of the chunks that the action stored.
use radiobeacon.Common.{
  ℕ, zero, suc, ◌+◌, ◌<◌, String, ◌≡◌, refl, ap, ◌∙◌, arith, Bool, true, false, ◌&&◌, Option, none,
  some, List, [], ◌∷◌, ◌++◌, eq_iff, ◌==◌, exists, find_row, delete, length,
}
use radiobeacon.Database.{Db, ChunkRow}
use radiobeacon.Beacon.Content.{is_chunk, chunk_text, resolve_frame_text}
use radiobeacon.Chunking.{same_pair, is_distinct, store_chunks, chunk_rows}

unfoldable pub get_elem? {ℓ} : {A : Type ℓ} → List A → ℕ → Option A
get_elem? [] n = none
get_elem? (x ∷ xs) zero = some x
get_elem? (x ∷ xs) (suc n) = get_elem? xs n

module _ (source item_id : String) where
  earlier :
      (i k count : ℕ) (pieces : List String)
      → k < i
      → find_row (is_chunk source item_id k) (chunk_rows source item_id i count pieces) ≡ none
  unfolding chunk_rows
  earlier i k count [] h = refl
  earlier i k count (p ∷ pieces) h = ground (
    arith,
    h,
    earlier (suc i) k count pieces (omega (arith, h)),
    eq_iff source source,
    eq_iff item_id item_id,
  )

  found :
      (i k n count : ℕ) (pieces : List String)
      → n ≡ i + k
      → chunk_text (find_row (is_chunk source item_id n) (chunk_rows source item_id i count pieces))
        ≡ get_elem? pieces k
  unfolding chunk_rows chunk_text get_elem?
  found i k n count [] e = refl
  found i zero n count (p ∷ pieces) e =
      ground (arith, e, eq_iff source source, eq_iff item_id item_id)
  found i (suc k) n count (p ∷ pieces) e =
      ground (arith, e, found (suc i) k n count pieces (omega (arith, e)))

  -- Rows of this item and of later indices.
  no_clash :
      (i j count : ℕ) (c : ChunkRow) (pieces : List String)
      → c.chunk_index ≡ j
      → j < i
      → exists
          (λ d. same_pair c d && c.chunk_index == d.chunk_index)
          (chunk_rows source item_id i count pieces)
        ≡ false
  unfolding chunk_rows
  no_clash i j count c [] e h = refl
  no_clash i j count c (p ∷ pieces) e h =
      ground (arith, e, h, no_clash (suc i) j count c pieces e (omega (arith, h)))

  rows-distinct :
      (i count : ℕ) (pieces : List String)
      → is_distinct (chunk_rows source item_id i count pieces) ≡ true
  unfolding is_distinct chunk_rows
  rows-distinct i count [] = refl
  rows-distinct i count (p ∷ pieces) = ground (
    arith,
    rows-distinct (suc i) count pieces,
    no_clash (suc i) i count
        (record {
          source = source;
          item_id = item_id;
          chunk_index = i;
          chunk_count = count;
          text = p;
        })
        pieces refl (omega arith),
  )

  module _ (n : ℕ) where
    replaced :
        (rows : List ChunkRow) (i count : ℕ) (p : String) (pieces : List String)
        → find_row (is_chunk source item_id n) (
            delete
              (λ c. exists (same_pair c) (chunk_rows source item_id i count (p ∷ pieces)))
              rows)
          ≡ none
    unfolding chunk_rows
    replaced [] i count p pieces = refl
    replaced (c ∷ rows) i count p pieces = ground (
      arith,
      replaced rows i count p pieces,
      eq_iff c.source source,
      eq_iff source c.source,
      eq_iff c.item_id item_id,
      eq_iff item_id c.item_id,
    )

  find_row-behind :
      (p : ChunkRow → Bool) (rows more : List ChunkRow)
      → find_row p rows ≡ none
      → find_row p (rows ++ more) ≡ find_row p more
  find_row-behind p [] more h = refl
  find_row-behind p (c ∷ rows) more h = ground (arith, h, find_row-behind p rows more)

-- Once the pieces of an item's text are stored, and there is at least one, the beacon reads the piece
-- of each index back, and nothing for an index past the last, whatever chunks the item had before.
pub resolve_frame_text-store_chunks :
    (source item_id p : String) (n : ℕ) (pieces : List String) (db : Db)
    → resolve_frame_text source item_id n
        (store_chunks (chunk_rows source item_id 0 (length (p ∷ pieces)) (p ∷ pieces)) db).0
      ≡ get_elem? (p ∷ pieces) n
unfolding resolve_frame_text store_chunks chunk_text
resolve_frame_text-store_chunks source item_id p n pieces db =
    rw (rows-distinct source item_id 0 (length (p ∷ pieces)) (p ∷ pieces)) (
      ap chunk_text (
        find_row-behind source item_id (is_chunk source item_id n) _ _
          (replaced source item_id n db.chunks 0 (length (p ∷ pieces)) p pieces))
      ∙ found source item_id 0 n n (length (p ∷ pieces)) (p ∷ pieces) (omega arith))
