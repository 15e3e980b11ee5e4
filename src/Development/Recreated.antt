-- ===== src/Development/Recreated.antt =====
-- An item that is created after the newest one was deleted.
use radiobeacon.Common.{
  ℕ, ◌<◌, String, ◌≡◌, refl, arith, true, false, Option, some, List, [], ◌∷◌, ◌++◌, ltb, eq_iff,
  exists, select, delete,
}
use radiobeacon.Common.Exists.{exists-deleted, exists-last}
use radiobeacon.Common.Result.{ok}
use radiobeacon.Database.{Db, Item, is_item, max_rowid}
use radiobeacon.Dispatcher.Discover.{
  Parse, watermark, last_seen_rowid, new_items, discover_rows, discover_new_items,
}
use radiobeacon.Development.{Fields, create_item, delete_item}

-- What is not past the watermark is not new.
none_new :
    (mark : ℕ) (i : Item) (items : List Item)
    → exists (λ j. ltb mark j.rowid) items ≡ false
    → ltb mark i.rowid ≡ false
    → select (λ j. ltb mark j.rowid) (items ++ i ∷ []) ≡ []
none_new mark i [] h late = ground (arith, late)
none_new mark i (j ∷ items) h late = ground (arith, h, none_new mark i items, late)

discovers-nothing :
    (parse : Parse) (now : ℕ) (consumer : String) (not_before : Option ℕ) (mark : ℕ) (db : Db)
    → watermark consumer db.dispatcher_state ≡ some mark
    → select (λ i. ltb mark i.rowid) db.items ≡ []
    → discover_new_items parse now consumer not_before db ≡ (db, ok 0)
unfolding discover_new_items last_seen_rowid new_items discover_rows
discovers-nothing parse now consumer not_before mark db marked none_past =
    rw (marked, none_past) refl

-- When a consumer has seen every item, an item is deleted by a developer such that all rowids that are
-- left are below the consumer's watermark, and then an item is created under a key that is free, the
-- new item is in the table and the consumer's next poll does not discover it.
pub recreated_missed :
    (parse : Parse) (now later polled : ℕ) (consumer source item_id source' item_id' : String)
    (f : Fields) (not_before : Option ℕ) (mark : ℕ) (db : Db)
    → watermark consumer db.dispatcher_state ≡ some mark
    → exists (λ i. ltb mark i.rowid) db.items ≡ false
    → exists (is_item source item_id) db.items ≡ true
    → max_rowid (delete (is_item source item_id) db.items) < mark
    → exists (is_item source' item_id') (delete (is_item source item_id) db.items) ≡ false
    → let created =
        (create_item later source' item_id' f (delete_item now source item_id db).1).0 in
      (exists (is_item source' item_id') created.items ≡ true)
      × (discover_new_items parse polled consumer not_before created ≡ (created, ok 0))
unfolding create_item delete_item
recreated_missed parse now later polled consumer source item_id source' item_id' f not_before mark
      db marked seen there newest free =
    rw (there, free)
      (
        exists-last _ (delete (is_item source item_id) db.items) _
            (ground (arith, eq_iff source' source', eq_iff item_id' item_id')),
        discovers-nothing parse polled consumer not_before mark _ marked (
            none_new mark _ _ (exists-deleted _ (is_item source item_id) db.items seen)
              (ground (arith, newest))),
      )
