-- ===== src/Dispatcher/Discover/Naive.antt =====
-- An item whose date has no time zone stops the poll of a dispatcher that has a start instant.
use radiobeacon.Common.{ℕ, String, ◌≡◌, refl, false, some, List, ◌∷◌, str_eq}
use radiobeacon.Common.Result.{type_error, raised}
use radiobeacon.Database.{Db, Item}
use radiobeacon.Dispatcher.Discover.{
  Parse, naive, watermark, first_watermark, before_start, last_seen_rowid, new_items, is_stale,
  discover_rows, discover_known, discover_new_items,
}
use radiobeacon.Dispatcher.Deliver.{Handler, after_discovery, check_for_new_items}

seen-last_seen_rowid :
    (consumer : String) (last : ℕ) (db : Db)
    → watermark consumer db.dispatcher_state ≡ some last
    → last_seen_rowid consumer db ≡ (last, db)
unfolding last_seen_rowid first_watermark
seen-last_seen_rowid consumer last db seen = rw seen refl

naive-rows :
    (parse : Parse) (now : ℕ) (consumer : String) (start : ℕ) (db : Db) (i : Item)
    (rest : List Item) (date : String)
    → i.source_date_time ≡ some date
    → str_eq date "" ≡ false
    → parse date ≡ naive
    → discover_rows parse now consumer (some start) (i ∷ rest) db ≡ (db, raised type_error)
unfolding discover_rows is_stale before_start discover_known
naive-rows parse now consumer start db i rest date dated given zoneless =
    rw (dated, given, zoneless) refl

-- Where the consumer has a watermark, the first item past it has a date without a time zone and
-- the poll has a start instant, a poll raises TypeError and leaves the database as it was, so that
-- the next poll finds the same item first; no handler is run.
pub naive_wedges :
    (parse : Parse) (now : ℕ) (consumer : String) (handlers : List Handler) (start last : ℕ)
    (db : Db) (i : Item) (rest : List Item) (date : String)
    → watermark consumer db.dispatcher_state ≡ some last
    → new_items last db ≡ i ∷ rest
    → i.source_date_time ≡ some date
    → str_eq date "" ≡ false
    → parse date ≡ naive
    → check_for_new_items parse now consumer handlers (some start) db ≡ (db, raised type_error)
unfolding check_for_new_items discover_new_items after_discovery
naive_wedges parse now consumer handlers start last db i rest date seen new dated given zoneless =
    rw
      (
        seen-last_seen_rowid consumer last db seen,
        new,
        naive-rows parse now consumer start db i rest date dated given zoneless,
      )
      refl
