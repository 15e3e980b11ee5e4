-- ===== src/Dispatcher/Discover/Returns.antt =====
-- When a discovery returns.
use radiobeacon.Common.{
  ℕ, String, ◌≡◌, ◌≢◌, refl, ap, Bool, false, Option, none, some, List, [], ◌∷◌, ltb, str_eq,
  length, All, inl, inr, Bool-cases,
}
use radiobeacon.Common.Result.{ok, ◌>>=◌}
use radiobeacon.Database.{Db, Item}
use radiobeacon.Dispatcher.Discover.{
  Parse, Parsed, invalid, naive, aware, last_seen_rowid, before_start, is_stale, discover_row,
  discover_known, discover_rows, new_items, discover_new_items,
}

-- An item whose date, if it is a date at all, has a time zone.
abbrev pub HasZone : Parse → Item → Type 0
HasZone parse i = (date : String) → i.source_date_time ≡ some date → parse date ≢ naive

parsed-known : (start : ℕ) (p : Parsed) → p ≢ naive → (b : Bool) × (before_start start p ≡ ok b)
unfolding before_start
parsed-known start invalid h = (false, refl)
parsed-known start naive h = absurd (h refl)
parsed-known start (aware n) h = (ltb n start, refl)

stale-known :
    (parse : Parse) (not_before : Option ℕ) (date : Option String)
    → ((d : String) → date ≡ some d → parse d ≢ naive)
    → (b : Bool) × (is_stale parse not_before date ≡ ok b)
unfolding is_stale
stale-known parse none date h = (false, refl)
stale-known parse (some start) none h = (false, refl)
stale-known parse (some start) (some d) h = elim (Bool-cases (str_eq d "")) [
  | inl empty ↦ (false, rw empty refl)
  | inr given ↦ let (b, e) = parsed-known start (parse d) (h d refl) in (b, rw given e)
]

rows-ok :
    (parse : Parse) (now : ℕ) (consumer : String) (not_before : Option ℕ) (rows : List Item)
    (db : Db)
    → All (HasZone parse) rows
    → (discover_rows parse now consumer not_before rows db).1 ≡ ok tt
unfolding discover_rows discover_known
rows-ok parse now consumer not_before [] db zones = refl
rows-ok parse now consumer not_before (i ∷ rows) db zones =
    let (b, e) = stale-known parse not_before i.source_date_time zones.0 in
    rw e (rows-ok parse now consumer not_before rows (discover_row now consumer i b db) zones.1)

-- A discovery returns the number of new items when no new item has a date without a time zone.
discover-count :
    (parse : Parse) (now : ℕ) (consumer : String) (not_before : Option ℕ) (db : Db)
    → (let (n, db1) = last_seen_rowid consumer db in All (HasZone parse) (new_items n db1))
    → (let (n, db1) = last_seen_rowid consumer db in
        (discover_new_items parse now consumer not_before db).1 ≡ ok (length (new_items n db1)))
unfolding discover_new_items
discover-count parse now consumer not_before db zones =
    let (n, db1) = last_seen_rowid consumer db in
    ap (λ end. end >>= λ _. ok (length (new_items n db1)))
      (rows-ok parse now consumer not_before (new_items n db1) db1 zones)
