-- ===== src/Database/Status.antt =====
-- The beacon_status table of data-adapters/src/adapters/storage.py.
use radiobeacon.Common.{
  String, ◌≡◌, Bool, false, Option, none, List, [], ◌∷◌, ◌++◌, ◌&&◌, arith, str_eq, eq_iff, exists,
  update, if◌then◌else◌, inl, inr, Bool-cases,
}
use radiobeacon.Database.{Db}

abbrev Status : Type 0
Status = String × Option String

abbrev has_status : String → Status → Bool
has_status key s = str_eq s.0 key

abbrev put_status : String → Option String → List Status → List Status
put_status key value rows =
    if exists (has_status key) rows
    then update (has_status key) (λ s. (s.0, value)) rows
    else rows ++ (key, value) ∷ []

unfoldable pub set_beacon_status : String → Option String → Db → Db
set_beacon_status key value db = record db { beacon_status = put_status key value db.beacon_status }

abbrev status_value : String → List Status → Option String
status_value key [] = none
status_value key (s ∷ rows) =
    let rest = status_value key rows in if has_status key s then s.1 else rest

-- A missing row and a NULL value give None alike.
unfoldable pub get_beacon_status : String → Db → Option String
get_beacon_status key db = status_value key db.beacon_status

updated-value :
    (key j : String) (value : Option String) (rows : List Status)
    → status_value j (update (has_status key) (λ s. (s.0, value)) rows)
      ≡ (if str_eq key j && exists (has_status key) rows then value else status_value j rows)
updated-value key j value [] = ground arith
updated-value key j value (s ∷ rows) =
    ground (arith, updated-value key j value rows, eq_iff s.0 key, eq_iff s.0 j, eq_iff key j)

appended-value :
    (key j : String) (value : Option String) (rows : List Status)
    → exists (has_status key) rows ≡ false
    → status_value j (rows ++ (key, value) ∷ [])
      ≡ (if str_eq key j then value else status_value j rows)
appended-value key j value [] h = ground arith
appended-value key j value (s ∷ rows) h =
    ground (arith, appended-value key j value rows, h, eq_iff s.0 key, eq_iff s.0 j, eq_iff key j)

-- A status that is set is what is read for its key, and every other key reads as before.
pub get_beacon_status-set :
    (key j : String) (value : Option String) (db : Db)
    → get_beacon_status j (set_beacon_status key value db)
      ≡ (if str_eq key j then value else get_beacon_status j db)
unfolding get_beacon_status set_beacon_status
get_beacon_status-set key j value db =
    elim (Bool-cases (exists (has_status key) db.beacon_status)) [
      | inl old ↦ ground (arith, old, updated-value key j value db.beacon_status)
      | inr new ↦ ground (arith, new, appended-value key j value db.beacon_status new)
    ]
