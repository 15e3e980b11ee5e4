-- ===== src/Database/Settings/Laws.antt =====
-- How reads and writes of the settings table fit together.
use radiobeacon.Common.{
  ℕ, String, ◌≡◌, refl, ap, ◌∙◌, subst, Bool, true, false, Option, none, some, List, [], ◌∷◌, ◌++◌,
  map, arith, append_assoc, All, str_eq, eq_iff, exists, select, update, delete, if◌then◌else◌, inl,
  inr, Bool-cases,
}
use radiobeacon.Database.{Db, SettingRow}
use radiobeacon.Database.Settings.{
  Environ, db_value, or_default, get_setting, bulk, asked, get_settings, has_key, write,
  set_setting, delete_setting,
}

module _ (key : String) (row : SettingRow) (e : row.key ≡ key) where
  update_ne :
      (j : String) (rows : List SettingRow)
      → str_eq key j ≡ false
      → db_value j (update (has_key key) (λ _. row) rows) ≡ db_value j rows
  update_ne j [] h = refl
  update_ne j (r ∷ rs) h =
      ground
        (arith, update_ne j rs h, eq_iff r.key key, eq_iff row.key j, eq_iff r.key j, eq_iff key j)

  update_self :
      (rows : List SettingRow)
      → exists (has_key key) rows ≡ true
      → db_value key (update (has_key key) (λ _. row) rows) ≡ row.value
  update_self [] h = ground arith
  update_self (r ∷ rs) h = ground (arith, update_self rs, eq_iff r.key key, eq_iff row.key key)

  append_new :
      (j : String) (rows : List SettingRow)
      → exists (has_key key) rows ≡ false
      → db_value j (rows ++ row ∷ []) ≡ (if str_eq key j then row.value else db_value j rows)
  append_new j [] h = ground (arith, eq_iff row.key j, eq_iff key j)
  append_new j (r ∷ rs) h =
      ground (arith, append_new j rs, eq_iff r.key j, eq_iff r.key key, eq_iff key j)

db_value-write :
    (now : ℕ) (key j : String) (value : Option String) (secret : Bool) (actor : String)
    (rows : List SettingRow)
    → db_value j (write now key value secret actor rows)
      ≡ (if str_eq key j then value else db_value j rows)
db_value-write now key j value secret actor rows = elim (Bool-cases (exists (has_key key) rows)) [
  | inl old ↦ elim (Bool-cases (str_eq key j)) [
    | inl same ↦ ground (arith, update_self key row refl rows old, eq_iff key j)
    | inr other ↦ rw (old, other) (update_ne key row refl j rows other)
  ]
  | inr new ↦ rw new (append_new key row refl j rows new)
]
  where
    row : SettingRow
    row = record {
      key = key;
      value = value;
      is_secret = secret;
      updated_at = now;
      updated_by = actor;
    }

delete_self :
    (key : String) (rows : List SettingRow) → db_value key (delete (has_key key) rows) ≡ none
delete_self key [] = refl
delete_self key (r ∷ rs) = ground (arith, delete_self key rs)

delete_ne :
    (key j : String) (rows : List SettingRow)
    → str_eq key j ≡ false
    → db_value j (delete (has_key key) rows) ≡ db_value j rows
delete_ne key j [] h = refl
delete_ne key j (r ∷ rs) h =
    ground (arith, delete_ne key j rs, eq_iff r.key key, eq_iff r.key j, eq_iff key j)

-- A value written for a key is what `get_setting` gives for it, whatever the environment says, and
-- for every other key `get_setting` gives what it gave before.
pub get_setting-set_setting :
    (environ : Environ) (fallback : Bool) (now : ℕ) (key j value : String) (secret : Bool)
    (actor : String) (default : Option String) (db : Db)
    → get_setting environ fallback j default (set_setting now key (some value) secret actor db)
      ≡ (if str_eq key j then some value else get_setting environ fallback j default db)
unfolding get_setting set_setting
get_setting-set_setting environ fallback now key j value secret actor default db =
    rw (db_value-write now key j (some value) secret actor db.settings) (ground arith)

-- Deleting a key's row gives it back its environment value or its default, and leaves every other
-- key as it was; the result says whether there was a row.
get_setting-delete_setting :
    (environ : Environ) (fallback : Bool) (now : ℕ) (key j actor : String) (default : Option String)
    (db : Db)
    → (get_setting environ fallback j default (delete_setting now key actor db).1 ≡ (
        if str_eq key j
        then if fallback then or_default (environ j) default else default
        else get_setting environ fallback j default db))
      × ((delete_setting now key actor db).0 ≡ exists (has_key key) db.settings)
unfolding get_setting delete_setting
get_setting-delete_setting environ fallback now key j actor default db =
    ground (arith, delete_self key db.settings, delete_ne key j db.settings, eq_iff key j)

db_value-map :
    (key : String) (f : SettingRow → SettingRow) (same : (r : SettingRow) → (f r).key ≡ r.key)
    (rows : List SettingRow)
    → All (λ r. str_eq r.key key ≡ true → (f r).value ≡ r.value) rows
    → db_value key (map f rows) ≡ db_value key rows
db_value-map key f same [] kept = refl
db_value-map key f same (r ∷ rows) kept = elim (Bool-cases (str_eq r.key key)) [
  | inl hit ↦ rw (same r, hit) (kept.0 hit)
  | inr miss ↦ rw (same r, miss) (db_value-map key f same rows kept.1)
]

-- A change of the other keys' values leaves what a key has.
pub get_setting-map :
    (environ : Environ) (fallback : Bool) (key : String) (default : Option String)
    (f : SettingRow → SettingRow) (same : (r : SettingRow) → (f r).key ≡ r.key) (db : Db)
    → All (λ r. str_eq r.key key ≡ true → (f r).value ≡ r.value) db.settings
    → get_setting environ fallback key default (record db { settings = map f db.settings })
      ≡ get_setting environ fallback key default db
unfolding get_setting
get_setting-map environ fallback key default f same db kept =
    rw (db_value-map key f same db.settings kept) refl

-- The audit log after a secret is written does not depend on the secret.
secret_not_audited :
    (now : ℕ) (key actor : String) (v w : Option String) (db : Db)
    → (set_setting now key v true actor db).audit_log
      ≡ (set_setting now key w true actor db).audit_log
unfolding set_setting
secret_not_audited now key actor v w db = refl

asked_key :
    (keys : List (String × Option String)) (key : String) (r : SettingRow)
    → str_eq r.key key ≡ true
    → asked keys r ≡ exists (λ k. str_eq k.0 key) keys
asked_key keys key r h = ap (λ t. exists (λ k. str_eq k.0 t) keys) ((eq_iff r.key key).0 h)

db_value-asked :
    (keys : List (String × Option String)) (key : String) (rows : List SettingRow)
    → exists (λ k. str_eq k.0 key) keys ≡ true
    → db_value key (select (asked keys) rows) ≡ db_value key rows
db_value-asked keys key [] h = refl
db_value-asked keys key (r ∷ rs) h =
    ground (arith, db_value-asked keys key rs h, asked_key keys key r)

-- What the loop over `more` gives when its rows answer as the whole table does for each of its keys.
bulk-map :
    (environ : Environ) (fallback : Bool) (db : Db) (rows : List SettingRow)
    (more : List (String × Option String))
    → All (λ k. db_value k.0 rows ≡ db_value k.0 db.settings) more
    → bulk environ fallback rows more
      ≡ map (λ k. (k.0, get_setting environ fallback k.0 k.1 db)) more
unfolding bulk get_setting
bulk-map environ fallback db rows [] h = refl
bulk-map environ fallback db rows ((key, default) ∷ more) h =
    rw (h.0, bulk-map environ fallback db rows more h.1)

exists_middle :
    (done : List (String × Option String)) (k : String × Option String)
    (more : List (String × Option String))
    → exists (λ j. str_eq j.0 k.0) (done ++ k ∷ more) ≡ true
exists_middle [] k more = ground (arith, eq_iff k.0 k.0)
exists_middle (d ∷ done) k more = ground (arith, exists_middle done k more)

asked-All :
    (rows : List SettingRow) (keys done more : List (String × Option String))
    → done ++ more ≡ keys
    → All (λ k. db_value k.0 (select (asked keys) rows) ≡ db_value k.0 rows) more
asked-All rows keys done [] e = tt
asked-All rows keys done (k ∷ more) e = (
  db_value-asked keys k.0 rows
      (subst (λ l. exists (λ j. str_eq j.0 k.0) l ≡ true) e (exists_middle done k more)),
  asked-All rows keys (done ++ k ∷ []) more (append_assoc done (k ∷ []) more ∙ e),
)

-- One bulk read answers every key as `get_setting` does on its own.
get_settings-map :
    (environ : Environ) (fallback : Bool) (keys : List (String × Option String)) (db : Db)
    → get_settings environ fallback keys db
      ≡ map (λ k. (k.0, get_setting environ fallback k.0 k.1 db)) keys
unfolding get_settings
get_settings-map environ fallback keys db =
    bulk-map environ fallback db (select (asked keys) db.settings) keys
      (asked-All db.settings keys [] keys refl)
