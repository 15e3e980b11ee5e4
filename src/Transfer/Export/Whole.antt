-- ===== src/Transfer/Export/Whole.antt =====
-- `build_export`, and what an export tells of the secrets.
use Prim.Native.String.{compare}
use text.Mathlib.Text.{is_le}
use radiobeacon.Common.{
  ℕ, String, ◌≡◌, refl, ap, ◌∙◌, arith, Bool, not, ◌||◌, Option, none, some, List, [], ◌∷◌, map,
  exists, select, length, All, str_eq, eq_iff, true, false, find_row, pos, if◌then◌else◌, inl, inr,
  Bool-cases,
}
use radiobeacon.Common.Result.{Result, ok, raised, ◌>>=◌}
use radiobeacon.Json.{Json, null, string}
use radiobeacon.Database.{Db, PolicyRow, SettingRow, SourceRow, AdapterRow, Value}
use radiobeacon.Database.Audit.{record_audit_event}
use radiobeacon.Database.Settings.{get_setting}
use radiobeacon.Database.Settings.Laws.{get_setting-map}
use radiobeacon.Registry.{is_source, is_adapter}
use radiobeacon.Transfer.Catalog.{secret_setting_keys}
use radiobeacon.Transfer.Fields.{PolicyFields, SourceFields, AdapterFields, Entry, entry}
use radiobeacon.Transfer.Records.{is_in}
use radiobeacon.Transfer.Import.{ConfigFile}
use radiobeacon.Transfer.Export.{Loads, exported_fields}

-- ORDER BY a text.
insert_text : {A : Type 0} → (A → String) → A → List A → List A
insert_text key x [] = x ∷ []
insert_text key x (y ∷ ys) =
    let rest = insert_text key x ys in
    if is_le (compare (key x) (key y)) then x ∷ y ∷ ys else y ∷ rest

order_text : {A : Type 0} → (A → String) → List A → List A
unfolding insert_text
order_text key [] = []
order_text key (x ∷ xs) = insert_text key x (order_text key xs)

is_hidden : SettingRow → Bool
is_hidden r = r.is_secret || is_in r.key secret_setting_keys

json_of : Option String → Json
json_of none = null
json_of (some v) = string v

exported_settings : List SettingRow → List (String × Json)
unfolding is_hidden json_of
exported_settings [] = []
exported_settings (r ∷ rows) =
    let rest = exported_settings rows in
    if is_hidden r then rest else (r.key, json_of r.value) ∷ rest

exported_policy : PolicyRow → Entry PolicyFields
exported_policy r = entry (record {
  name = some r.name;
  fetch_kind = some r.fetch_kind;
  fetch_interval_seconds = r.fetch_interval_seconds;
  fetch_cron = r.fetch_cron;
  process_mode = some r.process_mode;
  transmit_kind = some r.transmit_kind;
  transmit_count = some r.transmit_count;
  transmit_interval_seconds = some r.transmit_interval_seconds;
  transmit_cron = r.transmit_cron;
  description = r.description;
  unfit = none;
})

exported_source : SourceRow → Entry SourceFields
exported_source s = entry (record {
  source = some s.source;
  display_name = some s.display_name;
  site_url = s.site_url;
  unfit = none;
})

-- The sources that no adapter has.
orphans : List AdapterRow → List SourceRow → List SourceRow
orphans rows all = select (λ s. not (exists (is_adapter s.source) rows)) all

exported_adapters : Loads → List SourceRow → List AdapterRow → Result (List (Entry AdapterFields))
exported_adapters loads all [] = ok []
exported_adapters loads all (row ∷ rows) = do
  config ← loads row.config
  rest ← exported_adapters loads all rows
  ok (entry (exported_fields row config (find_row (is_source row.source) all)) ∷ rest)

-- The file, and the audit row with the number of records of each section.
finished :
    ℕ
    → String
    → Option String
    → List (String × Json)
    → List (Entry PolicyFields)
    → List (Entry SourceFields)
    → Result (List (Entry AdapterFields))
    → Db
    → Db × Result ConfigFile
finished now actor install settings policies sources (raised e) db = (db, raised e)
finished now actor install settings policies sources (ok adapters) db = (
  record_audit_event now "config.exported" actor none none
      (("settings", Value.num (length settings))
        ∷ ("policies", Value.num (length policies))
        ∷ ("sources", Value.num (length sources))
        ∷ ("adapter_instances", Value.num (length adapters))
        ∷ [])
      db,
  ok (record {
    schema_version = some (pos 2);
    source_install = install;
    settings = settings;
    policies = policies;
    sources = sources;
    adapter_instances = adapters;
  }),
)

-- `get_setting("BEACON_CALLSIGN", None, conn=conn, env_fallback=False)`, which reads no environment.
abbrev install_of : Db → Option String
install_of db = get_setting (λ key. none) false "BEACON_CALLSIGN" none db

unfoldable pub build_export : Loads → ℕ → String → Db → Db × Result ConfigFile
unfolding order_text exported_settings exported_policy exported_source orphans exported_adapters
    finished
build_export loads now actor db =
    let rows = order_text (λ a. a.source) db.adapter_instances in
    let all = order_text (λ s. s.source) db.sources in
    finished now actor (install_of db) (exported_settings (order_text (λ r. r.key) db.settings))
      (map exported_policy (order_text (λ r. r.name) db.policies))
      (map exported_source (orphans rows all)) (exported_adapters loads all rows) db

-- The settings table with other secrets in it.
pub changed : (SettingRow → Option String) → SettingRow → SettingRow
changed secret r =
    if r.is_secret || is_in r.key secret_setting_keys then record r { value = secret r } else r

abbrev pub with_secrets : (SettingRow → Option String) → Db → Db
with_secrets secret db = record db { settings = map (changed secret) db.settings }

changed-key :
    (secret : SettingRow → Option String) (r : SettingRow) → (changed secret r).key ≡ r.key
unfolding changed
changed-key secret r = ground arith

changed-hidden :
    (secret : SettingRow → Option String) (r : SettingRow)
    → is_hidden (changed secret r) ≡ is_hidden r
unfolding changed is_hidden
changed-hidden secret r = ground arith

map-insert :
    {A : Type 0} (key : A → String) (f : A → A) (same : (x : A) → key (f x) ≡ key x) (x : A)
    (ys : List A)
    → insert_text key (f x) (map f ys) ≡ map f (insert_text key x ys)
unfolding insert_text
map-insert key f same x [] = refl
map-insert key f same x (y ∷ ys) = elim (Bool-cases (is_le (compare (key x) (key y)))) [
  | inl before ↦ rw (same x, same y, before) refl
  | inr after ↦ rw (same x, same y, after) (ap (λ zs. f y ∷ zs) (map-insert key f same x ys))
]

map-order :
    {A : Type 0} (key : A → String) (f : A → A) (same : (x : A) → key (f x) ≡ key x) (xs : List A)
    → order_text key (map f xs) ≡ map f (order_text key xs)
unfolding order_text
map-order key f same [] = refl
map-order key f same (x ∷ xs) =
    ap (insert_text key (f x)) (map-order key f same xs)
    ∙ map-insert key f same x (order_text key xs)

exported-changed :
    (secret : SettingRow → Option String) (rows : List SettingRow)
    → exported_settings (map (changed secret) rows) ≡ exported_settings rows
unfolding exported_settings changed is_hidden
exported-changed secret [] = refl
exported-changed secret (r ∷ rows) = elim (Bool-cases (is_hidden r)) [
  | inl hidden ↦ rw (changed-hidden secret r, hidden) (exported-changed secret rows)
  | inr shown ↦
      rw (changed-hidden secret r, shown)
        (ap (λ es. (r.key, json_of r.value) ∷ es) (exported-changed secret rows))
]

finished-log :
    (now : ℕ) (actor : String) (i : Option String) (s : List (String × Json))
    (p : List (Entry PolicyFields)) (o : List (Entry SourceFields))
    (m : Result (List (Entry AdapterFields))) (a b : Db)
    → a.audit_log ≡ b.audit_log
    → ((finished now actor i s p o m a).1 ≡ (finished now actor i s p o m b).1)
      × ((finished now actor i s p o m a).0.audit_log
          ≡ (finished now actor i s p o m b).0.audit_log)
unfolding finished
finished-log now actor i s p o (raised e) a b h = (refl, h)
finished-log now actor i s p o (ok m) a b h = (refl, rw h refl)

settings-same :
    (secret : SettingRow → Option String) (rows : List SettingRow)
    → exported_settings (order_text (λ r. r.key) (map (changed secret) rows))
      ≡ exported_settings (order_text (λ r. r.key) rows)
settings-same secret rows =
    ap exported_settings (map-order (λ r. r.key) (changed secret) (changed-key secret) rows)
    ∙ exported-changed secret (order_text (λ r. r.key) rows)

-- A row of the call sign is not marked as secret.
abbrev pub IsOpen : SettingRow → Type 0
IsOpen r = str_eq r.key "BEACON_CALLSIGN" ≡ true → r.is_secret ≡ false

callsign_shown :
    (key : String) → str_eq key "BEACON_CALLSIGN" ≡ true → is_in key secret_setting_keys ≡ false
callsign_shown key same = rw ((eq_iff key "BEACON_CALLSIGN").0 same) refl

changed-value :
    (secret : SettingRow → Option String) (rows : List SettingRow)
    → All IsOpen rows
    → All (λ r. str_eq r.key "BEACON_CALLSIGN" ≡ true → (changed secret r).value ≡ r.value) rows
unfolding changed
changed-value secret [] free = tt
changed-value secret (r ∷ rows) free =
    (λ same. rw (free.0 same, callsign_shown r.key same) refl, changed-value secret rows free.1)

install-same :
    (secret : SettingRow → Option String) (db : Db)
    → All IsOpen db.settings
    → install_of (with_secrets secret db) ≡ install_of db
install-same secret db free =
    get_setting-map (λ key. none) false "BEACON_CALLSIGN" none (changed secret) (changed-key secret)
      db (changed-value secret db.settings free)

-- An export tells nothing of a secret: whatever the values are that stand in the rows that are marked
-- as secret or have a secret's key, the file is the same but for when and by whom it was exported, and
-- so is the audit log after the export; where no row of the call sign, which the file names, is marked
-- as secret.
pub build_export-secret :
    (loads : Loads) (now : ℕ) (actor : String) (secret : SettingRow → Option String) (db : Db)
    → All IsOpen db.settings
    → ((build_export loads now actor (with_secrets secret db)).1
        ≡ (build_export loads now actor db).1)
      × ((build_export loads now actor (with_secrets secret db)).0.audit_log
          ≡ (build_export loads now actor db).0.audit_log)
unfolding build_export
build_export-secret loads now actor secret db free =
    rw (settings-same secret db.settings, install-same secret db free)
      (finished-log now actor _ _ _ _ _ (with_secrets secret db) db refl)
