-- ===== src/Transfer/Import/Secrets.antt =====
-- What an import does to the settings.
use radiobeacon.Common.{
  ℕ, String, ◌≡◌, refl, ap, ◌∙◌, Bool, true, false, Option, none, some, List, [], ◌∷◌, ◌&&◌, arith,
  if◌then◌else◌, inl, inr, Bool-cases, str_eq, eq_iff, pos,
}
use radiobeacon.Json.{Json}
use radiobeacon.Database.{Db}
use radiobeacon.Database.Settings.{Environ, get_setting}
use radiobeacon.Cron.{World}
use radiobeacon.Transfer.Catalog.{secret_setting_keys}
use radiobeacon.Transfer.Fields.{Entry, PolicyFields, SourceFields, AdapterFields, ImportItemResult}
use radiobeacon.Transfer.Records.{
  Outside, is_in, setting_refused, coerce_setting_value, import_setting,
}
use radiobeacon.Transfer.Records.Written.{
  is_none, import_setting-get_setting, get_setting-same, import_policy-after, import_source-after,
  import_adapter-settings,
}
use radiobeacon.Transfer.Import.{
  import_each, ConfigFile, import_settings, import_policies, import_sources,
  import_adapter_instances, import_records, import_config, is_version, imported,
}
use radiobeacon.Transfer.Import.Unwritten.{import_config-dry_run}
use radiobeacon.Transfer.Import.Sections.{import_each-keeps}

abbrev pub or_else : Option String → Option String → Option String
or_else none default = default
or_else (some v) default = some v

-- The last text that the file gives for a key, of those that are not refused.
unfoldable pub taken : Outside → String → List (String × Json) → Option String
taken o j [] = none
taken o j ((key, raw) ∷ es) = or_else (taken o j es) (
    if str_eq key j && is_none (setting_refused o key raw)
    then some (coerce_setting_value o raw)
    else none)

or_else-or_else :
    (t : Option String) (b : Bool) (v : String) (default : Option String)
    → or_else t (if b then some v else default)
      ≡ or_else (or_else t (if b then some v else none)) default
or_else-or_else none true v default = refl
or_else-or_else none false v default = refl
or_else-or_else (some u) b v default = refl

module _ (environ : Environ) (fallback : Bool) (j : String) (default : Option String) where
  abbrev get : Db → Option String
  get db = get_setting environ fallback j default db

  settings-taken :
      (o : Outside) (now : ℕ) (actor : String) (existing : String → Bool)
      (es : List (String × Json)) (db : Db)
      → get (import_each (import_setting o now actor false existing) es db).0
        ≡ or_else (taken o j es) (get db)
  unfolding import_each taken
  settings-taken o now actor existing [] db = refl
  settings-taken o now actor existing ((key, raw) ∷ es) db =
      settings-taken o now actor existing es
        (import_setting o now actor false existing (key, raw) db).0
      ∙ (ap (or_else (taken o j es))
            (import_setting-get_setting environ fallback j default o now actor existing key raw db)
          ∙ or_else-or_else (taken o j es) (str_eq key j && is_none (setting_refused o key raw))
              (coerce_setting_value o raw) (get db))

policies-settings :
    (w : World) (now : ℕ) (dry : Bool) (es : List (Entry PolicyFields)) (db : Db)
    → (import_policies w now dry es db).0.settings ≡ db.settings
unfolding import_policies
policies-settings w now dry es db =
    import_each-keeps (λ d. d.settings) _ es
      (λ e d. ap (λ t. t.0) (import_policy-after w now dry _ e d)) db

sources-settings :
    (now : ℕ) (dry : Bool) (es : List (Entry SourceFields)) (db : Db)
    → (import_sources now dry es db).0.settings ≡ db.settings
unfolding import_sources
sources-settings now dry es db =
    import_each-keeps (λ d. d.settings) _ es
      (λ e d. ap (λ t. t.0) (import_source-after now dry _ e d)) db

adapters-settings :
    (now : ℕ) (allow dry : Bool) (known : List String) (es : List (Entry AdapterFields)) (db : Db)
    → (import_adapter_instances now allow dry known es db).0.settings ≡ db.settings
unfolding import_adapter_instances
adapters-settings now allow dry known es db =
    import_each-keeps (λ d. d.settings) _ es (import_adapter-settings now allow dry _ known) db

records-settings :
    (o : Outside) (w : World) (now : ℕ) (allow : Bool) (actor : String) (dry : Bool)
    (file : ConfigFile) (db : Db)
    → (import_records o w now allow actor dry file db).0.settings
      ≡ (import_settings o now actor dry file.settings db).0.settings
unfolding import_records
records-settings o w now allow actor dry file db =
    adapters-settings now allow dry _ file.adapter_instances _
    ∙ (sources-settings now dry file.sources _ ∙ policies-settings w now dry file.policies _)

imported-settings :
    (now : ℕ) (actor : String) (dry : Bool) (r : Db × List ImportItemResult)
    → (imported now actor dry r).0.settings ≡ r.0.settings
unfolding imported
imported-settings now actor true (db, results) = refl
imported-settings now actor false (db, results) = refl

config-settings :
    (o : Outside) (w : World) (now : ℕ) (allow : Bool) (actor : String) (dry : Bool)
    (file : ConfigFile) (db : Db)
    → is_version 2 file.schema_version ≡ true
    → (import_config o w now allow actor dry file db).0.settings
      ≡ (import_settings o now actor dry file.settings db).0.settings
unfolding import_config
config-settings o w now allow actor dry file db version = rw version (
    imported-settings now actor dry (import_records o w now allow actor dry file db)
    ∙ records-settings o w now allow actor dry file db)

config-taken :
    (environ : Environ) (fallback : Bool) (j : String) (default : Option String) (o : Outside)
    (w : World) (now : ℕ) (allow : Bool) (actor : String) (file : ConfigFile) (db : Db)
    → is_version 2 file.schema_version ≡ true
    → get_setting environ fallback j default (import_config o w now allow actor false file db).0
      ≡ or_else (taken o j file.settings) (get_setting environ fallback j default db)
unfolding import_settings
config-taken environ fallback j default o w now allow actor file db version =
    get_setting-same environ fallback j default (import_config o w now allow actor false file db).0
      (import_settings o now actor false file.settings db).0
      (config-settings o w now allow actor false file db version)
    ∙ settings-taken environ fallback j default o now actor _ file.settings db

-- After an import, `get_setting` gives for every key the last text that the file has for it and that
-- passes its check in the catalog, and where there is none, what it gave before: a setting that is
-- secret, not in the catalog or of another type is left as it was.
pub import_config-get_setting :
    (environ : Environ) (fallback : Bool) (j : String) (default : Option String) (o : Outside)
    (w : World) (now : ℕ) (allow : Bool) (actor : String) (file : ConfigFile) (db : Db)
    → file.schema_version ≡ some (pos 2)
    → get_setting environ fallback j default (import_config o w now allow actor false file db).0
      ≡ or_else (taken o j file.settings) (get_setting environ fallback j default db)
unfolding is_version
import_config-get_setting environ fallback j default o w now allow actor file db version =
    config-taken environ fallback j default o w now allow actor file db (ap (is_version 2) version)

taken-secret :
    (o : Outside) (j : String) (es : List (String × Json))
    → is_in j secret_setting_keys ≡ true
    → taken o j es ≡ none
unfolding taken setting_refused is_none
taken-secret o j [] secret = refl
taken-secret o j ((key, raw) ∷ es) secret =
    ground (arith, taken-secret o j es secret, eq_iff key j, secret)

-- No file sets a secret key: whatever the import is and whether or not it is a dry run, `get_setting`
-- gives for the key of an API what it gave before.
pub import_config-secret :
    (environ : Environ) (fallback : Bool) (j : String) (default : Option String) (o : Outside)
    (w : World) (now : ℕ) (allow : Bool) (actor : String) (dry : Bool) (file : ConfigFile) (db : Db)
    → is_in j secret_setting_keys ≡ true
    → get_setting environ fallback j default (import_config o w now allow actor dry file db).0
      ≡ get_setting environ fallback j default db
unfolding import_config
import_config-secret environ fallback j default o w now allow actor true file db secret =
    ap (get_setting environ fallback j default) (import_config-dry_run o w now allow actor file db)
import_config-secret environ fallback j default o w now allow actor false file db secret =
    elim (Bool-cases (is_version 2 file.schema_version)) [
      | inl version ↦
          config-taken environ fallback j default o w now allow actor file db version
          ∙ ap (λ t. or_else t (get_setting environ fallback j default db))
              (taken-secret o j file.settings secret)
      | inr other ↦ rw other refl
    ]
