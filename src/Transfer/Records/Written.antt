-- ===== src/Transfer/Records/Written.antt =====
-- What one record of a file writes, and what it leaves alone.
use radiobeacon.Common.{
  ℕ, String, ◌≡◌, refl, Bool, true, false, Option, none, some, List, arith, if◌then◌else◌, inl, inr,
  Bool-cases, Option-cases, refl, ◌∙◌, str_eq, or_blank, truthy, ◌&&◌,
}
use radiobeacon.Common.Result.{Exception, Result, ok, raised, ◌>>=◌}
use radiobeacon.Json.{Json}
use radiobeacon.Database.{Db, PolicyRow, SourceRow, AdapterRow, SettingRow}
use radiobeacon.Database.Settings.{Environ, get_setting, set_setting}
use radiobeacon.Database.Settings.Laws.{get_setting-set_setting}
use radiobeacon.Cron.{World}
use radiobeacon.Policy.Edits.{set_policy}
use radiobeacon.Registry.{get_adapter_instance, set_source, set_adapter_instance}
use radiobeacon.Registry.Map
use radiobeacon.Transfer.Fields.{
  PolicyFields, SourceFields, AdapterFields, Entry, no_object, entry, Reason, Section, settings,
}
use radiobeacon.Transfer.Records.{
  write_adapter, or_default, Outside, policy_set, settled, import_setting, import_policy,
  import_source, adapter_settled, source_settled, written_if, write_names, adapter_done,
  policy_warnings, adapter_refused, setting_refused, import_one_adapter_instance,
  coerce_setting_value,
}

unfoldable pub is_none : Option Reason → Bool
is_none none = true
is_none (some reason) = false

settled-keeps :
    {B : Type 0} (π : Db → B) (section : Section) (key : String) (existing : Bool)
    (r : Option Reason) (write : Db → Db) (dry_run : Bool) (db : Db)
    → π (write db) ≡ π db
    → π (settled section key existing r write dry_run db).0 ≡ π db
unfolding settled
settled-keeps π section key existing (some reason) write dry_run db h = refl
settled-keeps π section key existing none write true db h = refl
settled-keeps π section key existing none write false db h = h

abbrev pub tables : Db → List PolicyRow × List SourceRow × List AdapterRow
tables db = (db.policies, db.sources, db.adapter_instances)

pub import_setting-tables :
    (o : Outside) (now : ℕ) (actor : String) (dry_run : Bool) (existing : String → Bool)
    (e : String × Json) (db : Db)
    → tables (import_setting o now actor dry_run existing e db).0 ≡ tables db
unfolding import_setting set_setting
import_setting-tables o now actor dry_run existing (key, raw) db =
    settled-keeps tables settings key (existing key) (setting_refused o key raw)
      (set_setting now key (some (coerce_setting_value o raw)) false actor) dry_run db refl

abbrev pub after_policies : Db → List SettingRow × List SourceRow × List AdapterRow
after_policies db = (db.settings, db.sources, db.adapter_instances)

policy_set-after :
    {A : Type 0} (name : String) (existing : Bool) (db : Db) (m : Result A) (write : A → Db)
    → ((a : A) → after_policies (write a) ≡ after_policies db)
    → after_policies (policy_set name existing db (do a ← m; ok (write a))).0 ≡ after_policies db
unfolding policy_set
policy_set-after name existing db (ok a) write h = h a
policy_set-after name existing db (raised e) write h = refl

pub import_policy-after :
    (w : World) (now : ℕ) (dry_run : Bool) (existing : String → Bool) (e : Entry PolicyFields)
    (db : Db)
    → after_policies (import_policy w now dry_run existing e db).0 ≡ after_policies db
unfolding import_policy set_policy written_if policy_set
import_policy-after w now dry_run existing no_object db = refl
import_policy-after w now true existing (entry f) db = ground arith
import_policy-after w now false existing (entry f) db =
    elim (Bool-cases (str_eq (or_blank f.name) "")) [
      | inl blank ↦ rw blank refl
      | inr named ↦ elim (Option-cases f.unfit) [
        | inl fit ↦
            rw (named, fit)
              (policy_set-after (or_blank f.name) (existing (or_blank f.name)) db _ _ (λ c. refl))
        | inr (e, unfit) ↦ rw (named, unfit) refl
      ]
    ]

abbrev pub after_sources : Db → List SettingRow × List AdapterRow
after_sources db = (db.settings, db.adapter_instances)

source_settled-after :
    (dry_run : Bool) (now : ℕ) (existing : Bool) (source : String) (f : SourceFields)
    (unfit : Option Exception) (db : Db)
    → after_sources (source_settled dry_run now existing source f unfit db).0 ≡ after_sources db
unfolding source_settled set_source
source_settled-after true now existing source f unfit db = refl
source_settled-after false now existing source f none db = refl
source_settled-after false now existing source f (some e) db = refl

pub import_source-after :
    (now : ℕ) (dry_run : Bool) (existing : String → Bool) (e : Entry SourceFields) (db : Db)
    → after_sources (import_source now dry_run existing e db).0 ≡ after_sources db
unfolding import_source
import_source-after now dry_run existing no_object db = refl
import_source-after now dry_run existing (entry f) db =
    let source = or_blank f.source in
    ground (arith, source_settled-after dry_run now (existing source) source f f.unfit db)

names-settings :
    (now : ℕ) (source : String) (f : AdapterFields) (existing : Bool) (warnings : List String)
    (unfit : Option Exception) (db : Db)
    → (adapter_done source existing warnings db (write_names now source f unfit db)).0.settings
      ≡ db.settings
unfolding adapter_done write_names set_source
names-settings now source f existing warnings none db = ground arith
names-settings now source f existing warnings (some e) db =
    elim (Bool-cases (truthy f.display_name)) [
      | inl shown ↦ rw shown refl
      | inr plain ↦ rw plain refl
    ]

set_row-settings :
    (now : ℕ) (source : String) (f : AdapterFields) (db : Db)
    → (set_adapter_instance now source
        (or_blank f.adapter_type)
        (or_blank f.config)
        (or_default true f.enabled)
        f.policy
        "ui.adapters"
        db).settings
      ≡ db.settings
unfolding set_adapter_instance
set_row-settings now source f db = refl

adapter_settled-settings :
    (now : ℕ) (dry_run : Bool) (existing : String → Bool) (known : List String) (source : String)
    (f : AdapterFields) (r : Option Reason) (db : Db)
    → (adapter_settled now dry_run existing known source f r db).0.settings ≡ db.settings
unfolding adapter_settled
adapter_settled-settings now dry_run existing known source f (some reason) db = refl
adapter_settled-settings now true existing known source f none db = refl
adapter_settled-settings now false existing known source f none db =
    names-settings now source f (existing source) (policy_warnings known f.policy) f.unfit _
    ∙ set_row-settings now source f db

pub import_adapter-settings :
    (now : ℕ) (allow dry_run : Bool) (existing : String → Bool) (known : List String)
    (e : Entry AdapterFields) (db : Db)
    → (import_one_adapter_instance now allow dry_run existing known e db).0.settings ≡ db.settings
unfolding import_one_adapter_instance
import_adapter-settings now allow dry_run existing known no_object db = refl
import_adapter-settings now allow dry_run existing known (entry f) db = ground (
  arith,
  adapter_settled-settings now dry_run existing known (or_blank f.source) f
      (adapter_refused allow f) db,
)

module _ (environ : Environ) (fallback : Bool) (j : String) (default : Option String) where
  written-get_setting :
      (now : ℕ) (key : String) (existing : Bool) (r : Option Reason) (value actor : String)
      (db : Db)
      → get_setting environ fallback j default
          (settled settings key existing r
            (set_setting now key (some value) false actor)
            false
            db).0
        ≡ (if str_eq key j && is_none r
            then some value
            else get_setting environ fallback j default db)
  unfolding settled is_none
  written-get_setting now key existing (some reason) value actor db = ground arith
  written-get_setting now key existing none value actor db =
      ground
        (arith, get_setting-set_setting environ fallback now key j value false actor default db)

  pub import_setting-get_setting :
      (o : Outside) (now : ℕ) (actor : String) (existing : String → Bool) (key : String)
      (raw : Json) (db : Db)
      → get_setting environ fallback j default
          (import_setting o now actor false existing (key, raw) db).0
        ≡ (if str_eq key j && is_none (setting_refused o key raw)
            then some (coerce_setting_value o raw)
            else get_setting environ fallback j default db)
  unfolding import_setting
  import_setting-get_setting o now actor existing key raw db =
      written-get_setting now key (existing key) (setting_refused o key raw)
        (coerce_setting_value o raw) actor db

  pub get_setting-same :
      (a b : Db)
      → a.settings ≡ b.settings
      → get_setting environ fallback j default a ≡ get_setting environ fallback j default b
  unfolding get_setting
  get_setting-same a b same = rw same refl

-- The row that an import writes of an adapter.
abbrev pub imported_row : ℕ → String → AdapterFields → AdapterRow
imported_row now source f = record {
  source = source;
  adapter_type = or_blank f.adapter_type;
  enabled = or_default true f.enabled;
  policy = f.policy;
  config = or_blank f.config;
  updated_at = now;
  updated_by = some "ui.adapters";
}

names-view :
    (now : ℕ) (source : String) (f : AdapterFields) (existing : Bool) (warnings : List String)
    (unfit : Option Exception) (db : Db) (j : String)
    → get_adapter_instance j
        (adapter_done source existing warnings db (write_names now source f unfit db)).0
      ≡ get_adapter_instance j db
unfolding adapter_done write_names set_source get_adapter_instance
names-view now source f existing warnings none db j = elim (Bool-cases (truthy f.display_name)) [
  | inl shown ↦ rw shown refl
  | inr plain ↦ rw plain refl
]
names-view now source f existing warnings (some e) db j =
    elim (Bool-cases (truthy f.display_name)) [
      | inl shown ↦ rw shown refl
      | inr plain ↦ rw plain refl
    ]

write_adapter-view :
    (now : ℕ) (source : String) (existing : Bool) (warnings : List String) (f : AdapterFields)
    (db : Db) (j : String)
    → get_adapter_instance j (write_adapter now source existing warnings f db).0
      ≡ (if str_eq source j then some (imported_row now source f) else get_adapter_instance j db)
unfolding get_adapter_instance Map.change
write_adapter-view now source existing warnings f db j =
    names-view now source f existing warnings f.unfit _ j
    ∙ Map.get-set now source (or_blank f.adapter_type) (or_blank f.config)
        (or_default true f.enabled) f.policy "ui.adapters" db j

-- An adapter that is accepted is written, and no other is touched.
pub import_adapter-view :
    (now : ℕ) (allow : Bool) (existing : String → Bool) (known : List String) (f : AdapterFields)
    (db : Db) (j : String)
    → str_eq (or_blank f.source) "" ≡ false
    → adapter_refused allow f ≡ none
    → get_adapter_instance j
        (import_one_adapter_instance now allow false existing known (entry f) db).0
      ≡ (if str_eq (or_blank f.source) j
          then some (imported_row now (or_blank f.source) f)
          else get_adapter_instance j db)
unfolding import_one_adapter_instance adapter_settled
import_adapter-view now allow existing known f db j named accepted =
    rw (named, accepted)
      (write_adapter-view now (or_blank f.source) (existing (or_blank f.source))
        (policy_warnings known f.policy) f db j)
