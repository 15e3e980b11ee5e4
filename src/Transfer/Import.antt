-- ===== src/Transfer/Import.antt =====
-- `import_config` and `import_adapter_export`.
pub mod Sections
pub mod Unwritten
pub mod Secrets
pub mod Single
use radiobeacon.Common.{
  ℕ, suc, String, Bool, true, false, not, ◌&&◌, Option, none, some, List, [], ◌∷◌, ◌++◌, map,
  str_eq, truthy, or_blank, exists, length, select, ℤ, pos, negsuc, is_text, ◌==◌, if◌then◌else◌,
}
use radiobeacon.Common.Result.{Result, ok, raised, value_error}
use radiobeacon.Json.{Json}
use radiobeacon.Database.{Db, Value, PolicyRow}
use radiobeacon.Database.Audit.{record_audit_event}
use radiobeacon.Database.Settings.{has_key}
use radiobeacon.Cron.{World}
use radiobeacon.Policy.{named}
use radiobeacon.Registry.{is_source, is_adapter}
use radiobeacon.Transfer.Fields.{
  Section, settings, policies, sources, adapter_instances, Action, created, updated, skipped,
  ImportItemResult, PolicyFields, SourceFields, AdapterFields, Entry, no_object, entry,
}
use radiobeacon.Transfer.Records.{
  Outside, import_setting, import_policy, import_source, import_one_adapter_instance,
}

-- The records of a section one after the other; none aborts the rest.
unfoldable pub import_each :
    {E : Type 0} → (E → Db → Db × ImportItemResult) → List E → Db → Db × List ImportItemResult
import_each step [] db = (db, [])
import_each step (e ∷ es) db =
    let (db1, result) = step e db in
    let (db2, results) = import_each step es db1 in (db2, result ∷ results)

-- An import reads neither `exported_at` and `exported_by`, which are left out, nor `source_install`.
pub record ConfigFile : Type 0 where
  pub schema_version : Option ℤ
  pub source_install : Option String
  pub settings : List (String × Json)
  pub policies : List (Entry PolicyFields)
  pub sources : List (Entry SourceFields)
  pub adapter_instances : List (Entry AdapterFields)

is_skipped : ImportItemResult → Bool
is_skipped r = elim r.action [ skipped ↦ true | created ↦ false | updated ↦ false ]

-- The names of the policies that were accepted.
accepted : List ImportItemResult → List String
unfolding is_skipped
accepted results = map (λ r. r.key) (select (λ r. not (is_skipped r)) results)

pub policy_names : List PolicyRow → List String
policy_names rows = map (λ r. r.name) rows

unfoldable pub import_settings :
    Outside → ℕ → String → Bool → List (String × Json) → Db → Db × List ImportItemResult
import_settings o now actor dry_run entries db =
    import_each (import_setting o now actor dry_run (λ key. exists (has_key key) db.settings))
      entries db

unfoldable pub import_policies :
    World → ℕ → Bool → List (Entry PolicyFields) → Db → Db × List ImportItemResult
import_policies w now dry_run entries db =
    import_each (import_policy w now dry_run (λ name. exists (named name) db.policies)) entries db

unfoldable pub known_policies : List PolicyRow → List ImportItemResult → List String
unfolding accepted policy_names
known_policies existing results = policy_names existing ++ accepted results

unfoldable pub import_sources :
    ℕ → Bool → List (Entry SourceFields) → Db → Db × List ImportItemResult
import_sources now dry_run entries db =
    import_each (import_source now dry_run (λ source. exists (is_source source) db.sources)) entries
      db

unfoldable pub import_adapter_instances :
    ℕ → Bool → Bool → List String → List (Entry AdapterFields) → Db → Db × List ImportItemResult
import_adapter_instances now allow_custom_code dry_run known entries db =
    import_each
      (import_one_adapter_instance now allow_custom_code dry_run
        (λ source. exists (is_adapter source) db.adapter_instances) known)
      entries db

-- Policies come before the adapters that name them.
unfoldable pub import_records :
    Outside → World → ℕ → Bool → String → Bool → ConfigFile → Db → Db × List ImportItemResult
import_records o w now allow_custom_code actor dry_run file db =
    let (db1, r1) = import_settings o now actor dry_run file.settings db in
    let (db2, r2) = import_policies w now dry_run file.policies db1 in
    let known = known_policies db1.policies r2 in
    let (db3, r3) = import_sources now dry_run file.sources db2 in
    let (db4, r4) =
      import_adapter_instances now allow_custom_code dry_run known file.adapter_instances db3 in
    (db4, r1 ++ (r2 ++ (r3 ++ r4)))

section_number : Section → ℕ
section_number settings = 0
section_number policies = 1
section_number sources = 2
section_number adapter_instances = 3

action_number : Action → ℕ
action_number created = 0
action_number updated = 1
action_number skipped = 2

-- Of one section: the records of each action, and those with a warning.
counts_of : Section → List ImportItemResult → Value
unfolding section_number action_number
counts_of section results =
    let rs = select (λ r. section_number r.section == section_number section) results in
    let count =
      λ (n : ℕ). length (select (λ (r : ImportItemResult). action_number r.action == n) rs) in
    Value.counts (count 0) (count 1) (count 2)
      (length (select (λ (r : ImportItemResult). not (length r.warnings == 0)) rs))

-- `ImportSummary.counts`
unfoldable pub counts : List ImportItemResult → List (String × Value)
unfolding counts_of
counts results =
    ("settings", counts_of settings results)
    ∷ ("policies", counts_of policies results)
    ∷ ("sources", counts_of sources results)
    ∷ ("adapter_instances", counts_of adapter_instances results)
    ∷ []

is_version : ℕ → Option ℤ → Bool
is_version n none = false
is_version n (some (pos k)) = k == n
is_version n (some (negsuc k)) = false

imported : ℕ → String → Bool → Db × List ImportItemResult → Db × Result (List ImportItemResult)
imported now actor dry_run (db, results) = (
  if dry_run
      then db
      else record_audit_event now "config.imported" actor none none (counts results) db,
  ok results,
)

unfoldable pub import_config :
    Outside
    → World
    → ℕ
    → Bool
    → String
    → Bool
    → ConfigFile
    → Db
    → Db × Result (List ImportItemResult)
unfolding is_version imported
import_config o w now allow_custom_code actor dry_run file db =
    let done =
      imported now actor dry_run (import_records o w now allow_custom_code actor dry_run file db) in
    if is_version 2 file.schema_version then done else (db, raised value_error)

-- A file of one adapter; what is no object counts as an object without keys.
pub record AdapterFile : Type 0 where
  pub kind : Option String
  pub schema_version : Option ℤ
  pub adapter : Entry AdapterFields

no_fields : AdapterFields
no_fields = record {
  source = none;
  adapter_type = none;
  config = none;
  enabled = none;
  policy = none;
  display_name = none;
  site_url = none;
  unfit = none;
}

fields_of : Entry AdapterFields → AdapterFields
unfolding no_fields
fields_of no_object = no_fields
fields_of (entry f) = f

renamed : Option String → AdapterFields → AdapterFields
renamed override f = if truthy override then record f { source = override } else f

one_imported : Db × ImportItemResult → Db × Result ImportItemResult
one_imported (db, result) = (db, ok result)

unfoldable pub import_adapter_export :
    ℕ → Bool → Option String → Bool → AdapterFile → Db → Db × Result ImportItemResult
unfolding is_version fields_of renamed one_imported policy_names
import_adapter_export now allow_custom_code override_source dry_run file db =
    let done = one_imported (
      import_one_adapter_instance now allow_custom_code dry_run
        (λ source. exists (is_adapter source) db.adapter_instances) (policy_names db.policies)
        (entry (renamed override_source (fields_of file.adapter))) db) in
    if not (is_text file.kind "radiobeacon.adapter_instance")
    then (db, raised value_error)
    else if is_version 1 file.schema_version
    then done
    else (db, raised value_error)
