-- ===== src/Transfer/Records.antt =====
-- The records of a file, each section's: `_import_settings`, `_import_policies`, `_import_sources` and
-- `_import_one_adapter_instance`. The text of a reason is left out, and what it says is a constructor.
pub mod Steps
pub mod Written
use radiobeacon.Common.{
  ℕ, String, Bool, true, false, not, ◌&&◌, ◌||◌, Option, none, some, List, [], ◌∷◌, ◌++◌, str_eq,
  truthy, or_blank, exists, ℤ, pos, negsuc, if◌then◌else◌,
}
use radiobeacon.Common.Text.{int}
use radiobeacon.Common.Result.{Exception, Result, ok, raised}
use radiobeacon.Json.{Json, string, boolean}
use radiobeacon.Database.{Db, Kind, interval, once, PolicyRow}
use radiobeacon.Database.Settings.{set_setting}
use radiobeacon.Cron.{World}
use radiobeacon.Policy.Edits.{set_policy}
use radiobeacon.Registry.{set_source, set_adapter_instance}
use radiobeacon.Transfer.Catalog.{
  Spec, text_setting, int_setting, float_setting, bool_setting, select_setting, secret_setting_keys,
  settings_registry, spec_in,
}
use radiobeacon.Transfer.Fields.{
  Section, settings, policies, sources, adapter_instances, Action, created, updated, skipped,
  Reason, secret_key, not_in_catalog, not_an_int, not_a_float, not_a_choice, not_an_object,
  missing_key, missing_name, unknown_type, custom_refused, config_not_an_object, exception,
  ImportItemResult, skip, done, PolicyFields, Entry, no_object, entry, SourceFields, AdapterFields,
}

-- `str` of a number, `float` of a text, and the time zones.
pub record Outside : Type 0 where
  pub str : Json → String
  pub is_float : String → Bool
  pub zones : List String

abbrev pub is_in : String → List String → Bool
is_in s ss = exists (λ t. str_eq t s) ss

pub coerce_setting_value : Outside → Json → String
coerce_setting_value o (string s) = s
coerce_setting_value o (boolean true) = "true"
coerce_setting_value o (boolean false) = "false"
coerce_setting_value o raw = o.str raw

is_int : Option ℤ → Bool
is_int none = false
is_int (some i) = true

refused_by : Outside → String → Option Spec → Option Reason
unfolding is_int
refused_by o value none = some not_in_catalog
refused_by o value (some int_setting) = if is_int (int value) then none else some not_an_int
refused_by o value (some float_setting) = if o.is_float value then none else some not_a_float
refused_by o value (some (select_setting choices)) =
    if is_in value choices then none else some not_a_choice
refused_by o value (some spec) = none

-- Why a setting is not imported.
unfoldable pub setting_refused : Outside → String → Json → Option Reason
unfolding refused_by coerce_setting_value settings_registry spec_in
setting_refused o key raw =
    let refused =
      refused_by o (coerce_setting_value o raw) (spec_in key (settings_registry o.zones)) in
    if is_in key secret_setting_keys then some secret_key else refused

-- What is done of a record that was not refused.
settled : Section → String → Bool → Option Reason → (Db → Db) → Bool → Db → Db × ImportItemResult
settled section key existing (some reason) write dry_run db = (db, skip section key reason)
settled section key existing none write dry_run db =
    (if dry_run then db else write db, done section key existing [])

unfoldable pub import_setting :
    Outside → ℕ → String → Bool → (String → Bool) → String × Json → Db → Db × ImportItemResult
unfolding settled coerce_setting_value
import_setting o now actor dry_run existing (key, raw) db =
    settled settings key (existing key) (setting_refused o key raw)
      (set_setting now key (some (coerce_setting_value o raw)) false actor) dry_run db

abbrev or_default : {A : Type 0} → A → Option A → A
or_default default none = default
or_default default (some a) = a

-- The arguments of `set_policy`, with their defaults.
abbrev pub policy_args : String → PolicyFields → PolicyRow
policy_args name f = record {
  name = name;
  fetch_kind = or_default interval f.fetch_kind;
  fetch_interval_seconds = f.fetch_interval_seconds;
  fetch_cron = f.fetch_cron;
  process_mode = or_default "on_new_data" f.process_mode;
  transmit_kind = or_default once f.transmit_kind;
  transmit_count = or_default (pos 1) f.transmit_count;
  transmit_interval_seconds = or_default (pos 0) f.transmit_interval_seconds;
  transmit_cron = f.transmit_cron;
  description = f.description;
}

written_if : Option Exception → Result Db → Result Db
written_if none r = r
written_if (some e) r = raised e

policy_set : String → Bool → Db → Result Db → Db × ImportItemResult
policy_set name existing db (ok db') = (db', done policies name existing [])
policy_set name existing db (raised e) = (db, skip policies name (exception e))

-- A policy is read and validated where it is written.
unfoldable pub import_policy :
    World → ℕ → Bool → (String → Bool) → Entry PolicyFields → Db → Db × ImportItemResult
unfolding policy_set written_if
import_policy w now dry_run existing no_object db = (db, skip policies "?" not_an_object)
import_policy w now dry_run existing (entry f) db =
    let name = or_blank f.name in
    let written =
      policy_set name (existing name) db
        (written_if f.unfit (set_policy w now (policy_args name f) db)) in
    if str_eq name ""
    then (db, skip policies "?" missing_name)
    else if dry_run
    then (db, done policies name (existing name) [])
    else written

source_settled :
    Bool → ℕ → Bool → String → SourceFields → Option Exception → Db → Db × ImportItemResult
source_settled true now existing source f unfit db = (db, done sources source existing [])
source_settled false now existing source f none db =
    (set_source now source (or_blank f.display_name) f.site_url db, done sources source existing [])
source_settled false now existing source f (some e) db = (db, skip sources source (exception e))

unfoldable pub import_source :
    ℕ → Bool → (String → Bool) → Entry SourceFields → Db → Db × ImportItemResult
unfolding source_settled
import_source now dry_run existing no_object db = (db, skip sources "?" not_an_object)
import_source now dry_run existing (entry f) db =
    let source = or_blank f.source in
    let settled = source_settled dry_run now (existing source) source f f.unfit db in
    if not (truthy f.source && truthy f.display_name)
    then (db, skip sources (if str_eq source "" then "?" else source) missing_key)
    else settled

abbrev pub adapter_types : List String
adapter_types = "api" ∷ "custom" ∷ "aiprompt" ∷ []

abbrev is_missing : Option String → Bool
is_missing none = true
is_missing (some s) = false

-- Why an adapter with a source is not imported.
unfoldable pub adapter_refused : Bool → AdapterFields → Option Reason
adapter_refused allow_custom_code f =
    if not (is_in (or_blank f.adapter_type) adapter_types)
    then some unknown_type
    else if str_eq (or_blank f.adapter_type) "custom" && not allow_custom_code
    then some custom_refused
    else if is_missing f.config
    then some config_not_an_object
    else none

abbrev policy_warnings : List String → Option String → List String
policy_warnings known policy =
    let name = or_blank policy in
    if truthy policy && (not (str_eq name "default") && not (is_in name known))
    then name ∷ []
    else []

-- The source's row, where the file names it.
write_names : ℕ → String → AdapterFields → Option Exception → Db → Result Db
write_names now source f none db = ok (
    if truthy f.display_name
    then set_source now source (or_blank f.display_name) f.site_url db
    else db)
write_names now source f (some e) db = if truthy f.display_name then raised e else ok db

adapter_done : String → Bool → List String → Db → Result Db → Db × ImportItemResult
adapter_done source existing warnings db (ok db') =
    (db', done adapter_instances source existing warnings)
adapter_done source existing warnings db (raised e) =
    (db, skip adapter_instances source (exception e))

-- The adapter's row, and its source's; where the second write raises, the first one stays.
abbrev write_adapter : ℕ → String → Bool → List String → AdapterFields → Db → Db × ImportItemResult
write_adapter now source existing warnings f db =
    let db' =
      set_adapter_instance now source (or_blank f.adapter_type) (or_blank f.config)
        (or_default true f.enabled) f.policy "ui.adapters" db in
    adapter_done source existing warnings db' (write_names now source f f.unfit db')

adapter_settled :
    ℕ
    → Bool
    → (String → Bool)
    → List String
    → String
    → AdapterFields
    → Option Reason
    → Db
    → Db × ImportItemResult
unfolding write_names adapter_done
adapter_settled now dry_run existing known source f (some reason) db =
    (db, skip adapter_instances source reason)
adapter_settled now dry_run existing known source f none db =
    let written =
      write_adapter now source (existing source) (policy_warnings known f.policy) f db in
    if dry_run
    then (db, done adapter_instances source (existing source) (policy_warnings known f.policy))
    else written

unfoldable pub import_one_adapter_instance :
    ℕ
    → Bool
    → Bool
    → (String → Bool)
    → List String
    → Entry AdapterFields
    → Db
    → Db × ImportItemResult
unfolding adapter_settled
import_one_adapter_instance now allow_custom_code dry_run existing known no_object db =
    (db, skip adapter_instances "?" not_an_object)
import_one_adapter_instance now allow_custom_code dry_run existing known (entry f) db =
    let source = or_blank f.source in
    let done =
      adapter_settled now dry_run existing known source f (adapter_refused allow_custom_code f)
        db in
    if str_eq source "" then (db, skip adapter_instances "?" missing_key) else done
