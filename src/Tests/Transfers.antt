-- ===== src/Tests/Transfers.antt =====
-- Files of a configuration, and what is imported of them.
use radiobeacon.Common.{
  str_eq, if◌then◌else◌, String, ◌≡◌, refl, true, false, none, some, List, [], ◌∷◌, All, pos, map,
}
use radiobeacon.Common.Result.{Result, ok, raised, other_error}
use radiobeacon.Json.{string, integer}
use radiobeacon.Database.{AdapterRow, Db, interval, empty}
use radiobeacon.Database.Settings.{get_setting}
use radiobeacon.Policy.Edits.{validate}
use radiobeacon.Transfer.Catalog.{settings_registry, spec_in}
use radiobeacon.Transfer.Fields.{
  Action, created, skipped, SourceFields, sources, skip, exception, ImportItemResult, PolicyFields,
  AdapterFields, no_object, entry,
}
use radiobeacon.Transfer.Records.{
  Outside, import_policy, setting_refused, import_setting, import_source,
  import_one_adapter_instance, adapter_refused,
}
use radiobeacon.Transfer.Records.Steps.{IsPolicy}
use radiobeacon.Transfer.Import.{
  AdapterFile, import_adapter_export, ConfigFile, import_config, import_records, import_each,
  import_settings, import_policies, import_sources, import_adapter_instances, known_policies,
  counts,
}
use radiobeacon.Transfer.Import.Unwritten.{IsFile, import_config-dry_run, import_config-predicts}
use radiobeacon.Transfer.Import.Secrets.{import_config-get_setting, import_config-secret}
use radiobeacon.Registry.{get_adapter_instance}
use radiobeacon.Transfer.Export.{build_adapter_export}
use radiobeacon.Transfer.Export.Whole.{build_export, with_secrets, build_export-secret}
use radiobeacon.Transfer.Export.RoundTrip.{copied, export-import}
use radiobeacon.Tests.Data.{world, scheduled_db}

abbrev outside : Outside
outside = record { str = λ j. "15"; is_float = λ s. true; zones = [] }

-- A policy that is written as it stands, and one whose interval is none.
abbrev hourly : PolicyFields
hourly = record {
  name = some "hourly";
  fetch_kind = none;
  fetch_interval_seconds = some (pos 60);
  fetch_cron = none;
  process_mode = none;
  transmit_kind = some interval;
  transmit_count = some (pos 2);
  transmit_interval_seconds = some (pos 3600);
  transmit_cron = none;
  description = none;
  unfit = none;
}

abbrev unspaced : PolicyFields
unspaced = record hourly { transmit_interval_seconds = some (pos 0) }

abbrev csn : AdapterFields
csn = record {
  source = some "csn";
  adapter_type = some "api";
  config = some "{}";
  enabled = none;
  policy = some "hourly";
  display_name = some "Seismology";
  site_url = none;
  unfit = none;
}

abbrev file : ConfigFile
file = record {
  schema_version = some (pos 2);
  source_install = some "CE3ABC";
  settings =
      ("UI_PAGE_SIZE", integer (pos 15))
      ∷ ("ANTHROPIC_API_KEY", string "k")
      ∷ ("UI_DEFAULT_THEME", string "pink")
      ∷ [];
  policies = entry hourly ∷ no_object ∷ [];
  sources = [];
  adapter_instances =
      entry csn
      ∷ entry (record csn { adapter_type = some "custom" })
      ∷ entry (record csn { policy = some "daily" })
      ∷ [];
}

import_config-dry_run_example :
    (import_config outside world 9 false "op" true file scheduled_db).0 ≡ scheduled_db
import_config-dry_run_example = import_config-dry_run outside world 9 false "op" file scheduled_db

file-IsFile : IsFile world file
unfolding IsPolicy validate
file-IsFile = record {
  policies = ((refl, (_, refl)), (tt, tt));
  sources = tt;
  adapters = (refl, (refl, (refl, tt)));
}

import_config-predicts_example :
    (import_config outside world 9 false "op" true file scheduled_db).1
    ≡ (import_config outside world 9 false "op" false file scheduled_db).1
import_config-predicts_example =
    import_config-predicts outside world 9 false "op" file scheduled_db file-IsFile

import_config-get_setting_example :
    get_setting
      (λ key. none)
      true
      "UI_PAGE_SIZE"
      none
      (import_config outside world 9 false "op" false file scheduled_db).0
    ≡ some "15"
unfolding radiobeacon.Transfer.Import.Secrets.taken setting_refused settings_registry spec_in
    radiobeacon.Common.Text.int radiobeacon.Transfer.Records.Written.is_none
import_config-get_setting_example =
    import_config-get_setting (λ key. none) true "UI_PAGE_SIZE" none outside world 9 false "op" file
      scheduled_db refl

import_config-secret_example :
    get_setting
      (λ key. none)
      true
      "ANTHROPIC_API_KEY"
      (some "")
      (import_config outside world 9 false "op" false file scheduled_db).0
    ≡ get_setting (λ key. none) true "ANTHROPIC_API_KEY" (some "") scheduled_db
import_config-secret_example =
    import_config-secret (λ key. none) true "ANTHROPIC_API_KEY" (some "") outside world 9 false "op"
      false file scheduled_db refl

action_of : ImportItemResult → Action
action_of r = r.action

actions_of : Result (List ImportItemResult) → List Action
unfolding action_of
actions_of (ok rs) = map action_of rs
actions_of (raised e) = []

actions :
    actions_of (import_config outside world 9 false "op" true file scheduled_db).1
    ≡ created ∷ skipped ∷ skipped ∷ created ∷ skipped ∷ created ∷ skipped ∷ created ∷ []
unfolding actions_of import_config import_records import_each import_settings import_policies
    import_sources import_adapter_instances import_setting import_policy import_source
    import_one_adapter_instance setting_refused adapter_refused settings_registry spec_in
    known_policies counts radiobeacon.Common.Text.int
actions = refl

-- A source whose display name is a list: a dry run accepts it, and sqlite3 refuses it.
abbrev listed : SourceFields
listed = record {
  source = some "x";
  display_name = some "a";
  site_url = none;
  unfit = some other_error;
}

source_accepted : (import_source 9 true (λ name. false) (entry listed) empty).1.action ≡ created
unfolding import_source
source_accepted = refl

source_refused :
    import_source 9 false (λ name. false) (entry listed) empty
    ≡ (empty, skip sources "x" (exception other_error))
unfolding import_source
source_refused = refl

-- A dry run accepts a policy that `set_policy` refuses.
dry_run_accepts :
    (import_policy world 9 true (λ name. false) (entry unspaced) empty).1.action ≡ created
unfolding import_policy
dry_run_accepts = refl

import_refuses :
    (import_policy world 9 false (λ name. false) (entry unspaced) empty).1.action ≡ skipped
unfolding import_policy radiobeacon.Policy.Edits.set_policy validate
import_refuses = refl

-- An adapter of one station, which another takes under a name of its own.
abbrev quakes : AdapterRow
quakes = record {
  source = "csn";
  adapter_type = "api";
  enabled = false;
  policy = some "hourly";
  config = "{}";
  updated_at = 1;
  updated_by = none;
}

abbrev station : Db
station = record empty { adapter_instances = quakes ∷ [] }

export-import_example :
    (exported : AdapterFile) × ((build_adapter_export
        (λ text. ok (some text))
        8
        "op"
        "csn"
        station).1
      ≡ ok exported)
    × ((j : String)
        → get_adapter_instance j
            (import_adapter_export 9 true (some "sismos") false exported scheduled_db).0
          ≡ (if str_eq "sismos" j
              then some (copied 9 "sismos" quakes)
              else get_adapter_instance j scheduled_db))
unfolding get_adapter_instance
export-import_example =
    export-import (λ text. ok (some text)) 8 9 "op" "csn" (some "sismos") quakes station
      scheduled_db refl refl refl refl

abbrev keyed : Db
keyed = record station {
  settings =
      record {
        key = "OPENAI_API_KEY";
        value = some "k";
        is_secret = false;
        updated_at = 1;
        updated_by = "op";
      }
      ∷ [];
}

build_export-secret_example :
    ((build_export (λ text. ok (some text)) 8 "op" (with_secrets (λ r. some "guessed") keyed)).1
      ≡ (build_export (λ text. ok (some text)) 8 "op" keyed).1)
    × ((build_export
          (λ text. ok (some text))
          8
          "op"
          (with_secrets (λ r. some "guessed") keyed)).0.audit_log
        ≡ (build_export (λ text. ok (some text)) 8 "op" keyed).0.audit_log)
build_export-secret_example =
    build_export-secret (λ text. ok (some text)) 8 "op" (λ r. some "guessed") keyed
      (λ same. refl, tt)
