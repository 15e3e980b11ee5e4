-- ===== src/Transfer/Export.antt =====
-- `build_adapter_export`. A LookupError is an other_error. What an import never reads (when, by whom
-- and from which install it was exported) is left out.
pub mod RoundTrip
pub mod Whole
use radiobeacon.Common.{ℕ, String, Option, none, some, List, [], find_row, pos}
use radiobeacon.Common.Result.{Result, ok, raised, other_error}
use radiobeacon.Database.{Db, SourceRow, AdapterRow}
use radiobeacon.Database.Audit.{record_audit_event}
use radiobeacon.Registry.{is_source, get_adapter_instance}
use radiobeacon.Transfer.Fields.{AdapterFields, entry}
use radiobeacon.Transfer.Import.{AdapterFile}

-- `json.loads` of a configuration: the text that json.dumps gives of it again, none where it is no
-- object.
abbrev pub Loads : Type 0
Loads = String → Result (Option String)

display_name_of : Option SourceRow → Option String
display_name_of none = none
display_name_of (some s) = some s.display_name

site_url_of : Option SourceRow → Option String
site_url_of none = none
site_url_of (some s) = s.site_url

-- The row, with its source's names where there are any.
pub exported_fields : AdapterRow → Option String → Option SourceRow → AdapterFields
unfolding display_name_of site_url_of
exported_fields row config linked = record {
  source = some row.source;
  adapter_type = some row.adapter_type;
  config = config;
  enabled = some row.enabled;
  policy = row.policy;
  display_name = display_name_of linked;
  site_url = site_url_of linked;
  unfit = none;
}

enveloped : AdapterFields → AdapterFile
enveloped fields = record {
  kind = some "radiobeacon.adapter_instance";
  schema_version = some (pos 1);
  adapter = entry fields;
}

export_row :
    ℕ
    → String
    → AdapterRow
    → Option SourceRow
    → Result (Option String)
    → Db
    → Db × Result AdapterFile
unfolding exported_fields enveloped
export_row now actor row linked (raised e) db = (db, raised e)
export_row now actor row linked (ok config) db = (
  record_audit_event now "adapter_instance.exported" actor (some row.source) none [] db,
  ok (enveloped (exported_fields row config linked)),
)

export_found : Loads → ℕ → String → Option AdapterRow → Db → Db × Result AdapterFile
unfolding export_row
export_found loads now actor none db = (db, raised other_error)
export_found loads now actor (some row) db =
    export_row now actor row (find_row (is_source row.source) db.sources) (loads row.config) db

unfoldable pub build_adapter_export : Loads → ℕ → String → String → Db → Db × Result AdapterFile
unfolding export_found
build_adapter_export loads now actor source db =
    export_found loads now actor (get_adapter_instance source db) db
