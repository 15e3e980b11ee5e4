-- ===== src/Registry.antt =====
-- The tables `sources` and `adapter_instances` of data-adapters/src/adapters/storage.py: which adapters
-- run and how their sources are shown. A configuration is its JSON text.
pub mod Map
use radiobeacon.Common.{
  ℕ, String, Bool, true, false, Option, none, some, List, [], ◌∷◌, ◌++◌, str_eq, truthy, exists,
  find_row, update, delete, if◌then◌else◌,
}
use radiobeacon.Database.{Db, SourceRow, AdapterRow, Value}
use radiobeacon.Database.Audit.{record_audit_event, opt_text}

abbrev pub is_source : String → SourceRow → Bool
is_source source s = str_eq s.source source

abbrev pub is_adapter : String → AdapterRow → Bool
is_adapter source a = str_eq a.source source

site_url_or_empty : Option String → String
site_url_or_empty none = ""
site_url_or_empty (some url) = url

named_fields : String → Option SourceRow → String × String
named_fields source none = (source, "")
named_fields source (some s) = (s.display_name, site_url_or_empty s.site_url)

-- `source_name` and `source_url`; an unknown source stands under its own key.
unfoldable pub get_source_fields : String → Db → String × String
unfolding named_fields site_url_or_empty
get_source_fields source db = named_fields source (find_row (is_source source) db.sources)

unfoldable pub set_source : ℕ → String → String → Option String → Db → Db
set_source now source display_name site_url db =
    let row : SourceRow = record {
      source = source;
      display_name = display_name;
      site_url = site_url;
      updated_at = now;
    } in
    record_audit_event now "source.set" "data-adapters.sources" (some source) none
      (("display_name", Value.text display_name) ∷ ("site_url", opt_text site_url) ∷ [])
      (record db {
        sources =
            if exists (is_source source) db.sources
            then update (is_source source) (λ s. row) db.sources
            else db.sources ++ row ∷ [];
      })

unfoldable pub delete_source : ℕ → String → Db → Db × Bool
delete_source now source db =
    let db' : Db = record db { sources = delete (is_source source) db.sources } in
    if exists (is_source source) db.sources
    then (
      record_audit_event now "source.deleted" "data-adapters.sources" (some source) none [] db',
      true,
    )
    else (db', false)

unfoldable pub get_adapter_instance : String → Db → Option AdapterRow
get_adapter_instance source db = find_row (is_adapter source) db.adapter_instances

-- INSERT … ON CONFLICT(source) DO UPDATE of every other column.
abbrev pub put_adapter : AdapterRow → List AdapterRow → List AdapterRow
put_adapter row rows =
    if exists (is_adapter row.source) rows
    then update (is_adapter row.source) (λ a. row) rows
    else rows ++ row ∷ []

unfoldable pub set_adapter_instance :
    ℕ → String → String → String → Bool → Option String → String → Db → Db
set_adapter_instance now source adapter_type config enabled policy actor db =
    record_audit_event now "adapter_instance.set" actor (some source) none
      (("adapter_type", Value.text adapter_type)
        ∷ ("enabled", Value.flag enabled)
        ∷ ("policy", opt_text policy)
        ∷ [])
      (record db {
        adapter_instances =
            put_adapter
              (record {
                source = source;
                adapter_type = adapter_type;
                enabled = enabled;
                policy = policy;
                config = config;
                updated_at = now;
                updated_by = some actor;
              })
              db.adapter_instances;
      })

unfoldable pub set_adapter_instance_enabled : ℕ → String → Bool → String → Db → Db × Bool
set_adapter_instance_enabled now source enabled actor db =
    let db' : Db = record db {
      adapter_instances =
          update (is_adapter source)
            (λ a. record a { enabled = enabled; updated_at = now; updated_by = some actor })
            db.adapter_instances;
    } in
    if exists (is_adapter source) db.adapter_instances
    then (
      record_audit_event now
          (if enabled then "adapter_instance.enabled" else "adapter_instance.disabled") actor
          (some source) none (("enabled", Value.flag enabled) ∷ []) db',
      true,
    )
    else (db', false)

unfoldable pub delete_adapter_instance : ℕ → String → String → Db → Db × Bool
delete_adapter_instance now source actor db =
    let db' : Db = record db {
      adapter_instances = delete (is_adapter source) db.adapter_instances;
    } in
    if exists (is_adapter source) db.adapter_instances
    then (record_audit_event now "adapter_instance.deleted" actor (some source) none [] db', true)
    else (db', false)
