-- ===== src/Transfer/Export/RoundTrip.antt =====
-- An adapter that is exported from one database and imported into another.
use radiobeacon.Common.{
  ℕ, String, ◌≡◌, refl, ap, ◌∙◌, sym, true, false, Option, none, some, List, [], ◌∷◌, arith,
  if◌then◌else◌, inl, inr, Bool-cases, str_eq, eq_iff, truthy, or_blank, find_row,
}
use radiobeacon.Common.Result.{ok}
use radiobeacon.Database.{Db, SourceRow, AdapterRow}
use radiobeacon.Registry.{is_adapter, is_source, get_adapter_instance}
use radiobeacon.Transfer.Fields.{AdapterFields}
use radiobeacon.Transfer.Records.{adapter_types, adapter_refused, is_in}
use radiobeacon.Transfer.Records.Written.{imported_row, import_adapter-view}
use radiobeacon.Transfer.Import.{AdapterFile, import_adapter_export}
use radiobeacon.Transfer.Import.Single.{single-record}
use radiobeacon.Transfer.Export.{
  Loads, build_adapter_export, export_found, export_row, enveloped, exported_fields,
}

-- The name under which an import writes an adapter.
abbrev pub target : Option String → String → String
target override source = if truthy override then or_blank override else source

-- The row as an import writes it.
abbrev pub copied : ℕ → String → AdapterRow → AdapterRow
copied now name row = record row {
  source = name;
  updated_at = now;
  updated_by = some "ui.adapters";
}

find-source :
    (source : String) (row : AdapterRow) (rows : List AdapterRow)
    → find_row (is_adapter source) rows ≡ some row
    → row.source ≡ source
find-source source row [] h = absurd (cc h)
find-source source row (a ∷ rows) h =
    ground (arith, h, find-source source row rows, eq_iff a.source source)

-- The fields of a file under the name that an import gives it.
abbrev under : Option String → AdapterFields → AdapterFields
under override f = if truthy override then record f { source = override } else f

accepted :
    (row : AdapterRow) (linked : Option SourceRow) (override : Option String)
    → is_in row.adapter_type adapter_types ≡ true
    → adapter_refused true (under override (exported_fields row (some row.config) linked)) ≡ none
unfolding adapter_refused exported_fields
accepted row linked override known = ground (arith, known)

under-source :
    (row : AdapterRow) (linked : Option SourceRow) (override : Option String)
    → or_blank (under override (exported_fields row (some row.config) linked)).source
      ≡ target override row.source
unfolding exported_fields
under-source row linked override = ground arith

under-row :
    (now : ℕ) (row : AdapterRow) (linked : Option SourceRow) (override : Option String)
    (name : String)
    → imported_row now name (under override (exported_fields row (some row.config) linked))
      ≡ copied now name row
unfolding exported_fields
under-row now row linked override name = elim (Bool-cases (truthy override)) [
  | inl given ↦ rw given refl
  | inr own ↦ rw own refl
]

export-ok :
    (loads : Loads) (now : ℕ) (actor source : String) (row : AdapterRow) (db : Db)
    → get_adapter_instance source db ≡ some row
    → loads row.config ≡ ok (some row.config)
    → (build_adapter_export loads now actor source db).1
      ≡ ok (
          enveloped
            (exported_fields row (some row.config) (find_row (is_source row.source) db.sources)))
unfolding build_adapter_export export_found export_row
export-ok loads now actor source row db found object = rw (found, object) refl

import-view :
    (now : ℕ) (override : Option String) (row : AdapterRow) (linked : Option SourceRow) (db : Db)
    (j : String)
    → is_in row.adapter_type adapter_types ≡ true
    → str_eq (target override row.source) "" ≡ false
    → get_adapter_instance j
        (import_adapter_export now true override false
          (enveloped (exported_fields row (some row.config) linked))
          db).0
      ≡ (if str_eq (target override row.source) j
          then some (copied now (target override row.source) row)
          else get_adapter_instance j db)
unfolding enveloped
import-view now override row linked db j known named =
    let f = exported_fields row (some row.config) linked in
    ap (get_adapter_instance j) (single-record now true false override f db)
    ∙ (import_adapter-view now true _ _ (under override f) db j
          (rw (under-source row linked override) named) (accepted row linked override known)
        ∙ rw
            (
              under-source row linked override,
              under-row now row linked override (target override row.source),
            )
            refl)

-- The file that `build_adapter_export` writes of an adapter, imported into any database under its own
-- name or another, with custom code allowed, gives there the same adapter: its type, configuration,
-- policy and switch; and every other adapter of that database stays as it was. The adapter's type must be
-- one that an import knows, its configuration the text of an object, and the name not empty.
pub export-import :
    (loads : Loads) (now later : ℕ) (actor source : String) (override : Option String)
    (row : AdapterRow) (db db' : Db)
    → get_adapter_instance source db ≡ some row
    → loads row.config ≡ ok (some row.config)
    → is_in row.adapter_type adapter_types ≡ true
    → str_eq (target override source) "" ≡ false
    → (file : AdapterFile) × ((build_adapter_export loads now actor source db).1 ≡ ok file)
      × ((j : String)
          → get_adapter_instance j (import_adapter_export later true override false file db').0 ≡ (
              if str_eq (target override source) j
              then some (copied later (target override source) row)
              else get_adapter_instance j db'))
unfolding get_adapter_instance
export-import loads now later actor source override row db db' found object known named =
    let own : source ≡ row.source = sym (find-source source row db.adapter_instances found) in
    let linked = find_row (is_source row.source) db.sources in
    (
      enveloped (exported_fields row (some row.config) linked),
      export-ok loads now actor source row db found object,
      λ j. rw own (import-view later override row linked db' j known (rw⁻¹ own named)),
    )
