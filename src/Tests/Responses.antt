-- ===== src/Tests/Responses.antt =====
-- Responses of a source, and what is fetched of them.
use radiobeacon.Common.{String, ◌≡◌, refl, true, false, none, some, [], ◌∷◌, All, pos}
use radiobeacon.Common.Result.{ok, raised, other_error, key_error, attribute_error}
use radiobeacon.Database.{empty}
use radiobeacon.Json.{
  Json, Items, no_fields, field, no_items, item, null, string, array, object, elements,
}
use radiobeacon.Mapping.Paths.{lookup_path, find_array_paths, resolve_dotted_path}
use radiobeacon.Mapping.Paths.Found.{is_plain, find_array_paths-lookup_path}
use radiobeacon.Mapping.Template.{Outside, FieldMapping, Piece}
use radiobeacon.Mapping.Fetch.{
  ApiAdapterConfig, AdapterItem, source_template_context, newest_first, fetch,
}
use radiobeacon.Mapping.Fetch.Kept.{mappable, HasId, IsNewestFirst, fetch-mappable}
use radiobeacon.Mapping.Fetch.Lost.{fetch-reserved, fetch-no_object}

-- {"Fecha": "10:00"}
abbrev quake : Json
quake = object (field "Fecha" (string "10:00") no_fields)

abbrev quakes : Items
quakes = item quake (item (object no_fields) no_items)

-- {"result": {"items": [...]}}
abbrev response : Json
response = object (field "result" (object (field "items" (array quakes) no_fields)) no_fields)

found : find_array_paths response "" 4 ≡ ("result.items", quakes) ∷ []
unfolding find_array_paths
found = refl

find_array_paths-lookup_path_example :
    All
      (λ (p : String × Items). lookup_path response p.0 ≡ ok (array p.1))
      (find_array_paths response "" 4)
unfolding is_plain
find_array_paths-lookup_path_example = find_array_paths-lookup_path response 4 refl

-- {"a.b": []} is offered as "a.b", which leads nowhere.
abbrev dotted : Json
dotted = object (field "a.b" (array no_items) no_fields)

offered : find_array_paths dotted "" 4 ≡ ("a.b", no_items) ∷ []
unfolding find_array_paths
offered = refl

leads_nowhere : lookup_path dotted "a.b" ≡ raised key_error
unfolding lookup_path radiobeacon.Common.Bytes.split
leads_nowhere = refl

first_of_list : resolve_dotted_path (array quakes) "Fecha" ≡ ok (string "10:00")
unfolding resolve_dotted_path radiobeacon.Common.Bytes.split
    radiobeacon.Mapping.Paths.unwrap_collection
first_of_list = refl

-- A station where every template is one placeholder, `{Fecha}`.
abbrev fecha : Piece
fecha = record { literal = ""; field_name = some "Fecha"; suffix = "" }

abbrev outside : Outside
outside = record {
  parse = λ template. some (fecha ∷ []);
  format = λ suffix v. ok "text";
  strptime = λ text format. some text;
  content_uuid = λ v. "uuid";
  dumps = λ v. "{}";
  instant = λ format text. ok 7;
}

abbrev config_of : FieldMapping → ApiAdapterConfig
config_of m = record {
  items_path = "result.items";
  mapping = ("id", m) ∷ [];
  date_field = none;
  date_format = none;
}

abbrev by_template : FieldMapping
by_template = record { template = some "{Fecha}"; field_date_format = none }

abbrev by_date : FieldMapping
by_date = record { template = some "{Fecha}"; field_date_format = some "%H:%M" }

abbrev quake_item : AdapterItem
quake_item = record {
  id = some "10:00";
  title = none;
  contents = none;
  url = none;
  event_key = none;
  type = none;
  subtype = none;
  source_date_time = none;
  raw = quake;
}

fetches :
    fetch outside (config_of by_date) "csn" "d" "t" empty (ok response)
    ≡ ok (record { source = "csn"; is_ok = true; items = quake_item ∷ [] })
unfolding fetch lookup_path radiobeacon.Common.Bytes.split radiobeacon.Mapping.Fetch.map_items
    radiobeacon.Mapping.Fetch.map_item radiobeacon.Mapping.Template.resolve
    radiobeacon.Mapping.Fetch.mapping_for radiobeacon.Mapping.Template.bare_placeholder_field
    radiobeacon.Common.Text.strip radiobeacon.Mapping.Template.lookup_bare_field
    radiobeacon.Mapping.Template.partition radiobeacon.Mapping.Template.get
    radiobeacon.Mapping.Fetch.resolve_source_date_time newest_first
fetches = refl

fetch-mappable_example :
    let items = newest_first (
      mappable outside
        (source_template_context outside (config_of by_template) "csn" response "d" "t" empty)
        (config_of by_template)
        (elements quakes)) in
    (fetch outside (config_of by_template) "csn" "d" "t" empty (ok response)
      ≡ ok (record { source = "csn"; is_ok = true; items = items }))
    × IsNewestFirst items
    × All HasId items
unfolding lookup_path radiobeacon.Common.Bytes.split
    radiobeacon.Mapping.Fetch.resolve_source_date_time
fetch-mappable_example =
    fetch-mappable outside (config_of by_template) "csn" "d" "t" empty response quakes
      (λ suffix v. tt) (tt, (tt, tt)) refl (tt, (tt, tt))

-- Dates that only the time zone carries out of the calendar: the response is lost.
abbrev early : Outside
early = record outside { instant = λ format text. raised other_error }

overflows :
    fetch early
      (record (config_of by_date) { date_field = some "Fecha" })
      "csn"
      "d"
      "t"
      empty
      (ok response)
    ≡ raised other_error
unfolding fetch lookup_path radiobeacon.Common.Bytes.split radiobeacon.Mapping.Fetch.map_items
    radiobeacon.Mapping.Fetch.map_item radiobeacon.Mapping.Template.resolve
    radiobeacon.Mapping.Fetch.mapping_for radiobeacon.Mapping.Template.bare_placeholder_field
    radiobeacon.Common.Text.strip radiobeacon.Mapping.Template.lookup_bare_field
    radiobeacon.Mapping.Template.partition radiobeacon.Mapping.Template.get
    radiobeacon.Mapping.Fetch.resolve_source_date_time newest_first
overflows = refl

-- {"context": null}
abbrev reserved : Items
reserved = item (object (field "context" null no_fields)) no_items

abbrev reserved_response : Json
reserved_response =
    object (field "result" (object (field "items" (array reserved) no_fields)) no_fields)

fetch-reserved_example :
    fetch outside (config_of by_template) "csn" "d" "t" empty (ok reserved_response)
    ≡ ok (record { source = "csn"; is_ok = true; items = [] })
unfolding radiobeacon.Mapping.Fetch.mapping_for lookup_path radiobeacon.Common.Bytes.split
    radiobeacon.Mapping.Template.is_reserved
fetch-reserved_example =
    fetch-reserved outside (config_of by_template) "csn" "d" "t" empty reserved_response reserved
      (record { text = "{Fecha}"; given = refl; undated = refl }) refl (refl, tt)

-- [{"Fecha": "10:00"}, null]
abbrev mixed : Items
mixed = item quake (item null no_items)

abbrev mixed_response : Json
mixed_response = object (field "result" (object (field "items" (array mixed) no_fields)) no_fields)

fetch-no_object_example :
    fetch outside (config_of by_date) "csn" "d" "t" empty (ok mixed_response)
    ≡ raised attribute_error
unfolding radiobeacon.Mapping.Fetch.mapping_for radiobeacon.Mapping.Template.bare_placeholder_field
    radiobeacon.Common.Text.strip radiobeacon.Mapping.Template.partition lookup_path
    radiobeacon.Common.Bytes.split radiobeacon.Mapping.Fetch.resolve_source_date_time
fetch-no_object_example =
    fetch-no_object outside (config_of by_date) "csn" "d" "t" empty mixed_response mixed
      (quake ∷ []) null [] (λ suffix v. tt) (tt, tt)
      (record {
        text = "{Fecha}";
        name = "Fecha";
        given = refl;
        by_date = refl;
        bare = refl;
        flat = refl;
      })
      refl refl (tt, tt) tt
