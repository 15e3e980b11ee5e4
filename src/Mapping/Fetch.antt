-- ===== src/Mapping/Fetch.antt =====
-- `ApiAdapter.fetch` of data-adapters/src/adapters/api_adapter.py.
-- The request is a parameter: the parsed response, or the exception that is raised.
pub mod Kept
pub mod Lost
use radiobeacon.Common.{
  ℕ, zero, suc, String, Bool, true, false, not, ◌&&◌, ◌||◌, Option, none, some, List, [], ◌∷◌, ◌++◌,
  str_eq, leb, or_blank, find_row, if◌then◌else◌,
}
use radiobeacon.Common.Bytes.{concat}
use radiobeacon.Common.Text.{contains}
use radiobeacon.Common.Result.{
  Exception, Result, ok, raised, value_error, type_error, key_error, attribute_error,
  integrity_error, other_error, ◌>>=◌,
}
use radiobeacon.Json.{Json, null, string, array, object, elements}
use radiobeacon.Database.{Db, Value}
use radiobeacon.Database.Audit.{record_audit_event, opt_text}
use radiobeacon.Registry.{get_source_fields}
use radiobeacon.Readings.{Fetched, Reading, Dumps, store_reading}
use radiobeacon.Mapping.Paths.{lookup_path}
use radiobeacon.Mapping.Template.{Outside, FieldMapping, Context, in_context, get, resolve}

pub record ApiAdapterConfig : Type 0 where
  pub items_path : String
  pub mapping : List (String × FieldMapping)
  pub date_field : Option String
  pub date_format : Option String

-- An item of a reading, with its instant.
pub record AdapterItem : Type 0 where
  pub id : Option String
  pub title : Option String
  pub contents : Option String
  pub url : Option String
  pub event_key : Option String
  pub type : Option String
  pub subtype : Option String
  pub source_date_time : Option ℕ
  pub raw : Json

mapping_or : Option (String × FieldMapping) → FieldMapping
mapping_or none = record { template = none; field_date_format = none }
mapping_or (some m) = m.1

unfoldable pub mapping_for : String → ApiAdapterConfig → FieldMapping
unfolding mapping_or
mapping_for name cfg =
    mapping_or (find_row (λ (m : String × FieldMapping). str_eq m.0 name) cfg.mapping)

-- The exceptions that a failed mapping is known to raise become one.
as_value_error {ℓ} : {A : Type ℓ} → Result A → Result A
as_value_error (raised key_error) = raised value_error
as_value_error (raised type_error) = raised value_error
as_value_error r = r

map_field : Outside → Json → Context → ApiAdapterConfig → String → Result (Option String)
unfolding as_value_error
map_field o raw extra cfg name = as_value_error (resolve o raw extra (mapping_for name cfg))

-- The date of an item, or else of the fetch.
dated_by : Context → String → Option Json → Option Json
dated_by extra name none = in_context name extra
dated_by extra name (some null) = in_context name extra
dated_by extra name (some v) = some v

instant_of : Outside → Option String → Option Json → Result (Option ℕ)
instant_of o format none = ok none
instant_of o format (some null) = ok none
instant_of o format (some (string s)) = do t ← o.instant format s; ok (some t)
instant_of o format (some v) = raised type_error

date_of_field : Outside → Json → Context → Option String → Option String → Result (Option ℕ)
unfolding dated_by instant_of
date_of_field o raw extra format none = ok none
date_of_field o raw extra format (some name) = do
  v ← get name raw
  instant_of o format (dated_by extra name v)

unfoldable pub resolve_source_date_time :
    Outside → Json → Context → ApiAdapterConfig → Result (Option ℕ)
unfolding date_of_field
resolve_source_date_time o raw extra cfg = date_of_field o raw extra cfg.date_format cfg.date_field

-- An item before its date is known.
abbrev untimed :
    Json
    → Option String
    → Option String
    → Option String
    → Option String
    → Option String
    → Option String
    → Option String
    → AdapterItem
untimed raw id title contents url event_key type subtype = record {
  id = id;
  title = title;
  contents = contents;
  url = url;
  event_key = event_key;
  type = type;
  subtype = subtype;
  source_date_time = none;
  raw = raw;
}

-- The mapped id must not be None.
with_date : Json → AdapterItem → Option String → Result (Option ℕ) → Result AdapterItem
with_date raw i none date = raised value_error
with_date raw i (some id) date = do t ← date; ok (record i { source_date_time = t })

unfoldable pub map_item : Outside → Context → ApiAdapterConfig → Json → Result AdapterItem
unfolding map_field with_date
map_item o extra cfg raw = do
  id ← map_field o raw extra cfg "id"
  title ← map_field o raw extra cfg "title"
  contents ← map_field o raw extra cfg "contents"
  url ← map_field o raw extra cfg "url"
  event_key ← map_field o raw extra cfg "event_key"
  type ← map_field o raw extra cfg "type"
  subtype ← map_field o raw extra cfg "subtype"
  with_date raw (untimed raw id title contents url event_key type subtype) id
      (resolve_source_date_time o raw extra cfg)

-- An item that cannot be mapped is skipped.
skipped_or : Result AdapterItem → Result (List AdapterItem) → Result (List AdapterItem)
skipped_or (ok i) rest = do is ← rest; ok (i ∷ is)
skipped_or (raised key_error) rest = rest
skipped_or (raised value_error) rest = rest
skipped_or (raised type_error) rest = rest
skipped_or (raised e) rest = raised e

unfoldable pub map_items :
    Outside → Context → ApiAdapterConfig → List Json → Result (List AdapterItem)
unfolding skipped_or
map_items o extra cfg [] = ok []
map_items o extra cfg (raw ∷ raws) =
    skipped_or (map_item o extra cfg raw) (map_items o extra cfg raws)

-- An item without a date stands for the earliest.
abbrev pub date_key : AdapterItem → ℕ
date_key i = elim i.source_date_time [ none ↦ zero | some t ↦ suc t ]

insert_newest : AdapterItem → List AdapterItem → List AdapterItem
insert_newest i [] = i ∷ []
insert_newest i (j ∷ js) =
    let rest = insert_newest i js in if leb (date_key j) (date_key i) then i ∷ j ∷ js else j ∷ rest

-- `items.sort(key=…, reverse=True)`
unfoldable pub newest_first : List AdapterItem → List AdapterItem
unfolding insert_newest
newest_first [] = []
newest_first (i ∷ is) = insert_newest i (newest_first is)

-- A single object counts as one item.
raw_items : Json → Result (List Json)
raw_items (object fs) = ok (object fs ∷ [])
raw_items (array vs) = ok (elements vs)
raw_items _ = raised type_error

pub record SourceReading : Type 0 where
  pub source : String
  pub is_ok : Bool
  pub items : List AdapterItem

-- The handlers of `fetch` catch KeyError, ValueError and TypeError; OSError, which only the request
-- raises, counts as a ValueError there.
settled : String → Result (List AdapterItem) → Result SourceReading
settled source (ok is) = ok (record { source = source; is_ok = true; items = newest_first is })
settled source (raised attribute_error) = raised attribute_error
settled source (raised integrity_error) = raised integrity_error
settled source (raised other_error) = raised other_error
settled source (raised e) = ok (record { source = source; is_ok = false; items = [] })

templates_of : List (String × FieldMapping) → String
templates_of [] = ""
templates_of (m ∷ ms) = concat (or_blank m.1.template) (concat " " (templates_of ms))

-- The names that stand for the fetch itself: its start, its source, and the response.
unfoldable pub source_template_context :
    Outside → ApiAdapterConfig → String → Json → String → String → Db → Context
unfolding templates_of
source_template_context o cfg source response date datetime db =
    let templates = templates_of cfg.mapping in
    let (source_name, source_url) = get_source_fields source db in
    ("date", string date)
    ∷ ("datetime", string datetime)
    ∷ ((if contains "{response}" templates
          then ("response", string (o.dumps response)) ∷ []
          else [])
        ++ (if contains "{source_name}" templates || contains "{source_url}" templates
            then ("source_name", string source_name) ∷ ("source_url", string source_url) ∷ []
            else []))

fetched_items :
    Outside
    → ApiAdapterConfig
    → String
    → String
    → String
    → Db
    → Result Json
    → Result (List AdapterItem)
unfolding raw_items
fetched_items o cfg source date datetime db response = do
  body ← response
  found ← lookup_path body cfg.items_path
  raws ← raw_items found
  map_items o (source_template_context o cfg source body date datetime db) cfg raws

unfoldable pub fetch :
    Outside → ApiAdapterConfig → String → String → String → Db → Result Json → Result SourceReading
unfolding fetched_items settled
fetch o cfg source date datetime db response =
    settled source (fetched_items o cfg source date datetime db response)
