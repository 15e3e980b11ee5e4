-- ===== src/Mapping/Template.antt =====
-- `FieldMapping.resolve` of data-adapters/src/adapters/api_adapter.py, and the formatter of
-- templating.py beside it: one field of an item out of a raw one.
pub mod Raises
pub mod Refused
use Prim.Native.Char.{Char, code}
use radiobeacon.Common.{
  ℕ, String, Bool, true, false, not, ◌&&◌, ◌||◌, Option, none, some, List, [], ◌∷◌, ◌++◌, truthy,
  str_eq, or_blank, ◌==◌, leb, exists, if◌then◌else◌,
}
use radiobeacon.Common.Bytes.{concat}
use radiobeacon.Common.Text.{strip, contains}
use radiobeacon.Common.Result.{
  Result, ok, raised, value_error, type_error, key_error, attribute_error, or_raise, ◌>>=◌,
}
use radiobeacon.Json.{
  Json, Items, no_items, item, Fields, null, string, array, object, lookup, has_key, entries,
}
use radiobeacon.Mapping.Paths.{resolve_dotted_path}

-- A part of a template as `string.Formatter().parse` gives it: the text before a placeholder, the
-- placeholder's name, and its conversion and format as they are written.
pub record Piece : Type 0 where
  pub literal : String
  pub field_name : Option String
  pub suffix : String

-- `string.Formatter().parse` (none is its ValueError), `format`, the parse of a time with a strptime
-- format shown as ISO text (none is its ValueError), `_content_uuid`, `json.dumps`, and the instant of
-- a text that `strptime`, or `fromisoformat` without a format, reads.
pub record Outside : Type 0 where
  pub parse : String → Option (List Piece)
  pub format : String → Json → Result String
  pub strptime : String → String → Option String
  pub content_uuid : Json → String
  pub dumps : Json → String
  pub instant : Option String → String → Result ℕ

pub record FieldMapping : Type 0 where
  pub template : Option String
  pub field_date_format : Option String

-- The names that a template can use, the first of two alike first.
abbrev pub Context : Type 0
Context = List (String × Json)

abbrev pub in_context : String → Context → Option Json
in_context name [] = none
in_context name ((k, v) ∷ context) =
    let rest = in_context name context in if str_eq k name then some v else rest

unfoldable pub add_char : Option String → Char → Option String
add_char none c = none
add_char (some s) c = some (String.◌∷◌ c s)

-- `name.partition(".")` without the dot.
unfoldable pub partition : String → String × String
partition String.[] = ("", "")
partition (String.◌∷◌ c s) =
    let (first, rest) = partition s in
    if code c == b'.' then ("", s) else (String.◌∷◌ c first, rest)

-- What stands before a closing brace at the end.
closed : String → Option String
unfolding add_char
closed String.[] = none
closed (String.◌∷◌ c s) =
    let rest = closed s in
    if code c == b'}'
    then (if str_eq s "" then some "" else none)
    else if code c == b'{'
    then none
    else add_char rest c

bare_name : String → Option String
unfolding closed
bare_name String.[] = none
bare_name (String.◌∷◌ c s) = if code c == b'{' then closed s else none

-- The name in a template that is one placeholder and nothing else.
unfoldable pub bare_placeholder_field : String → Option String
unfolding bare_name
bare_placeholder_field template =
    let name = bare_name (strip template) in if truthy name then name else none

has_text : String → Items → Bool
has_text s no_items = false
has_text s (item (string t) vs) = let rest = has_text s vs in if str_eq t s then true else rest
has_text s (item v vs) = has_text s vs

below_first : String → Option Json → Result (Option Json)
below_first rest none = ok none
below_first rest (some v) = do w ← resolve_dotted_path v rest; ok (some w)

-- `item[first]` where `first in item`, for a dotted name.
in_item : String → String → Json → Result (Option Json)
unfolding has_text below_first
in_item first rest (object fs) = below_first rest (lookup first fs)
in_item first rest (string s) = if contains first s then raised type_error else ok none
in_item first rest (array vs) = if has_text first vs then raised type_error else ok none
in_item first rest _ = raised type_error

-- `item.get(name)`
unfoldable pub get : String → Json → Result (Option Json)
get name (object fs) = ok (lookup name fs)
get name _ = raised attribute_error

unfoldable pub lookup_bare_field : Json → String → Result (Option Json)
unfolding in_item
lookup_bare_field raw bare_field =
    let (first, rest) = partition bare_field in
    if str_eq rest "" then get bare_field raw else in_item first rest raw

-- `datetime.strptime(raw, format).isoformat()`
reformatted : Outside → String → Option Json → Result (Option String)
reformatted o format none = ok none
reformatted o format (some null) = ok none
reformatted o format (some (string s)) = do
  t ← or_raise value_error (o.strptime s format)
  ok (some t)
reformatted o format (some v) = raised type_error

is_digits : String → Bool
is_digits String.[] = true
is_digits (String.◌∷◌ c s) = (leb b'0' (code c) && leb (code c) b'9') && is_digits s

-- A number or an empty name asks for a positional argument, and there is none.
get_value : String → Context → Result Json
unfolding is_digits
get_value name context =
    let found = or_raise key_error (in_context name context) in
    if is_digits name then raised key_error else found

unfoldable pub get_field : String → Context → Result Json
unfolding get_value
get_field field_name context =
    let (first, rest) = partition field_name in
    let value = get_value first context in
    let below = (do v ← value; resolve_dotted_path v rest) in
    if contains "[" field_name then raised value_error else if str_eq rest "" then value else below

piece_text : Outside → Piece → Context → Option String → Result String
piece_text o p context none = ok ""
piece_text o p context (some name) = do v ← get_field name context; o.format p.suffix v

-- `_FORMATTER.vformat(template, (), context)`
unfoldable pub vformat : Outside → List Piece → Context → Result String
unfolding piece_text
vformat o [] context = ok ""
vformat o (p ∷ pieces) context = do
  text ← piece_text o p context p.field_name
  rest ← vformat o pieces context
  ok (concat p.literal (concat text rest))

-- A KeyError, an IndexError or a ValueError counts as an empty text.
swallowed : Result String → Result String
swallowed (raised key_error) = ok ""
swallowed (raised value_error) = ok ""
swallowed r = r

unfoldable pub safe_render : Outside → String → List Piece → Context → Result String
unfolding swallowed
safe_render o template pieces context =
    let rendered = swallowed (vformat o pieces context) in
    if str_eq template "" then ok "" else rendered

add_dotted : String → String × String → List (String × String) → List (String × String)
add_dotted name parts rest = if contains "." name then parts ∷ rest else rest

unfoldable pub dotted_placeholder_paths : List Piece → List (String × String)
unfolding add_dotted
dotted_placeholder_paths [] = []
dotted_placeholder_paths (p ∷ pieces) =
    let rest = dotted_placeholder_paths pieces in
    elim p.field_name [ none ↦ rest | some name ↦ add_dotted name (partition name) rest ]

pub check_path : Option Json → String → Result (Unit {0})
check_path none rest = ok tt
check_path (some v) rest = do w ← resolve_dotted_path v rest; ok tt

-- A dotted name whose first part is there must lead somewhere.
pub check_paths : List (String × String) → Context → Result (Unit {0})
unfolding check_path
check_paths [] context = ok tt
check_paths ((first, rest) ∷ paths) context = do
  checked ← check_path (in_context first context) rest
  check_paths paths context

-- The keyword arguments that `safe_format` has parameters of the same name for.
unfoldable pub is_reserved : Fields → Bool
is_reserved fs = has_key "template" fs || has_key "context" fs

-- `{**item}` of what is no object is a TypeError, as is a keyword argument given twice.
rendered : Outside → String → List Piece → Context → Json → Result (Option String)
unfolding check_paths
rendered o template pieces extra (object fs) =
    let raw = object fs in
    let context =
      entries fs
      ++ (extra ++ ("uuid", string (o.content_uuid raw)) ∷ ("raw", string (o.dumps raw)) ∷ []) in
    let text = (do t ← safe_render o template pieces context; ok (some t)) in
    let call = if is_reserved fs then raised type_error else text in
    do checked ← check_paths (dotted_placeholder_paths pieces) context; call
rendered o template pieces extra raw = raised type_error

from_template : Outside → String → Context → Json → Result (Option String)
unfolding rendered
from_template o template extra (object fs) = do
  pieces ← or_raise value_error (o.parse template)
  rendered o template pieces extra (object fs)
from_template o template extra raw = raised type_error

dated : Outside → Json → String → Option String → Result (Option String) → Result (Option String)
unfolding reformatted
dated o raw format none other = other
dated o raw format (some bare_field) other = do
  v ← lookup_bare_field raw bare_field
  reformatted o format v

mapped : Outside → Json → Context → Option String → Option String → Result (Option String)
unfolding dated from_template
mapped o raw extra date_format none = ok none
mapped o raw extra date_format (some template) =
    let text = from_template o template extra raw in
    let by_date = dated o raw (or_blank date_format) (bare_placeholder_field template) text in
    if truthy date_format then by_date else text

-- `FieldMapping.resolve`
unfoldable pub resolve : Outside → Json → Context → FieldMapping → Result (Option String)
unfolding mapped
resolve o raw extra m = mapped o raw extra m.field_date_format m.template
