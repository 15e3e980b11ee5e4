-- ===== src/Mapping/Template/Raises.antt =====
-- What a mapping can raise on an object: KeyError, ValueError and TypeError.
use radiobeacon.Common.{String, Option, none, some, List, [], ◌∷◌, str_eq, truthy, or_blank}
use radiobeacon.Common.Text.{contains}
use radiobeacon.Common.Result.{
  Result, ok, raised, value_error, type_error, key_error, attribute_error, integrity_error,
  other_error, or_raise,
}
use radiobeacon.Json.{Json, Fields, object, null, string, array, boolean, integer, real, lookup}
use radiobeacon.Mapping.Paths.{resolve_dotted_path}
use radiobeacon.Mapping.Paths.Raises.{
  IsTame, bind-IsTame, if-IsTame, or_raise-IsTame, resolve_dotted_path-IsTame,
}
use radiobeacon.Mapping.Template.{
  Outside, Piece, FieldMapping, Context, in_context, in_item, below_first, get, lookup_bare_field,
  reformatted, get_value, get_field, is_digits, partition, piece_text, vformat, swallowed,
  safe_render, check_path, check_paths, rendered, from_template, dated, mapped, resolve,
  dotted_placeholder_paths, is_reserved, bare_placeholder_field,
}

-- `format` raises KeyError, ValueError or TypeError, if anything.
abbrev pub IsTamed : Outside → Type 0
IsTamed o = (suffix : String) (v : Json) → IsTame (o.format suffix v)

field-IsTame : (name : String) (context : Context) → IsTame (get_field name context)
unfolding get_field get_value
field-IsTame name context =
    let (first, rest) = partition name in
    let value =
      if-IsTame (is_digits first) _ _ tt
        (or_raise-IsTame key_error (in_context first context) tt) in
    if-IsTame (contains "[" name) _ _ tt (
      if-IsTame (str_eq rest "") _ _ value
        (bind-IsTame _ _ value (λ v. resolve_dotted_path-IsTame v rest)))

piece-IsTame :
    (o : Outside) (p : Piece) (context : Context) (name : Option String)
    → IsTamed o
    → IsTame (piece_text o p context name)
unfolding piece_text
piece-IsTame o p context none tamed = tt
piece-IsTame o p context (some name) tamed =
    bind-IsTame (get_field name context) _ (field-IsTame name context) (tamed p.suffix)

vformat-IsTame :
    (o : Outside) (pieces : List Piece) (context : Context)
    → IsTamed o
    → IsTame (vformat o pieces context)
unfolding vformat
vformat-IsTame o [] context tamed = tt
vformat-IsTame o (p ∷ pieces) context tamed =
    bind-IsTame (piece_text o p context p.field_name) _
      (piece-IsTame o p context p.field_name tamed)
      (λ text.
        bind-IsTame (vformat o pieces context) _ (vformat-IsTame o pieces context tamed)
          (λ rest. tt))

swallowed-IsTame : (r : Result String) → IsTame r → IsTame (swallowed r)
unfolding swallowed
swallowed-IsTame (ok s) h = tt
swallowed-IsTame (raised key_error) h = tt
swallowed-IsTame (raised value_error) h = tt
swallowed-IsTame (raised type_error) h = tt
swallowed-IsTame (raised attribute_error) h = h
swallowed-IsTame (raised integrity_error) h = h
swallowed-IsTame (raised other_error) h = h

path-IsTame : (v : Option Json) (rest : String) → IsTame (check_path v rest)
unfolding check_path
path-IsTame none rest = tt
path-IsTame (some v) rest =
    bind-IsTame (resolve_dotted_path v rest) _ (resolve_dotted_path-IsTame v rest) (λ w. tt)

pub paths-IsTame :
    (paths : List (String × String)) (context : Context) → IsTame (check_paths paths context)
unfolding check_paths
paths-IsTame [] context = tt
paths-IsTame ((first, rest) ∷ paths) context =
    bind-IsTame (check_path (in_context first context) rest) _
      (path-IsTame (in_context first context) rest) (λ checked. paths-IsTame paths context)

rendered-IsTame :
    (o : Outside) (template : String) (pieces : List Piece) (extra : Context) (fs : Fields)
    → IsTamed o
    → IsTame (rendered o template pieces extra (object fs))
unfolding rendered safe_render
rendered-IsTame o template pieces extra fs tamed =
    bind-IsTame _ _ (paths-IsTame (dotted_placeholder_paths pieces) _) (λ checked.
      if-IsTame (is_reserved fs) _ _ tt (
        bind-IsTame _ _
          (if-IsTame (str_eq template "") _ _ tt
            (swallowed-IsTame _ (vformat-IsTame o pieces _ tamed)))
          (λ t. tt)))

reformatted-IsTame :
    (o : Outside) (format : String) (v : Option Json) → IsTame (reformatted o format v)
unfolding reformatted
reformatted-IsTame o format none = tt
reformatted-IsTame o format (some null) = tt
reformatted-IsTame o format (some (boolean b)) = tt
reformatted-IsTame o format (some (integer n)) = tt
reformatted-IsTame o format (some (real s)) = tt
reformatted-IsTame o format (some (array vs)) = tt
reformatted-IsTame o format (some (object fs)) = tt
reformatted-IsTame o format (some (string s)) =
    bind-IsTame (or_raise value_error (o.strptime s format)) _
      (or_raise-IsTame value_error (o.strptime s format) tt) (λ t. tt)

below-IsTame : (rest : String) (v : Option Json) → IsTame (below_first rest v)
unfolding below_first
below-IsTame rest none = tt
below-IsTame rest (some v) =
    bind-IsTame (resolve_dotted_path v rest) _ (resolve_dotted_path-IsTame v rest) (λ w. tt)

dated-IsTame :
    (o : Outside) (fs : Fields) (format : String) (name : Option String)
    (other : Result (Option String))
    → IsTame other
    → IsTame (dated o (object fs) format name other)
unfolding dated lookup_bare_field in_item get
dated-IsTame o fs format none other h = h
dated-IsTame o fs format (some name) other h =
    let (first, rest) = partition name in
    bind-IsTame _ _ (if-IsTame (str_eq rest "") _ _ tt (below-IsTame rest (lookup first fs)))
      (reformatted-IsTame o format)

mapped-IsTame :
    (o : Outside) (fs : Fields) (extra : Context) (date_format template : Option String)
    → IsTamed o
    → IsTame (mapped o (object fs) extra date_format template)
unfolding mapped from_template
mapped-IsTame o fs extra date_format none tamed = tt
mapped-IsTame o fs extra date_format (some template) tamed =
    let text =
      bind-IsTame _ _ (or_raise-IsTame value_error (o.parse template) tt)
        (λ pieces. rendered-IsTame o template pieces extra fs tamed) in
    if-IsTame (truthy date_format) _ _
      (dated-IsTame o fs (or_blank date_format) (bare_placeholder_field template) _ text) text

-- A mapping raises nothing else on an object.
pub resolve-IsTame :
    (o : Outside) (fs : Fields) (extra : Context) (m : FieldMapping)
    → IsTamed o
    → IsTame (resolve o (object fs) extra m)
unfolding resolve
resolve-IsTame o fs extra m tamed = mapped-IsTame o fs extra m.field_date_format m.template tamed
