-- ===== src/Mapping/Paths.antt =====
-- Dotted paths into a response: `_lookup_path` and `_find_array_paths` of
-- data-adapters/src/adapters/api_adapter.py, and `resolve_dotted_path` of templating.py beside it.
pub mod Found
pub mod Raises
use radiobeacon.Common.{
  ℕ, zero, suc, String, Bool, true, false, ◌||◌, Option, List, [], ◌∷◌, ◌++◌, str_eq, if◌then◌else◌,
}
use radiobeacon.Common.Bytes.{concat, split}
use radiobeacon.Common.Result.{
  Result, ok, raised, value_error, type_error, key_error, or_raise, ◌>>=◌,
}
use radiobeacon.Json.{
  Json, Items, no_items, item, Fields, no_fields, field, array, object, null, lookup,
}

-- A list stands for its first element.
unfoldable mutual
  pub unwrap_collection : Json → Json
  unwrap_collection (array vs) = unwrap_items vs
  unwrap_collection v = v

  pub unwrap_items : Items → Json
  unwrap_items no_items = null
  unwrap_items (item v vs) = unwrap_collection v

-- One step of a path of a template.
descend : String → Json → Result Json
descend part (object fs) = or_raise value_error (lookup part fs)
descend part _ = raised value_error

resolve_parts : List String → Json → Result Json
unfolding descend
resolve_parts [] v = ok v
resolve_parts (part ∷ parts) v = do w ← descend part v; resolve_parts parts (unwrap_collection w)

unfoldable pub resolve_dotted_path : Json → String → Result Json
unfolding resolve_parts
resolve_dotted_path root path = resolve_parts (split b'.' path) (unwrap_collection root)

-- `value[part]`
subscript : String → Json → Result Json
subscript part (object fs) = or_raise key_error (lookup part fs)
subscript part _ = raised type_error

walk : List String → Json → Result Json
unfolding subscript
walk [] v = ok v
walk (part ∷ parts) v = do w ← subscript part v; walk parts w

-- The path to the items of a response.
unfoldable pub lookup_path : Json → String → Result Json
unfolding walk
lookup_path response path =
    let found = walk (split b'.' path) response in if str_eq path "" then ok response else found

is_object : Json → Bool
is_object (object fs) = true
is_object _ = false

has_object : Items → Bool
has_object no_items = false
has_object (item v vs) = is_object v || has_object vs

-- A list that is empty or has an object among its elements.
is_table : Items → Bool
is_table no_items = true
is_table vs = has_object vs

child : String → String → String
child prefix key = if str_eq prefix "" then key else concat prefix (concat "." key)

-- The lists that may hold a response's items, each with its path.
unfoldable mutual
  unfolding is_table has_object is_object child

  pub find_array_paths : Json → String → ℕ → List (String × Items)
  find_array_paths (array vs) prefix depth = if is_table vs then (prefix, vs) ∷ [] else []
  find_array_paths (object fs) prefix zero = []
  find_array_paths (object fs) prefix (suc depth) = find_in_fields fs prefix depth
  find_array_paths _ prefix depth = []

  pub find_in_fields : Fields → String → ℕ → List (String × Items)
  find_in_fields no_fields prefix depth = []
  find_in_fields (field key v fs) prefix depth =
      find_array_paths v (child prefix key) depth ++ find_in_fields fs prefix depth
