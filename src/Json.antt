-- ===== src/Json.antt =====
-- What `json.loads` returns. An object has each key once; a float is its text.
use radiobeacon.Common.{
  String, Bool, true, false, Option, none, some, List, [], ◌∷◌, ℤ, str_eq, if◌then◌else◌,
}

mutual
  pub data Json : Type 0 where
    null : Json
    boolean : Bool → Json
    integer : ℤ → Json
    real : String → Json
    string : String → Json
    array : Items → Json
    object : Fields → Json

  pub data Items : Type 0 where
    no_items : Items
    item : Json → Items → Items

  pub data Fields : Type 0 where
    no_fields : Fields
    field : String → Json → Fields → Fields

-- `d.get(key)`, with none for a key that is not there.
abbrev pub lookup : String → Fields → Option Json
lookup key no_fields = none
lookup key (field k v fs) = let rest = lookup key fs in if str_eq k key then some v else rest

abbrev pub has_key : String → Fields → Bool
has_key key no_fields = false
has_key key (field k v fs) = let rest = has_key key fs in if str_eq k key then true else rest

abbrev pub elements : Items → List Json
elements no_items = []
elements (item v vs) = v ∷ elements vs

abbrev pub entries : Fields → List (String × Json)
entries no_fields = []
entries (field k v fs) = (k, v) ∷ entries fs
