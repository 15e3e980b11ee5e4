-- ===== src/Mapping/Fetch/Lost.antt =====
-- Two responses that yield nothing.
use radiobeacon.Common.{
  String, ◌≡◌, refl, ap, ◌∙◌, true, false, some, List, [], ◌∷◌, ◌++◌, truthy, All,
}
use radiobeacon.Common.Result.{
  Result, ok, raised, value_error, type_error, key_error, attribute_error, integrity_error,
  other_error,
}
use radiobeacon.Json.{Json, Items, Fields, object, array, elements}
use radiobeacon.Database.{Db}
use radiobeacon.Mapping.Paths.{lookup_path}
use radiobeacon.Mapping.Paths.Raises.{IsTame}
use radiobeacon.Mapping.Template.{
  Outside, Context, FieldMapping, partition, is_reserved, bare_placeholder_field,
}
use radiobeacon.Mapping.Template.Raises.{IsTamed}
use radiobeacon.Mapping.Template.Refused.{Fails, resolve-reserved, IsNoObject, resolve-no_object}
use radiobeacon.Mapping.Fetch.{
  ApiAdapterConfig, AdapterItem, mapping_for, as_value_error, map_field, map_item, skipped_or,
  map_items, newest_first, raw_items, settled, source_template_context, fetched_items, fetch,
}
use radiobeacon.Mapping.Fetch.Kept.{IsObject, IsTimed, map_item-IsTame}

-- An object with a field that `safe_format` has a parameter of the same name for.
abbrev pub IsReserved : Json → Type 0
IsReserved (object fs) = is_reserved fs ≡ true
IsReserved _ = ⊥

-- An id that is a template alone.
pub record IsTemplate (m : FieldMapping) : Type 0 where
  pub text : String
  pub given : m.template ≡ some text
  pub undated : truthy m.field_date_format ≡ false

-- An id that is one field, read with a date format.
pub record IsDated (m : FieldMapping) : Type 0 where
  pub text : String
  pub name : String
  pub given : m.template ≡ some text
  pub by_date : truthy m.field_date_format ≡ true
  pub bare : bare_placeholder_field text ≡ some name
  pub flat : partition name ≡ (name, "")

expected-value_error {ℓ} :
    {A : Type ℓ} (r : Result A) → Fails r → as_value_error r ≡ raised value_error
unfolding as_value_error
expected-value_error r (key_error, e, h) = rw e refl
expected-value_error r (value_error, e, h) = rw e refl
expected-value_error r (type_error, e, h) = rw e refl
expected-value_error r (attribute_error, e, h) = absurd h
expected-value_error r (integrity_error, e, h) = absurd h
expected-value_error r (other_error, e, h) = absurd h

map_item-reserved :
    (o : Outside) (extra : Context) (cfg : ApiAdapterConfig) (fs : Fields)
    → IsTemplate (mapping_for "id" cfg)
    → is_reserved fs ≡ true
    → map_item o extra cfg (object fs) ≡ raised value_error
unfolding map_item map_field
map_item-reserved o extra cfg fs id reserved =
    rw
      (expected-value_error _
        (resolve-reserved o fs extra (mapping_for "id" cfg) id.text reserved id.given id.undated))
      refl

map_items-reserved :
    (o : Outside) (extra : Context) (cfg : ApiAdapterConfig) (raws : List Json)
    → IsTemplate (mapping_for "id" cfg)
    → All IsReserved raws
    → map_items o extra cfg raws ≡ ok []
unfolding map_items skipped_or
map_items-reserved o extra cfg [] id reserved = refl
map_items-reserved o extra cfg (object fs ∷ raws) id reserved =
    rw (map_item-reserved o extra cfg fs id reserved.0)
      (map_items-reserved o extra cfg raws id reserved.1)
map_items-reserved o extra cfg (_ ∷ raws) id reserved = absurd reserved.0

-- When each object of a response has a field that is called "template" or "context", and the id is
-- mapped by a template without a date format, the reading is a success that holds no item at all,
-- whatever the template names.
pub fetch-reserved :
    (o : Outside) (cfg : ApiAdapterConfig) (source date datetime : String) (db : Db) (body : Json)
    (vs : Items)
    → IsTemplate (mapping_for "id" cfg)
    → lookup_path body cfg.items_path ≡ ok (array vs)
    → All IsReserved (elements vs)
    → fetch o cfg source date datetime db (ok body)
      ≡ ok (record { source = source; is_ok = true; items = [] })
unfolding fetch fetched_items settled raw_items newest_first
fetch-reserved o cfg source date datetime db body vs id found reserved = rw found (
    rw
      (map_items-reserved o (source_template_context o cfg source body date datetime db) cfg
        (elements vs) id reserved)
      refl)

map_item-no_object :
    (o : Outside) (extra : Context) (cfg : ApiAdapterConfig) (raw : Json)
    → IsDated (mapping_for "id" cfg)
    → IsNoObject raw
    → map_item o extra cfg raw ≡ raised attribute_error
unfolding map_item map_field as_value_error
map_item-no_object o extra cfg raw id no_object =
    rw
      (resolve-no_object o raw extra (mapping_for "id" cfg) id.text id.name no_object id.given
        id.by_date id.bare id.flat)
      refl

skipped-attribute_error :
    (r : Result AdapterItem)
    → IsTame r
    → skipped_or r (raised attribute_error) ≡ raised attribute_error
unfolding skipped_or
skipped-attribute_error (ok i) h = refl
skipped-attribute_error (raised key_error) h = refl
skipped-attribute_error (raised value_error) h = refl
skipped-attribute_error (raised type_error) h = refl
skipped-attribute_error (raised attribute_error) h = absurd h
skipped-attribute_error (raised integrity_error) h = absurd h
skipped-attribute_error (raised other_error) h = absurd h

map_items-no_object :
    (o : Outside) (extra : Context) (cfg : ApiAdapterConfig) (objects : List Json) (raw : Json)
    (raws : List Json)
    → IsTamed o
    → All (IsTimed o extra cfg) objects
    → IsDated (mapping_for "id" cfg)
    → All IsObject objects
    → IsNoObject raw
    → map_items o extra cfg (objects ++ raw ∷ raws) ≡ raised attribute_error
unfolding map_items skipped_or
map_items-no_object o extra cfg [] raw raws tamed timed id all no_object =
    rw (map_item-no_object o extra cfg raw id no_object) refl
map_items-no_object o extra cfg (object fs ∷ objects) raw raws tamed timed id all no_object =
    ap (skipped_or (map_item o extra cfg (object fs)))
      (map_items-no_object o extra cfg objects raw raws tamed timed.1 id all.1 no_object)
    ∙ skipped-attribute_error _ (map_item-IsTame o extra cfg tamed fs timed.0)
map_items-no_object o extra cfg (_ ∷ objects) raw raws tamed timed id all no_object = absurd all.0

-- When a response's list holds one element that is no object, and the id is one field read with a date
-- format, the fetch raises AttributeError: the objects of the list are lost with it; when formatting a
-- value raises KeyError, ValueError or TypeError, if anything, and so the date of an object.
pub fetch-no_object :
    (o : Outside) (cfg : ApiAdapterConfig) (source date datetime : String) (db : Db) (body : Json)
    (vs : Items) (objects : List Json) (raw : Json) (raws : List Json)
    → IsTamed o
    → All (IsTimed o (source_template_context o cfg source body date datetime db) cfg) objects
    → IsDated (mapping_for "id" cfg)
    → lookup_path body cfg.items_path ≡ ok (array vs)
    → elements vs ≡ objects ++ raw ∷ raws
    → All IsObject objects
    → IsNoObject raw
    → fetch o cfg source date datetime db (ok body) ≡ raised attribute_error
unfolding fetch fetched_items settled raw_items
fetch-no_object o cfg source date datetime db body vs objects raw raws tamed timed id found split
      all no_object =
    rw (found, split)
      (rw
        (map_items-no_object o (source_template_context o cfg source body date datetime db) cfg
          objects raw raws tamed timed id all no_object)
        refl)
