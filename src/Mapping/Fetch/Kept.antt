-- ===== src/Mapping/Fetch/Kept.antt =====
-- A response of objects becomes the items that can be mapped, newest first.
use radiobeacon.Common.{
  ℕ, ◌≤◌, String, ◌≡◌, refl, ap, ◌∙◌, arith, true, Option, none, some, List, [], ◌∷◌, leb, All, inl,
  inr, Bool-cases,
}
use radiobeacon.Common.Result.{
  Result, ok, raised, value_error, type_error, key_error, attribute_error, integrity_error,
  other_error, ◌>>=◌,
}
use radiobeacon.Json.{Json, Items, Fields, object, array, elements}
use radiobeacon.Database.{Db}
use radiobeacon.Mapping.Paths.{lookup_path}
use radiobeacon.Mapping.Paths.Raises.{IsTame, bind-IsTame}
use radiobeacon.Mapping.Template.{Outside, Context}
use radiobeacon.Mapping.Template.Raises.{IsTamed, resolve-IsTame}
use radiobeacon.Mapping.Fetch.{
  ApiAdapterConfig, AdapterItem, mapping_for, as_value_error, map_field, resolve_source_date_time,
  with_date, untimed, map_item, skipped_or, map_items, date_key, insert_newest, newest_first,
  raw_items, settled, source_template_context, fetched_items, fetch,
}

abbrev pub IsObject : Json → Type 0
IsObject (object fs) = Unit
IsObject _ = ⊥

as_value_error-IsTame {ℓ} : {A : Type ℓ} (r : Result A) → IsTame r → IsTame (as_value_error r)
unfolding as_value_error
as_value_error-IsTame (ok a) h = tt
as_value_error-IsTame (raised key_error) h = tt
as_value_error-IsTame (raised value_error) h = tt
as_value_error-IsTame (raised type_error) h = tt
as_value_error-IsTame (raised attribute_error) h = h
as_value_error-IsTame (raised integrity_error) h = h
as_value_error-IsTame (raised other_error) h = h

-- The date of an item raises KeyError, ValueError or TypeError, if anything: its year in UTC is one of 1
-- to 9999.
abbrev pub IsTimed : Outside → Context → ApiAdapterConfig → Json → Type 0
IsTimed o extra cfg raw = IsTame (resolve_source_date_time o raw extra cfg)

with_date-IsTame :
    (raw : Json) (i : AdapterItem) (id : Option String) (date : Result (Option ℕ))
    → IsTame date
    → IsTame (with_date raw i id date)
unfolding with_date
with_date-IsTame raw i none date h = tt
with_date-IsTame raw i (some id) date h = bind-IsTame date _ h (λ t. tt)

module _ (o : Outside) (extra : Context) (cfg : ApiAdapterConfig) (tamed : IsTamed o) where
  field-IsTame : (fs : Fields) (name : String) → IsTame (map_field o (object fs) extra cfg name)
  unfolding map_field
  field-IsTame fs name =
      as_value_error-IsTame _ (resolve-IsTame o fs extra (mapping_for name cfg) tamed)

  pub map_item-IsTame :
      (fs : Fields) → IsTimed o extra cfg (object fs) → IsTame (map_item o extra cfg (object fs))
  unfolding map_item
  map_item-IsTame fs timed = bind-IsTame _ _ (field-IsTame fs "id") (λ id.
      bind-IsTame _ _ (field-IsTame fs "title") (λ title.
        bind-IsTame _ _ (field-IsTame fs "contents") (λ contents.
          bind-IsTame _ _ (field-IsTame fs "url") (λ url.
            bind-IsTame _ _ (field-IsTame fs "event_key") (λ event_key.
              bind-IsTame _ _ (field-IsTame fs "type") (λ type.
                bind-IsTame _ _ (field-IsTame fs "subtype") (λ subtype.
                  with_date-IsTame (object fs)
                    (untimed (object fs) id title contents url event_key type subtype) id _
                    timed)))))))

-- The items of a response that can be mapped, in its order.
add_mapped : Result AdapterItem → List AdapterItem → List AdapterItem
add_mapped (ok i) is = i ∷ is
add_mapped (raised e) is = is

unfoldable pub mappable : Outside → Context → ApiAdapterConfig → List Json → List AdapterItem
unfolding add_mapped
mappable o extra cfg [] = []
mappable o extra cfg (raw ∷ raws) =
    add_mapped (map_item o extra cfg raw) (mappable o extra cfg raws)

-- An item with an id.
abbrev pub HasId : AdapterItem → Type 0
HasId i = (id : String) × (i.id ≡ some id)

-- What a mapping gives has an id, if it gives anything.
Identified : Result AdapterItem → Type 0
Identified (ok i) = HasId i
Identified (raised e) = Unit

bind-Identified :
    {A : Type 0} (r : Result A) (k : A → Result AdapterItem)
    → ((a : A) → Identified (k a))
    → Identified (r >>= k)
unfolding Identified
bind-Identified (ok a) k h = h a
bind-Identified (raised e) k h = tt

with_date-Identified :
    (raw : Json) (i : AdapterItem) (id : Option String) (date : Result (Option ℕ))
    → i.id ≡ id
    → Identified (with_date raw i id date)
unfolding with_date Identified
with_date-Identified raw i none date e = tt
with_date-Identified raw i (some id) date e = bind-Identified date _ (λ t. (id, e))

map_item-Identified :
    (o : Outside) (extra : Context) (cfg : ApiAdapterConfig) (raw : Json)
    → Identified (map_item o extra cfg raw)
unfolding map_item
map_item-Identified o extra cfg raw =
    let field = map_field o raw extra cfg in
    bind-Identified (field "id") _ (λ id. bind-Identified (field "title") _ (λ title.
      bind-Identified (field "contents") _ (λ contents. bind-Identified (field "url") _ (λ url.
        bind-Identified (field "event_key") _ (λ event_key.
          bind-Identified (field "type") _ (λ type. bind-Identified (field "subtype") _ (λ subtype.
            with_date-Identified raw (untimed raw id title contents url event_key type subtype) id _
              refl)))))))

add_mapped-HasId :
    (r : Result AdapterItem) (is : List AdapterItem)
    → Identified r
    → All HasId is
    → All HasId (add_mapped r is)
unfolding add_mapped Identified
add_mapped-HasId (ok i) is h all = (h, all)
add_mapped-HasId (raised e) is h all = all

mappable-HasId :
    (o : Outside) (extra : Context) (cfg : ApiAdapterConfig) (raws : List Json)
    → All HasId (mappable o extra cfg raws)
unfolding mappable
mappable-HasId o extra cfg [] = tt
mappable-HasId o extra cfg (raw ∷ raws) =
    add_mapped-HasId (map_item o extra cfg raw) _ (map_item-Identified o extra cfg raw)
      (mappable-HasId o extra cfg raws)

skipped-add :
    (r : Result AdapterItem) (is : List AdapterItem)
    → IsTame r
    → skipped_or r (ok is) ≡ ok (add_mapped r is)
unfolding skipped_or add_mapped
skipped-add (ok i) is h = refl
skipped-add (raised key_error) is h = refl
skipped-add (raised value_error) is h = refl
skipped-add (raised type_error) is h = refl
skipped-add (raised attribute_error) is h = absurd h
skipped-add (raised integrity_error) is h = absurd h
skipped-add (raised other_error) is h = absurd h

pub map_items-mappable :
    (o : Outside) (extra : Context) (cfg : ApiAdapterConfig) (raws : List Json)
    → IsTamed o
    → All (IsTimed o extra cfg) raws
    → All IsObject raws
    → map_items o extra cfg raws ≡ ok (mappable o extra cfg raws)
unfolding map_items mappable
map_items-mappable o extra cfg [] tamed timed objects = refl
map_items-mappable o extra cfg (object fs ∷ raws) tamed timed objects =
    ap (skipped_or (map_item o extra cfg (object fs)))
      (map_items-mappable o extra cfg raws tamed timed.1 objects.1)
    ∙ skipped-add _ _ (map_item-IsTame o extra cfg tamed fs timed.0)
map_items-mappable o extra cfg (_ ∷ raws) tamed timed objects = absurd objects.0

-- No item is followed by a newer one.
abbrev pub IsNewestFirst : List AdapterItem → Type 0
IsNewestFirst [] = Unit
IsNewestFirst (i ∷ is) = All (λ j. date_key j ≤ date_key i) is × IsNewestFirst is

All-insert {κ} :
    (P : AdapterItem → Type κ) (i : AdapterItem) (js : List AdapterItem)
    → P i
    → All P js
    → All P (insert_newest i js)
unfolding insert_newest
All-insert P i [] h a = (h, tt)
All-insert P i (j ∷ js) h a = elim (Bool-cases (leb (date_key j) (date_key i))) [
  | inl before ↦ rw before (h, a)
  | inr after ↦ rw after (a.0, All-insert P i js h a.1)
]

All-weaken :
    (a b : ℕ) (js : List AdapterItem)
    → a ≤ b
    → All (λ j. date_key j ≤ a) js
    → All (λ j. date_key j ≤ b) js
All-weaken a b [] h all = tt
All-weaken a b (j ∷ js) h all = (omega (arith, h, all.0), All-weaken a b js h all.1)

insert-IsNewestFirst :
    (i : AdapterItem) (js : List AdapterItem)
    → IsNewestFirst js
    → IsNewestFirst (insert_newest i js)
unfolding insert_newest
insert-IsNewestFirst i [] s = (tt, tt)
insert-IsNewestFirst i (j ∷ js) s = elim (Bool-cases (leb (date_key j) (date_key i))) [
  | inl before ↦
      let le : date_key j ≤ date_key i = ground (arith, before) in
      rw before ((le, All-weaken (date_key j) (date_key i) js le s.0), s)
  | inr after ↦ rw after (
    All-insert (λ k. date_key k ≤ date_key j) i js (ground (arith, after)) s.0,
    insert-IsNewestFirst i js s.1,
  )
]

newest_first-IsNewestFirst : (is : List AdapterItem) → IsNewestFirst (newest_first is)
unfolding newest_first
newest_first-IsNewestFirst [] = tt
newest_first-IsNewestFirst (i ∷ is) =
    insert-IsNewestFirst i (newest_first is) (newest_first-IsNewestFirst is)

newest_first-HasId : (is : List AdapterItem) → All HasId is → All HasId (newest_first is)
unfolding newest_first
newest_first-HasId [] h = tt
newest_first-HasId (i ∷ is) h = All-insert HasId i (newest_first is) h.0 (newest_first-HasId is h.1)

-- When the path of a response leads to a list of objects, the reading is a success with the items that
-- can be mapped and no others, one that cannot be mapped costing no other item; no item stands behind
-- an older one, and each has an id; when formatting a value raises KeyError, ValueError or TypeError, if
-- anything, and so the date of an item.
pub fetch-mappable :
    (o : Outside) (cfg : ApiAdapterConfig) (source date datetime : String) (db : Db) (body : Json)
    (vs : Items)
    → IsTamed o
    → All (IsTimed o (source_template_context o cfg source body date datetime db) cfg) (elements vs)
    → lookup_path body cfg.items_path ≡ ok (array vs)
    → All IsObject (elements vs)
    → let items = newest_first (
        mappable o
          (source_template_context o cfg source body date datetime db)
          cfg
          (elements vs)) in
      (fetch o cfg source date datetime db (ok body)
        ≡ ok (record { source = source; is_ok = true; items = items }))
      × IsNewestFirst items
      × All HasId items
unfolding fetch fetched_items settled raw_items
fetch-mappable o cfg source date datetime db body vs tamed timed found objects = (
  rw (found) (
      rw
        (map_items-mappable o (source_template_context o cfg source body date datetime db) cfg
          (elements vs) tamed timed objects)
        refl),
  newest_first-IsNewestFirst _,
  newest_first-HasId _ (mappable-HasId o _ cfg (elements vs)),
)
