-- ===== src/Registry/Map.antt =====
-- The table of adapter instances as a map from sources to rows.
use mathlib.Core.Path.{fun_ext}
use radiobeacon.Common.{
  ℕ, String, ◌≡◌, refl, ap, ◌∙◌, arith, Bool, false, Option, none, some, List, [], ◌∷◌, ◌++◌, inl,
  inr, Bool-cases, str_eq, eq_iff, exists, find_row, update, delete, if◌then◌else◌,
}
use radiobeacon.Database.{Db, AdapterRow}
use radiobeacon.Registry.{
  is_adapter, get_adapter_instance, set_adapter_instance, set_adapter_instance_enabled,
  delete_adapter_instance,
}

-- What a user of the table sees of it.
abbrev pub View : Type 0
View = String → Option AdapterRow

abbrev pub view : Db → View
view db source = get_adapter_instance source db

pub data Edit : Type 0 where
  set : ℕ → String → String → String → Bool → Option String → String → Edit
  switch : ℕ → String → Bool → String → Edit
  remove : ℕ → String → String → Edit

-- The edits as the code makes them.
pub edit : Edit → Db → Db
edit (set now source adapter_type config enabled policy actor) db =
    set_adapter_instance now source adapter_type config enabled policy actor db
edit (switch now source enabled actor) db =
    (set_adapter_instance_enabled now source enabled actor db).0
edit (remove now source actor) db = (delete_adapter_instance now source actor db).0

unfoldable pub edit_all : List Edit → Db → Db
unfolding edit
edit_all [] db = db
edit_all (e ∷ edits) db = edit_all edits (edit e db)

switched : ℕ → Bool → String → Option AdapterRow → Option AdapterRow
switched now enabled actor none = none
switched now enabled actor (some a) =
    some (record a { enabled = enabled; updated_at = now; updated_by = some actor })

-- The edits as updates of a map at one key.
unfoldable pub change : Edit → View → View
unfolding switched
change (set now source adapter_type config enabled policy actor) v j =
    if str_eq source j
    then some (record {
      source = source;
      adapter_type = adapter_type;
      enabled = enabled;
      policy = policy;
      config = config;
      updated_at = now;
      updated_by = some actor;
    })
    else v j
change (switch now source enabled actor) v j =
    if str_eq source j then switched now enabled actor (v j) else v j
change (remove now source actor) v j = if str_eq source j then none else v j

unfoldable pub change_all : List Edit → View → View
unfolding change
change_all [] v = v
change_all (e ∷ edits) v = change_all edits (change e v)

find-update_row :
    (j : String) (row : AdapterRow) (rows : List AdapterRow)
    → find_row (is_adapter j) (update (is_adapter row.source) (λ a. row) rows) ≡ (
        if exists (is_adapter row.source) rows
        then if str_eq row.source j then some row else find_row (is_adapter j) rows
        else find_row (is_adapter j) rows)
find-update_row j row [] = refl
find-update_row j row (a ∷ rows) = ground (
  arith,
  find-update_row j row rows,
  eq_iff a.source row.source,
  eq_iff a.source j,
  eq_iff row.source j,
)

find-append :
    (j : String) (row : AdapterRow) (rows : List AdapterRow)
    → exists (is_adapter row.source) rows ≡ false
    → find_row (is_adapter j) (rows ++ row ∷ [])
      ≡ (if str_eq row.source j then some row else find_row (is_adapter j) rows)
find-append j row [] h = refl
find-append j row (a ∷ rows) h = ground (
  arith,
  h,
  find-append j row rows,
  eq_iff a.source row.source,
  eq_iff a.source j,
  eq_iff row.source j,
)

find-delete :
    (source j : String) (rows : List AdapterRow)
    → find_row (is_adapter j) (delete (is_adapter source) rows)
      ≡ (if str_eq source j then none else find_row (is_adapter j) rows)
find-delete source j [] = ground arith
find-delete source j (a ∷ rows) =
    ground
      (arith, find-delete source j rows, eq_iff a.source source, eq_iff a.source j, eq_iff source j)

find-switched :
    (now : ℕ) (source j : String) (enabled : Bool) (actor : String) (rows : List AdapterRow)
    → find_row (is_adapter j) (
        update
          (is_adapter source)
          (λ a. record a { enabled = enabled; updated_at = now; updated_by = some actor })
          rows)
      ≡ (if str_eq source j
          then switched now enabled actor (find_row (is_adapter j) rows)
          else find_row (is_adapter j) rows)
unfolding switched
find-switched now source j enabled actor [] = ground arith
find-switched now source j enabled actor (a ∷ rows) = ground (
  arith,
  find-switched now source j enabled actor rows,
  eq_iff a.source source,
  eq_iff a.source j,
  eq_iff source j,
)

switched-rows :
    (now : ℕ) (source : String) (enabled : Bool) (actor : String) (db : Db)
    → (set_adapter_instance_enabled now source enabled actor db).0.adapter_instances
      ≡ update
          (is_adapter source)
          (λ a. record a { enabled = enabled; updated_at = now; updated_by = some actor })
          db.adapter_instances
unfolding set_adapter_instance_enabled
switched-rows now source enabled actor db = ground arith

removed-rows :
    (now : ℕ) (source actor : String) (db : Db)
    → (delete_adapter_instance now source actor db).0.adapter_instances
      ≡ delete (is_adapter source) db.adapter_instances
unfolding delete_adapter_instance
removed-rows now source actor db = ground arith

view-edit : (e : Edit) (db : Db) (j : String) → view (edit e db) j ≡ change e (view db) j
unfolding get_adapter_instance set_adapter_instance edit change
view-edit (set now source adapter_type config enabled policy actor) db j =
    elim (Bool-cases (exists (is_adapter source) db.adapter_instances)) [
      | inl old ↦ rw old (find-update_row j row db.adapter_instances ∙ rw old refl)
      | inr fresh ↦ rw fresh (find-append j row db.adapter_instances fresh)
    ]
  where
    row : AdapterRow
    row = record {
      source = source;
      adapter_type = adapter_type;
      enabled = enabled;
      policy = policy;
      config = config;
      updated_at = now;
      updated_by = some actor;
    }
view-edit (switch now source enabled actor) db j =
    ap (find_row (is_adapter j)) (switched-rows now source enabled actor db)
    ∙ find-switched now source j enabled actor db.adapter_instances
view-edit (remove now source actor) db j =
    ap (find_row (is_adapter j)) (removed-rows now source actor db)
    ∙ find-delete source j db.adapter_instances

pub get-set :
    (now : ℕ) (source adapter_type config : String) (enabled : Bool) (policy : Option String)
    (actor : String) (db : Db) (j : String)
    → get_adapter_instance j
        (set_adapter_instance now source adapter_type config enabled policy actor db)
      ≡ change (set now source adapter_type config enabled policy actor) (view db) j
unfolding edit
get-set now source adapter_type config enabled policy actor db j =
    view-edit (set now source adapter_type config enabled policy actor) db j

-- Whatever edits are made, `get_adapter_instance` answers for every source as a map does to which the
-- edits are made one by one: a `set` replaces the row of its source whole, a switch keeps all of it
-- but the flag and who changed it when, a deletion forgets it, and no edit touches another source.
pub edit_all-change :
    (edits : List Edit) (db : Db) → view (edit_all edits db) ≡ change_all edits (view db)
unfolding edit_all change_all
edit_all-change [] db = refl
edit_all-change (e ∷ edits) db =
    edit_all-change edits (edit e db) ∙ ap (change_all edits) (fun_ext (view-edit e db))
