-- ===== src/Mapping/Template/Refused.antt =====
-- Raw items that no template, or no date format, can be applied to.
use radiobeacon.Common.{
  String, ◌≡◌, refl, true, false, Option, some, List, truthy, inl, inr, Option-cases,
}
use radiobeacon.Common.Result.{
  Exception, Result, ok, raised, value_error, type_error, attribute_error, ◌>>=◌,
}
use radiobeacon.Json.{Json, Fields, object, string, array, null, boolean, integer, real}
use radiobeacon.Mapping.Paths.Raises.{IsExpected, IsTame}
use radiobeacon.Mapping.Template.{
  Outside, Piece, FieldMapping, Context, get, lookup_bare_field, partition, dated, mapped,
  from_template, rendered, dotted_placeholder_paths, is_reserved, bare_placeholder_field, resolve,
}
use radiobeacon.Mapping.Template.Raises.{paths-IsTame}

-- A call that raises an exception that the caller of a mapping expects.
abbrev pub Fails {ℓ} : {A : Type ℓ} → Result A → Type ℓ
Fails r = (e : Exception) × (r ≡ raised e) × IsExpected e

checked-Fails :
    (r : Result (Unit {0}))
    → IsTame r
    → Fails {A = Option String} (r >>= λ checked. raised type_error)
checked-Fails (ok u) h = (type_error, refl, tt)
checked-Fails (raised e) h = (e, refl, h)

rendered-Fails :
    (o : Outside) (template : String) (pieces : List Piece) (extra : Context) (fs : Fields)
    → is_reserved fs ≡ true
    → Fails (rendered o template pieces extra (object fs))
unfolding rendered
rendered-Fails o template pieces extra fs reserved =
    rw reserved (checked-Fails _ (paths-IsTame (dotted_placeholder_paths pieces) _))

template-Fails :
    (o : Outside) (template : String) (extra : Context) (fs : Fields)
    → is_reserved fs ≡ true
    → Fails (from_template o template extra (object fs))
unfolding from_template
template-Fails o template extra fs reserved = elim (Option-cases (o.parse template)) [
  | inl malformed ↦ rw malformed (value_error, refl, tt)
  | inr (pieces, parsed) ↦ rw parsed (rendered-Fails o template pieces extra fs reserved)
]

pub resolve-reserved :
    (o : Outside) (fs : Fields) (extra : Context) (m : FieldMapping) (template : String)
    → is_reserved fs ≡ true
    → m.template ≡ some template
    → truthy m.field_date_format ≡ false
    → Fails (resolve o (object fs) extra m)
unfolding resolve mapped
resolve-reserved o fs extra m template reserved given undated =
    rw (given, undated) (template-Fails o template extra fs reserved)

abbrev pub IsNoObject : Json → Type 0
IsNoObject (object fs) = ⊥
IsNoObject _ = Unit

get-no_object :
    (name : String) (raw : Json) → IsNoObject raw → get name raw ≡ raised attribute_error
unfolding get
get-no_object name (object fs) h = absurd h
get-no_object name (array vs) h = refl
get-no_object name null h = refl
get-no_object name (boolean b) h = refl
get-no_object name (integer n) h = refl
get-no_object name (real s) h = refl
get-no_object name (string s) h = refl

pub resolve-no_object :
    (o : Outside) (raw : Json) (extra : Context) (m : FieldMapping) (template name : String)
    → IsNoObject raw
    → m.template ≡ some template
    → truthy m.field_date_format ≡ true
    → bare_placeholder_field template ≡ some name
    → partition name ≡ (name, "")
    → resolve o raw extra m ≡ raised attribute_error
unfolding resolve mapped dated lookup_bare_field
resolve-no_object o raw extra m template name no_object given by_date bare flat =
    rw (given, by_date, bare, flat) (rw (get-no_object name raw no_object) refl)
