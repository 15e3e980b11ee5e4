-- ===== src/Mapping/Paths/Raises.antt =====
-- What a path can raise, and how the exceptions of a chain are bounded.
use radiobeacon.Common.{String, Bool, true, false, Option, none, some, List, [], ◌∷◌, if◌then◌else◌}
use radiobeacon.Common.Bytes.{split}
use radiobeacon.Common.Result.{
  Exception, Result, ok, raised, value_error, type_error, key_error, or_raise, ◌>>=◌,
}
use radiobeacon.Json.{Json, object, null, string, array, boolean, integer, real, lookup}
use radiobeacon.Mapping.Paths.{descend, resolve_parts, resolve_dotted_path, unwrap_collection}

-- The exceptions that a mapping's caller expects.
abbrev pub IsExpected : Exception → Type 0
IsExpected key_error = Unit
IsExpected value_error = Unit
IsExpected type_error = Unit
IsExpected _ = ⊥

abbrev pub IsTame {ℓ} : {A : Type ℓ} → Result A → Type 0
IsTame (ok a) = Unit
IsTame (raised e) = IsExpected e

pub bind-IsTame {ℓ κ} :
    {A : Type ℓ} {B : Type κ} (r : Result A) (f : A → Result B)
    → IsTame r
    → ((a : A) → IsTame (f a))
    → IsTame (r >>= f)
bind-IsTame (ok a) f h k = k a
bind-IsTame (raised e) f h k = h

pub if-IsTame {ℓ} :
    {A : Type ℓ} (b : Bool) (x y : Result A) → IsTame x → IsTame y → IsTame (if b then x else y)
if-IsTame true x y h k = h
if-IsTame false x y h k = k

pub or_raise-IsTame {ℓ} :
    {A : Type ℓ} (e : Exception) (o : Option A) → IsExpected e → IsTame (or_raise e o)
or_raise-IsTame e none h = h
or_raise-IsTame e (some a) h = tt

descend-IsTame : (part : String) (v : Json) → IsTame (descend part v)
unfolding descend
descend-IsTame part (object fs) = or_raise-IsTame value_error (lookup part fs) tt
descend-IsTame part null = tt
descend-IsTame part (boolean b) = tt
descend-IsTame part (integer n) = tt
descend-IsTame part (real s) = tt
descend-IsTame part (string s) = tt
descend-IsTame part (array vs) = tt

parts-IsTame : (parts : List String) (v : Json) → IsTame (resolve_parts parts v)
unfolding resolve_parts
parts-IsTame [] v = tt
parts-IsTame (part ∷ parts) v =
    bind-IsTame (descend part v) _ (descend-IsTame part v)
      (λ w. parts-IsTame parts (unwrap_collection w))

pub resolve_dotted_path-IsTame :
    (root : Json) (path : String) → IsTame (resolve_dotted_path root path)
unfolding resolve_dotted_path
resolve_dotted_path-IsTame root path = parts-IsTame (split b'.' path) (unwrap_collection root)
