-- ===== src/Mapping/Paths/Found.antt =====
-- The paths that are found lead where they were found.
use Prim.Native.Char.{Char, code}
use radiobeacon.Common.{
  ℕ, zero, suc, String, ◌≡◌, refl, ap, ◌∙◌, arith, Bool, true, false, not, ◌&&◌, ◌||◌, some, List,
  [], ◌∷◌, ◌++◌, str_eq, eq_iff, All, inl, inr, Bool-cases, ◌==◌, if◌then◌else◌,
}
use radiobeacon.Common.Bytes.{concat, split, add_first}
use radiobeacon.Common.Bytes.Laws.{Lacks, split-Lacks}
use radiobeacon.Common.Result.{Result-cases, ok}
use radiobeacon.Json.{
  Json, Items, Fields, no_fields, field, array, object, lookup, has_key, null, boolean, integer,
  real, string,
}
use radiobeacon.Mapping.Paths.{
  subscript, walk, lookup_path, is_table, child, find_array_paths, find_in_fields,
}

has_dot : String → Bool
has_dot String.[] = false
has_dot (String.◌∷◌ c s) = code c == b'.' || has_dot s

is_name : String → Bool
is_name key = not (str_eq key "") && not (has_dot key)

-- An object whose keys are not empty, have no dots and are distinct, at each depth; a list is not
-- looked into.
unfoldable mutual
  unfolding is_name has_dot

  pub is_plain : Json → Bool
  is_plain (object fs) = is_plain_fields fs
  is_plain _ = true

  pub is_plain_fields : Fields → Bool
  is_plain_fields no_fields = true
  is_plain_fields (field key v fs) =
      (is_name key && not (has_key key fs)) && (is_plain v && is_plain_fields fs)

has_dot-Lacks : (s : String) → has_dot s ≡ false → Lacks b'.' s
unfolding has_dot
has_dot-Lacks String.[] h = tt
has_dot-Lacks (String.◌∷◌ c s) h = (ground (arith, h), has_dot-Lacks s (ground (arith, h)))

split-cons : (s : String) → (h : String) × (t : List String) × (split b'.' s ≡ h ∷ t)
unfolding split add_first
split-cons String.[] = ("", [], refl)
split-cons (String.◌∷◌ c s) =
    let (h, t, e) = split-cons s in
    elim (Bool-cases (code c == b'.')) [
      | inl dot ↦ ("", split b'.' s, rw dot refl)
      | inr other ↦ (String.◌∷◌ c h, t, rw (other, e) refl)
    ]

add_first-append :
    (s : String) (c : Char) (more : List String)
    → add_first c (split b'.' s ++ more) ≡ add_first c (split b'.' s) ++ more
unfolding add_first
add_first-append s c more = let (h, t, e) = split-cons s in rw e refl

split-child :
    (prefix key : String)
    → has_dot key ≡ false
    → split b'.' (concat prefix (concat "." key)) ≡ split b'.' prefix ++ key ∷ []
unfolding split add_first
split-child String.[] key h = ap (λ parts. "" ∷ parts) (split-Lacks b'.' key (has_dot-Lacks key h))
split-child (String.◌∷◌ c prefix) key h = elim (Bool-cases (code c == b'.')) [
  | inl dot ↦ rw dot (ap (λ parts. "" ∷ parts) (split-child prefix key h))
  | inr other ↦
      rw other (ap (add_first c) (split-child prefix key h) ∙ add_first-append prefix c (key ∷ []))
]

walk-last :
    (parts : List String) (key : String) (v w x : Json)
    → walk parts v ≡ ok w
    → subscript key w ≡ ok x
    → walk (parts ++ key ∷ []) v ≡ ok x
unfolding walk
walk-last [] key v w x h last = let same : v ≡ w = cc h in rw same (rw last refl)
walk-last (part ∷ parts) key v w x h last = elim (Result-cases (subscript part v)) [
  | inl (u, step) ↦ rw step (walk-last parts key u w x (rw step at h) last)
  | inr (e, stop) ↦ absurd (cc (rw stop at h))
]

not_empty : (c : Char) (s : String) → str_eq (String.◌∷◌ c s) "" ≡ false
not_empty c s = elim (Bool-cases (str_eq (String.◌∷◌ c s) "")) [
  | inl same ↦ absurd (cc ((eq_iff (String.◌∷◌ c s) "").0 same))
  | inr other ↦ other
]

concat-given : (prefix key : String) → str_eq (concat prefix (concat "." key)) "" ≡ false
concat-given String.[] key = not_empty _ _
concat-given (String.◌∷◌ c prefix) key = not_empty _ _

child-found :
    (root : Json) (prefix key : String) (fs : Fields) (v : Json)
    → lookup_path root prefix ≡ ok (object fs)
    → lookup key fs ≡ some v
    → str_eq key "" ≡ false
    → has_dot key ≡ false
    → lookup_path root (child prefix key) ≡ ok v
unfolding lookup_path subscript child
child-found root prefix key fs v here found given flat = elim (Bool-cases (str_eq prefix "")) [
  | inl top ↦
      let same : root ≡ object fs = cc (rw top at here) in
      rw (top, given, split-Lacks b'.' key (has_dot-Lacks key flat))
        (walk-last [] key root root v refl (rw (same, found) refl))
  | inr below ↦
      rw (below, concat-given prefix key, split-child prefix key flat)
        (walk-last (split b'.' prefix) key root (object fs) v (rw below at here) (rw found refl))
]

-- What holds of a path: it resolves to its list.
abbrev Leads : Json → String × Items → Type 0
Leads root found = lookup_path root found.0 ≡ ok (array found.1)

All-append {ℓ κ} :
    {A : Type ℓ} (P : A → Type κ) (xs ys : List A) → All P xs → All P ys → All P (xs ++ ys)
All-append P [] ys h k = k
All-append P (x ∷ xs) ys h k = (h.0, All-append P xs ys h.1 k)

table-Leads :
    (root : Json) (prefix : String) (vs : Items) (b : Bool)
    → lookup_path root prefix ≡ ok (array vs)
    → All (Leads root) (if b then (prefix, vs) ∷ [] else [])
table-Leads root prefix vs true here = (here, tt)
table-Leads root prefix vs false here = tt

-- The fields of an object that are still to be visited are found in it.
abbrev Within : Fields → Fields → Type 0
Within some_fields fs =
    (key : String) (v : Json) → lookup key some_fields ≡ some v → lookup key fs ≡ some v

lookup-has_key : (k : String) (fs : Fields) (w : Json) → lookup k fs ≡ some w → has_key k fs ≡ true
lookup-has_key k no_fields w h = absurd (cc h)
lookup-has_key k (field key v fs) w h = ground (arith, h, lookup-has_key k fs w)

Within-rest :
    (key : String) (v : Json) (rest fs : Fields)
    → has_key key rest ≡ false
    → Within (field key v rest) fs
    → Within rest fs
Within-rest key v rest fs fresh within k w found = within k w (elim (Bool-cases (str_eq key k)) [
  | inl same ↦
      let here : has_key key rest ≡ true =
        rw ((eq_iff key k).0 same) (lookup-has_key k rest w found) in
      absurd (ground (arith, here, fresh))
  | inr other ↦ rw other found
])

-- What is asked of the first field of a plain object.
record Plain (key : String) (v : Json) (rest : Fields) : Type 0 where
  given : str_eq key "" ≡ false
  flat : has_dot key ≡ false
  fresh : has_key key rest ≡ false
  value : is_plain v ≡ true
  others : is_plain_fields rest ≡ true

all_five :
    (a b c d e : Bool)
    → (((not a && not b) && not c) && (d && e)) ≡ true
    → (a ≡ false) × (b ≡ false) × (c ≡ false) × (d ≡ true) × (e ≡ true)
all_five a b c d e h =
    (ground (arith, h), ground (arith, h), ground (arith, h), ground (arith, h), ground (arith, h))

fields-Plain :
    (key : String) (v : Json) (rest : Fields)
    → is_plain_fields (field key v rest) ≡ true
    → Plain key v rest
unfolding is_plain is_name
fields-Plain key v rest h =
    let (given, flat, fresh, value, others) = all_five _ _ _ _ _ h in
    record { given = given; flat = flat; fresh = fresh; value = value; others = others }

mutual
  unfolding find_array_paths is_plain

  found-Leads :
      (v root : Json) (prefix : String) (depth : ℕ)
      → is_plain v ≡ true
      → lookup_path root prefix ≡ ok v
      → All (Leads root) (find_array_paths v prefix depth)
  found-Leads null root prefix depth plain here = tt
  found-Leads (boolean b) root prefix depth plain here = tt
  found-Leads (integer n) root prefix depth plain here = tt
  found-Leads (real s) root prefix depth plain here = tt
  found-Leads (string s) root prefix depth plain here = tt
  found-Leads (array vs) root prefix depth plain here =
      table-Leads root prefix vs (is_table vs) here
  found-Leads (object fs) root prefix zero plain here = tt
  found-Leads (object fs) root prefix (suc depth) plain here =
      fields-Leads fs fs root prefix depth plain here (λ key v found. found)

  fields-Leads :
      (some_fields fs : Fields) (root : Json) (prefix : String) (depth : ℕ)
      → is_plain_fields some_fields ≡ true
      → lookup_path root prefix ≡ ok (object fs)
      → Within some_fields fs
      → All (Leads root) (find_in_fields some_fields prefix depth)
  fields-Leads no_fields fs root prefix depth plain here within = tt
  fields-Leads (field key v rest) fs root prefix depth plain here within =
      let p = fields-Plain key v rest plain in
      All-append (Leads root) (find_array_paths v (child prefix key) depth) _
        (found-Leads v root (child prefix key) depth p.value (
          child-found root prefix key fs v here (within key v (rw ((eq_iff key key).1 refl) refl))
            p.given p.flat))
        (fields-Leads rest fs root prefix depth p.others here
          (Within-rest key v rest fs p.fresh within))

-- Each list that is offered for a response whose keys are not empty, have no dots and are distinct is
-- the one that its path resolves to when the response is fetched, whatever the depth searched.
pub find_array_paths-lookup_path :
    (response : Json) (depth : ℕ)
    → is_plain response ≡ true
    → All
        (λ (found : String × Items). lookup_path response found.0 ≡ ok (array found.1))
        (find_array_paths response "" depth)
unfolding lookup_path
find_array_paths-lookup_path response depth plain =
    found-Leads response response "" depth plain refl
