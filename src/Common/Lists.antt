-- ===== src/Common/Lists.antt =====
-- Tables as lists of rows: WHERE, DELETE, ORDER BY and the lemmas on them.
use Prim.Native.Nat.{ℕ, zero, suc, ◌+◌, ◌≤◌}
use mathlib.Core.Path.{◌≡◌, refl, ◌∙◌}
use mathlib.Core.Bool.{Bool, true, false, ◌||◌}
use mathlib.Core.Option.{Option, none, some}
use mathlib.Core.List.{List, [], ◌∷◌, ◌++◌}
use mathlib.Core.Logic.{inl, inr}
use native.Mathlib.Omega.{arith}
use radiobeacon.Common.Tests.{leb, if◌then◌else◌, Bool-cases}

module _ {ℓ} {A : Type ℓ} where
  abbrev pub length : List A → ℕ
  length [] = 0
  length (x ∷ xs) = suc (length xs)

  abbrev pub take : ℕ → List A → List A
  take zero xs = []
  take (suc n) [] = []
  take (suc n) (x ∷ xs) = x ∷ take n xs

  -- SELECT … WHERE p
  abbrev pub select : (A → Bool) → List A → List A
  select p [] = []
  select p (x ∷ xs) = let rest = select p xs in if p x then x ∷ rest else rest

  -- DELETE … WHERE p: the rows that are left.
  abbrev pub delete : (A → Bool) → List A → List A
  delete p [] = []
  delete p (x ∷ xs) = let rest = delete p xs in if p x then rest else x ∷ rest

  -- Whether SELECT 1 … WHERE p finds a row.
  abbrev pub exists : (A → Bool) → List A → Bool
  exists p [] = false
  exists p (x ∷ xs) = p x || exists p xs

  -- SELECT … WHERE p, fetchone
  abbrev pub find_row : (A → Bool) → List A → Option A
  find_row p [] = none
  find_row p (x ∷ xs) = let rest = find_row p xs in if p x then some x else rest

  -- UPDATE … SET f WHERE p
  abbrev pub update : (A → Bool) → (A → A) → List A → List A
  update p f [] = []
  update p f (x ∷ xs) = (if p x then f x else x) ∷ update p f xs

  -- Insertion after the rows whose key is not larger.
  abbrev pub insert_by : (A → ℕ) → A → List A → List A
  insert_by key x [] = x ∷ []
  insert_by key x (y ∷ ys) =
      let rest = insert_by key x ys in if leb (key x) (key y) then x ∷ y ∷ ys else y ∷ rest

  -- ORDER BY key, rowid: a stable sort of the rows in rowid order.
  abbrev pub order_by : (A → ℕ) → List A → List A
  order_by key [] = []
  order_by key (x ∷ xs) = insert_by key x (order_by key xs)

  abbrev pub All {κ} : (A → Type κ) → List A → Type κ
  All P [] = Unit
  All P (x ∷ xs) = P x × All P xs

module _ {ℓ} {A : Type ℓ} where
  pub length-append : (xs ys : List A) → length (xs ++ ys) ≡ length xs + length ys
  length-append [] ys = omega arith
  length-append (x ∷ xs) ys = omega (arith, length-append xs ys)

  pub length-take-le : (n : ℕ) (xs : List A) → length (take n xs) ≤ n
  length-take-le zero xs = omega arith
  length-take-le (suc n) [] = omega arith
  length-take-le (suc n) (x ∷ xs) = omega (arith, length-take-le n xs)

  -- What a DELETE takes and what it leaves make up the table.
  pub length-select-delete :
      (p : A → Bool) (xs : List A) → length (select p xs) + length (delete p xs) ≡ length xs
  length-select-delete p [] = omega arith
  length-select-delete p (x ∷ xs) = ground (arith, length-select-delete p xs)

  pub exists-delete : (p : A → Bool) (xs : List A) → exists p (delete p xs) ≡ false
  exists-delete p [] = refl
  exists-delete p (x ∷ xs) = ground (arith, exists-delete p xs)

  pub exists-append :
      (p : A → Bool) (xs ys : List A) → exists p (xs ++ ys) ≡ (exists p xs || exists p ys)
  exists-append p [] ys = refl
  exists-append p (x ∷ xs) ys = ground (arith, exists-append p xs ys)

  -- A row that no DELETE condition holds of stays findable.
  pub find_row-delete :
      (p q : A → Bool) (xs : List A)
      → ((x : A) → q x ≡ true → p x ≡ false)
      → find_row q (delete p xs) ≡ find_row q xs
  find_row-delete p q [] h = refl
  find_row-delete p q (x ∷ xs) h = ground (arith, h x, find_row-delete p q xs h)

  pub exists-find_row :
      (p : A → Bool) (xs : List A) {x : A} → find_row p xs ≡ some x → exists p xs ≡ true
  exists-find_row p [] h = cc
  exists-find_row p (x ∷ xs) {x = y} h = ground (arith, exists-find_row p xs {x = y})

  pub All-delete {κ} :
      (P : A → Type κ) (p : A → Bool) (xs : List A) → All P xs → All P (delete p xs)
  All-delete P p [] h = tt
  All-delete P p (x ∷ xs) h = elim (Bool-cases (p x)) [
    | inl gone ↦ rw gone (All-delete P p xs h.1)
    | inr kept ↦ rw kept (h.0, All-delete P p xs h.1)
  ]

  pub select-congr :
      (p q : A → Bool) (xs : List A) → ((x : A) → p x ≡ q x) → select p xs ≡ select q xs
  select-congr p q [] h = refl
  select-congr p q (x ∷ xs) h = rw (h x, select-congr p q xs h)

-- Tables with a primary key: no two rows are the same by `same`.
module _ {ℓ} {A : Type ℓ} (same : A → A → Bool) where
  abbrev pub Distinct : List A → Type 0
  Distinct [] = Unit
  Distinct (x ∷ xs) = (exists (same x) xs ≡ false) × Distinct xs

  not-exists-delete :
      (q p : A → Bool) (xs : List A) → exists q xs ≡ false → exists q (delete p xs) ≡ false
  not-exists-delete q p [] h = refl
  not-exists-delete q p (x ∷ xs) h = ground (arith, not-exists-delete q p xs)

  pub Distinct-delete : (p : A → Bool) (xs : List A) → Distinct xs → Distinct (delete p xs)
  Distinct-delete p [] d = tt
  Distinct-delete p (x ∷ xs) d = elim (Bool-cases (p x)) [
    | inl gone ↦ rw gone (Distinct-delete p xs d.1)
    | inr kept ↦ rw kept (not-exists-delete (same x) p xs d.0, Distinct-delete p xs d.1)
  ]

  pub Distinct-append_one :
      (xs : List A) (y : A)
      → exists (λ x. same x y) xs ≡ false
      → Distinct xs
      → Distinct (xs ++ y ∷ [])
  Distinct-append_one [] y h d = (refl, tt)
  Distinct-append_one (x ∷ xs) y h d = (
    ground (arith, exists-append (same x) xs (y ∷ [])),
    Distinct-append_one xs y (ground arith) d.1,
  )

  exists-update :
      (x : A) (p : A → Bool) (f : A → A) (xs : List A)
      → ((y : A) → same x (f y) ≡ same x y)
      → exists (same x) (update p f xs) ≡ exists (same x) xs
  exists-update x p f [] h = refl
  exists-update x p f (y ∷ ys) h = ground (arith, h y, exists-update x p f ys h)

  -- An UPDATE that leaves the key alone.
  pub Distinct-update :
      (p : A → Bool) (f : A → A) (xs : List A)
      → ((x y : A) → same x (f y) ≡ same x y)
      → ((x y : A) → same (f x) y ≡ same x y)
      → Distinct xs
      → Distinct (update p f xs)
  Distinct-update p f [] right left d = tt
  Distinct-update p f (x ∷ xs) right left d = elim (Bool-cases (p x)) [
    | inl hit ↦ rw hit (
      exists-update (f x) p f xs (right (f x)) ∙ exists_same (f x) x xs (left x) ∙ d.0,
      Distinct-update p f xs right left d.1,
    )
    | inr miss ↦
        rw miss (exists-update x p f xs (right x) ∙ d.0, Distinct-update p f xs right left d.1)
  ]
    where
      exists_same :
          (a b : A) (xs : List A)
          → ((y : A) → same a y ≡ same b y)
          → exists (same a) xs ≡ exists (same b) xs
      exists_same a b [] h = refl
      exists_same a b (y ∷ ys) h = rw (h y, exists_same a b ys h)

  module _ (meet : (x y k : A) → same x k ≡ true → same y k ≡ true → same x y ≡ true) where
    none_left :
        (x k : A) (xs : List A)
        → same x k ≡ true
        → exists (same x) xs ≡ false
        → length (select (λ y. same y k) xs) ≡ 0
    none_left x k [] hit h = refl
    none_left x k (y ∷ ys) hit h = ground (arith, meet x y k, none_left x k ys hit)

    one_match : (k : A) (xs : List A) → Distinct xs → length (select (λ y. same y k) xs) ≤ 1
    one_match k [] d = omega arith
    one_match k (x ∷ xs) d = ground (arith, one_match k xs, none_left x k xs)

    split_match :
        (k : A) (ks xs : List A)
        → length (select (λ x. exists (same x) (k ∷ ks)) xs)
          ≤ length (select (λ x. same x k) xs) + length (select (λ x. exists (same x) ks) xs)
    split_match k ks [] = omega arith
    split_match k ks (x ∷ xs) = ground (arith, split_match k ks xs)

    -- At most as many rows of a table match a list of rows as the list is long.
    pub length-select-matching :
        (ks xs : List A) → Distinct xs → length (select (λ x. exists (same x) ks) xs) ≤ length ks
    length-select-matching [] xs d = no_match xs
      where
        no_match : (xs : List A) → length (select (λ x. false) xs) ≤ 0
        no_match [] = omega arith
        no_match (x ∷ xs) = no_match xs
    length-select-matching (k ∷ ks) xs d =
        omega (arith, split_match k ks xs, one_match k xs d, length-select-matching ks xs d)
