-- ===== src/Common/Sort.antt =====
-- ORDER BY keeps the rows: what is found, what is distinct and what holds of every row.
use mathlib.Core.Path.{◌≡◌, refl, ap, ◌∙◌}
use mathlib.Core.Bool.{Bool, true, false, ◌||◌}
use mathlib.Core.List.{List, [], ◌∷◌, ◌++◌}
use mathlib.Core.Logic.{inl, inr}
use Prim.Native.Nat.{ℕ, suc, ◌≤◌}
use native.Mathlib.Omega.{arith}
use radiobeacon.Common.Tests.{leb, Bool-cases}
use radiobeacon.Common.Lists.{length, select, exists, find_row, insert_by, order_by, All, Distinct}

module _ {ℓ} {A : Type ℓ} where
  exists-insert_by :
      (p : A → Bool) (key : A → ℕ) (x : A) (ys : List A)
      → exists p (insert_by key x ys) ≡ (p x || exists p ys)
  exists-insert_by p key x [] = refl
  exists-insert_by p key x (y ∷ ys) = ground (arith, exists-insert_by p key x ys)

  pub exists-order_by :
      (p : A → Bool) (key : A → ℕ) (xs : List A) → exists p (order_by key xs) ≡ exists p xs
  exists-order_by p key [] = refl
  exists-order_by p key (x ∷ xs) =
      ground (arith, exists-insert_by p key x (order_by key xs), exists-order_by p key xs)

  length-insert_by :
      (key : A → ℕ) (x : A) (ys : List A) → length (insert_by key x ys) ≡ suc (length ys)
  length-insert_by key x [] = refl
  length-insert_by key x (y ∷ ys) = ground (arith, length-insert_by key x ys)

  pub length-order_by : (key : A → ℕ) (xs : List A) → length (order_by key xs) ≡ length xs
  length-order_by key [] = refl
  length-order_by key (x ∷ xs) =
      ground (arith, length-insert_by key x (order_by key xs), length-order_by key xs)

  find_row-insert_by :
      (p : A → Bool) (key : A → ℕ) (x : A) (ys : List A)
      → (p x ≡ true → exists p ys ≡ false)
      → find_row p (insert_by key x ys) ≡ find_row p (x ∷ ys)
  find_row-insert_by p key x [] h = refl
  find_row-insert_by p key x (y ∷ ys) h = ground (arith, h, find_row-insert_by p key x ys)

  -- The rows that a condition holds of, at most one.
  abbrev pub Single : (A → Bool) → List A → Type 0
  Single p [] = Unit
  Single p (x ∷ xs) = (p x ≡ true → exists p xs ≡ false) × Single p xs

  pub find_row-order_by :
      (p : A → Bool) (key : A → ℕ) (xs : List A)
      → Single p xs
      → find_row p (order_by key xs) ≡ find_row p xs
  find_row-order_by p key [] s = refl
  find_row-order_by p key (x ∷ xs) s =
      find_row-insert_by p key x (order_by key xs) (λ h. exists-order_by p key xs ∙ s.0 h)
      ∙ rw (find_row-order_by p key xs s.1) refl

  All-insert_by {κ} :
      (P : A → Type κ) (key : A → ℕ) (x : A) (ys : List A)
      → P x
      → All P ys
      → All P (insert_by key x ys)
  All-insert_by P key x [] h a = (h, tt)
  All-insert_by P key x (y ∷ ys) h a = elim (Bool-cases (leb (key x) (key y))) [
    | inl before ↦ rw before (h, a)
    | inr after ↦ rw after (a.0, All-insert_by P key x ys h a.1)
  ]

  pub All-order_by {κ} :
      (P : A → Type κ) (key : A → ℕ) (xs : List A) → All P xs → All P (order_by key xs)
  All-order_by P key [] a = tt
  All-order_by P key (x ∷ xs) a =
      All-insert_by P key x (order_by key xs) a.0 (All-order_by P key xs a.1)

  -- Rows in ascending order of their keys.
  abbrev pub Sorted : (A → ℕ) → List A → Type 0
  Sorted key [] = Unit
  Sorted key (x ∷ xs) = All (λ y. key x ≤ key y) xs × Sorted key xs

  All-le :
      (key : A → ℕ) (a b : ℕ) (xs : List A)
      → a ≤ b
      → All (λ y. b ≤ key y) xs
      → All (λ y. a ≤ key y) xs
  All-le key a b [] h all = tt
  All-le key a b (x ∷ xs) h all = (omega (arith, h, all.0), All-le key a b xs h all.1)

  Sorted-insert_by :
      (key : A → ℕ) (x : A) (ys : List A) → Sorted key ys → Sorted key (insert_by key x ys)
  Sorted-insert_by key x [] s = (tt, tt)
  Sorted-insert_by key x (y ∷ ys) s = elim (Bool-cases (leb (key x) (key y))) [
    | inl before ↦
        let le : key x ≤ key y = ground (arith, before) in
        rw before ((le, All-le key (key x) (key y) ys le s.0), s)
    | inr after ↦ rw after (
      All-insert_by (λ z. key y ≤ key z) key x ys (ground (arith, after)) s.0,
      Sorted-insert_by key x ys s.1,
    )
  ]

  pub Sorted-order_by : (key : A → ℕ) (xs : List A) → Sorted key (order_by key xs)
  Sorted-order_by key [] = tt
  Sorted-order_by key (x ∷ xs) = Sorted-insert_by key x (order_by key xs) (Sorted-order_by key xs)

  insert_by-append :
      (key : A → ℕ) (x y : A) (ys : List A)
      → key x ≤ key y
      → insert_by key x (ys ++ y ∷ []) ≡ insert_by key x ys ++ y ∷ []
  insert_by-append key x y [] h = ground (arith, h)
  insert_by-append key x y (z ∷ ys) h = elim (Bool-cases (leb (key x) (key z))) [
    | inl before ↦ rw before refl
    | inr after ↦ rw after (ap (λ zs. z ∷ zs) (insert_by-append key x y ys h))
  ]

  -- A row behind all others stays there.
  pub order_by-append :
      (key : A → ℕ) (xs : List A) (y : A)
      → All (λ x. key x ≤ key y) xs
      → order_by key (xs ++ y ∷ []) ≡ order_by key xs ++ y ∷ []
  order_by-append key [] y h = refl
  order_by-append key (x ∷ xs) y h =
      ap (insert_by key x) (order_by-append key xs y h.1)
      ∙ insert_by-append key x y (order_by key xs) h.0

  pub All-select : (p : A → Bool) (xs : List A) → All (λ x. p x ≡ true) (select p xs)
  All-select p [] = tt
  All-select p (x ∷ xs) = elim (Bool-cases (p x)) [
    | inl hit ↦ rw hit (hit, All-select p xs)
    | inr miss ↦ rw miss (All-select p xs)
  ]

  pub find_row-select :
      (p q : A → Bool) (xs : List A)
      → ((x : A) → q x ≡ true → p x ≡ true)
      → find_row q (select p xs) ≡ find_row q xs
  find_row-select p q [] h = refl
  find_row-select p q (x ∷ xs) h = ground (arith, h x, find_row-select p q xs h)

  pub not-exists-select :
      (p q : A → Bool) (xs : List A) → exists q xs ≡ false → exists q (select p xs) ≡ false
  not-exists-select p q [] h = refl
  not-exists-select p q (x ∷ xs) h = ground (arith, not-exists-select p q xs)

module _ {ℓ} {A : Type ℓ} (same : A → A → Bool) where
  pub Distinct-select :
      (p : A → Bool) (xs : List A) → Distinct same xs → Distinct same (select p xs)
  Distinct-select p [] d = tt
  Distinct-select p (x ∷ xs) d = elim (Bool-cases (p x)) [
    | inl hit ↦ rw hit (not-exists-select p (same x) xs d.0, Distinct-select p xs d.1)
    | inr miss ↦ rw miss (Distinct-select p xs d.1)
  ]

  module _ (symmetric : (x y : A) → same x y ≡ same y x) where
    Distinct-insert_by :
        (key : A → ℕ) (x : A) (ys : List A)
        → exists (same x) ys ≡ false
        → Distinct same ys
        → Distinct same (insert_by key x ys)
    Distinct-insert_by key x [] h d = (refl, tt)
    Distinct-insert_by key x (y ∷ ys) h d = elim (Bool-cases (leb (key x) (key y))) [
      | inl before ↦ rw before (h, d)
      | inr after ↦ rw after (
        ground (arith, exists-insert_by (same y) key x ys, symmetric x y, d.0),
        Distinct-insert_by key x ys (ground arith) d.1,
      )
    ]

    pub Distinct-order_by :
        (key : A → ℕ) (xs : List A) → Distinct same xs → Distinct same (order_by key xs)
    Distinct-order_by key [] d = tt
    Distinct-order_by key (x ∷ xs) d =
        Distinct-insert_by key x (order_by key xs) (exists-order_by (same x) key xs ∙ d.0)
          (Distinct-order_by key xs d.1)
