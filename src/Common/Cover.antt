-- ===== src/Common/Cover.antt =====
-- Rows that none of a list of deletions takes.
use mathlib.Core.Path.{◌≡◌, refl, sym, subst}
use mathlib.Core.Bool.{Bool, true, false, not, ◌&&◌}
use mathlib.Core.List.{List, [], ◌∷◌}
use mathlib.Core.Logic.{inl, inr}
use native.Mathlib.Omega.{arith}
use radiobeacon.Common.Tests.{Bool-cases}
use radiobeacon.Common.Lists.{exists, select, delete}

module _ {ℓ κ} {A : Type ℓ} {B : Type κ} (p : A → Bool) (hit : B → A → Bool) where
  -- A row with the property `p` that no key of the list hits.
  abbrev pub left : List B → A → Bool
  left keys y = p y && not (exists (λ k. hit k y) keys)

  pub left-delete :
      (k : B) (keys : List B) (rows : List A)
      → exists (left (k ∷ keys)) rows ≡ false
      → exists (left keys) (delete (hit k) rows) ≡ false
  left-delete k keys [] h = refl
  left-delete k keys (y ∷ ys) h = ground (arith, left-delete k keys ys, h)

  pub left-none : (rows : List A) → exists (left []) rows ≡ false → exists p rows ≡ false
  left-none [] h = refl
  left-none (y ∷ ys) h = ground (arith, left-none ys, h)

  -- A longer list leaves less.
  pub left-wider :
      (k : B) (keys : List B) (rows : List A)
      → exists (left keys) rows ≡ false
      → exists (left (k ∷ keys)) rows ≡ false
  left-wider k keys [] h = refl
  left-wider k keys (y ∷ ys) h = ground (arith, left-wider k keys ys, h)

  pub left-own :
      (k : B) (keys : List B) (y : A) (ys : List A)
      → hit k y ≡ true
      → exists (left keys) ys ≡ false
      → exists (left (k ∷ keys)) (y ∷ ys) ≡ false
  left-own k keys y ys own h = ground (arith, own, left-wider k keys ys h)

-- What a SELECT finds covers the rows with its property.
pub left-select {ℓ} :
    {A : Type ℓ} (p : A → Bool) (hit : A → A → Bool) (rows : List A)
    → ((y : A) → p y ≡ true → hit y y ≡ true)
    → exists (left p hit (select p rows)) rows ≡ false
left-select p hit [] own = refl
left-select p hit (y ∷ ys) own = elim (Bool-cases (p y)) [
  | inl found ↦
      let listed : select p (y ∷ ys) ≡ y ∷ select p ys = rw found refl in
      subst (λ keys. exists (left p hit keys) (y ∷ ys) ≡ false) (sym listed)
        (left-own p hit y (select p ys) y ys (own y found) (left-select p hit ys own))
  | inr miss ↦
      let listed : select p (y ∷ ys) ≡ select p ys = rw miss refl in
      subst (λ keys. exists (left p hit keys) (y ∷ ys) ≡ false) (sym listed)
        (rw miss (left-select p hit ys own))
]
