-- ===== src/Common/Exists.antt =====
-- Whether a row is found, after a DELETE, an UPDATE or an INSERT.
use mathlib.Core.Path.{◌≡◌, refl}
use mathlib.Core.Bool.{Bool, true, false}
use mathlib.Core.List.{List, [], ◌∷◌, ◌++◌}
use mathlib.Core.Option.{none, some}
use native.Mathlib.Omega.{arith}
use radiobeacon.Common.Lists.{exists, find_row, delete, update, exists-append}

module _ {ℓ} {A : Type ℓ} where
  pub exists-deleted :
      (q p : A → Bool) (xs : List A) → exists q xs ≡ false → exists q (delete p xs) ≡ false
  exists-deleted q p [] h = refl
  exists-deleted q p (x ∷ xs) h = ground (arith, exists-deleted q p xs)

  pub exists-before :
      (q p : A → Bool) (xs : List A) → exists q (delete p xs) ≡ true → exists q xs ≡ true
  exists-before q p [] h = h
  exists-before q p (x ∷ xs) h = ground (arith, exists-before q p xs)

  pub exists-updated :
      (q p : A → Bool) (f : A → A) (xs : List A)
      → ((x : A) → q (f x) ≡ q x)
      → exists q (update p f xs) ≡ exists q xs
  exists-updated q p f [] h = refl
  exists-updated q p f (x ∷ xs) h = ground (arith, h x, exists-updated q p f xs h)

  pub exists-added :
      (q : A → Bool) (xs : List A) (x : A)
      → exists q xs ≡ false
      → q x ≡ false
      → exists q (xs ++ x ∷ []) ≡ false
  exists-added q xs x h e = ground (arith, exists-append q xs (x ∷ []))

  pub find_row-none : (q : A → Bool) (xs : List A) → exists q xs ≡ false → find_row q xs ≡ none
  find_row-none q [] h = refl
  find_row-none q (x ∷ xs) h = ground (arith, find_row-none q xs)

  -- A row that is found satisfies the condition.
  pub find_row-holds : (q : A → Bool) (xs : List A) {x : A} → find_row q xs ≡ some x → q x ≡ true
  find_row-holds q [] h = cc
  find_row-holds q (y ∷ xs) {x} h = ground (arith, find_row-holds q xs {x = x})

  -- The row that was added last is found.
  pub exists-last :
      (q : A → Bool) (xs : List A) (x : A) → q x ≡ true → exists q (xs ++ x ∷ []) ≡ true
  exists-last q [] x h = ground (arith, h)
  exists-last q (y ∷ xs) x h = ground (arith, exists-last q xs x h)
