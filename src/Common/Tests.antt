-- ===== src/Common/Tests.antt =====
-- Boolean tests on numbers and texts, and the conditional.
use Prim.Native.Nat.{ℕ, compare, Ordering}
use Prim.Native.String.{String}
use mathlib.Core.Path.{◌≡◌, refl}
use mathlib.Core.Logic.{◌↔◌, ◌⊎◌, inl, inr}
use mathlib.Core.Bool.{Bool, true, false, not}
use mathlib.Core.Option.{Option, none, some}
use native.Mathlib.Omega.{arith}
use text.Mathlib.Text.{◌==◌ as str_eq, is_lt}
use text.Mathlib.TextEquality.{eq_iff}

abbrev pub ltb : ℕ → ℕ → Bool
ltb a b = elim (compare a b) [ Ordering.lt ↦ true | _ ↦ false ]

abbrev pub leb : ℕ → ℕ → Bool
leb a b = elim (compare a b) [ Ordering.gt ↦ false | _ ↦ true ]

infix 50 ◌==◌
abbrev pub ◌==◌ : ℕ → ℕ → Bool
a == b = elim (compare a b) [ Ordering.eq ↦ true | _ ↦ false ]

infix 1 if◌then◌else◌
abbrev pub if◌then◌else◌ {ℓ} : {A : Type ℓ} → Bool → A → A → A
if true then x else y = x
if false then x else y = y

-- A nullable text column. `IS` of SQL compares two NULLs as equal.
abbrev pub opt_str_eq : Option String → Option String → Bool
opt_str_eq none none = true
opt_str_eq none (some b) = false
opt_str_eq (some a) none = false
opt_str_eq (some a) (some b) = str_eq a b

-- `a < b` of SQL on texts: unknown, which a WHERE takes for false, where either side is NULL.
abbrev pub text_lt : Option String → Option String → Bool
text_lt none b = false
text_lt (some a) none = false
text_lt (some a) (some b) = is_lt (Prim.Native.String.compare a b)

-- `x = ?` of SQL on a nullable column.
abbrev pub is_text : Option String → String → Bool
is_text none b = false
is_text (some a) b = str_eq a b

-- Python's truth value of an optional text.
abbrev pub truthy : Option String → Bool
truthy none = false
truthy (some s) = not (str_eq s "")

-- `o or ""`
abbrev pub or_blank : Option String → String
or_blank none = ""
or_blank (some s) = s

pub opt_str_eq_iff : (a b : Option String) → (opt_str_eq a b ≡ true) ↔ (a ≡ b)
opt_str_eq_iff none none = ground arith
opt_str_eq_iff none (some b) = ground arith
opt_str_eq_iff (some a) none = ground arith
opt_str_eq_iff (some a) (some b) = ground (arith, eq_iff a b)

pub Bool-cases : (b : Bool) → (b ≡ true) ⊎ (b ≡ false)
Bool-cases true = inl refl
Bool-cases false = inr refl

pub Option-cases {ℓ} : {A : Type ℓ} (o : Option A) → (o ≡ none) ⊎ ((a : A) × (o ≡ some a))
Option-cases none = inl refl
Option-cases (some a) = inr (a, refl)
