-- ===== src/Common/Bytes/Laws.antt =====
-- Splitting undoes joining, and `fromhex` undoes `hex`.
use Prim.Native.Char.{Char, code}
use Prim.Native.Nat.{ℕ, zero, suc, ◌*◌, ◌+◌, ◌/◌, ◌%◌, ◌<◌}
use Prim.Native.String.{String}
use mathlib.Core.Path.{◌≡◌, refl, ap, ◌∙◌}
use mathlib.Core.Bool.{Bool, true, false, not, ◌&&◌}
use mathlib.Core.List.{[], ◌∷◌}
use mathlib.Core.Logic.{◌⊎◌, inl, inr}
use mathlib.Core.Option.{Option, none, some}
use native.Mathlib.Omega.{arith}
use radiobeacon.Common.Tests.{◌==◌}
use radiobeacon.Common.Lists.{All}
use radiobeacon.Common.Bytes.{
  Bytes, concat, add_first, split, hex_digit, hex, nibble, is_hex_space, from_high, from_idle, idle,
  advance, add_byte, scan, fromhex,
}

abbrev pub Lacks : ℕ → String → Type 0
Lacks sep String.[] = Unit
Lacks sep (String.◌∷◌ c s) = (code c == sep ≡ false) × Lacks sep s

pub split-Lacks : (sep : ℕ) (s : String) → Lacks sep s → split sep s ≡ s ∷ []
unfolding split add_first
split-Lacks sep String.[] h = refl
split-Lacks sep (String.◌∷◌ c s) h = rw (h.0, split-Lacks sep s h.1) refl

pub split-append :
    (sep : ℕ) (s t : String) (c : Char)
    → Lacks sep s
    → code c == sep ≡ true
    → split sep (concat s (String.◌∷◌ c t)) ≡ s ∷ split sep t
unfolding split add_first
split-append sep String.[] t c h e = rw e refl
split-append sep (String.◌∷◌ d s) t c h e = rw (h.0, split-append sep s t c h.1 e) refl

abbrev IsDigit : ℕ → Char → Type 0
IsDigit n c = (nibble c ≡ some n) × (is_hex_space c ≡ false) × (code c == 36 ≡ false)

gives : Option ℕ → ℕ → Bool
gives none n = false
gives (some m) n = m == n

digit_test : ℕ → Bool
digit_test n =
    let c = hex_digit n in gives (nibble c) n && not (is_hex_space c) && not (code c == 36)

all_below : ℕ → (ℕ → Bool) → Bool
all_below zero p = true
all_below (suc n) p = p n && all_below n p

all_below-lt : (k n : ℕ) (p : ℕ → Bool) → all_below k p ≡ true → n < k → p n ≡ true
unfolding all_below
all_below-lt zero n p h lt = absurd (omega (arith, lt))
all_below-lt (suc k) n p h lt = elim (lt_or_eq n k lt) [
  | inl below ↦ all_below-lt k n p (ground arith) below
  | inr same ↦ rw same (ground arith)
]
  where
    lt_or_eq : (n k : ℕ) → n < suc k → (n < k) ⊎ (n ≡ k)
    lt_or_eq n k lt = omega (arith, lt)

gives-some : (o : Option ℕ) (n : ℕ) → gives o n ≡ true → o ≡ some n
unfolding gives
gives-some none n h = ground arith
gives-some (some m) n h = ground arith

digit_test-IsDigit : (n : ℕ) → digit_test n ≡ true → IsDigit n (hex_digit n)
unfolding digit_test
digit_test-IsDigit n h =
    (gives-some (nibble (hex_digit n)) n (ground arith), ground arith, ground arith)

hex_digit-IsDigit : (n : ℕ) → n < 16 → IsDigit n (hex_digit n)
unfolding all_below digit_test gives hex_digit nibble is_hex_space
hex_digit-IsDigit n lt = digit_test-IsDigit n (all_below-lt 16 n digit_test refl lt)

abbrev pub IsByte : ℕ → Type 0
IsByte b = b < 256

-- The dollar sign separates the fields of an encoded password.
pub hex-Lacks : (bs : Bytes) → All IsByte bs → Lacks 36 (hex bs)
unfolding hex
hex-Lacks [] h = tt
hex-Lacks (b ∷ bs) h = (
  (hex_digit-IsDigit (b / 16) (omega (arith, h.0))).2,
  ((hex_digit-IsDigit (b % 16) (omega (arith, h.0))).2, hex-Lacks bs h.1),
)

scan-digits :
    (h l : ℕ) (c d : Char) (s : String)
    → IsDigit h c
    → IsDigit l d
    → scan idle (String.◌∷◌ c (String.◌∷◌ d s)) ≡ add_byte (some (h * 16 + l)) (scan idle s)
unfolding scan advance from_idle from_high
scan-digits h l c d s (digit, blank, dollar) (digit', blank', dollar') =
    rw (blank, digit) (rw digit' refl)

pub fromhex-hex : (bs : Bytes) → All IsByte bs → fromhex (hex bs) ≡ some bs
unfolding fromhex scan hex add_byte
fromhex-hex [] h = refl
fromhex-hex (b ∷ bs) h =
    scan-digits (b / 16) (b % 16) (hex_digit (b / 16)) (hex_digit (b % 16)) (hex bs)
      (hex_digit-IsDigit (b / 16) (omega (arith, h.0)))
      (hex_digit-IsDigit (b % 16) (omega (arith, h.0)))
    ∙ rw (fromhex-hex bs h.1) (ap (λ n. some (n ∷ bs)) (omega arith))
