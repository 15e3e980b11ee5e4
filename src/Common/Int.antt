-- ===== src/Common/Int.antt =====
-- Python's integers, as far as the program compares them.
use Prim.Native.Nat.{ℕ}
use mathlib.Core.Bool.{Bool, true, false}
use radiobeacon.Common.Tests.{leb}

-- `negsuc n` is -(n + 1).
pub data ℤ : Type 0 where
  pos : ℕ → ℤ
  negsuc : ℕ → ℤ

-- `n >= i` for a count `n`.
abbrev pub reaches : ℕ → ℤ → Bool
reaches n (pos k) = leb k n
reaches n (negsuc k) = true

-- `i >= n` for a natural bound `n`.
abbrev pub at_least : ℤ → ℕ → Bool
at_least (pos k) n = leb n k
at_least (negsuc k) n = false
