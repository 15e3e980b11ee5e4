-- ===== src/Common/Bytes.antt =====
-- Python's `str.split` at a character, `bytes.hex` and `bytes.fromhex`. Bytes are numbers.
pub mod Laws
use Prim.Native.Char.{Char, code}
use Prim.Native.Nat.{ℕ, ◌+◌, ◌-◌, ◌*◌, ◌/◌, ◌%◌}
use Prim.Native.String.{String, char_at}
use mathlib.Core.Bool.{Bool, true, false, ◌&&◌, ◌||◌}
use mathlib.Core.List.{List, [], ◌∷◌}
use mathlib.Core.Option.{Option, none, some}
use radiobeacon.Common.Tests.{leb, ◌==◌, if◌then◌else◌}

abbrev pub Bytes : Type 0
Bytes = List ℕ

abbrev pub bytes_eq : Bytes → Bytes → Bool
bytes_eq [] [] = true
bytes_eq [] (b ∷ bs) = false
bytes_eq (a ∷ more) [] = false
bytes_eq (a ∷ more) (b ∷ bs) = a == b && bytes_eq more bs

-- `s + t`
abbrev pub concat : String → String → String
concat String.[] t = t
concat (String.◌∷◌ c s) t = String.◌∷◌ c (concat s t)

unfoldable pub add_first : Char → List String → List String
add_first c [] = []
add_first c (field ∷ fields) = String.◌∷◌ c field ∷ fields

-- `s.split(sep)`, with the separator's code.
unfoldable pub split : ℕ → String → List String
unfolding add_first
split sep String.[] = String.[] ∷ []
split sep (String.◌∷◌ c s) =
    let rest = split sep s in if code c == sep then String.[] ∷ rest else add_first c rest

hex_digit : ℕ → Char
hex_digit n = char_at "0123456789abcdef" n

-- `b.hex()`
unfoldable pub hex : Bytes → String
unfolding hex_digit
hex [] = String.[]
hex (b ∷ bs) = String.◌∷◌ (hex_digit (b / 16)) (String.◌∷◌ (hex_digit (b % 16)) (hex bs))

nibble : Char → Option ℕ
nibble c =
    let n = code c in
    if leb 48 n && leb n 57
    then some (n - 48)
    else if leb 97 n && leb n 102
    then some (n - 87)
    else if leb 65 n && leb n 70
    then some (n - 55)
    else none

-- Blanks may stand between two bytes.
is_hex_space : Char → Bool
is_hex_space c = let n = code c in (leb 9 n && leb n 13) || n == 32

pub data Scan : Type 0 where
  idle failed : Scan
  high : ℕ → Scan

from_high : ℕ → Option ℕ → Scan × Option ℕ
from_high h none = (failed, none)
from_high h (some l) = (idle, some (h * 16 + l))

from_idle : Option ℕ → Scan × Option ℕ
from_idle none = (failed, none)
from_idle (some h) = (high h, none)

advance : Scan → Char → Scan × Option ℕ
unfolding nibble is_hex_space from_high from_idle
advance idle c = if is_hex_space c then (idle, none) else from_idle (nibble c)
advance failed c = (failed, none)
advance (high h) c = from_high h (nibble c)

add_byte : Option ℕ → Option Bytes → Option Bytes
add_byte none bs = bs
add_byte (some b) none = none
add_byte (some b) (some bs) = some (b ∷ bs)

scan : Scan → String → Option Bytes
unfolding advance add_byte
scan idle String.[] = some []
scan failed String.[] = none
scan (high h) String.[] = none
scan s (String.◌∷◌ c t) = let next = advance s c in add_byte next.1 (scan next.0 t)

-- `bytes.fromhex(s)`; `none` is the ValueError.
unfoldable pub fromhex : String → Option Bytes
unfolding scan
fromhex = scan idle
