-- ===== src/Common/Text.antt =====
-- Python's `str.strip`, `str.lower` and `int` on texts, as the program uses them: `lower` on ASCII
-- letters, `int` on an optional sign and ASCII digits, with no underscores.
use Prim.Native.Char.{Char, code}
use Prim.Native.Nat.{ℕ, zero, suc, ◌+◌, ◌-◌, ◌*◌, ◌/◌, ◌%◌}
use Prim.Native.String.{String, [], ◌∷◌, char_at}
use mathlib.Core.Bool.{Bool, true, false, ◌&&◌, ◌||◌}
use mathlib.Core.Option.{Option, none, some}
use radiobeacon.Common.Tests.{leb, ◌==◌, if◌then◌else◌}
use radiobeacon.Common.Int.{ℤ, pos, negsuc}

-- `str.isspace`
is_space : Char → Bool
is_space c =
    let n = code c in
    (leb 9 n && leb n 13)
    || (leb 28 n && leb n 32)
    || n == 133
    || n == 160
    || n == 5760
    || (leb 8192 n && leb n 8202)
    || n == 8232
    || n == 8233
    || n == 8239
    || n == 8287
    || n == 12288

-- `len(s)`
abbrev pub chars : String → ℕ
chars [] = 0
chars (c ∷ s) = suc (chars s)

lstrip : String → String
lstrip [] = []
lstrip (c ∷ s) = let rest = lstrip s in if is_space c then rest else c ∷ s

-- A trailing blank is dropped where nothing is left behind it.
drop_blank : Char → String → String
drop_blank c [] = if is_space c then [] else c ∷ []
drop_blank c (d ∷ s) = c ∷ d ∷ s

rstrip : String → String
rstrip [] = []
rstrip (c ∷ s) = drop_blank c (rstrip s)

unfoldable pub strip : String → String
unfolding is_space lstrip drop_blank rstrip
strip s = rstrip (lstrip s)

unfoldable pub lower : String → String
lower [] = []
lower (c ∷ s) =
    (if leb 65 (code c) && leb (code c) 90
      then char_at "abcdefghijklmnopqrstuvwxyz" (code c - 65)
      else c)
    ∷ lower s

-- `s.startswith(p)`
unfoldable pub starts_with : String → String → Bool
starts_with [] s = true
starts_with (c ∷ p) [] = false
starts_with (c ∷ p) (d ∷ s) = code c == code d && starts_with p s

-- `p in s`
unfoldable pub contains : String → String → Bool
contains p [] = starts_with p []
contains p (c ∷ s) = let rest = contains p s in if starts_with p (c ∷ s) then true else rest

digits : ℕ → String → Option ℕ
digits n [] = some n
digits n (c ∷ s) =
    let rest = digits (n * 10 + (code c - 48)) s in
    if leb 48 (code c) && leb (code c) 57 then rest else none

unsigned : String → Option ℕ
unsigned [] = none
unsigned (c ∷ s) = digits 0 (c ∷ s)

abbrev positive : Option ℕ → Option ℤ
positive none = none
positive (some n) = some (pos n)

abbrev negative : Option ℕ → Option ℤ
negative none = none
negative (some zero) = some (pos 0)
negative (some (suc n)) = some (negsuc n)

signed : String → Option ℤ
signed [] = none
signed (c ∷ s) =
    if code c == b'-'
    then negative (unsigned s)
    else if code c == b'+'
    then positive (unsigned s)
    else positive (unsigned (c ∷ s))

-- `int(s)`; `none` is the ValueError.
unfoldable pub int : String → Option ℤ
unfolding digits unsigned signed strip
int s = signed (strip s)

decimal_onto : ℕ → ℕ → String → String
decimal_onto zero n s = s
decimal_onto (suc fuel) n s =
    let s' = char_at "0123456789" (n % 10) ∷ s in
    let rest = decimal_onto fuel (n / 10) s' in if leb n 9 then s' else rest

-- `str(n)`. A number has at most as many digits as it is large, or one.
unfoldable pub decimal : ℕ → String
unfolding decimal_onto
decimal n = decimal_onto (suc n) n []
