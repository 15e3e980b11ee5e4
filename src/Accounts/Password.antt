-- ===== src/Accounts/Password.antt =====
-- `hash_password` and `verify_password` of data-adapters/src/adapters/auth.py. `hashlib.scrypt` is a
-- parameter and the random salt an argument.
pub mod RoundTrip
use radiobeacon.Common.{
  ℕ, String, Bool, true, false, Option, none, some, List, [], ◌∷◌, ℤ, pos, str_eq, if◌then◌else◌,
  length,
}
use radiobeacon.Common.Bytes.{Bytes, bytes_eq, concat, split, hex, fromhex}
use radiobeacon.Common.Result.{Result, ok, value_error, or_raise, ◌>>=◌}
use radiobeacon.Common.Text.{int}

-- `hashlib.scrypt` of a password, a salt, the costs n, r and p, and the length of the digest.
abbrev pub Scrypt : Type 0
Scrypt = String → Bytes → ℤ → ℤ → ℤ → ℕ → Result Bytes

encoded : Bytes → Bytes → String
encoded salt digest = concat "scrypt$16384$8$1$" (concat (hex salt) (concat "$" (hex digest)))

unfoldable pub hash_password : Scrypt → Bytes → String → Result String
unfolding encoded
hash_password scrypt salt password =
    scrypt password salt (pos 16384) (pos 8) (pos 1) 32 >>= λ digest. ok (encoded salt digest)

-- `int(field)`
number : String → Result ℤ
number field = or_raise value_error (int field)

compared : Scrypt → String → String → String → String → Bytes → Bytes → Result Bool
compared scrypt password n r p salt expected = do
  n ← number n
  r ← number r
  p ← number p
  digest ← scrypt password salt n r p (length expected)
  ok (bytes_eq digest expected)

-- Both fields are decoded inside the `try`, the costs behind it.
decoded : Scrypt → String → String → String → String → Option Bytes → Option Bytes → Result Bool
decoded scrypt password n r p none expected = ok false
decoded scrypt password n r p (some salt) none = ok false
decoded scrypt password n r p (some salt) (some expected) =
    compared scrypt password n r p salt expected

fields : Scrypt → String → List String → Result Bool
fields scrypt password (algo ∷ n ∷ r ∷ p ∷ salt_hex ∷ hash_hex ∷ []) =
    let checked = decoded scrypt password n r p (fromhex salt_hex) (fromhex hash_hex) in
    if str_eq algo "scrypt" then checked else ok false
fields scrypt password _ = ok false

unfoldable pub verify_password : Scrypt → String → String → Result Bool
unfolding number compared decoded fields
verify_password scrypt password encoded = fields scrypt password (split b'$' encoded)
