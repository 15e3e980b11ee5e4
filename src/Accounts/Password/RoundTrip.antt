-- ===== src/Accounts/Password/RoundTrip.antt =====
-- What `verify_password` makes of the texts that `hash_password` builds, and of others.
use radiobeacon.Common.{
  ℕ, String, ◌≡◌, refl, sym, ◌∙◌, subst, true, arith, [], ◌∷◌, All, ℤ, pos, length,
}
use radiobeacon.Common.Bytes.Laws.{IsByte, split-Lacks, split-append, hex-Lacks, fromhex-hex}
use radiobeacon.Common.Bytes.{Bytes, bytes_eq, split, hex}
use radiobeacon.Common.Result.{Result, ok}
use radiobeacon.Common.Text.{int}
use radiobeacon.Accounts.Password.{
  Scrypt, encoded, hash_password, number, compared, decoded, fields, verify_password,
}

split-encoded :
    (salt digest : Bytes)
    → All IsByte salt
    → All IsByte digest
    → split b'$' (encoded salt digest) ≡ "scrypt" ∷ "16384" ∷ "8" ∷ "1" ∷ hex salt ∷ hex digest ∷ []
unfolding split encoded
split-encoded salt digest s d =
    rw
      (
        split-append b'$' (hex salt) (hex digest) "$" (hex-Lacks salt s) refl,
        split-Lacks b'$' (hex digest) (hex-Lacks digest d),
      )
      refl

-- What hashlib documents of scrypt's answers: bytes, as many as asked for.
pub record Documented (scrypt : Scrypt) : Type 0 where
  pub bytes :
      {password : String} {salt digest : Bytes} {n r p : ℤ} {len : ℕ}
      → scrypt password salt n r p len ≡ ok digest
      → All IsByte digest
  pub sized :
      {password : String} {salt digest : Bytes} {n r p : ℤ} {len : ℕ}
      → scrypt password salt n r p len ≡ ok digest
      → length digest ≡ len

bytes_eq_refl : (bs : Bytes) → bytes_eq bs bs ≡ true
bytes_eq_refl [] = refl
bytes_eq_refl (b ∷ bs) = ground (arith, bytes_eq_refl bs)

verify-encoded :
    (scrypt : Scrypt) (salt digest digest' : Bytes) (tried : String)
    → All IsByte salt
    → All IsByte digest
    → length digest ≡ 32
    → scrypt tried salt (pos 16384) (pos 8) (pos 1) 32 ≡ ok digest'
    → verify_password scrypt tried (encoded salt digest) ≡ ok (bytes_eq digest' digest)
unfolding verify_password fields decoded compared number int
verify-encoded scrypt salt digest digest' tried s d sized other =
    rw (split-encoded salt digest s d, fromhex-hex salt s, fromhex-hex digest d)
      (rw (sized, other) refl)

-- A password is checked against an encoded one by comparing their digests under the same salt and
-- costs, and the password that was encoded passes: when scrypt answers with as many bytes as it is
-- asked for, and the salt is of bytes.
pub verify-hash :
    (scrypt : Scrypt) (salt : Bytes) (password tried text : String) (digest digest' : Bytes)
    → Documented scrypt
    → All IsByte salt
    → hash_password scrypt salt password ≡ ok text
    → scrypt password salt (pos 16384) (pos 8) (pos 1) 32 ≡ ok digest
    → scrypt tried salt (pos 16384) (pos 8) (pos 1) 32 ≡ ok digest'
    → (verify_password scrypt tried text ≡ ok (bytes_eq digest' digest))
      × (verify_password scrypt password text ≡ ok true)
unfolding hash_password
verify-hash scrypt salt password tried text digest digest' doc s hashed given other =
    (checked tried digest' other, checked password digest given ∙ rw (bytes_eq_refl digest) refl)
  where
    same : encoded salt digest ≡ text
    same = read (sym computed ∙ hashed)
      where
        computed : hash_password scrypt salt password ≡ ok (encoded salt digest)
        computed = rw given refl

        read :
            Path (Result String) (ok (encoded salt digest)) (ok text) → encoded salt digest ≡ text
        read e = cc

    checked :
        (t : String) (d : Bytes)
        → scrypt t salt (pos 16384) (pos 8) (pos 1) 32 ≡ ok d
        → verify_password scrypt t text ≡ ok (bytes_eq d digest)
    checked t d answer =
        subst (λ e. verify_password scrypt t e ≡ ok (bytes_eq d digest)) same
          (verify-encoded scrypt salt digest d t s (doc.bytes given) (doc.sized given) answer)
