-- ===== src/Tests/Logins.antt =====
-- Two accounts, a password change, a deletion, and sessions.
use radiobeacon.Common.{
  ℕ, zero, suc, ◌+◌, ◌%◌, ◌≤◌, String, ◌≡◌, refl, subst, inl, inr, arith, Bool, true, false, Option,
  none, some, List, [], ◌∷◌, All, length,
}
use radiobeacon.Common.Text.{chars}
use radiobeacon.Common.Bytes.{Bytes, bytes_eq}
use radiobeacon.Common.Bytes.Laws.{IsByte}
use radiobeacon.Common.Result.{Result, ok, raised, value_error}
use radiobeacon.Database.{Db, empty}
use radiobeacon.Accounts.Password.{Scrypt, hash_password, verify_password}
use radiobeacon.Accounts.Password.RoundTrip.{Documented, verify-hash}
use radiobeacon.Accounts.Users.{create_user, set_user_password, delete_user, get_user}
use radiobeacon.Accounts.Sessions.{Digest, create_session, validate_session}
use radiobeacon.Accounts.Sessions.Sliding.{validate-slides}
use radiobeacon.Accounts.Calls.{Call, create, sign_in, run, stands_for}
use radiobeacon.Accounts.Revoked.{change-revokes, deleted_for_good}

-- Every byte of the digest is the password's length.
fill : ℕ → ℕ → Bytes
fill b zero = []
fill b (suc n) = b % 256 ∷ fill b n

fill-IsByte : (b n : ℕ) → All IsByte (fill b n)
unfolding fill
fill-IsByte b zero = tt
fill-IsByte b (suc n) = (omega arith, fill-IsByte b n)

length-fill : (b n : ℕ) → length (fill b n) ≡ n
unfolding fill
length-fill b zero = omega arith
length-fill b (suc n) = omega (arith, length-fill b n)

toy : Scrypt
toy password salt n r p len = ok (fill (chars password) len)

answered : {a b : Bytes} → Path (Result Bytes) (ok a) (ok b) → a ≡ b
answered e = cc

toy-Documented : Documented toy
unfolding toy
toy-Documented = record {
  bytes = λ {password} {salt} {digest} {n} {r} {p} {len} e.
      subst (All IsByte) (answered e) (fill-IsByte (chars password) len);
  sized = λ {password} {salt} {digest} {n} {r} {p} {len} e.
      subst (λ d. length d ≡ len) (answered e) (length-fill (chars password) len);
}

plain : Digest
plain token = token

abbrev salt : Bytes
salt = 171 ∷ 205 ∷ []

abbrev stored : String
stored = "scrypt$16384$8$1$abcd$0606060606060606060606060606060606060606060606060606060606060606"

hashed : hash_password toy salt "secret" ≡ ok stored
unfolding hash_password toy fill radiobeacon.Common.Bytes.hex
hashed = refl

verify-hash_example :
    (verify_password toy "guess" stored ≡ ok false)
    × (verify_password toy "secret" stored ≡ ok true)
unfolding toy fill hash_password
verify-hash_example =
    verify-hash toy salt "secret" "guess" stored (fill 6 32) (fill 5 32) toy-Documented
      (omega arith, (omega arith, tt)) hashed refl refl

-- A cost that is no number is not caught.
not_a_cost : verify_password toy "secret" "scrypt$many$8$1$abcd$06" ≡ raised value_error
unfolding verify_password radiobeacon.Common.Bytes.split radiobeacon.Common.Bytes.fromhex
    radiobeacon.Common.Text.int
not_a_cost = refl

abbrev two_users : Db
two_users =
    (create_user toy 10 salt "ann" "pw" "user" "cli"
      (create_user toy 5 salt "bob" "pw" "admin" "cli" empty).0).0

abbrev signed_in : Db
signed_in = (create_session plain 20 "t" 1 two_users).0

abbrev later_calls : List (ℕ × String × Call)
later_calls = (41, "cli", create salt "eve" "pw" "user") ∷ (42, "ui", sign_in "u" 2) ∷ []

change-revokes_example :
    stands_for 1
      (validate_session plain 50 "t"
        (run toy plain later_calls (set_user_password toy 40 salt 1 "new" "ui" signed_in).0)).1
    ≡ false
unfolding set_user_password hash_password toy create_session create_user
change-revokes_example =
    change-revokes toy plain 1 40 50 salt "new" "user" "ui" "t" signed_in
      (set_user_password toy 40 salt 1 "new" "ui" signed_in).0 later_calls (inl refl)
      (refl, (refl, tt))

at_least_one : 1 ≤ signed_in.user_sequence
unfolding create_session create_user hash_password toy
at_least_one = omega arith

deleted_for_good_example :
    let db' = run toy plain later_calls (delete_user 40 1 "ui" signed_in).0 in
    (get_user 1 db' ≡ none) × (stands_for 1 (validate_session plain 50 "t" db').1 ≡ false)
deleted_for_good_example =
    deleted_for_good toy plain 1 40 50 "ui" "t" signed_in later_calls (at_least_one)

validate-slides_example :
    (validate_session plain 1000000 "t" (validate_session plain 60 "t" signed_in).0).1
    ≡ some (record { id = 1; username = "bob"; role = "admin"; disabled = false })
unfolding validate_session radiobeacon.Accounts.Sessions.joined create_session create_user
    hash_password toy plain
validate-slides_example =
    validate-slides plain 60 1000000 "t" signed_in
      (record { id = 1; username = "bob"; role = "admin"; disabled = false }) (omega arith) refl
