-- ===== src/Accounts/Calls.antt =====
-- Sequences of the operations on accounts and sessions, each at an instant of its own.
use radiobeacon.Common.{ℕ, String, Bool, false, Option, none, some, List, [], ◌∷◌, ◌==◌}
use radiobeacon.Common.Bytes.{Bytes}
use radiobeacon.Database.{Db}
use radiobeacon.Accounts.Password.{Scrypt}
use radiobeacon.Accounts.Users.{
  User, create_user, set_user_password, set_user_role, delete_user, bootstrap_admin_if_missing,
}
use radiobeacon.Accounts.Sessions.{Digest, create_session, validate_session, delete_session}

pub data Call : Type 0 where
  create : Bytes → String → String → String → Call
  bootstrap : Bytes → String → Call
  change_password : Bytes → ℕ → String → Call
  change_role : ℕ → String → Call
  remove : ℕ → Call
  sign_in : String → ℕ → Call
  request : String → Call
  sign_out : String → Call

unfoldable pub perform : Scrypt → Digest → ℕ → String → Call → Db → Db
perform scrypt digest now actor (create salt username password role) db =
    (create_user scrypt now salt username password role actor db).0
perform scrypt digest now actor (bootstrap salt password) db =
    (bootstrap_admin_if_missing scrypt now salt password actor db).0
perform scrypt digest now actor (change_password salt user_id password) db =
    (set_user_password scrypt now salt user_id password actor db).0
perform scrypt digest now actor (change_role user_id role) db =
    (set_user_role now user_id role actor db).0
perform scrypt digest now actor (remove user_id) db = (delete_user now user_id actor db).0
perform scrypt digest now actor (sign_in token user_id) db =
    (create_session digest now token user_id db).0
perform scrypt digest now actor (request token) db = (validate_session digest now token db).0
perform scrypt digest now actor (sign_out token) db = delete_session digest token db

-- Calls in order, each with its instant and its actor.
unfoldable pub run : Scrypt → Digest → List (ℕ × String × Call) → Db → Db
unfolding perform
run scrypt digest [] db = db
run scrypt digest ((now, actor, call) ∷ calls) db =
    run scrypt digest calls (perform scrypt digest now actor call db)

-- Whether a call is a login as the user.
abbrev pub signs_in : ℕ → Call → Bool
signs_in user_id (sign_in token j) = j == user_id
signs_in user_id _ = false

-- Whether a token was found to stand for the user.
abbrev pub stands_for : ℕ → Option User → Bool
stands_for user_id none = false
stands_for user_id (some v) = v.id == user_id
