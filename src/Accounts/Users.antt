-- ===== src/Accounts/Users.antt =====
-- The accounts of data-adapters/src/adapters/auth.py. `hashlib.scrypt` is a parameter; random salts
-- and passwords are arguments.
pub mod Kept
use radiobeacon.Common.{
  ℕ, suc, String, Bool, true, false, not, ◌||◌, Option, none, some, List, [], ◌∷◌, ◌++◌, str_eq,
  ◌==◌, if◌then◌else◌, exists, find_row, update, delete,
}
use radiobeacon.Common.Result.{Result, ok, raised, value_error, integrity_error, ◌>>=◌}
use radiobeacon.Database.{Db, UserRow, SessionRow, Value}
use radiobeacon.Database.Audit.{record_audit_event}
use radiobeacon.Accounts.Password.{Scrypt, hash_password}
use radiobeacon.Common.Bytes.{Bytes}

pub record User : Type 0 where
  pub id : ℕ
  pub username : String
  pub role : String
  pub disabled : Bool

abbrev is_role : String → Bool
is_role role = str_eq role "admin" || str_eq role "user"

abbrev pub row_to_user : UserRow → User
row_to_user u = record { id = u.id; username = u.username; role = u.role; disabled = u.disabled }

abbrev pub has_id : ℕ → UserRow → Bool
has_id user_id u = u.id == user_id

abbrev pub of_user : ℕ → SessionRow → Bool
of_user user_id s = s.user_id == user_id

user_or_none : Option UserRow → Option User
user_or_none none = none
user_or_none (some u) = some (row_to_user u)

unfoldable pub get_user : ℕ → Db → Option User
unfolding user_or_none
get_user user_id db = user_or_none (find_row (has_id user_id) db.users)

unfoldable pub get_user_by_username : String → Db → Option User
unfolding user_or_none
get_user_by_username username db =
    user_or_none (find_row (λ u. str_eq u.username username) db.users)

-- Disabled ones count.
unfoldable pub any_admin_exists : Db → Bool
any_admin_exists db = exists (λ u. str_eq u.role "admin") db.users

unfoldable pub delete_all_sessions_for_user : ℕ → Db → Db
delete_all_sessions_for_user user_id db = record db {
  sessions = delete (of_user user_id) db.sessions;
}

insert_user : ℕ → String → String → String → String → Db → Db × Result User
insert_user now username password_hash role actor db =
    let id = suc db.user_sequence in
    let row : UserRow = record {
      id = id;
      username = username;
      password_hash = password_hash;
      role = role;
      disabled = false;
      created_at = now;
      updated_at = now;
    } in
    if exists (λ u. str_eq u.username username) db.users then (db, raised integrity_error) else (
      record_audit_event now "user.created" actor none none
          (("username", Value.text username) ∷ ("role", Value.text role) ∷ [])
          (record db { users = db.users ++ row ∷ []; user_sequence = id }),
      ok (row_to_user row),
    )

with_hash : Result String → (String → Db × Result User) → Db → Db × Result User
with_hash (raised e) next db = (db, raised e)
with_hash (ok password_hash) next db = next password_hash

-- UNIQUE (username) raises IntegrityError.
unfoldable pub create_user :
    Scrypt → ℕ → Bytes → String → String → String → String → Db → Db × Result User
unfolding insert_user with_hash
create_user scrypt now salt username password role actor db =
    if is_role role
    then with_hash (hash_password scrypt salt password)
        (λ password_hash. insert_user now username password_hash role actor db) db
    else (db, raised value_error)

put_password : ℕ → ℕ → String → Result String → Db → Db × Result Bool
unfolding delete_all_sessions_for_user
put_password now user_id actor (raised e) db = (db, raised e)
put_password now user_id actor (ok password_hash) db =
    let users =
      update (has_id user_id) (λ u. record u { password_hash = password_hash; updated_at = now })
        db.users in
    if exists (has_id user_id) db.users
    then (
      record_audit_event now "user.password_changed" actor none none
          (("user_id", Value.num user_id) ∷ [])
          (delete_all_sessions_for_user user_id (record db { users = users })),
      ok true,
    )
    else (record db { users = users }, ok false)

unfoldable pub set_user_password : Scrypt → ℕ → Bytes → ℕ → String → String → Db → Db × Result Bool
unfolding put_password
set_user_password scrypt now salt user_id new_password actor db =
    put_password now user_id actor (hash_password scrypt salt new_password) db

unfoldable pub set_user_role : ℕ → ℕ → String → String → Db → Db × Result Bool
unfolding delete_all_sessions_for_user
set_user_role now user_id role actor db =
    let users =
      update (has_id user_id) (λ u. record u { role = role; updated_at = now }) db.users in
    if not (is_role role)
    then (db, raised value_error)
    else if exists (has_id user_id) db.users
    then (
      record_audit_event now "user.role_changed" actor none none
          (("user_id", Value.num user_id) ∷ ("role", Value.text role) ∷ [])
          (delete_all_sessions_for_user user_id (record db { users = users })),
      ok true,
    )
    else (record db { users = users }, ok false)

-- The sessions go first, then the row.
unfoldable pub delete_user : ℕ → ℕ → String → Db → Db × Bool
unfolding delete_all_sessions_for_user
delete_user now user_id actor db =
    let cleared = delete_all_sessions_for_user user_id db in
    let gone : Db = record cleared { users = delete (has_id user_id) cleared.users } in
    if exists (has_id user_id) cleared.users
    then (
      record_audit_event now "user.deleted" actor none none (("user_id", Value.num user_id) ∷ [])
          gone,
      true,
    )
    else (gone, false)

bootstrapped : String → Db × Result User → Db × Result (Option (String × String))
bootstrapped password (db, raised e) = (db, raised e)
bootstrapped password (db, ok u) = (db, ok (some ("admin", password)))

-- `password` is the freshly generated one.
unfoldable pub bootstrap_admin_if_missing :
    Scrypt → ℕ → Bytes → String → String → Db → Db × Result (Option (String × String))
unfolding bootstrapped
bootstrap_admin_if_missing scrypt now salt password actor db =
    if any_admin_exists db
    then (db, ok none)
    else bootstrapped password (create_user scrypt now salt "admin" password "admin" actor db)
