-- ===== src/Accounts/Sessions.antt =====
-- The sessions of data-adapters/src/adapters/auth.py. `hashlib.sha256` of a token is a parameter and
-- the random token an argument.
pub mod Joined
pub mod Sliding
use radiobeacon.Common.{
  ℕ, ◌+◌, ◌-◌, String, Bool, true, false, not, ◌&&◌, Option, none, some, List, [], ◌∷◌, ◌++◌,
  str_eq, ltb, ◌==◌, if◌then◌else◌, exists, find_row, update, delete,
}
use radiobeacon.Common.Result.{Result, ok, raised, integrity_error}
use radiobeacon.Database.{Db, UserRow, SessionRow}
use radiobeacon.Accounts.Users.{User, row_to_user, has_id}

-- `hashlib.sha256(token).hexdigest()`
abbrev pub Digest : Type 0
Digest = String → String

abbrev pub session_ttl_seconds : ℕ
session_ttl_seconds = 2592000

abbrev pub session_refresh_threshold_seconds : ℕ
session_refresh_threshold_seconds = 1296000

abbrev pub has_token : String → SessionRow → Bool
has_token token_hash s = str_eq s.token_hash token_hash

-- The primary key on the hash raises IntegrityError.
unfoldable pub create_session : Digest → ℕ → String → ℕ → Db → Db × Result String
create_session digest now raw_token user_id db =
    let row : SessionRow = record {
      token_hash = digest raw_token;
      user_id = user_id;
      created_at = now;
      last_seen_at = now;
      expires_at = now + session_ttl_seconds;
    } in
    if exists (has_token (digest raw_token)) db.sessions
    then (db, raised integrity_error)
    else (record db { sessions = db.sessions ++ row ∷ [] }, ok raw_token)

abbrev pub is_expired : ℕ → SessionRow → Bool
is_expired now s = ltb s.expires_at now

abbrev pub is_live : String → ℕ → SessionRow → Bool
is_live token_hash now s = has_token token_hash s && not (is_expired now s)

pub pair_with : SessionRow → Option UserRow → Option (SessionRow × UserRow)
pair_with s none = none
pair_with s (some u) = some (s, u)

pub or_else :
    Option (SessionRow × UserRow) → Option (SessionRow × UserRow) → Option (SessionRow × UserRow)
or_else none later = later
or_else (some p) later = some p

-- `sessions JOIN users`, the first row that is live.
unfoldable pub joined : String → ℕ → List UserRow → List SessionRow → Option (SessionRow × UserRow)
unfolding pair_with or_else
joined token_hash now users [] = none
joined token_hash now users (s ∷ sessions) =
    let rest = joined token_hash now users sessions in
    if is_live token_hash now s
    then or_else (pair_with s (find_row (has_id s.user_id) users)) rest
    else rest

-- `expires_at` moves forward once less than half of the time is left.
pub touch : ℕ → SessionRow → SessionRow
touch now s =
    let seen : SessionRow = record s { last_seen_at = now } in
    if ltb (s.expires_at - now) session_refresh_threshold_seconds
    then record seen { expires_at = now + session_ttl_seconds }
    else seen

pub accept : String → ℕ → Option (SessionRow × UserRow) → Db → Db × Option User
unfolding touch
accept token_hash now none db = (db, none)
accept token_hash now (some (s, u)) db =
    let touched = update (has_token token_hash) (touch now) db.sessions in
    if u.disabled then (db, none) else (record db { sessions = touched }, some (row_to_user u))

-- Expired sessions are deleted first.
unfoldable pub validate_session : Digest → ℕ → String → Db → Db × Option User
unfolding accept
validate_session digest now raw_token db =
    let kept : Db = record db { sessions = delete (is_expired now) db.sessions } in
    accept (digest raw_token) now (joined (digest raw_token) now kept.users kept.sessions) kept

unfoldable pub delete_session : Digest → String → Db → Db
delete_session digest raw_token db = record db {
  sessions = delete (has_token (digest raw_token)) db.sessions;
}
