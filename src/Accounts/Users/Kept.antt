-- ===== src/Accounts/Users/Kept.antt =====
-- What the operations on accounts leave of a user's sessions, and of an identifier that is free.
use radiobeacon.Common.Exists.{exists-deleted, exists-updated, exists-added}
use radiobeacon.Common.{
  ℕ, ◌≤◌, String, ◌≡◌, ◌≢◌, refl, ap, subst, inl, inr, arith, Bool, true, false, not, str_eq,
  exists, if◌then◌else◌, Bool-cases, exists-delete,
}
use radiobeacon.Common.Bytes.{Bytes}
use radiobeacon.Common.Result.{Result, ok, raised}
use radiobeacon.Database.{Db}
use radiobeacon.Accounts.Password.{Scrypt, hash_password}
use radiobeacon.Accounts.Users.{
  User, has_id, of_user, create_user, insert_user, with_hash, put_password, set_user_password,
  set_user_role, delete_user, bootstrap_admin_if_missing, bootstrapped,
  delete_all_sessions_for_user, any_admin_exists, is_role,
}

-- The branch that was taken, by the answer.
taken {ℓ} :
    {R : Type ℓ} (done missing : R) (c : Bool) (x y z : Db)
    → missing ≢ done
    → Path (Db × R) (if c then (x, done) else (y, missing)) (z, done)
    → x ≡ z
taken done missing true x y z ne h = ap (λ p. p.0) h
taken done missing false x y z ne h = absurd (ne (ap (λ p. p.1) h))

behind {ℓ} : {A : Type ℓ} (b : Bool) (x y z : A) → b ≡ true → (if not b then x else y) ≡ z → y ≡ z
behind true x y z e h = h
behind false x y z e h = absurd (ground arith)

module _ (user_id : ℕ) where
  -- The user has no session.
  abbrev pub SignedOut : Db → Type 0
  SignedOut db = exists (of_user user_id) db.sessions ≡ false

  -- No account has the identifier, and none will be given it: identifiers only grow.
  abbrev pub Gone : Db → Type 0
  Gone db = (exists (has_id user_id) db.users ≡ false) × (user_id ≤ db.user_sequence)

  insert_user-Gone :
      (now : ℕ) (username hash role actor : String) (db : Db)
      → Gone db
      → Gone (insert_user now username hash role actor db).0
  unfolding insert_user
  insert_user-Gone now username hash role actor db h =
      elim (Bool-cases (exists (λ u. str_eq u.username username) db.users)) [
        | inl taken ↦ rw taken h
        | inr free ↦
            rw free (
              exists-added (has_id user_id) db.users _ h.0 (ground (arith, h.1)),
              omega (arith, h.1),
            )
      ]

  insert_user-SignedOut :
      (now : ℕ) (username hash role actor : String) (db : Db)
      → SignedOut db
      → SignedOut (insert_user now username hash role actor db).0
  unfolding insert_user
  insert_user-SignedOut now username hash role actor db h = ground (arith, h)

  with_hash-kept :
      (P : Db → Type 0) (hash : Result String) (next : String → Db × Result User) (db : Db)
      → P db
      → ((hashed : String) → P (next hashed).0)
      → P (with_hash hash next db).0
  unfolding with_hash
  with_hash-kept P (raised e) next db h step = h
  with_hash-kept P (ok hashed) next db h step = step hashed

  module _ (scrypt : Scrypt) (now : ℕ) (salt : Bytes) (actor : String) where
    create_user-kept :
        (P : Db → Type 0) (username password role : String) (db : Db)
        → P db
        → ((hash : String) → P (insert_user now username hash role actor db).0)
        → P (create_user scrypt now salt username password role actor db).0
    unfolding create_user
    create_user-kept P username password role db h step = elim (Bool-cases (is_role role)) [
      | inl known ↦ rw known (with_hash-kept P (hash_password scrypt salt password) _ db h step)
      | inr unknown ↦ rw unknown h
    ]

    pub create_user-Gone :
        (username password role : String) (db : Db)
        → Gone db
        → Gone (create_user scrypt now salt username password role actor db).0
    create_user-Gone username password role db h =
        create_user-kept Gone username password role db h
          (λ hash. insert_user-Gone now username hash role actor db h)

    pub create_user-SignedOut :
        (username password role : String) (db : Db)
        → SignedOut db
        → SignedOut (create_user scrypt now salt username password role actor db).0
    create_user-SignedOut username password role db h =
        create_user-kept SignedOut username password role db h
          (λ hash. insert_user-SignedOut now username hash role actor db h)

    bootstrap-kept :
        (P : Db → Type 0) (password : String) (db : Db)
        → P db
        → P (create_user scrypt now salt "admin" password "admin" actor db).0
        → P (bootstrap_admin_if_missing scrypt now salt password actor db).0
    unfolding bootstrap_admin_if_missing
    bootstrap-kept P password db h step = elim (Bool-cases (any_admin_exists db)) [
      | inl there ↦ rw there h
      | inr missing ↦
          rw missing (passed (create_user scrypt now salt "admin" password "admin" actor db) step)
    ]
      where
        passed : (made : Db × Result User) → P made.0 → P (bootstrapped password made).0
        passed (left, raised e) h = h
        passed (left, ok u) h = h

    pub bootstrap-Gone :
        (password : String) (db : Db)
        → Gone db
        → Gone (bootstrap_admin_if_missing scrypt now salt password actor db).0
    bootstrap-Gone password db h =
        bootstrap-kept Gone password db h (create_user-Gone "admin" password "admin" db h)

    pub bootstrap-SignedOut :
        (password : String) (db : Db)
        → SignedOut db
        → SignedOut (bootstrap_admin_if_missing scrypt now salt password actor db).0
    bootstrap-SignedOut password db h =
        bootstrap-kept SignedOut password db h (create_user-SignedOut "admin" password "admin" db h)

    put_password-SignedOut :
        (j : ℕ) (hash : Result String) (db : Db)
        → SignedOut db
        → SignedOut (put_password now j actor hash db).0
    unfolding put_password delete_all_sessions_for_user
    put_password-SignedOut j (raised e) db h = h
    put_password-SignedOut j (ok hash) db h =
        ground (arith, h, exists-deleted (of_user user_id) (of_user j) db.sessions h)

    put_password-Gone :
        (j : ℕ) (hash : Result String) (db : Db)
        → Gone db
        → Gone (put_password now j actor hash db).0
    unfolding put_password delete_all_sessions_for_user
    put_password-Gone j (raised e) db h = h
    put_password-Gone j (ok hash) db h = ground (
      arith,
      h,
      exists-updated (has_id user_id) (has_id j)
          (λ u. record u { password_hash = hash; updated_at = now }) db.users (λ u. refl),
    )

    pub set_user_password-SignedOut :
        (j : ℕ) (password : String) (db : Db)
        → SignedOut db
        → SignedOut (set_user_password scrypt now salt j password actor db).0
    unfolding set_user_password
    set_user_password-SignedOut j password db =
        put_password-SignedOut j (hash_password scrypt salt password) db

    pub set_user_password-Gone :
        (j : ℕ) (password : String) (db : Db)
        → Gone db
        → Gone (set_user_password scrypt now salt j password actor db).0
    unfolding set_user_password
    set_user_password-Gone j password db =
        put_password-Gone j (hash_password scrypt salt password) db

    put_password-clears :
        (hash : Result String) (db db' : Db)
        → put_password now user_id actor hash db ≡ (db', ok true)
        → SignedOut db'
    unfolding put_password delete_all_sessions_for_user
    put_password-clears (raised e) db db' h = absurd (ground (arith, h))
    put_password-clears (ok hash) db db' h =
        subst SignedOut
          (taken (ok true) (ok false) (exists (has_id user_id) db.users) _ _ db' (ground arith) h)
          (exists-delete (of_user user_id) db.sessions)

    pub set_user_password-clears :
        (password : String) (db db' : Db)
        → set_user_password scrypt now salt user_id password actor db ≡ (db', ok true)
        → SignedOut db'
    unfolding set_user_password
    set_user_password-clears password db db' h =
        put_password-clears (hash_password scrypt salt password) db db' h

  module _ (now : ℕ) (actor : String) where
    pub set_user_role-SignedOut :
        (j : ℕ) (role : String) (db : Db)
        → SignedOut db
        → SignedOut (set_user_role now j role actor db).0
    unfolding set_user_role delete_all_sessions_for_user
    set_user_role-SignedOut j role db h =
        ground (arith, h, exists-deleted (of_user user_id) (of_user j) db.sessions h)

    pub set_user_role-Gone :
        (j : ℕ) (role : String) (db : Db) → Gone db → Gone (set_user_role now j role actor db).0
    unfolding set_user_role delete_all_sessions_for_user
    set_user_role-Gone j role db h = ground (
      arith,
      h,
      exists-updated (has_id user_id) (has_id j) (λ u. record u { role = role; updated_at = now })
          db.users (λ u. refl),
    )

    pub delete_user-SignedOut :
        (j : ℕ) (db : Db) → SignedOut db → SignedOut (delete_user now j actor db).0
    unfolding delete_user delete_all_sessions_for_user
    delete_user-SignedOut j db h =
        ground (arith, exists-deleted (of_user user_id) (of_user j) db.sessions h)

    pub delete_user-Gone : (j : ℕ) (db : Db) → Gone db → Gone (delete_user now j actor db).0
    unfolding delete_user delete_all_sessions_for_user
    delete_user-Gone j db h =
        ground (arith, h, exists-deleted (has_id user_id) (has_id j) db.users h.0)

    pub set_user_role-clears :
        (role : String) (db db' : Db)
        → set_user_role now user_id role actor db ≡ (db', ok true)
        → SignedOut db'
    unfolding set_user_role delete_all_sessions_for_user
    set_user_role-clears role db db' h = elim (Bool-cases (is_role role)) [
      | inl known ↦
          subst SignedOut
            (taken (ok true) (ok false) (exists (has_id user_id) db.users) _ _ db' (ground arith)
              (behind (is_role role) _ _ _ known h))
            (exists-delete (of_user user_id) db.sessions)
      | inr unknown ↦ absurd (ground (arith, unknown, h))
    ]

    pub delete_user-clears :
        (db db' : Db) → delete_user now user_id actor db ≡ (db', true) → SignedOut db'
    unfolding delete_user delete_all_sessions_for_user
    delete_user-clears db db' h =
        subst SignedOut
          (taken true false (exists (has_id user_id) db.users) _ _ db' (ground arith) h)
          (exists-delete (of_user user_id) db.sessions)

    pub delete_user-itself :
        (db : Db) → user_id ≤ db.user_sequence → Gone (delete_user now user_id actor db).0
    unfolding delete_user delete_all_sessions_for_user
    delete_user-itself db h = ground (arith, h, exists-delete (has_id user_id) db.users)
