-- ===== src/Accounts/Revoked.antt =====
-- Who a token can still stand for after an account was changed or deleted.
use radiobeacon.Common.Exists.{find_row-none}
use radiobeacon.Common.{
  ℕ, ◌≤◌, String, ◌≡◌, refl, ap, subst, ◌⊎◌, inl, inr, arith, true, false, none, List, [], ◌∷◌, All,
  ◌==◌, exists, Bool-cases, Option-cases,
}
use radiobeacon.Common.Bytes.{Bytes}
use radiobeacon.Common.Result.{ok}
use radiobeacon.Database.{Db}
use radiobeacon.Accounts.Password.{Scrypt}
use radiobeacon.Accounts.Users.{
  User, has_id, of_user, get_user, set_user_password, set_user_role, delete_user,
}
use radiobeacon.Accounts.Users.Kept.{
  SignedOut, Gone, create_user-SignedOut, create_user-Gone, bootstrap-SignedOut, bootstrap-Gone,
  set_user_password-SignedOut, set_user_password-Gone, set_user_role-SignedOut, set_user_role-Gone,
  delete_user-SignedOut, delete_user-Gone, set_user_password-clears, set_user_role-clears,
  delete_user-clears, delete_user-itself,
}
use radiobeacon.Accounts.Sessions.{Digest, validate_session}
use radiobeacon.Accounts.Sessions.Joined.{
  validate-of_user, create_session-SignedOut, validate_session-SignedOut, delete_session-SignedOut,
  create_session-Gone, validate_session-Gone, delete_session-Gone,
}
use radiobeacon.Accounts.Calls.{
  Call, create, bootstrap, change_password, change_role, remove, sign_in, request, sign_out,
  perform, run, signs_in, stands_for,
}

module _ (scrypt : Scrypt) (digest : Digest) (user_id : ℕ) where
  perform-SignedOut :
      (now : ℕ) (actor : String) (call : Call) (db : Db)
      → signs_in user_id call ≡ false
      → SignedOut user_id db
      → SignedOut user_id (perform scrypt digest now actor call db)
  unfolding perform
  perform-SignedOut now actor (create salt username password role) db q =
      create_user-SignedOut user_id scrypt now salt actor username password role db
  perform-SignedOut now actor (bootstrap salt password) db q =
      bootstrap-SignedOut user_id scrypt now salt actor password db
  perform-SignedOut now actor (change_password salt j password) db q =
      set_user_password-SignedOut user_id scrypt now salt actor j password db
  perform-SignedOut now actor (change_role j role) db q =
      set_user_role-SignedOut user_id now actor j role db
  perform-SignedOut now actor (remove j) db q = delete_user-SignedOut user_id now actor j db
  perform-SignedOut now actor (sign_in token j) db q =
      create_session-SignedOut user_id digest now token j db q
  perform-SignedOut now actor (request token) db q =
      validate_session-SignedOut user_id digest now token db
  perform-SignedOut now actor (sign_out token) db q =
      delete_session-SignedOut user_id digest token db

  perform-Gone :
      (now : ℕ) (actor : String) (call : Call) (db : Db)
      → Gone user_id db
      → Gone user_id (perform scrypt digest now actor call db)
  unfolding perform
  perform-Gone now actor (create salt username password role) db h =
      create_user-Gone user_id scrypt now salt actor username password role db h
  perform-Gone now actor (bootstrap salt password) db h =
      bootstrap-Gone user_id scrypt now salt actor password db h
  perform-Gone now actor (change_password salt j password) db h =
      set_user_password-Gone user_id scrypt now salt actor j password db h
  perform-Gone now actor (change_role j role) db h =
      set_user_role-Gone user_id now actor j role db h
  perform-Gone now actor (remove j) db h = delete_user-Gone user_id now actor j db h
  perform-Gone now actor (sign_in token j) db h =
      create_session-Gone user_id digest now token j db h
  perform-Gone now actor (request token) db h = validate_session-Gone user_id digest now token db h
  perform-Gone now actor (sign_out token) db h = delete_session-Gone user_id digest token db h

  run-SignedOut :
      (calls : List (ℕ × String × Call)) (db : Db)
      → All (λ c. signs_in user_id c.2 ≡ false) calls
      → SignedOut user_id db
      → SignedOut user_id (run scrypt digest calls db)
  unfolding run
  run-SignedOut [] db q h = h
  run-SignedOut ((now, actor, call) ∷ calls) db q h =
      run-SignedOut calls _ q.1 (perform-SignedOut now actor call db q.0 h)

  run-Gone :
      (calls : List (ℕ × String × Call)) (db : Db)
      → Gone user_id db
      → Gone user_id (run scrypt digest calls db)
  unfolding run
  run-Gone [] db h = h
  run-Gone ((now, actor, call) ∷ calls) db h = run-Gone calls _ (perform-Gone now actor call db h)

  changed-SignedOut :
      (now : ℕ) (salt : Bytes) (password role actor : String) (db db' : Db)
      → (set_user_password scrypt now salt user_id password actor db ≡ (db', ok true))
        ⊎ (set_user_role now user_id role actor db ≡ (db', ok true))
        ⊎ (delete_user now user_id actor db ≡ (db', true))
      → SignedOut user_id db'
  changed-SignedOut now salt password role actor db db' (inl h) =
      set_user_password-clears user_id scrypt now salt actor password db db' h
  changed-SignedOut now salt password role actor db db' (inr (inl h)) =
      set_user_role-clears user_id now actor role db db' h
  changed-SignedOut now salt password role actor db db' (inr (inr h)) =
      delete_user-clears user_id now actor db db' h

  nobody :
      (now : ℕ) (token : String) (db : Db)
      → (SignedOut user_id db) ⊎ (Gone user_id db)
      → stands_for user_id (validate_session digest now token db).1 ≡ false
  nobody now token db out = elim (Option-cases (validate_session digest now token db).1) [
    | inl refused ↦ rw refused refl
    | inr (v, valid) ↦
        let (session, user) =
          validate-of_user digest now token db (validate_session digest now token db).0 v
            (ap (λ o. ((validate_session digest now token db).0, o)) valid) in
        rw valid (other v session user out)
  ]
    where
      equal : {i : ℕ} → i == user_id ≡ true → i ≡ user_id
      equal h = ground arith

      other :
          (v : User)
          → exists (of_user v.id) db.sessions ≡ true
          → exists (has_id v.id) db.users ≡ true
          → (SignedOut user_id db) ⊎ (Gone user_id db)
          → v.id == user_id ≡ false
      other v session user (inl out) = elim (Bool-cases (v.id == user_id)) [
        | inl same ↦ absurd (
            ground
              (arith, subst (λ i. exists (of_user i) db.sessions ≡ true) (equal same) session, out))
        | inr differs ↦ differs
      ]
      other v session user (inr gone) = elim (Bool-cases (v.id == user_id)) [
        | inl same ↦ absurd (
            ground
              (arith, subst (λ i. exists (has_id i) db.users ≡ true) (equal same) user, gone.0))
        | inr differs ↦ differs
      ]

  -- After a user's password or role was changed or the account deleted, no token stands for the user
  -- until the next login as that user, whatever else is done meanwhile.
  pub change-revokes :
      (now later : ℕ) (salt : Bytes) (password role actor token : String) (db db' : Db)
      (calls : List (ℕ × String × Call))
      → (set_user_password scrypt now salt user_id password actor db ≡ (db', ok true))
        ⊎ (set_user_role now user_id role actor db ≡ (db', ok true))
        ⊎ (delete_user now user_id actor db ≡ (db', true))
      → All (λ c. signs_in user_id c.2 ≡ false) calls
      → stands_for user_id (validate_session digest later token (run scrypt digest calls db')).1
        ≡ false
  change-revokes now later salt password role actor token db db' calls change quiet =
      nobody later token _ (
        inl (
          run-SignedOut calls db' quiet
            (changed-SignedOut now salt password role actor db db' change)))

  -- A deleted account stays deleted: whatever is done afterwards, its identifier names no account and
  -- no token stands for it, given that the identifier had been given out.
  pub deleted_for_good :
      (now later : ℕ) (actor token : String) (db : Db) (calls : List (ℕ × String × Call))
      → user_id ≤ db.user_sequence
      → let db' = run scrypt digest calls (delete_user now user_id actor db).0 in
        (get_user user_id db' ≡ none)
        × (stands_for user_id (validate_session digest later token db').1 ≡ false)
  unfolding get_user
  deleted_for_good now later actor token db calls known =
      let gone =
        run-Gone calls (delete_user now user_id actor db).0
          (delete_user-itself user_id now actor db known) in
      (rw (find_row-none (has_id user_id) _ gone.0) refl, nobody later token _ (inr gone))
