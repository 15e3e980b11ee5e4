-- ===== src/Accounts/Sessions/Joined.antt =====
-- Whose session a token that validates belongs to, and what the operations leave of a user's sessions.
use radiobeacon.Common.Exists.{
  exists-deleted, exists-before, exists-updated, exists-added, find_row-holds,
}
use radiobeacon.Common.{
  ℕ, String, ◌≡◌, refl, sym, subst, inl, inr, arith, true, false, Option, none, some, List, [], ◌∷◌,
  ◌⊎◌, ◌==◌, exists, find_row, delete, Bool-cases, Option-cases, exists-find_row,
}
use radiobeacon.Database.{Db, UserRow, SessionRow}
use radiobeacon.Accounts.Users.{User, has_id, of_user}
use radiobeacon.Accounts.Users.Kept.{SignedOut, Gone}
use radiobeacon.Accounts.Sessions.{
  Digest, is_expired, is_live, has_token, joined, pair_with, or_else, touch, accept, create_session,
  validate_session, delete_session,
}

pub pair_of :
    (r : SessionRow) (o : Option UserRow) (rest : Option (SessionRow × UserRow))
    (p : SessionRow × UserRow)
    → or_else (pair_with r o) rest ≡ some p
    → ((o ≡ none) × (rest ≡ some p)) ⊎ ((o ≡ some p.1) × (r ≡ p.0))
unfolding or_else pair_with
pair_of r none rest p h = inl (refl, h)
pair_of r (some u) rest p h = inr (cc, cc)

-- A joined pair is of a session and of its user.
pub joined-of_user :
    (token_hash : String) (now : ℕ) (users : List UserRow) (rows : List SessionRow)
    (p : SessionRow × UserRow)
    → joined token_hash now users rows ≡ some p
    → (exists (of_user p.1.id) rows ≡ true) × (exists (has_id p.1.id) users ≡ true)
unfolding joined
joined-of_user token_hash now users [] p h = cc
joined-of_user token_hash now users (r ∷ rows) p h = elim (Bool-cases (is_live token_hash now r)) [
  | inl live ↦
      elim (pair_of r (find_row (has_id r.user_id) users) (joined token_hash now users rows) p
        (ground (arith, h, live))) [
          | inl (missing, later) ↦
              let found = joined-of_user token_hash now users rows p later in
              (ground (arith, found.0), found.1)
          | inr (found, same) ↦
              let e : p.1.id ≡ r.user_id =
                ground (arith, find_row-holds (has_id r.user_id) users {x = p.1} found) in
              (
                ground (arith, e),
                subst (λ i. exists (has_id i) users ≡ true) (sym e)
                    (exists-find_row (has_id r.user_id) users {x = p.1} found),
              )
        ]
  | inr dead ↦
      let found = joined-of_user token_hash now users rows p (ground (arith, h, dead)) in
      (ground (arith, found.0), found.1)
]

accept-user :
    (token_hash : String) (now : ℕ) (p : SessionRow × UserRow) (db db' : Db) (v : User)
    → accept token_hash now (some p) db ≡ (db', some v)
    → p.1.id ≡ v.id
unfolding accept
accept-user token_hash now (s, u) db db' v h = elim (Bool-cases u.disabled) [
  | inl disabled ↦ ground (arith, h, disabled)
  | inr enabled ↦ ground (arith, h, enabled)
]

pub validate-of_user :
    (digest : Digest) (now : ℕ) (token : String) (db db' : Db) (v : User)
    → validate_session digest now token db ≡ (db', some v)
    → (exists (of_user v.id) db.sessions ≡ true) × (exists (has_id v.id) db.users ≡ true)
unfolding validate_session accept
validate-of_user digest now token db db' v h = elim (Option-cases found) [
  | inl none_live ↦ absurd (ground (arith, h, none_live))
  | inr (p, live) ↦
      let (session, user) = joined-of_user (digest token) now db.users kept.sessions p live in
      let same =
        accept-user (digest token) now p kept db' v
          (subst (λ o. accept (digest token) now o kept ≡ (db', some v)) live h) in
      (
        subst (λ i. exists (of_user i) db.sessions ≡ true) same
            (exists-before (of_user p.1.id) (is_expired now) db.sessions session),
        subst (λ i. exists (has_id i) db.users ≡ true) same user,
      )
]
  where
    kept : Db
    kept = record db { sessions = delete (is_expired now) db.sessions }

    found : Option (SessionRow × UserRow)
    found = joined (digest token) now db.users kept.sessions

module _ (user_id : ℕ) where
  accept-SignedOut :
      (token_hash : String) (now : ℕ) (found : Option (SessionRow × UserRow)) (db : Db)
      → SignedOut user_id db
      → SignedOut user_id (accept token_hash now found db).0
  unfolding accept touch
  accept-SignedOut token_hash now none db h = h
  accept-SignedOut token_hash now (some (s, u)) db h = ground (
    arith,
    h,
    exists-updated (of_user user_id) (has_token token_hash) (touch now) db.sessions
        (λ r. ground arith),
  )

  pub create_session-SignedOut :
      (digest : Digest) (now : ℕ) (token : String) (j : ℕ) (db : Db)
      → j == user_id ≡ false
      → SignedOut user_id db
      → SignedOut user_id (create_session digest now token j db).0
  unfolding create_session
  create_session-SignedOut digest now token j db ne h =
      elim (Bool-cases (exists (has_token (digest token)) db.sessions)) [
        | inl taken ↦ rw taken h
        | inr fresh ↦ rw fresh (exists-added (of_user user_id) db.sessions _ h ne)
      ]

  pub validate_session-SignedOut :
      (digest : Digest) (now : ℕ) (token : String) (db : Db)
      → SignedOut user_id db
      → SignedOut user_id (validate_session digest now token db).0
  unfolding validate_session
  validate_session-SignedOut digest now token db h =
      accept-SignedOut (digest token) now _
        (record db { sessions = delete (is_expired now) db.sessions })
        (exists-deleted (of_user user_id) (is_expired now) db.sessions h)

  pub delete_session-SignedOut :
      (digest : Digest) (token : String) (db : Db)
      → SignedOut user_id db
      → SignedOut user_id (delete_session digest token db)
  unfolding delete_session
  delete_session-SignedOut digest token db h =
      exists-deleted (of_user user_id) (has_token (digest token)) db.sessions h

  pub create_session-Gone :
      (digest : Digest) (now : ℕ) (token : String) (j : ℕ) (db : Db)
      → Gone user_id db
      → Gone user_id (create_session digest now token j db).0
  unfolding create_session
  create_session-Gone digest now token j db h = ground (arith, h)

  accept-Gone :
      (token_hash : String) (now : ℕ) (found : Option (SessionRow × UserRow)) (db : Db)
      → Gone user_id db
      → Gone user_id (accept token_hash now found db).0
  unfolding accept
  accept-Gone token_hash now none db h = h
  accept-Gone token_hash now (some (s, u)) db h = ground (arith, h)

  pub validate_session-Gone :
      (digest : Digest) (now : ℕ) (token : String) (db : Db)
      → Gone user_id db
      → Gone user_id (validate_session digest now token db).0
  unfolding validate_session
  validate_session-Gone digest now token db h = accept-Gone (digest token) now _ _ h

  pub delete_session-Gone :
      (digest : Digest) (token : String) (db : Db)
      → Gone user_id db
      → Gone user_id (delete_session digest token db)
  unfolding delete_session
  delete_session-Gone digest token db h = h
