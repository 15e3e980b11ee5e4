-- ===== src/Accounts/Sessions/Sliding.antt =====
-- How long a session lasts that is used.
use radiobeacon.Common.{
  ℕ, ◌≤◌, ◌+◌, String, ◌≡◌, refl, sym, ap, ◌∙◌, inl, inr, arith, Bool, true, false, Option, none,
  some, List, [], ◌∷◌, All, find_row, delete, update, if◌then◌else◌, Bool-cases,
}
use radiobeacon.Database.{Db, UserRow, SessionRow}
use radiobeacon.Accounts.Users.{User, has_id, row_to_user}
use radiobeacon.Accounts.Sessions.{
  Digest, is_expired, has_token, joined, pair_with, or_else, touch, accept, validate_session,
  session_refresh_threshold_seconds,
}
use radiobeacon.Accounts.Sessions.Joined.{pair_of}

-- A row that is not expired is not expired after a touch either, until half of the time is over.
touch-live :
    (t : String) (now later : ℕ) (s : SessionRow)
    → is_expired now s ≡ false
    → later ≤ now + session_refresh_threshold_seconds
    → (is_expired later (touch now s) ≡ false)
      × (has_token t (touch now s) ≡ has_token t s)
      × ((touch now s).user_id ≡ s.user_id)
unfolding touch
touch-live t now later s live soon = ground (arith, live, soon)

Fresh : ℕ → List SessionRow → Type 0
Fresh now rows = All (λ s. is_expired now s ≡ false) rows

delete-Fresh : (now : ℕ) (rows : List SessionRow) → Fresh now (delete (is_expired now) rows)
unfolding Fresh
delete-Fresh now [] = tt
delete-Fresh now (s ∷ rows) = elim (Bool-cases (is_expired now s)) [
  | inl dead ↦ rw dead (delete-Fresh now rows)
  | inr live ↦ rw live (live, delete-Fresh now rows)
]

module _ (t : String) (now later : ℕ) (soon : later ≤ now + session_refresh_threshold_seconds) where
  abbrev slid : List SessionRow → List SessionRow
  slid rows = delete (is_expired later) (update (has_token t) (touch now) rows)

  -- The pair that was found is found again.
  joined-slid :
      (users : List UserRow) (rows : List SessionRow) (p : SessionRow × UserRow)
      → Fresh now rows
      → joined t now users rows ≡ some p
      → joined t later users (slid rows) ≡ some (touch now p.0, p.1)
  unfolding joined or_else pair_with Fresh touch
  joined-slid users [] p f h = cc
  joined-slid users (r ∷ rows) p f h = elim (Bool-cases (has_token t r)) [
    | inl ours ↦
        let (alive, named, owned) = touch-live t now later r f.0 soon in
        elim (pair_of r (find_row (has_id r.user_id) users) (joined t now users rows) p
          (ground (arith, h, f.0, ours))) [
            | inl (missing, found) ↦
                rw (ours, alive)
                  (rw (named, ours, alive, owned, missing) (joined-slid users rows p f.1 found))
            | inr (found, same) ↦
                rw (ours, alive) (rw (named, ours, alive, owned, found) (rw (same) refl))
          ]
    | inr others ↦
        let rest = joined-slid users rows p f.1 (ground (arith, h, others)) in
        elim (Bool-cases (is_expired later r)) [
          | inl dead ↦ rw (others, dead) rest
          | inr alive ↦ rw (others, alive) (rw (others) rest)
        ]
  ]

let_in :
    (b : Bool) (x y : Db) (w : User)
    → b ≡ false
    → Path (Db × Option User) (if b then (x, none) else (y, some w)) (y, some w)
let_in true x y w e = absurd (ground arith)
let_in false x y w e = refl

accepted :
    (t : String) (now : ℕ) (o : Option (SessionRow × UserRow)) (db : Db) (v : User)
    → (accept t now o db).1 ≡ some v
    → (p : SessionRow × UserRow) × (o ≡ some p)
      × (p.1.disabled ≡ false)
      × (row_to_user p.1 ≡ v)
      × (accept t now o db
          ≡ (record db { sessions = update (has_token t) (touch now) db.sessions }, some v))
unfolding accept
accepted t now none db v h = absurd (ground (arith, h))
accepted t now (some (s, u)) db v h = elim (Bool-cases u.disabled) [
  | inl disabled ↦ absurd (ground (arith, h, disabled))
  | inr enabled ↦
      let same : row_to_user u ≡ v =
        answer (sym (ap (λ r. r.1) (let_in u.disabled _ _ _ enabled)) ∙ h) in
      (
        (s, u),
        refl,
        enabled,
        same,
        let_in u.disabled _ _ _ enabled
            ∙ ap
                (λ w.
                  (record db { sessions = update (has_token t) (touch now) db.sessions }, some w))
                same,
      )
]
  where
    answer : {w : User} → Path (Option User) (some w) (some v) → w ≡ v
    answer h = cc

-- A token that stood for a user at `now` stands for the same user again at any time in the fifteen days
-- after it, as long as nothing else is done meanwhile.
pub validate-slides :
    (digest : Digest) (now later : ℕ) (token : String) (db : Db) (v : User)
    → later ≤ now + session_refresh_threshold_seconds
    → (validate_session digest now token db).1 ≡ some v
    → (validate_session digest later token (validate_session digest now token db).0).1 ≡ some v
unfolding validate_session
validate-slides digest now later token db v soon valid =
    let t = digest token in
    let rows = delete (is_expired now) db.sessions in
    let (p, found, enabled, user, after) =
      accepted t now (joined t now db.users rows) (record db { sessions = rows }) v valid in
    rw after (
      rw (joined-slid t now later soon db.users rows p (delete-Fresh now db.sessions) found)
        (ap (λ r. r.1) (let_in p.1.disabled _ _ _ enabled) ∙ ap some user))
