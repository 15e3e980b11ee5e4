-- ===== src/Policy/Validation.antt =====
-- `_validate`, and the rows that `set_policy` lets into the table.
use radiobeacon.Common.{
  ℕ, String, ◌≡◌, refl, sym, subst, true, Option, none, List, [], ◌∷◌, ◌++◌, arith, ℤ, pos,
  at_least, exists, update, delete, All, All-delete, inl, inr, Bool-cases,
}
use radiobeacon.Common.Result.{Result, ok, raised, >>=-eq-ok}
use radiobeacon.Database.{Db, Kind, once, interval, cron, other, PolicyRow}
use radiobeacon.Cron.{World, is_valid_cron}
use radiobeacon.Policy.{or_empty, named}
use radiobeacon.Policy.Edits.{
  none_or_positive, is_known, validate_fetch, validate_transmit, Cleaned, validate, cleaned_row,
  upsert_policy, set_policy, delete_policy,
}

-- What the fetch and the transmit columns of a stored row satisfy.
abbrev pub FetchIsCoherent : World → Kind → Option ℤ → Option String → Type 0
FetchIsCoherent w interval seconds expr = (none_or_positive seconds ≡ true) × (expr ≡ none)
FetchIsCoherent w cron seconds expr = (is_valid_cron w (or_empty expr) ≡ true) × (seconds ≡ none)
FetchIsCoherent w once seconds expr = (seconds ≡ none) × (expr ≡ none)
FetchIsCoherent w (other k) seconds expr = ⊥

abbrev pub TransmitIsCoherent : World → Kind → ℤ → ℤ → Option String → Type 0
TransmitIsCoherent w interval count seconds expr =
    (at_least count 1 ≡ true) × (at_least seconds 1 ≡ true) × (expr ≡ none)
TransmitIsCoherent w cron count seconds expr =
    (at_least count 1 ≡ true) × (seconds ≡ pos 0) × (is_valid_cron w (or_empty expr) ≡ true)
TransmitIsCoherent w once count seconds expr = (count ≡ pos 1) × (seconds ≡ pos 0) × (expr ≡ none)
TransmitIsCoherent w (other k) count seconds expr = ⊥

pub record IsCoherent (w : World) (r : PolicyRow) : Type 0 where
  pub fetch : FetchIsCoherent w r.fetch_kind r.fetch_interval_seconds r.fetch_cron
  pub transmit :
      TransmitIsCoherent w r.transmit_kind r.transmit_count r.transmit_interval_seconds
        r.transmit_cron

abbrev pub validate_row : World → PolicyRow → Result Cleaned
validate_row w r =
    validate w r.fetch_kind r.fetch_interval_seconds r.fetch_cron r.transmit_kind r.transmit_count
      r.transmit_interval_seconds r.transmit_cron

validated_fetch :
    (w : World) (fk k : Kind) (fs : Option ℤ) (fe : Option String) (n s : ℤ) (e : Option String)
    {c : Cleaned}
    → validate w fk fs fe k n s e ≡ ok c
    → FetchIsCoherent w fk c.fetch_interval_seconds c.fetch_cron
unfolding validate
validated_fetch w once k fs fe n s e h = ground arith
validated_fetch w interval k fs fe n s e h = ground arith
validated_fetch w cron k fs fe n s e h = ground arith
validated_fetch w (other t) k fs fe n s e h = ground arith

validated_transmit :
    (w : World) (fk k : Kind) (fs : Option ℤ) (fe : Option String) (n s : ℤ) (e : Option String)
    {c : Cleaned}
    → validate w fk fs fe k n s e ≡ ok c
    → TransmitIsCoherent w k c.transmit_count c.transmit_interval_seconds c.transmit_cron
unfolding validate
validated_transmit w fk once fs fe n s e h = ground arith
validated_transmit w fk interval fs fe n s e h = ground arith
validated_transmit w fk cron fs fe n s e h = ground arith
validated_transmit w fk (other t) fs fe n s e h = ground arith

abbrev pub AllCoherent : World → Db → Type 0
AllCoherent w db = All (IsCoherent w) db.policies

All-upsert :
    (w : World) (row : PolicyRow) (rows : List PolicyRow)
    → IsCoherent w row
    → All (IsCoherent w) rows
    → All (IsCoherent w) (upsert_policy row rows)
unfolding upsert_policy
All-upsert w row rows new h = elim (Bool-cases (exists (named row.name) rows)) [
  | inl old ↦ rw old (updated rows h)
  | inr absent ↦ rw absent (appended rows h)
]
  where
    updated :
        (rs : List PolicyRow)
        → All (IsCoherent w) rs
        → All (IsCoherent w) (update (named row.name) (λ _. row) rs)
    updated [] g = tt
    updated (r ∷ rs) g = elim (Bool-cases (named row.name r)) [
      | inl hit ↦ rw hit (new, updated rs g.1)
      | inr miss ↦ rw miss (g.0, updated rs g.1)
    ]

    appended : (rs : List PolicyRow) → All (IsCoherent w) rs → All (IsCoherent w) (rs ++ row ∷ [])
    appended [] g = (new, tt)
    appended (r ∷ rs) g = (g.0, appended rs g.1)

-- The parts of a `set_policy` that returns.
pub set_policy-eq-ok :
    (w : World) (now : ℕ) (args : PolicyRow) (db : Db) {db' : Db}
    → set_policy w now args db ≡ ok db'
    → (c : Cleaned) × (validate_row w args ≡ ok c)
      × (db'.policies ≡ upsert_policy (cleaned_row args c) db.policies)
unfolding set_policy
set_policy-eq-ok w now args db h =
    let (c, p, q) = >>=-eq-ok (validate_row w args) _ h in (c, p, ground arith)

set_policy-coherent :
    (w : World) (now : ℕ) (args : PolicyRow) (db : Db) {db' : Db}
    → set_policy w now args db ≡ ok db'
    → AllCoherent w db
    → AllCoherent w db'
set_policy-coherent w now args db h inv =
    let (c, p, q) = set_policy-eq-ok w now args db h in
    subst (All (IsCoherent w)) (sym q) (
      All-upsert w (cleaned_row args c) db.policies
        (record {
          fetch =
              validated_fetch w args.fetch_kind args.transmit_kind args.fetch_interval_seconds
                args.fetch_cron args.transmit_count args.transmit_interval_seconds
                args.transmit_cron p;
          transmit =
              validated_transmit w args.fetch_kind args.transmit_kind args.fetch_interval_seconds
                args.fetch_cron args.transmit_count args.transmit_interval_seconds
                args.transmit_cron p;
        })
        inv)

-- The management operations, in any order; a rejected one leaves the table as it was.
pub data Edit : Type 0 where
  set : PolicyRow → Edit
  remove : String → Edit

abbrev pub kept : Db → Result Db → Db
kept db (ok db') = db'
kept db (raised e) = db

abbrev pub edit : World → ℕ → Edit → Db → Db
edit w now (set args) db = kept db (set_policy w now args db)
edit w now (remove name) db = (delete_policy now name db).1

abbrev pub edit_all : World → ℕ → List Edit → Db → Db
edit_all w now [] db = db
edit_all w now (e ∷ es) db = edit_all w now es (edit w now e db)

delete_policy-policies :
    (now : ℕ) (name : String) (db : Db)
    → (delete_policy now name db).1.policies ≡ delete (named name) db.policies
unfolding delete_policy
delete_policy-policies now name db = ground arith

edit-coherent :
    (w : World) (now : ℕ) (e : Edit) (db : Db) → AllCoherent w db → AllCoherent w (edit w now e db)
edit-coherent w now (set args) db inv = go (set_policy w now args db) refl
  where
    go : (r : Result Db) → set_policy w now args db ≡ r → AllCoherent w (kept db r)
    go (ok db') h = set_policy-coherent w now args db h inv
    go (raised e) h = inv
edit-coherent w now (remove name) db inv =
    subst (All (IsCoherent w)) (sym (delete_policy-policies now name db))
      (All-delete (IsCoherent w) (named name) db.policies inv)

-- Whatever policies an operator sets and deletes, accepted or rejected, every row of the table stays
-- coherent: its kinds are known; an interval fetch has no seconds or at least one and a cron fetch a
-- valid expression; an interval transmit has a count and a spacing of at least 1, a cron transmit a
-- count of at least 1 and a valid expression, a `once` transmit a count of 1; and no column of
-- another kind is left over.
pub edit_all-coherent :
    (w : World) (now : ℕ) (es : List Edit) (db : Db)
    → AllCoherent w db
    → AllCoherent w (edit_all w now es db)
edit_all-coherent w now [] db inv = inv
edit_all-coherent w now (e ∷ es) db inv =
    edit_all-coherent w now es (edit w now e db) (edit-coherent w now e db inv)

abbrev pub columns : PolicyRow → Cleaned
columns r = record {
  fetch_interval_seconds = r.fetch_interval_seconds;
  fetch_cron = r.fetch_cron;
  transmit_count = r.transmit_count;
  transmit_interval_seconds = r.transmit_interval_seconds;
  transmit_cron = r.transmit_cron;
}

fetch_accepted :
    (w : World) (k : Kind) (s : Option ℤ) (e : Option String)
    → FetchIsCoherent w k s e
    → (validate_fetch w k s e ≡ ok (s, e)) × (is_known k ≡ true)
unfolding validate_fetch
fetch_accepted w once s e h = ground arith
fetch_accepted w interval s e h = ground arith
fetch_accepted w cron s e h = ground arith
fetch_accepted w (other t) s e h = absurd h

transmit_accepted :
    (w : World) (k : Kind) (n s : ℤ) (e : Option String)
    → TransmitIsCoherent w k n s e
    → (validate_transmit w k n s e ≡ ok (n, s, e)) × (is_known k ≡ true)
unfolding validate_transmit
transmit_accepted w once n s e h = ground arith
transmit_accepted w interval n s e h = ground arith
transmit_accepted w cron n s e h = ground arith
transmit_accepted w (other t) n s e h = absurd h

-- A coherent row is accepted, and its columns come back unchanged: validation normalises nothing
-- twice.
validate-coherent : (w : World) (r : PolicyRow) → IsCoherent w r → validate_row w r ≡ ok (columns r)
unfolding validate
validate-coherent w r h =
    rw
      (
        (fetch_accepted w r.fetch_kind r.fetch_interval_seconds r.fetch_cron h.fetch).1,
        (transmit_accepted w r.transmit_kind r.transmit_count r.transmit_interval_seconds
            r.transmit_cron h.transmit).1,
        (fetch_accepted w r.fetch_kind r.fetch_interval_seconds r.fetch_cron h.fetch).0,
        (transmit_accepted w r.transmit_kind r.transmit_count r.transmit_interval_seconds
            r.transmit_cron h.transmit).0,
      )
      refl
