-- ===== src/Policy/Resolution.antt =====
-- `resolve_policy`: what a policy name means to the runner and to the beacon.
use radiobeacon.Common.{
  ℕ, String, ◌≡◌, ◌≢◌, refl, ap, ◌∙◌, true, false, Option, none, some, List, [], ◌∷◌, ◌++◌, arith,
  str_eq, eq_iff, ℤ, pos, exists, find_row, update, inl, inr, Bool-cases,
}
use radiobeacon.Common.Result.{Result, ok, raised, value_error, total_map, ◌>>=◌}
use radiobeacon.Database.{Db, Kind, once, interval, cron, other, PolicyRow}
use radiobeacon.Database.Settings.{get_setting}
use radiobeacon.Cron.{World}
use radiobeacon.Policy.{
  Policy, Schedule, named, default_interval, fetch_interval, row_to_policy, fallback_policy,
  get_policy, get_policy_object, map_row, option_result, default_policy, named_policy,
  resolve_policy, policy_for,
}
use radiobeacon.Policy.Edits.{Cleaned, cleaned_row, upsert_policy, set_policy}
use radiobeacon.Policy.Validation.{validate_row, set_policy-eq-ok}

find_row-upsert :
    (row : PolicyRow) (rows : List PolicyRow)
    → find_row (named row.name) (upsert_policy row rows) ≡ some row
unfolding upsert_policy
find_row-upsert row rows = elim (Bool-cases (exists (named row.name) rows)) [
  | inl old ↦ rw old (updated rows old)
  | inr new ↦ rw new (appended rows new)
]
  where
    self : named row.name row ≡ true
    self = (eq_iff row.name row.name).1 refl

    updated :
        (rs : List PolicyRow)
        → exists (named row.name) rs ≡ true
        → find_row (named row.name) (update (named row.name) (λ _. row) rs) ≡ some row
    updated [] h = cc h
    updated (r ∷ rs) h = elim (Bool-cases (named row.name r)) [
      | inl hit ↦ rw (hit, self) refl
      | inr miss ↦ rw (miss, miss) (updated rs (rw miss at h))
    ]

    appended :
        (rs : List PolicyRow)
        → exists (named row.name) rs ≡ false
        → find_row (named row.name) (rs ++ row ∷ []) ≡ some row
    appended [] h = rw self refl
    appended (r ∷ rs) h = ground (arith, appended rs)

str_eq_ne : (s t : String) → s ≢ t → str_eq s t ≡ false
str_eq_ne s t h = ground (arith, eq_iff s t)

-- A stored row with a non-empty name is what the name means.
resolve_found :
    (w : World) (db : Db) (name : String) (row : PolicyRow)
    → name ≢ ""
    → get_policy db name ≡ some row
    → resolve_policy w db (some name) ≡ row_to_policy w db row
unfolding resolve_policy get_policy_object
resolve_found w db name row h e = rw (str_eq_ne name "" h, e) (go (row_to_policy w db row))
  where
    go : (r : Result Policy) → (option_result (some r) >>= named_policy w db name) ≡ r
    go (ok p) = refl
    go (raised x) = refl

-- Once a policy is set, its name, unless empty, resolves to the row that validation made of it.
resolve-set_policy :
    (w : World) (now : ℕ) (args : PolicyRow) (db : Db) {db' : Db}
    → args.name ≢ ""
    → set_policy w now args db ≡ ok db'
    → (c : Cleaned) × (validate_row w args ≡ ok c)
      × (resolve_policy w db' (some args.name) ≡ row_to_policy w db' (cleaned_row args c))
unfolding get_policy
resolve-set_policy w now args db {db'} nonempty h =
    let (c, p, q) = set_policy-eq-ok w now args db h in
    (
      c,
      p,
      resolve_found w db' args.name (cleaned_row args c) nonempty
          (ap (find_row (named args.name)) q ∙ find_row-upsert (cleaned_row args c) db.policies),
    )

module _ (w : World) (db : Db) (i : ℤ)
    (setting : default_interval
        (get_setting w.environ true "ADAPTERS_DEFAULT_INTERVAL_SECONDS" none db)
      ≡ ok i) where
  interval_total : (k : Kind) (s : Option ℤ) → (j : ℤ) × (fetch_interval w db k s ≡ ok j)
  unfolding fetch_interval
  interval_total once none = (pos 0, refl)
  interval_total interval none = (i, setting)
  interval_total cron none = (pos 0, refl)
  interval_total (other t) none = (pos 0, refl)
  interval_total k (some j) = (j, refl)

  row_total : (r : PolicyRow) → (p : Policy) × (row_to_policy w db r ≡ ok p)
  unfolding row_to_policy
  row_total r =
      total_map (fetch_interval w db r.fetch_kind r.fetch_interval_seconds) _
        (interval_total r.fetch_kind r.fetch_interval_seconds)

  object_total : (name : String) → (o : Option Policy) × (get_policy_object w db name ≡ ok o)
  unfolding get_policy_object
  object_total name = go (get_policy db name)
    where
      go : (o : Option PolicyRow) → (q : Option Policy) × (option_result (map_row w db o) ≡ ok q)
      go none = (none, refl)
      go (some r) = let (p, e) = row_total r in (some p, rw e refl)

  default_total : (name : String) → (p : Policy) × (default_policy w db name ≡ ok p)
  unfolding default_policy
  default_total name = total_map (get_policy_object w db "default") _ (object_total "default")

  named_total :
      (name : String) (o : Option Policy) → (p : Policy) × (named_policy w db name o ≡ ok p)
  unfolding named_policy
  named_total name none = default_total name
  named_total name (some p) = (p, refl)

-- `resolve_policy` returns for every name, whatever the table holds, as long as the default interval
-- setting is absent, empty or a number.
resolve_total :
    (w : World) (db : Db) (name : Option String) (i : ℤ)
    → default_interval (get_setting w.environ true "ADAPTERS_DEFAULT_INTERVAL_SECONDS" none db)
      ≡ ok i
    → (p : Policy) × (resolve_policy w db name ≡ ok p)
unfolding resolve_policy
resolve_total w db none i h = default_total w db i h "default"
resolve_total w db (some name) i h = elim (Bool-cases (str_eq name "")) [
  | inl empty ↦ rw empty (default_total w db i h "default")
  | inr given ↦
      let (o, e) = object_total w db i h name in
      let (p, f) = named_total w db i h name o in (p, rw (given, e) f)
]

-- A stored interval policy with no seconds of its own makes `resolve_policy` raise ValueError for its
-- name when the default interval setting is neither empty nor a number.
resolve_raises :
    (w : World) (db : Db) (name : String) (row : PolicyRow)
    → name ≢ ""
    → get_policy db name ≡ some row
    → row.fetch_kind ≡ interval
    → row.fetch_interval_seconds ≡ none
    → default_interval (get_setting w.environ true "ADAPTERS_DEFAULT_INTERVAL_SECONDS" none db)
      ≡ raised value_error
    → policy_for w db (some name) ≡ raised value_error
unfolding policy_for row_to_policy
resolve_raises w db name row h e k s d = rw (resolve_found w db name row h e, k, s, d) refl

-- With no row for the name and none for `default`, the name means an interval fetch of ten seconds
-- and a single airing, whatever the settings hold.
resolve_missing :
    (w : World) (db : Db) (name : String)
    → name ≢ ""
    → get_policy db name ≡ none
    → get_policy db "default" ≡ none
    → resolve_policy w db (some name) ≡ ok (fallback_policy name)
unfolding resolve_policy get_policy_object default_policy named_policy
resolve_missing w db name h e d = rw (str_eq_ne name "" h, e, d) refl

-- The transmit half of a stored row.
abbrev pub transmit_of : PolicyRow → Schedule
transmit_of r = record {
  kind = r.transmit_kind;
  interval_seconds = r.transmit_interval_seconds;
  cron = r.transmit_cron;
  count = some r.transmit_count;
}

-- Where `default` is the only row, every name has its schedule.
pub only_default :
    (w : World) (db : Db) (row : PolicyRow) (i : ℤ)
    → row.name ≡ "default"
    → row.fetch_interval_seconds ≡ some i
    → db.policies ≡ row ∷ []
    → (name : Option String) → policy_for w db name ≡ ok (transmit_of row)
unfolding policy_for resolve_policy default_policy named_policy get_policy_object get_policy
    row_to_policy fetch_interval
only_default w db row i n s p none = rw (p, n, s) refl
only_default w db row i n s p (some name) = elim (Bool-cases (str_eq name "")) [
  | inl empty ↦ rw (empty, p, n, s) refl
  | inr given ↦ elim (Bool-cases (str_eq "default" name)) [
    | inl same ↦ rw (given, p, n, same, s) refl
    | inr differs ↦ rw (given, p, n, differs, s) refl
  ]
]
