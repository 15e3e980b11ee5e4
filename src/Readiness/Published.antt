-- ===== src/Readiness/Published.antt =====
-- What a publication changes of the readiness of the items.
use radiobeacon.Common.{
  ℕ, ◌≤◌, String, ◌≡◌, refl, false, ◌&&◌, some, List, [], ◌∷◌, ◌++◌, arith, eq_iff, exists,
  exists-append, update, All, if◌then◌else◌, inl, inr, Bool-cases,
}
use radiobeacon.Database.{Db, AuditRow, ReadyRow}
use radiobeacon.Readiness.{
  is_ready, published_now, mark_item_ready_published, get_item_ready_published_at, published,
  has_both, later_than, same_item, groups,
}

-- No audit row is from after `now`.
abbrev pub IsPast : ℕ → List AuditRow → Type 0
IsPast now log = All (λ a. a.recorded_at ≤ now) log

-- The audit row of a publication.
abbrev pub publication : ℕ → String → String × String → AuditRow
publication now actor k = record {
  event_type = "item.content_ready.published";
  actor = actor;
  source = some k.0;
  item_id = some k.1;
  details = [];
  recorded_at = now;
}

pub IsPast-append :
    (now : ℕ) (log : List AuditRow) (a : AuditRow)
    → a.recorded_at ≤ now
    → IsPast now log
    → IsPast now (log ++ a ∷ [])
IsPast-append now [] a le h = (le, tt)
IsPast-append now (b ∷ log) a le h = (h.0, IsPast-append now log a le h.1)

pub IsPast-not_later :
    (source item_id : String) (now : ℕ) (log : List AuditRow)
    → IsPast now log
    → later_than source item_id now log ≡ false
unfolding later_than
IsPast-not_later source item_id now [] h = refl
IsPast-not_later source item_id now (a ∷ log) h =
    let rest = IsPast-not_later source item_id now log h.1 in ground (arith, h.0, rest)

pub groups-publication :
    (now : ℕ) (actor : String) (k : String × String) (log : List AuditRow)
    → groups (log ++ publication now actor k ∷ []) ≡ groups log
unfolding groups
groups-publication now actor k [] = refl
groups-publication now actor k (a ∷ log) = rw (groups-publication now actor k log) refl

pub later_than-publication :
    (source item_id : String) (t now : ℕ) (actor : String) (k : String × String)
    (log : List AuditRow)
    → later_than source item_id t (log ++ publication now actor k ∷ [])
      ≡ later_than source item_id t log
unfolding later_than
later_than-publication source item_id t now actor k [] = ground arith
later_than-publication source item_id t now actor k (a ∷ log) =
    rw (later_than-publication source item_id t now actor k log) refl

pub has_both-publication :
    (source item_id : String) (now : ℕ) (actor : String) (k : String × String) (log : List AuditRow)
    → has_both source item_id (log ++ publication now actor k ∷ []) ≡ has_both source item_id log
unfolding has_both
has_both-publication source item_id now actor k log =
    rw (exists-append, exists-append) (ground arith)

published-update :
    (source item_id s i : String) (now : ℕ) (rows : List ReadyRow)
    → published source item_id (update (is_ready s i) (published_now now) rows) ≡ (
        if same_item (source, item_id) (s, i) && exists (is_ready s i) rows
        then some now
        else published source item_id rows)
published-update source item_id s i now [] = ground arith
published-update source item_id s i now (r ∷ rows) = ground (
  arith,
  published-update source item_id s i now rows,
  eq_iff r.source source,
  eq_iff r.source s,
  eq_iff source s,
  eq_iff r.item_id item_id,
  eq_iff r.item_id i,
  eq_iff item_id i,
)

published-append :
    (source item_id s i : String) (now : ℕ) (rows : List ReadyRow)
    → exists (is_ready s i) rows ≡ false
    → published source item_id (rows ++ record { source = s; item_id = i; published_at = now } ∷ [])
      ≡ (if same_item (source, item_id) (s, i) then some now else published source item_id rows)
published-append source item_id s i now [] h =
    ground (arith, eq_iff source s, eq_iff s source, eq_iff item_id i, eq_iff i item_id)
published-append source item_id s i now (r ∷ rows) h = ground (
  arith,
  h,
  published-append source item_id s i now rows,
  eq_iff r.source source,
  eq_iff r.source s,
  eq_iff source s,
  eq_iff r.item_id item_id,
  eq_iff r.item_id i,
  eq_iff item_id i,
)

pub published-mark :
    (source item_id s i : String) (now : ℕ) (db : Db)
    → get_item_ready_published_at source item_id (mark_item_ready_published now s i db) ≡ (
        if same_item (source, item_id) (s, i)
        then some now
        else get_item_ready_published_at source item_id db)
unfolding get_item_ready_published_at mark_item_ready_published
published-mark source item_id s i now db =
    elim (Bool-cases (exists (is_ready s i) db.item_readiness)) [
      | inl old ↦
          rw (old, published-update source item_id s i now db.item_readiness, old) (ground arith)
      | inr new ↦ rw new (published-append source item_id s i now db.item_readiness new)
    ]
