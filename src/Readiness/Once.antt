-- ===== src/Readiness/Once.antt =====
-- An item is published once for its completions.
use radiobeacon.Common.{
  ℕ, String, ◌≡◌, refl, sym, ap, ◌∙◌, subst, Bool, true, false, not, ◌&&◌, Option, none, some, List,
  [], ◌∷◌, ◌++◌, arith, eq_iff, select, exists, if◌then◌else◌, inl, inr, Bool-cases,
}
use radiobeacon.Common.Cover.{left, left-select}
use radiobeacon.Database.{Db, AuditRow}
use radiobeacon.Database.Audit.{record_audit_event}
use radiobeacon.Readiness.{
  mark_item_ready_published, get_item_ready_published_at, has_both, unpublished, is_settled,
  same_item, groups, find_settled_items, publish_all, check_and_publish,
}
use radiobeacon.Readiness.Published.{
  IsPast, publication, IsPast-append, IsPast-not_later, groups-publication, later_than-publication,
  has_both-publication, published-mark,
}

abbrev Key : Type 0
Key = String × String

-- One turn of the loop.
abbrev publish_one : ℕ → String → Key → Db → Db
publish_one now actor k db =
    record_audit_event now "item.content_ready.published" actor (some k.0) (some k.1) []
      (mark_item_ready_published now k.0 k.1 db)

one-log :
    (now : ℕ) (actor : String) (k : Key) (db : Db)
    → (publish_one now actor k db).audit_log ≡ db.audit_log ++ publication now actor k ∷ []
unfolding mark_item_ready_published
one-log now actor k db = refl

one-IsPast :
    (now : ℕ) (actor : String) (k : Key) (db : Db)
    → IsPast now db.audit_log
    → IsPast now (publish_one now actor k db).audit_log
one-IsPast now actor k db past =
    subst (IsPast now) (sym (one-log now actor k db))
      (IsPast-append now db.audit_log (publication now actor k) (omega arith) past)

one-published :
    (now : ℕ) (actor : String) (k j : Key) (db : Db)
    → get_item_ready_published_at k.0 k.1 (publish_one now actor j db)
      ≡ (if same_item k j then some now else get_item_ready_published_at k.0 k.1 db)
unfolding get_item_ready_published_at
one-published now actor k j db =
    audited k (mark_item_ready_published now j.0 j.1 db) ∙ published-mark k.0 k.1 j.0 j.1 now db
  where
    audited :
        (k : Key) (db : Db)
        → get_item_ready_published_at k.0 k.1 (
            record_audit_event now "item.content_ready.published" actor (some j.0) (some j.1) [] db)
          ≡ get_item_ready_published_at k.0 k.1 db
    audited k db = refl

settled_as :
    (k : Key) (published : Option ℕ) (now : ℕ) (actor : String) (j : Key) (log : List AuditRow)
    → IsPast now log
    → (has_both k.0 k.1 (log ++ publication now actor j ∷ [])
        && unpublished k.0 k.1
            (if same_item k j then some now else published)
            (log ++ publication now actor j ∷ []))
      ≡ (has_both k.0 k.1 log && unpublished k.0 k.1 published log && not (same_item k j))
unfolding unpublished
settled_as k none now actor j log past = rw (has_both-publication k.0 k.1 now actor j log) (
    ground (
      arith,
      later_than-publication k.0 k.1 now now actor j log,
      IsPast-not_later k.0 k.1 now log past,
    ))
settled_as k (some t) now actor j log past = rw (has_both-publication k.0 k.1 now actor j log) (
    ground (
      arith,
      later_than-publication k.0 k.1 now now actor j log,
      later_than-publication k.0 k.1 t now actor j log,
      IsPast-not_later k.0 k.1 now log past,
    ))

one-settled :
    (now : ℕ) (actor : String) (k j : Key) (db : Db)
    → IsPast now db.audit_log
    → is_settled (publish_one now actor j db) k ≡ (is_settled db k && not (same_item k j))
unfolding is_settled get_item_ready_published_at
one-settled now actor k j db past =
    rw (one-log now actor j db, one-published now actor k j db)
      (settled_as k (get_item_ready_published_at k.0 k.1 db) now actor j db.audit_log past
        ∙ ground arith)

all-settled :
    (now : ℕ) (actor : String) (k : Key) (items : List Key) (db : Db)
    → IsPast now db.audit_log
    → is_settled (publish_all now actor items db) k
      ≡ left (is_settled db) (λ j y. same_item y j) items k
unfolding publish_all
all-settled now actor k [] db past = ground arith
all-settled now actor k (j ∷ items) db past =
    all-settled now actor k items (publish_one now actor j db) (one-IsPast now actor j db past)
    ∙ rw (one-settled now actor k j db past) (ground arith)

all-groups :
    (now : ℕ) (actor : String) (items : List Key) (db : Db)
    → groups (publish_all now actor items db).audit_log ≡ groups db.audit_log
unfolding publish_all
all-groups now actor [] db = refl
all-groups now actor (j ∷ items) db =
    all-groups now actor items (publish_one now actor j db)
    ∙ ap groups (one-log now actor j db)
    ∙ groups-publication now actor j db.audit_log

none_settled :
    (p q : Key → Bool) (keys : List Key)
    → ((k : Key) → p k ≡ q k)
    → exists q keys ≡ false
    → select p keys ≡ []
none_settled p q [] same h = refl
none_settled p q (k ∷ keys) same h = ground (arith, same k, none_settled p q keys same, h)

-- When no audit row is from after the poll, a poll right after it finds nothing to publish.
pub publish_once :
    (now : ℕ) (actor : String) (db : Db)
    → IsPast now db.audit_log
    → find_settled_items (check_and_publish now actor db).1 ≡ []
unfolding check_and_publish find_settled_items
publish_once now actor db past =
    let items = select (is_settled db) (groups db.audit_log) in
    ap (select (is_settled (publish_all now actor items db))) (all-groups now actor items db)
    ∙ none_settled (is_settled (publish_all now actor items db))
        (left (is_settled db) (λ j y. same_item y j) items) (groups db.audit_log)
        (λ k. all-settled now actor k items db past)
        (left-select (is_settled db) (λ j y. same_item y j) (groups db.audit_log)
          (λ k h. ground (arith, eq_iff k.0 k.0, eq_iff k.1 k.1)))

stays-published :
    (now : ℕ) (actor : String) (k : Key) (items : List Key) (db : Db)
    → get_item_ready_published_at k.0 k.1 db ≡ some now
    → get_item_ready_published_at k.0 k.1 (publish_all now actor items db) ≡ some now
unfolding publish_all
stays-published now actor k [] db h = h
stays-published now actor k (j ∷ items) db h =
    stays-published now actor k items (publish_one now actor j db)
      (one-published now actor k j db ∙ ground (arith, h))

all-published :
    (now : ℕ) (actor : String) (k : Key) (items : List Key) (db : Db)
    → exists (same_item k) items ≡ true
    → get_item_ready_published_at k.0 k.1 (publish_all now actor items db) ≡ some now
unfolding publish_all
all-published now actor k [] db h = absurd (cc h)
all-published now actor k (j ∷ items) db h = elim (Bool-cases (same_item k j)) [
  | inl hit ↦
      stays-published now actor k items (publish_one now actor j db)
        (one-published now actor k j db ∙ rw hit refl)
  | inr miss ↦
      all-published now actor k items (publish_one now actor j db) (ground (arith, h, miss))
]

unsettled :
    (k : Key) (now : ℕ) (db : Db)
    → get_item_ready_published_at k.0 k.1 db ≡ some now
    → IsPast now db.audit_log
    → is_settled db k ≡ false
unfolding is_settled unpublished
unsettled k now db h past = rw h (ground (arith, IsPast-not_later k.0 k.1 now db.audit_log past))

-- Whatever is appended to the audit log within the second of a poll, or with an earlier time, an
-- item that the poll published is not taken up again for it.
same_second_lost :
    (now : ℕ) (actor : String) (k : String × String) (more : List AuditRow) (db : Db)
    → exists (same_item k) (find_settled_items db) ≡ true
    → IsPast now ((check_and_publish now actor db).1.audit_log ++ more)
    → is_settled
        (record (check_and_publish now actor db).1 {
          audit_log = (check_and_publish now actor db).1.audit_log ++ more;
        })
        k
      ≡ false
unfolding check_and_publish get_item_ready_published_at
same_second_lost now actor k more db found past =
    unsettled k now _ (all-published now actor k (find_settled_items db) db found) past
