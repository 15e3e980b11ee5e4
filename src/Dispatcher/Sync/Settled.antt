-- ===== src/Dispatcher/Sync/Settled.antt =====
-- After `sync_policy_changes` every item's policy is the recorded one.
use radiobeacon.Common.{
  ℕ, String, ◌≡◌, refl, sym, ap, ◌∙◌, subst, Bool, true, false, not, ◌||◌, Option, none, some, List,
  [], ◌∷◌, ◌++◌, append-nil, arith, eq_iff, opt_str_eq, opt_str_eq_iff, select, exists,
  exists-append, exists-find_row, length, All, Distinct, if◌then◌else◌, inl, inr, Bool-cases,
  Option-cases,
}
use radiobeacon.Database.{Db, Item, SeenRow}
use radiobeacon.Dispatcher.{is_seen}
use radiobeacon.Dispatcher.Sync.{
  never_seen, baseline, drifted_of, set_policy, drift_rows, with_baseline, sync_policy_changes,
}
use radiobeacon.Dispatcher.Sync.Loop.{
  same_item, seen_of, agrees, folded, rows-folded, rows-items, drifted-cons, folded-other,
  folded-hit, folded-skip,
}

-- The record of an item after the loop over `items`.
abbrev later : String → List SeenRow → List Item → Item → Bool
later consumer seen items i =
    agrees i (folded i (drifted_of consumer seen items) (seen_of consumer i seen))

later-cons :
    (consumer : String) (seen : List SeenRow) (j : Item) (items xs : List Item)
    → exists (same_item j) xs ≡ false
    → All (λ i. later consumer seen items i ≡ true) xs
    → All (λ i. later consumer seen (j ∷ items) i ≡ true) xs
later-cons consumer seen j items [] h all = tt
later-cons consumer seen j items (i ∷ xs) h all = (
  ap (agrees i) (
        folded-skip consumer seen i j items (seen_of consumer i seen) (
          ground (
            arith,
            h,
            eq_iff i.source j.source,
            eq_iff j.source i.source,
            eq_iff i.item_id j.item_id,
            eq_iff j.item_id i.item_id,
          )))
      ∙ all.0,
  later-cons consumer seen j items xs (ground (arith, h)) all.1,
)

later-own :
    (consumer : String) (seen : List SeenRow) (j : Item) (items : List Item)
    → exists (is_seen consumer j.source j.item_id) seen ≡ true
    → exists (same_item j) items ≡ false
    → later consumer seen (j ∷ items) j ≡ true
later-own consumer seen j items known alone = elim (Option-cases (seen_of consumer j seen)) [
  | inl unseen ↦ absurd (cc (known-seen seen known unseen))
  | inr (s, found) ↦
      ap (λ rows. agrees j (folded j rows (seen_of consumer j seen)))
        (drifted-cons consumer seen j items found)
      ∙ elim (Bool-cases (opt_str_eq j.policy s.policy)) [
        | inl same ↦
            rw (same, found)
              (ap (agrees j) (folded-other consumer seen j items (some s) alone) ∙ same)
        | inr differs ↦
            rw (differs, found)
              (ap (agrees j) (folded-hit j s.policy (drifted_of consumer seen items) (some s))
                ∙ ap (agrees j)
                    (folded-other consumer seen j items (some (set_policy j.policy s)) alone)
                ∙ (opt_str_eq_iff j.policy j.policy).1 refl)
      ]
]
  where
    known-seen :
        (rows : List SeenRow)
        → exists (is_seen consumer j.source j.item_id) rows ≡ true
        → seen_of consumer j rows ≡ none
        → true ≡ false
    known-seen [] h e = sym h
    known-seen (r ∷ rows) h e = ground (arith, known-seen rows, h, e)

All-later :
    (consumer : String) (seen : List SeenRow) (items : List Item)
    → Distinct same_item items
    → All (λ i. exists (is_seen consumer i.source i.item_id) seen ≡ true) items
    → All (λ i. later consumer seen items i ≡ true) items
All-later consumer seen [] d all = tt
All-later consumer seen (j ∷ items) d all = (
  later-own consumer seen j items all.0 d.0,
  later-cons consumer seen j items items d.0 (All-later consumer seen items d.1 all.1),
)

-- Every item has a record once the baseline is taken.
abbrev recorded : String → List SeenRow → List SeenRow → Item → Bool
recorded consumer seen more i =
    exists (is_seen consumer i.source i.item_id) seen
    || exists (is_seen consumer i.source i.item_id) more

recorded-cons :
    (consumer : String) (seen more : List SeenRow) (s : SeenRow) (xs : List Item)
    → All (λ i. recorded consumer seen more i ≡ true) xs
    → All (λ i. recorded consumer seen (s ∷ more) i ≡ true) xs
recorded-cons consumer seen more s [] all = tt
recorded-cons consumer seen more s (i ∷ xs) all =
    (ground (arith, all.0), recorded-cons consumer seen more s xs all.1)

abbrev fresh_of : String → List SeenRow → List Item → List Item
fresh_of consumer seen items =
    select (λ j. not (exists (is_seen consumer j.source j.item_id) seen)) items

All-recorded :
    (consumer : String) (seen : List SeenRow) (items : List Item)
    → All
        (λ i. recorded consumer seen (baseline consumer (fresh_of consumer seen items)) i ≡ true)
        items
unfolding baseline
All-recorded consumer seen [] = tt
All-recorded consumer seen (i ∷ items) =
    elim (Bool-cases (exists (is_seen consumer i.source i.item_id) seen)) [
      | inl known ↦
          let listed : fresh_of consumer seen (i ∷ items) ≡ fresh_of consumer seen items =
            rw known refl in
          subst (λ l. All (λ k. recorded consumer seen (baseline consumer l) k ≡ true) (i ∷ items))
            (sym listed) (ground (arith, known), All-recorded consumer seen items)
      | inr fresh ↦
          let listed : fresh_of consumer seen (i ∷ items) ≡ i ∷ fresh_of consumer seen items =
            rw fresh refl in
          subst (λ l. All (λ k. recorded consumer seen (baseline consumer l) k ≡ true) (i ∷ items))
            (sym listed)
            (
              ground (
                arith,
                eq_iff consumer consumer,
                eq_iff i.source i.source,
                eq_iff i.item_id i.item_id,
              ),
              recorded-cons consumer seen (baseline consumer (fresh_of consumer seen items))
                  (record {
                    consumer = consumer;
                    source = i.source;
                    item_id = i.item_id;
                    policy = i.policy;
                  })
                  items (All-recorded consumer seen items),
            )
    ]

-- Items that all agree with their records give the loop nothing to do.
none_drifted :
    (consumer : String) (seen : List SeenRow) (items : List Item)
    → All (λ i. agrees i (seen_of consumer i seen) ≡ true) items
    → (drifted_of consumer seen items ≡ []) × (fresh_of consumer seen items ≡ [])
unfolding drifted_of
none_drifted consumer seen [] all = (nothing, refl)
  where
    nothing : drifted_of consumer seen [] ≡ []
    nothing = refl
none_drifted consumer seen (j ∷ items) all = elim (Option-cases (seen_of consumer j seen)) [
  | inl unseen ↦ absurd (cc (ap (agrees j) (sym unseen) ∙ all.0))
  | inr (s, found) ↦
      let (none_left, none_fresh) = none_drifted consumer seen items all.1 in
      let same : opt_str_eq j.policy s.policy ≡ true = ap (agrees j) (sym found) ∙ all.0 in
      let known : exists (is_seen consumer j.source j.item_id) seen ≡ true =
        exists-find_row (is_seen consumer j.source j.item_id) seen found in
      (
        drifted-cons consumer seen j items found ∙ rw same none_left,
        ap (λ b. if not b then j ∷ fresh_of consumer seen items else fresh_of consumer seen items)
              known
            ∙ none_fresh,
      )
]

All-map :
    (p q : Item → Bool) (items : List Item)
    → ((i : Item) → p i ≡ q i)
    → All (λ i. q i ≡ true) items
    → All (λ i. p i ≡ true) items
All-map p q [] same all = tt
All-map p q (i ∷ items) same all = (same i ∙ all.0, All-map p q items same all.1)

again :
    (now : ℕ) (consumer : String) (db : Db)
    → fresh_of consumer db.item_policy_state db.items ≡ []
    → drifted_of consumer db.item_policy_state db.items ≡ []
    → sync_policy_changes now consumer db ≡ (0, db)
unfolding sync_policy_changes with_baseline never_seen baseline drift_rows
again now consumer db none_fresh settled =
    let same : with_baseline consumer db ≡ db =
      ap (λ l. record db { item_policy_state = db.item_policy_state ++ baseline consumer l })
        none_fresh
      ∙ ap (λ t. record db { item_policy_state = t }) (append-nil db.item_policy_state) in
    ap (λ d. finish d (drifted_of consumer d.item_policy_state d.items)) same
    ∙ ap (finish db) settled
  where
    finish : Db → List (Item × Option String) → ℕ × Db
    finish d rows = (length rows, drift_rows now consumer rows d)

-- A second comparison, whenever it is made, finds no item changed and changes nothing, given that
-- items have their primary key.
pub sync_once :
    (now later : ℕ) (consumer : String) (db : Db)
    → Distinct same_item db.items
    → sync_policy_changes later consumer (sync_policy_changes now consumer db).1
      ≡ (0, (sync_policy_changes now consumer db).1)
unfolding sync_policy_changes with_baseline never_seen
sync_once now later consumer db keys =
    let db1 = with_baseline consumer db in
    let rows = drifted_of consumer db1.item_policy_state db.items in
    let db2 = drift_rows now consumer rows db1 in
    let known =
      All-map (λ i. exists (is_seen consumer i.source i.item_id) db1.item_policy_state)
        (recorded consumer db.item_policy_state (baseline consumer (never_seen consumer db)))
        db.items (λ i. exists-append (is_seen consumer i.source i.item_id) db.item_policy_state _)
        (All-recorded consumer db.item_policy_state db.items) in
    let agree =
      All-map (λ i. agrees i (seen_of consumer i db2.item_policy_state))
        (λ i. agrees i (folded i rows (seen_of consumer i db1.item_policy_state))) db.items
        (λ i. ap (agrees i) (rows-folded now consumer i rows db1))
        (All-later consumer db1.item_policy_state db.items keys known) in
    let (settled, none_fresh) = none_drifted consumer db2.item_policy_state db.items agree in
    again later consumer db2
      (ap (fresh_of consumer db2.item_policy_state) (rows-items now consumer rows db1) ∙ none_fresh)
      (ap (drifted_of consumer db2.item_policy_state) (rows-items now consumer rows db1) ∙ settled)
