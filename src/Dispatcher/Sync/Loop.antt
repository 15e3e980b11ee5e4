-- ===== src/Dispatcher/Sync/Loop.antt =====
-- What the loop of `sync_policy_changes` makes of the recorded policy of an item.
use radiobeacon.Common.{
  ℕ, String, ◌≡◌, refl, ap, ◌∙◌, Bool, true, false, Option, none, some, List, [], ◌∷◌, arith,
  eq_iff, opt_str_eq, exists, find_row, update, if◌then◌else◌, inl, inr, Bool-cases, Option-cases,
}
use radiobeacon.Database.{Db, Item, SeenRow, is_item}
use radiobeacon.Dispatcher.{is_seen, arm}
use radiobeacon.Dispatcher.Sync.{drifted_of, set_policy, drift_row, drift_rows}

-- Two items with one primary key.
abbrev pub same_item : Item → Item → Bool
same_item a b = is_item b.source b.item_id a

abbrev pub seen_of : String → Item → List SeenRow → Option SeenRow
seen_of consumer i seen = find_row (is_seen consumer i.source i.item_id) seen

abbrev pub agrees : Item → Option SeenRow → Bool
agrees i none = false
agrees i (some s) = opt_str_eq i.policy s.policy

abbrev pub map_policy : Option String → Option SeenRow → Option SeenRow
map_policy policy none = none
map_policy policy (some s) = some (set_policy policy s)

-- What the rows of the loop make of the record of an item.
abbrev pub folded : Item → List (Item × Option String) → Option SeenRow → Option SeenRow
folded i [] o = o
folded i ((j, old) ∷ rows) o = folded i rows (if same_item i j then map_policy j.policy o else o)

seen-update :
    (consumer : String) (i j : Item) (seen : List SeenRow)
    → seen_of consumer i (update (is_seen consumer j.source j.item_id) (set_policy j.policy) seen)
      ≡ (if same_item i j
          then map_policy j.policy (seen_of consumer i seen)
          else seen_of consumer i seen)
seen-update consumer i j [] = ground arith
seen-update consumer i j (s ∷ seen) = ground (
  arith,
  seen-update consumer i j seen,
  eq_iff s.source i.source,
  eq_iff s.source j.source,
  eq_iff i.source j.source,
  eq_iff s.item_id i.item_id,
  eq_iff s.item_id j.item_id,
  eq_iff i.item_id j.item_id,
)

arm-kept :
    (consumer source item_id : String) (db : Db)
    → ((arm consumer source item_id db).item_policy_state ≡ db.item_policy_state)
      × ((arm consumer source item_id db).items ≡ db.items)
unfolding arm
arm-kept consumer source item_id db = ground arith

pub rows-folded :
    (now : ℕ) (consumer : String) (i : Item) (rows : List (Item × Option String)) (db : Db)
    → seen_of consumer i (drift_rows now consumer rows db).item_policy_state
      ≡ folded i rows (seen_of consumer i db.item_policy_state)
unfolding drift_rows drift_row
rows-folded now consumer i [] db = refl
rows-folded now consumer i ((j, old) ∷ rows) db =
    rows-folded now consumer i rows (drift_row now consumer j old db)
    ∙ ap
        (λ t. folded i rows (
          seen_of consumer i
            (update (is_seen consumer j.source j.item_id) (set_policy j.policy) t)))
        (arm-kept consumer j.source j.item_id db).0
    ∙ ap (folded i rows) (seen-update consumer i j db.item_policy_state)

pub rows-items :
    (now : ℕ) (consumer : String) (rows : List (Item × Option String)) (db : Db)
    → (drift_rows now consumer rows db).items ≡ db.items
unfolding drift_rows drift_row
rows-items now consumer [] db = refl
rows-items now consumer ((j, old) ∷ rows) db =
    rows-items now consumer rows (drift_row now consumer j old db)
    ∙ (arm-kept consumer j.source j.item_id db).1

-- One item of the join.
pub drifted-cons :
    (consumer : String) (seen : List SeenRow) (j : Item) (items : List Item) {s : SeenRow}
    → seen_of consumer j seen ≡ some s
    → drifted_of consumer seen (j ∷ items) ≡ (
        if opt_str_eq j.policy s.policy
        then drifted_of consumer seen items
        else (j, s.policy) ∷ drifted_of consumer seen items)
unfolding drifted_of
drifted-cons consumer seen j items h = rw h refl

pub drifted-none :
    (consumer : String) (seen : List SeenRow) (j : Item) (items : List Item)
    → seen_of consumer j seen ≡ none
    → drifted_of consumer seen (j ∷ items) ≡ drifted_of consumer seen items
unfolding drifted_of
drifted-none consumer seen j items h = rw h refl

-- The loop leaves an item alone that no item of the list has the key of.
pub folded-other :
    (consumer : String) (seen : List SeenRow) (i : Item) (items : List Item) (o : Option SeenRow)
    → exists (same_item i) items ≡ false
    → folded i (drifted_of consumer seen items) o ≡ o
unfolding drifted_of
folded-other consumer seen i [] o h = refl
folded-other consumer seen i (j ∷ items) o h =
    let rest = folded-other consumer seen i items o in
    elim (Option-cases (seen_of consumer j seen)) [
      | inl unseen ↦
          ap (λ rows. folded i rows o) (drifted-none consumer seen j items unseen)
          ∙ ground (arith, rest, h)
      | inr (s, found) ↦
          ap (λ rows. folded i rows o) (drifted-cons consumer seen j items found)
          ∙ elim (Bool-cases (opt_str_eq j.policy s.policy)) [
            | inl same ↦ rw same (ground (arith, rest, h))
            | inr differs ↦ rw differs (ground (arith, rest, h))
          ]
    ]

pub folded-miss :
    (i j : Item) (old : Option String) (rows : List (Item × Option String)) (o : Option SeenRow)
    → same_item i j ≡ false
    → folded i ((j, old) ∷ rows) o ≡ folded i rows o
folded-miss i j old rows o h = ap (λ b. folded i rows (if b then map_policy j.policy o else o)) h

pub folded-hit :
    (j : Item) (old : Option String) (rows : List (Item × Option String)) (o : Option SeenRow)
    → folded j ((j, old) ∷ rows) o ≡ folded j rows (map_policy j.policy o)
folded-hit j old rows o = ap (λ b. folded j rows (if b then map_policy j.policy o else o)) self
  where
    self : same_item j j ≡ true
    self = ground (arith, eq_iff j.source j.source, eq_iff j.item_id j.item_id)

pub folded-skip :
    (consumer : String) (seen : List SeenRow) (i j : Item) (items : List Item) (o : Option SeenRow)
    → same_item i j ≡ false
    → folded i (drifted_of consumer seen (j ∷ items)) o
      ≡ folded i (drifted_of consumer seen items) o
folded-skip consumer seen i j items o h = elim (Option-cases (seen_of consumer j seen)) [
  | inl unseen ↦ ap (λ rows. folded i rows o) (drifted-none consumer seen j items unseen)
  | inr (s, found) ↦
      ap (λ rows. folded i rows o) (drifted-cons consumer seen j items found)
      ∙ elim (Bool-cases (opt_str_eq j.policy s.policy)) [
        | inl same ↦ rw same refl
        | inr differs ↦ rw differs (folded-miss i j s.policy (drifted_of consumer seen items) o h)
      ]
]
