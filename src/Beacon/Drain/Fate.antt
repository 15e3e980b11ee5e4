-- ===== src/Beacon/Drain/Fate.antt =====
-- What one turn of `_drain_kind` makes of the table.
use radiobeacon.Common.{
  ℕ, ◌+◌, String, ◌≡◌, refl, sym, ap, ◌∙◌, Bool, true, false, ◌||◌, Option, none, some, List, [],
  ◌∷◌, arith, eq_iff, reaches, exists, find_row, update, delete, exists-delete, exists-find_row,
  find_row-delete, if◌then◌else◌, inl, inr, Bool-cases,
}
use radiobeacon.Common.Result.{Result, ok, raised}
use radiobeacon.Database.{Db, TxRow, Kind, once, interval, cron, other}
use radiobeacon.Schedule.{is_unit, same_unit, bump, record_tx_schedule_sent}
use radiobeacon.Schedule.Upsert.{find_row-none, find_row-update_self, find_row-update_ne, not_both}
use radiobeacon.Cron.{World, latest_fire_at_or_before}
use radiobeacon.Policy.{Schedule, or_empty, policy_for}
use radiobeacon.Policy.Config.{SameConfig, policy_for-config, latest_fire-config}
use radiobeacon.Beacon.Due.{due_as, transmit_due}
use radiobeacon.Beacon.Drain.{
  Transmit, sql_now, record_retired, cap_of, after_transmit, with_due, scheduled, turn,
}

-- A transmission that lets no exception out and leaves the schedule, the policies and the settings
-- alone.
pub record IsCalm (transmit : Transmit) : Type 0 where
  pub silent : (r : TxRow) (db : Db) → (transmit r db).1 ≡ none
  pub schedule :
      (r : TxRow) (db : Db) → (transmit r db).0.beacon_tx_schedule ≡ db.beacon_tx_schedule
  pub config : (r : TxRow) (db : Db) → SameConfig (transmit r db).0 db

-- The cron expression of a schedule, where it is asked, can be evaluated at every instant.
abbrev pub Evaluates : World → Db → Schedule → Type 0
Evaluates w db s =
    s.kind ≡ cron
    → (at : ℕ) → (occ : Option ℕ) × (latest_fire_at_or_before w (or_empty s.cron) at db ≡ ok occ)

-- Every policy name resolves, to the schedule that `sched` has for it, and its cron can be evaluated.
abbrev pub Reads : World → Db → (Option String → Schedule) → Type 0
Reads w db sched =
    (name : Option String) → (policy_for w db name ≡ ok (sched name)) × Evaluates w db (sched name)

abbrev pub holds : Result Bool → Bool
holds (ok b) = b
holds (raised e) = false

-- Whether a row is due, where that can be told.
abbrev pub is_due : World → Schedule → TxRow → ℕ → Db → Bool
is_due w sched r now db = holds (transmit_due w sched r now db)

-- A row after one pass under its schedule: gone where its count is spent, as it was where it is not
-- due, and else aired once, which may spend the count.
abbrev pub fate : World → Db → ℕ → Schedule → TxRow → Option TxRow
fate w db now sched r =
    if reaches r.sent_count (cap_of sched)
    then none
    else if is_due w sched r now db
    then if reaches (r.sent_count + 1) (cap_of sched) then none else some (bump now (sql_now now) r)
    else some r

due_as-returns :
    (w : World) (sched : Schedule) (r : TxRow) (now : ℕ) (db : Db) (k : Kind)
    → (k ≡ cron
        → (occ : Option ℕ) × (latest_fire_at_or_before w (or_empty sched.cron) now db ≡ ok occ))
    → due_as w sched r now db k ≡ ok (holds (due_as w sched r now db k))
due_as-returns w sched r now db once h = refl
due_as-returns w sched r now db interval h = refl
due_as-returns w sched r now db (other k) h = refl
due_as-returns w sched r now db cron h = let (occ, e) = h refl in rw e refl

due-returns :
    (w : World) (sched : Schedule) (r : TxRow) (now : ℕ) (db : Db)
    → Evaluates w db sched
    → transmit_due w sched r now db ≡ ok (is_due w sched r now db)
unfolding transmit_due
due-returns w sched r now db h = due_as-returns w sched r now db sched.kind (λ k. h k now)

due_as-config :
    (w : World) {a b : Db} (sched : Schedule) (r : TxRow) (now : ℕ) (k : Kind)
    → SameConfig a b
    → due_as w sched r now a k ≡ due_as w sched r now b k
due_as-config w sched r now once same = refl
due_as-config w sched r now interval same = refl
due_as-config w sched r now (other k) same = refl
due_as-config w sched r now cron same =
    rw (latest_fire-config w same (or_empty sched.cron) now) refl

due-config :
    (w : World) {a b : Db} (sched : Schedule) (r : TxRow) (now : ℕ)
    → SameConfig a b
    → transmit_due w sched r now a ≡ transmit_due w sched r now b
unfolding transmit_due
due-config w sched r now same = due_as-config w sched r now sched.kind same

pub Reads-config :
    (w : World) {a b : Db} (sched : Option String → Schedule)
    → SameConfig a b
    → Reads w b sched
    → Reads w a sched
Reads-config w sched same h name = (
  policy_for-config w same name ∙ (h name).0,
  λ k at.
      let (occ, e) = (h name).1 k at in
      (occ, latest_fire-config w same (or_empty (sched name).cron) at ∙ e),
)

-- The table after a turn.
abbrev pub settled : World → Db → ℕ → Schedule → String → TxRow → List TxRow → List TxRow
settled w db now sched kind r rows =
    if reaches r.sent_count (cap_of sched)
    then delete (is_unit r.source r.item_id kind r.ref) rows
    else if is_due w sched r now db
    then if reaches (r.sent_count + 1) (cap_of sched)
      then delete (is_unit r.source r.item_id kind r.ref) rows
      else update (is_unit r.source r.item_id kind r.ref) (bump now (sql_now now)) rows
    else rows

-- Whether a pass transmits a row.
abbrev pub airs : World → Db → ℕ → Schedule → TxRow → Bool
airs w db now sched r =
    if reaches r.sent_count (cap_of sched) then false else is_due w sched r now db

pub neither : (b c : Bool) → (b || c) ≡ false → (b ≡ false) × (c ≡ false)
neither true c h = absurd (cc h)
neither false c h = (refl, h)

pub same_unit_symmetric : (a b : TxRow) → same_unit a b ≡ same_unit b a
same_unit_symmetric a b = ground (
  arith,
  eq_iff a.source b.source,
  eq_iff b.source a.source,
  eq_iff a.item_id b.item_id,
  eq_iff b.item_id a.item_id,
  eq_iff a.kind b.kind,
  eq_iff b.kind a.kind,
  eq_iff a.ref b.ref,
  eq_iff b.ref a.ref,
)

pub not_again :
    (r x : TxRow) (rs : List TxRow)
    → r ≡ x
    → exists (same_unit r) rs ≡ false
    → exists (is_unit x.source x.item_id x.kind x.ref) rs ≡ false
not_again r x [] e h = refl
not_again r x (y ∷ rs) e h =
    let (p, q) = neither (same_unit r y) _ h in
    rw (same_unit_symmetric y x ∙ ap (λ z. same_unit z y) (sym e) ∙ p) (not_again r x rs e q)

pub trans_config : {a b c : Db} → SameConfig a b → SameConfig b c → SameConfig a c
trans_config p q = record { policies = p.policies ∙ q.policies; settings = p.settings ∙ q.settings }

module _ (w : World) (transmit : Transmit) (calm : IsCalm transmit) (kind : String) (now : ℕ)
    (db0 : Db) (sched : Option String → Schedule) (resolves : Reads w db0 sched) where
  pub record After (r : TxRow) (db : Db) (out : Db × Result Bool) : Type 0 where
    pub table :
        out.0.beacon_tx_schedule ≡ settled w db0 now (sched r.policy) kind r db.beacon_tx_schedule
    pub sent : out.1 ≡ ok (airs w db0 now (sched r.policy) r)
    pub config : SameConfig out.0 db

  aired :
      (r : TxRow) (db : Db)
      → reaches r.sent_count (cap_of (sched r.policy)) ≡ false
      → is_due w (sched r.policy) r now db0 ≡ true
      → After r db (after_transmit kind now (cap_of (sched r.policy)) r (transmit r db))
  unfolding after_transmit record_tx_schedule_sent record_retired
  aired r db live due =
      rw (calm.silent r db, after_transmit)
        (elim (Bool-cases (reaches (r.sent_count + 1) (cap_of (sched r.policy)))) [
          | inl last ↦ rw last (record {
            table = rw (calm.schedule r db, live, due, last) refl;
            sent = rw (live, due) refl;
            config = record {
              policies = (calm.config r db).policies;
              settings = (calm.config r db).settings;
            };
          })
          | inr more ↦ rw more (record {
            table = rw (calm.schedule r db, live, due, more) refl;
            sent = rw (live, due) refl;
            config = record {
              policies = (calm.config r db).policies;
              settings = (calm.config r db).settings;
            };
          })
        ])

  evaluated :
      (r : TxRow) (db : Db)
      → SameConfig db db0
      → transmit_due w (sched r.policy) r now db ≡ ok (is_due w (sched r.policy) r now db0)
  evaluated r db same =
      due-config w (sched r.policy) r now same
      ∙ due-returns w (sched r.policy) r now db0 (resolves r.policy).1

  pub turn-After :
      (r : TxRow) (db : Db) → SameConfig db db0 → After r db (turn w transmit kind now r db)
  unfolding turn scheduled with_due record_tx_schedule_sent record_retired
  turn-After r db same =
      rw (policy_for-config w same r.policy, (resolves r.policy).0)
        (elim (Bool-cases (reaches r.sent_count (cap_of (sched r.policy)))) [
          | inl spent ↦ rw spent (record {
            table = rw spent refl;
            sent = rw spent refl;
            config = record { policies = refl; settings = refl };
          })
          | inr live ↦ elim (Bool-cases (is_due w (sched r.policy) r now db0)) [
            | inl due ↦ rw (live, evaluated r db same, due) (aired r db live due)
            | inr idle ↦
                rw (live, evaluated r db same, idle)
                  (record {
                    table = rw (live, idle) refl;
                    sent = rw (live, idle) refl;
                    config = record { policies = refl; settings = refl };
                  })
          ]
        ])

  -- Another unit's row is not touched.
  pub settled_other :
      (r x : TxRow) (rows : List TxRow)
      → r.kind ≡ kind
      → is_unit x.source x.item_id x.kind x.ref r ≡ false
      → find_row
          (is_unit x.source x.item_id x.kind x.ref)
          (settled w db0 now (sched r.policy) kind r rows)
        ≡ find_row (is_unit x.source x.item_id x.kind x.ref) rows
  settled_other r x rows k ne =
      let ne' = rw k at ne in
      let kept =
        find_row-delete (is_unit r.source r.item_id kind r.ref)
          (is_unit x.source x.item_id x.kind x.ref) rows
          (λ y h. ground (
            arith,
            not_both r.source r.item_id kind r.ref x.source x.item_id x.kind x.ref ne' y,
          )) in
      let moved =
        find_row-update_ne r.source r.item_id kind r.ref x.source x.item_id x.kind x.ref ne'
          (bump now (sql_now now)) rows (λ y. refl) in
      ground (arith, kept, moved)

  pub settled_self :
      (x : TxRow) (rows : List TxRow)
      → x.kind ≡ kind
      → find_row (is_unit x.source x.item_id x.kind x.ref) rows ≡ some x
      → find_row
          (is_unit x.source x.item_id x.kind x.ref)
          (settled w db0 now (sched x.policy) kind x rows)
        ≡ fate w db0 now (sched x.policy) x
  settled_self x rows k found = rw (← k) (
      let gone =
        find_row-none x.source x.item_id x.kind x.ref
          (delete (is_unit x.source x.item_id x.kind x.ref) rows)
          (exists-delete (is_unit x.source x.item_id x.kind x.ref) rows) in
      let (y, p, q) =
        find_row-update_self x.source x.item_id x.kind x.ref (bump now (sql_now now)) rows
          (λ r. refl) (exists-find_row (is_unit x.source x.item_id x.kind x.ref) rows found) in
      let same : y ≡ x = cc in ground (arith, gone, q, same, found))
