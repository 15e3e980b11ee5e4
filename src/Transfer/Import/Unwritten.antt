-- ===== src/Transfer/Import/Unwritten.antt =====
-- What a dry run does of `import_config`, beside a run that writes.
use radiobeacon.Common.{
  ℕ, String, ◌≡◌, refl, ap, ◌∙◌, sym, Bool, true, false, List, ◌++◌, All, inl, inr, Bool-cases,
}
use radiobeacon.Common.Result.{ok}
use radiobeacon.Database.{Db}
use radiobeacon.Cron.{World}
use radiobeacon.Transfer.Fields.{ImportItemResult}
use radiobeacon.Transfer.Records.{Outside}
use radiobeacon.Transfer.Records.Steps.{IsPolicy, IsSource, IsInstance}
use radiobeacon.Transfer.Records.Written.{tables}
use radiobeacon.Transfer.Import.{
  ConfigFile, import_settings, import_policies, import_sources, import_records, known_policies,
  import_config, is_version, imported,
}
use radiobeacon.Transfer.Import.Sections.{
  settings-true, policies-true, sources-true, adapters-true, settings-tables, policies-after,
  sources-after, settings-agree, policies-agree, sources-agree, adapters-agree,
}

records-true :
    (o : Outside) (w : World) (now : ℕ) (allow : Bool) (actor : String) (file : ConfigFile)
    (db : Db)
    → (import_records o w now allow actor true file db).0 ≡ db
unfolding import_records
records-true o w now allow actor file db =
    adapters-true now allow _ file.adapter_instances _
    ∙ (sources-true now file.sources _
        ∙ (policies-true w now file.policies _ ∙ settings-true o now actor file.settings db))

imported-true :
    (now : ℕ) (actor : String) (r : Db × List ImportItemResult)
    → (imported now actor true r).0 ≡ r.0
unfolding imported
imported-true now actor (db, results) = refl

-- A dry run writes nothing, whatever the file holds: not a record, not an audit row.
pub import_config-dry_run :
    (o : Outside) (w : World) (now : ℕ) (allow : Bool) (actor : String) (file : ConfigFile)
    (db : Db)
    → (import_config o w now allow actor true file db).0 ≡ db
unfolding import_config
import_config-dry_run o w now allow actor file db =
    elim (Bool-cases (is_version 2 file.schema_version)) [
      | inl version ↦ rw version (
          imported-true now actor (import_records o w now allow actor true file db)
          ∙ records-true o w now allow actor file db)
      | inr other ↦ rw other refl
    ]

append-same : {A : Type 0} (xs ys zs ws : List A) → xs ≡ ys → zs ≡ ws → xs ++ zs ≡ ys ++ ws
append-same xs ys zs ws p q = rw (p, q) refl

-- Every value of the file has a type that a write takes, and `set_policy` accepts every policy.
pub record IsFile (w : World) (file : ConfigFile) : Type 0 where
  pub policies : All (IsPolicy w) file.policies
  pub sources : All IsSource file.sources
  pub adapters : All IsInstance file.adapter_instances

module _ (o : Outside) (w : World) (now : ℕ) (allow : Bool) (actor : String) (file : ConfigFile)
    (db : Db) (valid : IsFile w file) where
  abbrev db1 : Bool → Db
  db1 dry = (import_settings o now actor dry file.settings db).0

  abbrev db2 : Bool → Db
  db2 dry = (import_policies w now dry file.policies (db1 dry)).0

  abbrev db3 : Bool → Db
  db3 dry = (import_sources now dry file.sources (db2 dry)).0

  same1 : tables (db1 true) ≡ tables (db1 false)
  same1 =
      settings-tables o now actor true file.settings db
      ∙ sym (settings-tables o now actor false file.settings db)

  same2 : (db2 true).sources ≡ (db2 false).sources
  same2 =
      ap (λ t. t.1) (policies-after w now true file.policies (db1 true))
      ∙ (ap (λ t. t.1) same1
          ∙ sym (ap (λ t. t.1) (policies-after w now false file.policies (db1 false))))

  kept : (dry : Bool) → (db3 dry).adapter_instances ≡ (db1 dry).adapter_instances
  kept dry =
      ap (λ t. t.1) (sources-after now dry file.sources (db2 dry))
      ∙ ap (λ t. t.2) (policies-after w now dry file.policies (db1 dry))

  same3 : (db3 true).adapter_instances ≡ (db3 false).adapter_instances
  same3 = kept true ∙ (ap (λ t. t.2) same1 ∙ sym (kept false))

  policy_results :
      (import_policies w now true file.policies (db1 true)).1
      ≡ (import_policies w now false file.policies (db1 false)).1
  policy_results =
      policies-agree w now file.policies (db1 true) (db1 false) valid.policies (ap (λ t. t.0) same1)

  known_same :
      known_policies (db1 true).policies (import_policies w now true file.policies (db1 true)).1
      ≡ known_policies
          (db1 false).policies
          (import_policies w now false file.policies (db1 false)).1
  known_same = rw (policy_results, ap (λ t. t.0) same1) refl

  records-agree :
      (import_records o w now allow actor true file db).1
      ≡ (import_records o w now allow actor false file db).1
  unfolding import_records
  records-agree = append-same _ _ _ _ (settings-agree o now actor file.settings db) (
      append-same _ _ _ _ policy_results (
        append-same _ _ _ _
          (sources-agree now file.sources (db2 true) (db2 false) valid.sources same2)
          (adapters-agree now allow _ _ file.adapter_instances (db3 true) (db3 false) valid.adapters
            known_same same3)))

imported-agree :
    (now : ℕ) (actor : String) (a b : Db × List ImportItemResult)
    → a.1 ≡ b.1
    → (imported now actor true a).1 ≡ (imported now actor false b).1
unfolding imported
imported-agree now actor (a, r) (b, s) same = ap ok same

-- Where every value of the file has a type that a write takes, and `set_policy` accepts every policy, a
-- dry run tells exactly what the import would
-- do: the result of every record of every section in order, created, updated or skipped with its
-- reason and its warnings, and the same refusal of another schema version.
pub import_config-predicts :
    (o : Outside) (w : World) (now : ℕ) (allow : Bool) (actor : String) (file : ConfigFile)
    (db : Db)
    → IsFile w file
    → (import_config o w now allow actor true file db).1
      ≡ (import_config o w now allow actor false file db).1
unfolding import_config
import_config-predicts o w now allow actor file db valid =
    elim (Bool-cases (is_version 2 file.schema_version)) [
      | inl version ↦ rw version (
          imported-agree now actor (import_records o w now allow actor true file db)
            (import_records o w now allow actor false file db)
            (records-agree o w now allow actor file db valid))
      | inr other ↦ rw other refl
    ]
