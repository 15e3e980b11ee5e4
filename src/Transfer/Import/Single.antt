-- ===== src/Transfer/Import/Single.antt =====
-- An import of one adapter's file.
use radiobeacon.Common.{
  ℕ, String, ◌≡◌, refl, Bool, Option, some, pos, truthy, exists, if◌then◌else◌,
}
use radiobeacon.Database.{Db}
use radiobeacon.Registry.{is_adapter}
use radiobeacon.Transfer.Fields.{AdapterFields, entry}
use radiobeacon.Transfer.Records.{import_one_adapter_instance}
use radiobeacon.Transfer.Import.{
  import_adapter_export, is_version, renamed, fields_of, one_imported, policy_names,
}

-- A file of the right kind and version is imported as one record.
pub single-record :
    (now : ℕ) (allow dry : Bool) (override : Option String) (f : AdapterFields) (db : Db)
    → (import_adapter_export now allow override dry
        (record {
          kind = some "radiobeacon.adapter_instance";
          schema_version = some (pos 1);
          adapter = entry f;
        })
        db).0
      ≡ (import_one_adapter_instance now allow dry
          (λ source. exists (is_adapter source) db.adapter_instances)
          (policy_names db.policies)
          (entry (if truthy override then record f { source = override } else f))
          db).0
unfolding import_adapter_export is_version renamed fields_of one_imported
single-record now allow dry override f db = refl
