-- ===== src/Transfer/Records/Steps.antt =====
-- One record of a file in a dry run: nothing is written, and the result is that of a run that writes.
use radiobeacon.Common.{
  ℕ, String, ◌≡◌, refl, Bool, true, false, Option, none, some, List, arith, inl, inr, Bool-cases,
  str_eq, or_blank,
}
use radiobeacon.Common.Result.{ok}
use radiobeacon.Json.{Json}
use radiobeacon.Database.{Db, PolicyRow}
use radiobeacon.Cron.{World}
use radiobeacon.Policy.Edits.{set_policy, validate, Cleaned}
use radiobeacon.Transfer.Fields.{
  PolicyFields, SourceFields, AdapterFields, Entry, no_object, entry, Reason, Section, settings,
}
use radiobeacon.Transfer.Records.{
  Outside, policy_args, policy_set, settled, import_setting, import_policy, import_source,
  adapter_settled, source_settled, written_if, write_names, adapter_done, adapter_refused,
  setting_refused, import_one_adapter_instance,
}

settled-true :
    (section : Section) (key : String) (existing : Bool) (r : Option Reason) (write : Db → Db)
    (db : Db)
    → (settled section key existing r write true db).0 ≡ db
unfolding settled
settled-true section key existing none write db = refl
settled-true section key existing (some reason) write db = refl

settled-agree :
    (section : Section) (key : String) (existing : Bool) (r : Option Reason) (v w : Db → Db)
    (a b : Db)
    → (settled section key existing r v true a).1 ≡ (settled section key existing r w false b).1
unfolding settled
settled-agree section key existing none v w a b = refl
settled-agree section key existing (some reason) v w a b = refl

pub import_setting-true :
    (o : Outside) (now : ℕ) (actor : String) (existing : String → Bool) (e : String × Json)
    (db : Db)
    → (import_setting o now actor true existing e db).0 ≡ db
unfolding import_setting
import_setting-true o now actor existing (key, raw) db =
    settled-true settings key (existing key) (setting_refused o key raw) _ db

pub import_setting-agree :
    (o : Outside) (now : ℕ) (actor : String) (existing : String → Bool) (e : String × Json)
    (a b : Db)
    → (import_setting o now actor true existing e a).1
      ≡ (import_setting o now actor false existing e b).1
unfolding import_setting
import_setting-agree o now actor existing (key, raw) a b =
    settled-agree settings key (existing key) (setting_refused o key raw) _ _ a b

pub import_policy-true :
    (w : World) (now : ℕ) (existing : String → Bool) (e : Entry PolicyFields) (db : Db)
    → (import_policy w now true existing e db).0 ≡ db
unfolding import_policy
import_policy-true w now existing no_object db = refl
import_policy-true w now existing (entry f) db = ground arith

-- The record's values are fit to be written, and `set_policy` accepts it.
unfoldable pub IsPolicy : World → Entry PolicyFields → Type 0
IsPolicy w no_object = Unit
IsPolicy w (entry f) =
    let r : PolicyRow = policy_args (or_blank f.name) f in
    (f.unfit ≡ none)
    × ((c : Cleaned) × (validate w r.fetch_kind r.fetch_interval_seconds r.fetch_cron
            r.transmit_kind r.transmit_count r.transmit_interval_seconds r.transmit_cron
          ≡ ok c))

-- The values of a source, and of an adapter, are fit to be written.
abbrev pub IsSource : Entry SourceFields → Type 0
IsSource no_object = Unit
IsSource (entry f) = f.unfit ≡ none

abbrev pub IsInstance : Entry AdapterFields → Type 0
IsInstance no_object = Unit
IsInstance (entry f) = f.unfit ≡ none

pub import_policy-agree :
    (w : World) (now : ℕ) (existing : String → Bool) (e : Entry PolicyFields)
    → IsPolicy w e
    → (a b : Db)
    → (import_policy w now true existing e a).1 ≡ (import_policy w now false existing e b).1
unfolding import_policy set_policy policy_set written_if IsPolicy
import_policy-agree w now existing no_object h a b = refl
import_policy-agree w now existing (entry f) h a b = rw (h.0, h.1.1) (ground arith)

pub import_source-true :
    (now : ℕ) (existing : String → Bool) (e : Entry SourceFields) (db : Db)
    → (import_source now true existing e db).0 ≡ db
unfolding import_source source_settled
import_source-true now existing no_object db = refl
import_source-true now existing (entry f) db = ground arith

pub import_source-agree :
    (now : ℕ) (existing : String → Bool) (e : Entry SourceFields)
    → IsSource e
    → (a b : Db)
    → (import_source now true existing e a).1 ≡ (import_source now false existing e b).1
unfolding import_source source_settled
import_source-agree now existing no_object fit a b = refl
import_source-agree now existing (entry f) fit a b = rw fit (ground arith)

adapter_settled-true :
    (now : ℕ) (existing : String → Bool) (known : List String) (source : String) (f : AdapterFields)
    (r : Option Reason) (db : Db)
    → (adapter_settled now true existing known source f r db).0 ≡ db
unfolding adapter_settled
adapter_settled-true now existing known source f none db = refl
adapter_settled-true now existing known source f (some reason) db = refl

adapter_settled-agree :
    (now : ℕ) (existing : String → Bool) (known : List String) (source : String) (f : AdapterFields)
    (r : Option Reason) (a b : Db)
    → f.unfit ≡ none
    → (adapter_settled now true existing known source f r a).1
      ≡ (adapter_settled now false existing known source f r b).1
unfolding adapter_settled write_names adapter_done
adapter_settled-agree now existing known source f none a b fit = rw fit refl
adapter_settled-agree now existing known source f (some reason) a b fit = refl

pub import_adapter-true :
    (now : ℕ) (allow : Bool) (existing : String → Bool) (known : List String)
    (e : Entry AdapterFields) (db : Db)
    → (import_one_adapter_instance now allow true existing known e db).0 ≡ db
unfolding import_one_adapter_instance
import_adapter-true now allow existing known no_object db = refl
import_adapter-true now allow existing known (entry f) db = ground (
  arith,
  adapter_settled-true now existing known (or_blank f.source) f (adapter_refused allow f) db,
)

pub import_adapter-agree :
    (now : ℕ) (allow : Bool) (existing : String → Bool) (known : List String)
    (e : Entry AdapterFields)
    → IsInstance e
    → (a b : Db)
    → (import_one_adapter_instance now allow true existing known e a).1
      ≡ (import_one_adapter_instance now allow false existing known e b).1
unfolding import_one_adapter_instance
import_adapter-agree now allow existing known no_object fit a b = refl
import_adapter-agree now allow existing known (entry f) fit a b =
    elim (Bool-cases (str_eq (or_blank f.source) "")) [
      | inl blank ↦ rw blank refl
      | inr named ↦ rw named (
          adapter_settled-agree now existing known (or_blank f.source) f (adapter_refused allow f) a
            b fit)
    ]
