-- ===== src/Policy/Edits.antt =====
-- The writes to the table of policies: `_validate`, `set_policy` and `delete_policy` of
-- data-adapters/src/adapters/policy.py.
use radiobeacon.Common.{
  ℕ, String, Bool, true, false, Option, none, some, List, [], ◌∷◌, ◌++◌, ℤ, pos, at_least, exists,
  update, delete, if◌then◌else◌,
}
use radiobeacon.Common.Result.{Result, ok, raised, value_error, ◌>>=◌, ◌>>◌}
use radiobeacon.Database.{Db, Kind, once, interval, cron, other, PolicyRow, Value}
use radiobeacon.Database.Audit.{record_audit_event, opt_text}
use radiobeacon.Cron.{World, is_valid_cron}
use radiobeacon.Policy.{or_empty, named}

-- What `_validate` returns.
pub record Cleaned : Type 0 where
  pub fetch_interval_seconds : Option ℤ
  pub fetch_cron : Option String
  pub transmit_count : ℤ
  pub transmit_interval_seconds : ℤ
  pub transmit_cron : Option String

abbrev require : Bool → Result (Unit {0})
require true = ok tt
require false = raised value_error

abbrev pub is_known : Kind → Bool
is_known (other k) = false
is_known _ = true

abbrev pub none_or_positive : Option ℤ → Bool
none_or_positive none = true
none_or_positive (some i) = at_least i 1

-- The fetch half of `_validate`.
unfoldable pub validate_fetch :
    World → Kind → Option ℤ → Option String → Result (Option ℤ × Option String)
validate_fetch w interval seconds expr = do require (none_or_positive seconds); ok (seconds, none)
validate_fetch w cron seconds expr = do require (is_valid_cron w (or_empty expr)); ok (none, expr)
validate_fetch w _ seconds expr = ok (none, none)

-- The transmit half: count, interval and expression.
unfoldable pub validate_transmit :
    World → Kind → ℤ → ℤ → Option String → Result (ℤ × ℤ × Option String)
validate_transmit w interval count seconds expr = do
  require (at_least count 1)
  require (at_least seconds 1)
  ok (count, seconds, none)
validate_transmit w cron count seconds expr = do
  require (at_least count 1)
  require (is_valid_cron w (or_empty expr))
  ok (count, pos 0, expr)
validate_transmit w _ count seconds expr = ok (pos 1, pos 0, none)

unfoldable pub validate :
    World → Kind → Option ℤ → Option String → Kind → ℤ → ℤ → Option String → Result Cleaned
unfolding validate_fetch validate_transmit
validate w fetch_kind fetch_seconds fetch_expr kind count seconds expr = do
  require (is_known fetch_kind)
  require (is_known kind)
  f ← validate_fetch w fetch_kind fetch_seconds fetch_expr
  t ← validate_transmit w kind count seconds expr
  ok (record {
    fetch_interval_seconds = f.0;
    fetch_cron = f.1;
    transmit_count = t.0;
    transmit_interval_seconds = t.1;
    transmit_cron = t.2;
  })

abbrev kind_text : Kind → String
kind_text once = "once"
kind_text interval = "interval"
kind_text cron = "cron"
kind_text (other k) = k

abbrev opt_int : Option ℤ → Value
opt_int none = Value.null
opt_int (some i) = Value.int i

-- INSERT … ON CONFLICT (name) DO UPDATE
unfoldable pub upsert_policy : PolicyRow → List PolicyRow → List PolicyRow
upsert_policy row rows =
    if exists (named row.name) rows
    then update (named row.name) (λ _. row) rows
    else rows ++ row ∷ []

-- The arguments of `set_policy` are the columns of a row.
abbrev pub cleaned_row : PolicyRow → Cleaned → PolicyRow
cleaned_row args c = record args {
  fetch_interval_seconds = c.fetch_interval_seconds;
  fetch_cron = c.fetch_cron;
  transmit_count = c.transmit_count;
  transmit_interval_seconds = c.transmit_interval_seconds;
  transmit_cron = c.transmit_cron;
}

abbrev policy_details : PolicyRow → List (String × Value)
policy_details r =
    ("name", Value.text r.name)
    ∷ ("fetch_kind", Value.text (kind_text r.fetch_kind))
    ∷ ("fetch_interval_seconds", opt_int r.fetch_interval_seconds)
    ∷ ("fetch_cron", opt_text r.fetch_cron)
    ∷ ("transmit_kind", Value.text (kind_text r.transmit_kind))
    ∷ ("transmit_count", Value.int r.transmit_count)
    ∷ ("transmit_interval_seconds", Value.int r.transmit_interval_seconds)
    ∷ ("transmit_cron", opt_text r.transmit_cron)
    ∷ ("description", opt_text r.description)
    ∷ []

unfoldable pub set_policy : World → ℕ → PolicyRow → Db → Result Db
unfolding upsert_policy
set_policy w now args db = do
  c ←
      validate w args.fetch_kind args.fetch_interval_seconds args.fetch_cron args.transmit_kind
        args.transmit_count args.transmit_interval_seconds args.transmit_cron
  let row = cleaned_row args c
  ok (
      record_audit_event now "policy.set" "adapters.policy" none none (policy_details row)
        (record db { policies = upsert_policy row db.policies }))

unfoldable pub delete_policy : ℕ → String → Db → Bool × Db
delete_policy now name db =
    let db' : Db = record db { policies = delete (named name) db.policies } in
    if exists (named name) db.policies
    then (
      true,
      record_audit_event now "policy.deleted" "adapters.policy" none none
          (("name", Value.text name) ∷ []) db',
    )
    else (false, db')
