-- ===== src/Policy.antt =====
-- data-adapters/src/adapters/policy.py: a Policy says how often a source is fetched and how an item
-- is transmitted. A column or argument that holds a kind is a `Kind`, with `other` for any text that
-- the code does not know.
pub mod Edits
pub mod Validation
pub mod Resolution
pub mod Config
use radiobeacon.Common.{
  ℕ, zero, suc, ◌+◌, ◌*◌, String, Bool, true, false, not, Option, none, some, List, [], ◌∷◌, ◌++◌,
  str_eq, leb, ltb, ℤ, pos, negsuc, at_least, exists, find_row, update, delete, if◌then◌else◌,
}
use radiobeacon.Common.Result.{Result, ok, raised, value_error, or_raise, ◌>>=◌, ◌>>◌}
use radiobeacon.Common.Text.{int}
use radiobeacon.Database.{Db, Kind, once, interval, cron, other, PolicyRow, Value}
use radiobeacon.Database.Audit.{record_audit_event, opt_text}
use radiobeacon.Database.Settings.{get_setting}
use radiobeacon.Schedule.{second}
use radiobeacon.Cron
use radiobeacon.Cron.{World, is_valid_cron}

abbrev pub default_interval_seconds : ℕ
default_interval_seconds = 10

pub record Schedule : Type 0 where
  pub kind : Kind
  pub interval_seconds : ℤ
  pub cron : Option String
  pub count : Option ℤ

pub record Policy : Type 0 where
  pub name : String
  pub fetch : Schedule
  pub transmit : Schedule

abbrev pub or_empty : Option String → String
or_empty none = ""
or_empty (some s) = s

-- `max(1, i)` for the number of seconds `i`.
abbrev at_least_one : ℤ → ℕ
at_least_one (pos zero) = 1
at_least_one (pos (suc n)) = suc n
at_least_one (negsuc n) = 1

-- `Schedule.next_fire_after`
unfoldable pub next_fire_after : World → Schedule → ℕ → Db → Result (Option ℕ)
next_fire_after w s after db = elim s.kind [
  | interval ↦ ok (some (after + at_least_one s.interval_seconds * second))
  | cron ↦ Cron.next_fire_after w (or_empty s.cron) after db
  | once ↦ ok none
  | other k ↦ ok none
]

-- `int(raw) if raw else DEFAULT_INTERVAL_SECONDS`
unfoldable pub default_interval : Option String → Result ℤ
default_interval none = ok (pos default_interval_seconds)
default_interval (some raw) =
    if str_eq raw "" then ok (pos default_interval_seconds) else or_raise value_error (int raw)

-- The fetch interval of a row: the setting's, where the row is an interval and has none.
fetch_interval : World → Db → Kind → Option ℤ → Result ℤ
fetch_interval w db kind (some i) = ok i
fetch_interval w db interval none =
    default_interval (get_setting w.environ true "ADAPTERS_DEFAULT_INTERVAL_SECONDS" none db)
fetch_interval w db _ none = ok (pos 0)

unfoldable pub row_to_policy : World → Db → PolicyRow → Result Policy
unfolding default_interval fetch_interval
row_to_policy w db r = do
  seconds ← fetch_interval w db r.fetch_kind r.fetch_interval_seconds
  ok (record {
    name = r.name;
    fetch = record {
      kind = r.fetch_kind;
      interval_seconds = seconds;
      cron = r.fetch_cron;
      count = none;
    };
    transmit = record {
      kind = r.transmit_kind;
      interval_seconds = r.transmit_interval_seconds;
      cron = r.transmit_cron;
      count = some r.transmit_count;
    };
  })

unfoldable pub fallback_policy : String → Policy
fallback_policy name = record {
  name = name;
  fetch = record {
    kind = interval;
    interval_seconds = pos default_interval_seconds;
    cron = none;
    count = none;
  };
  transmit = record { kind = once; interval_seconds = pos 0; cron = none; count = some (pos 1) };
}

abbrev pub named : String → PolicyRow → Bool
named name r = str_eq r.name name

unfoldable pub get_policy : Db → String → Option PolicyRow
get_policy db name = find_row (named name) db.policies

abbrev option_result {ℓ} : {A : Type ℓ} → Option (Result A) → Result (Option A)
option_result none = ok none
option_result (some (ok a)) = ok (some a)
option_result (some (raised e)) = raised e

abbrev map_row : World → Db → Option PolicyRow → Option (Result Policy)
map_row w db none = none
map_row w db (some r) = some (row_to_policy w db r)

unfoldable pub get_policy_object : World → Db → String → Result (Option Policy)
unfolding get_policy
get_policy_object w db name = option_result (map_row w db (get_policy db name))

abbrev or_else : Policy → Option Policy → Policy
or_else p none = p
or_else p (some q) = q

default_policy : World → Db → String → Result Policy
default_policy w db name = do
  found ← get_policy_object w db "default"
  ok (or_else (fallback_policy name) found)

named_policy : World → Db → String → Option Policy → Result Policy
named_policy w db name none = default_policy w db name
named_policy w db name (some p) = ok p

-- The name, then the row `default`, then a fixed Policy.
unfoldable pub resolve_policy : World → Db → Option String → Result Policy
unfolding default_policy named_policy
resolve_policy w db none = default_policy w db "default"
resolve_policy w db (some name) =
    if str_eq name ""
    then default_policy w db "default"
    else do found ← get_policy_object w db name; named_policy w db name found

unfoldable pub policy_for : World → Db → Option String → Result Schedule
policy_for w db name = do p ← resolve_policy w db name; ok p.transmit
