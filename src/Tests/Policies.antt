-- ===== src/Tests/Policies.antt =====
-- Policies, and the due-ness that they give, on small tables.
use radiobeacon.Common.{ℕ, String, ◌≡◌, ◌≢◌, refl, false, none, some, [], ◌∷◌, pos}
use radiobeacon.Common.Result.{ok}
use radiobeacon.Database.{Db, cron, PolicyRow, empty}
use radiobeacon.Policy.{
  Policy, Schedule, row_to_policy, fallback_policy, resolve_policy, policy_for,
}
use radiobeacon.Policy.Edits.{Cleaned, cleaned_row, set_policy}
use radiobeacon.Policy.Validation
use radiobeacon.Tests.Data.{world, default_row, scheduled_db}

abbrev fast_row : PolicyRow
fast_row = record default_row { name = "fast"; transmit_count = pos 5 }

abbrev broken_row : PolicyRow
broken_row = record default_row { name = "broken"; transmit_count = pos 0 }

default-IsCoherent : Validation.IsCoherent world default_row
default-IsCoherent = record { fetch = (refl, refl); transmit = (refl, refl, refl) }

edit_all-coherent_example : Validation.AllCoherent world (
    Validation.edit_all world 9
      (Validation.set fast_row ∷ Validation.set broken_row ∷ Validation.remove "default" ∷ [])
      scheduled_db)
edit_all-coherent_example =
    Validation.edit_all-coherent world 9
      (Validation.set fast_row ∷ Validation.set broken_row ∷ Validation.remove "default" ∷ [])
      scheduled_db (default-IsCoherent, tt)

abbrev fast_name : String
fast_name = "fast"

fast_nonempty : fast_name ≢ ""
fast_nonempty e = absurd (cc e)

set_fast : (db : Db) × (set_policy world 9 fast_row scheduled_db ≡ ok db)
unfolding set_policy radiobeacon.Policy.Edits.validate
set_fast = (_, refl)

-- A setting that is no number, and a policy that leaves its interval to it.
abbrev wrong_db : Db
wrong_db = record empty {
  policies = record fast_row { fetch_interval_seconds = none } ∷ [];
  settings =
      record {
        key = "ADAPTERS_DEFAULT_INTERVAL_SECONDS";
        value = some "ten";
        is_secret = false;
        updated_at = 1;
        updated_by = "ui";
      }
      ∷ [];
}

abbrev each_minute : Schedule
each_minute = record {
  kind = cron;
  interval_seconds = pos 0;
  cron = some "* * * * *";
  count = some (pos 5);
}

abbrev minute : ℕ
minute = 60000000

abbrev first : ℕ
first = 60000000
