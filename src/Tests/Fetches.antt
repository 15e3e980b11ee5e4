-- ===== src/Tests/Fetches.antt =====
-- An adapter that is configured, fetches every ten seconds, and stores what it fetched.
use radiobeacon.Common.{
  ℕ, ◌+◌, ◌*◌, ◌≡◌, refl, subst, arith, true, false, none, some, List, [], ◌∷◌, pos,
}
use radiobeacon.Schedule.{second}
use radiobeacon.Database.{Db, interval, empty}
use radiobeacon.Policy.{Policy, resolve_policy}
use radiobeacon.Readings.{Fetched, Reading, Dumps, instance_policy, listed, store_reading}
use radiobeacon.Readings.Found.{Found, store_reading-Found}
use radiobeacon.Registry.{set_adapter_instance}
use radiobeacon.Registry.Map.{Edit, set, switch, view, edit_all, change_all, edit_all-change}
use radiobeacon.Fetching.{
  Build, Tick, loaded, reload_adapter, run_adapter_loop, interval_of, started,
}
use radiobeacon.Fetching.Rate.{Apart, Every, fetch-Apart}
use radiobeacon.Tests.Data.{world, default_row}

abbrev quake : Fetched
quake = record {
  id = some "q1";
  title = some "M 5.1";
  contents = none;
  url = none;
  event_key = none;
  type = some "emergency";
  subtype = none;
  policy = none;
  source_date_time = none;
}

abbrev reading : Reading
reading = record {
  source = "csn";
  items_data = some (quake ∷ record quake { id = none } ∷ record quake { id = some "q2" } ∷ []);
}

abbrev edits : List Edit
edits =
    set 1 "csn" "api" "{}" true none "ui"
    ∷ switch 2 "csn" false "ui"
    ∷ switch 3 "csn" true "ui"
    ∷ []

abbrev configured : Db
configured = edit_all edits (record empty { policies = default_row ∷ [] })

abbrev all_good : Dumps
all_good f = true

stores_two : (store_reading all_good 9 reading configured).1 ≡ 2
unfolding store_reading edit_all radiobeacon.Registry.set_adapter_instance_enabled
    set_adapter_instance
stores_two = refl

store_reading-Found_example :
    Found 0 "csn"
      (instance_policy "csn" configured.adapter_instances)
      (listed reading.items_data)
      configured
      (store_reading all_good 9 reading configured)
store_reading-Found_example = store_reading-Found all_good 0 9 reading configured (omega arith)

edit_all-change_example :
    view configured ≡ change_all edits (view (record empty { policies = default_row ∷ [] }))
edit_all-change_example = edit_all-change edits (record empty { policies = default_row ∷ [] })

abbrev any_config : Build
any_config a p = true

abbrev tick : ℕ → Tick
tick n = record { now = n * second; done = n * second + 1; wall = n * second; db = configured }

abbrev ticks : List Tick
ticks = tick 0 ∷ tick 5 ∷ tick 11 ∷ tick 16 ∷ tick 22 ∷ []

fetches : run_adapter_loop world any_config "csn" ticks started ≡ tick 0 ∷ tick 11 ∷ tick 22 ∷ []
unfolding run_adapter_loop radiobeacon.Fetching.adapter_round reload_adapter edit_all
    radiobeacon.Registry.set_adapter_instance_enabled set_adapter_instance resolve_policy
    radiobeacon.Policy.get_policy_object radiobeacon.Policy.row_to_policy
    radiobeacon.Fetching.fetch_due
fetches = refl

same_policy : {p q : Policy} → loaded p ≡ loaded q → p ≡ q
same_policy e = cc

tick-Every : (n : ℕ) → Every world any_config "csn" (pos 10) (tick n)
unfolding reload_adapter edit_all radiobeacon.Registry.set_adapter_instance_enabled
    set_adapter_instance resolve_policy radiobeacon.Policy.get_policy_object
    radiobeacon.Policy.row_to_policy
tick-Every n policy found =
    subst (λ p. (p.fetch.kind ≡ interval) × (p.fetch.interval_seconds ≡ pos 10)) (same_policy found)
      (refl, refl)

fetch-Apart_example :
    Apart
      (interval_of (pos 10) * second)
      none
      (run_adapter_loop world any_config "csn" ticks started)
fetch-Apart_example =
    fetch-Apart world any_config "csn" (pos 10) ticks
      (tick-Every 0, (tick-Every 5, (tick-Every 11, (tick-Every 16, (tick-Every 22, tt)))))
