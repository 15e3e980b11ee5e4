-- ===== src/Fetching.antt =====
-- data-adapters/src/adapters/__main__.py: when an adapter's loop fetches. Instants of the monotonic
-- clock and of the wall clock are microseconds.
pub mod Rate
use radiobeacon.Common.{
  ℕ, zero, suc, ◌+◌, ◌-◌, ◌*◌, ◌≤◌, String, Bool, true, false, not, ◌&&◌, ◌||◌, Option, none, some,
  List, [], ◌∷◌, str_eq, leb, ltb, ◌==◌, ℤ, pos, negsuc, exists, find_row, truthy, if◌then◌else◌,
}
use radiobeacon.Common.Result.{Result, ok, raised}
use radiobeacon.Database.{Db, AdapterRow, Kind, once, interval, cron, other}
use radiobeacon.Schedule.{second}
use radiobeacon.Cron.{World, latest_fire_at_or_before}
use radiobeacon.Policy.{Policy, Schedule, or_empty, resolve_policy}

-- Whether `json.loads` and `build_adapter` return for a row, rather than raise ValueError.
abbrev pub Build : Type 0
Build = AdapterRow → Policy → Bool

pub data Reloaded : Type 0 where
  gone unbuildable : Reloaded
  loaded : Policy → Reloaded

rebuilt : Build → AdapterRow → Result Policy → Reloaded
rebuilt build a (raised e) = unbuildable
rebuilt build a (ok policy) = if build a policy then loaded policy else unbuildable

reloaded : World → Build → Db → Option AdapterRow → Reloaded
unfolding rebuilt
reloaded w build db none = gone
reloaded w build db (some a) = rebuilt build a (resolve_policy w db a.policy)

abbrev pub is_enabled : String → AdapterRow → Bool
is_enabled source a = str_eq a.source source && a.enabled

-- `_reload_adapter`; a missing or disabled row stops the loop.
unfoldable pub reload_adapter : World → Build → String → Db → Reloaded
unfolding reloaded
reload_adapter w build source db =
    reloaded w build db (find_row (is_enabled source) db.adapter_instances)

-- The local variables of the loop.
pub record Loop : Type 0 where
  pub last_fetch_at : Option ℕ
  pub last_cron_occurrence : Option ℕ

-- One round: the monotonic clock when it starts and, where it fetches, when the fetch is done; the
-- wall clock; and the database that it reads.
pub record Tick : Type 0 where
  pub now : ℕ
  pub done : ℕ
  pub wall : ℕ
  pub db : Db

abbrev pub is_none {ℓ} : {A : Type ℓ} → Option A → Bool
is_none none = true
is_none (some a) = false

abbrev same_occurrence : ℕ → Option ℕ → Bool
same_occurrence occ none = false
same_occurrence occ (some last) = occ == last

new_occurrence : Option ℕ → Option ℕ → Bool
new_occurrence none last = false
new_occurrence (some occ) last = not (same_occurrence occ last)

-- `max(1, fetch.interval_seconds or 10)`
pub interval_of : ℤ → ℕ
interval_of (pos zero) = 10
interval_of (pos (suc n)) = suc n
interval_of (negsuc n) = 1

pub is_elapsed : ℕ → ℕ → Option ℕ → Bool
is_elapsed seconds now none = true
is_elapsed seconds now (some last) = leb (last + seconds * second) now

-- The occurrence that a cron fetch looks at; an empty expression is no valid one.
occurrence : World → Schedule → Tick → Result (Option ℕ)
occurrence w fetch t = elim fetch.kind [
  | cron ↦ latest_fire_at_or_before w (or_empty fetch.cron) t.wall t.db
  | once ↦ ok none
  | interval ↦ ok none
  | other k ↦ ok none
]

-- Whether a round fetches. A kind that the code does not know is treated as an interval.
unfoldable pub fetch_due : Schedule → Tick → Loop → Option ℕ → Bool
unfolding new_occurrence interval_of is_elapsed
fetch_due fetch t l occ = elim fetch.kind [
  | once ↦ is_none l.last_fetch_at
  | cron ↦
      truthy fetch.cron && (is_none l.last_fetch_at || new_occurrence occ l.last_cron_occurrence)
  | interval ↦ is_elapsed (interval_of fetch.interval_seconds) t.now l.last_fetch_at
  | other k ↦ is_elapsed (interval_of fetch.interval_seconds) t.now l.last_fetch_at
]

-- The variables after a fetch.
fetched : Schedule → Tick → Loop → Option ℕ → Loop
fetched fetch t l occ = elim fetch.kind [
  | cron ↦ record { last_fetch_at = some t.done; last_cron_occurrence = occ }
  | once ↦ record l { last_fetch_at = some t.done }
  | interval ↦ record l { last_fetch_at = some t.done }
  | other k ↦ record l { last_fetch_at = some t.done }
]

-- What a round does: it ends the loop, or goes on with or without a fetch. An exception ends the loop
-- and its thread.
pub data Round : Type 0 where
  stopped : Round
  idle fetch : Loop → Round

decided : Schedule → Tick → Loop → Result (Option ℕ) → Round
unfolding fetched
decided s t l (raised e) = stopped
decided s t l (ok occ) = if fetch_due s t l occ then fetch (fetched s t l occ) else idle l

policy_round : World → Schedule → Tick → Loop → Round
unfolding decided occurrence
policy_round w s t l = decided s t l (occurrence w s t)

step : World → Reloaded → Tick → Loop → Round
unfolding policy_round
step w gone t l = stopped
step w unbuildable t l = idle l
step w (loaded policy) t l = policy_round w policy.fetch t l

-- One round of `_run_adapter_loop`.
unfoldable pub adapter_round : World → Build → String → Tick → Loop → Round
unfolding step
adapter_round w build source t l = step w (reload_adapter w build source t.db) t l

-- The rounds of a loop, one for each tick until it ends: the ticks at which it fetches.
pub follow : Tick → (Loop → List Tick) → Round → List Tick
follow t rest stopped = []
follow t rest (idle l) = rest l
follow t rest (fetch l) = t ∷ rest l

unfoldable pub run_adapter_loop : World → Build → String → List Tick → Loop → List Tick
unfolding follow
run_adapter_loop w build source [] l = []
run_adapter_loop w build source (t ∷ ticks) l =
    follow t (run_adapter_loop w build source ticks) (adapter_round w build source t l)

-- The variables as a loop starts.
abbrev pub started : Loop
started = record { last_fetch_at = none; last_cron_occurrence = none }
