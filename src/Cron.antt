-- ===== src/Cron.antt =====
-- data-adapters/src/adapters/cron.py. The croniter package is a parameter: an instant is a number of
-- microseconds, and a query takes the name of the time zone in which the expression is read.
pub mod Boundary
use radiobeacon.Common.{
  ℕ, ◌+◌, ◌<◌, ◌≤◌, String, ◌≡◌, Bool, true, false, not, ◌&&◌, Option, none, some, str_eq,
  if◌then◌else◌,
}
use radiobeacon.Common.Text.{strip}
use radiobeacon.Common.Result.{Result, ok, ◌>>=◌}
use radiobeacon.Database.{Db}
use radiobeacon.Database.Settings.{Environ, get_setting}
use radiobeacon.Schedule.{second}

-- `croniter.is_valid(e)`, `croniter(e, base).get_prev` and `.get_next`: these raise
-- CroniterBadDateError for a valid expression that has no occurrence, such as `0 0 30 2 *`.
pub record Croniter : Type 0 where
  pub is_valid : String → Bool
  pub get_prev : String → String → ℕ → Result ℕ
  pub get_next : String → String → ℕ → Result ℕ

-- What the program takes from outside itself; `zone_info` is ZoneInfo, which raises for a name that is
-- no time zone.
pub record World : Type 0 where
  pub environ : Environ
  pub croniter : Croniter
  pub zone_info : String → Result String

unfoldable pub is_valid_cron : World → String → Bool
is_valid_cron w expr =
    not (str_eq expr "") && (not (str_eq (strip expr) "") && w.croniter.is_valid (strip expr))

abbrev pub text_or : String → Option String → String
text_or default none = default
text_or default (some s) = s

unfoldable pub display_tz : World → Db → Result String
display_tz w db = w.zone_info (
    text_or "America/Santiago"
      (get_setting w.environ true "DISPLAY_TIMEZONE" (some "America/Santiago") db))

-- The base is moved on by a second, since `get_prev` excludes it.
unfoldable pub latest_fire_at_or_before : World → String → ℕ → Db → Result (Option ℕ)
latest_fire_at_or_before w expr at db =
    let evaluated = (do
      tz ← display_tz w db
      t ← w.croniter.get_prev tz (strip expr) (at + second)
      ok (some t)) in
    if is_valid_cron w expr then evaluated else ok none

unfoldable pub next_fire_after : World → String → ℕ → Db → Result (Option ℕ)
next_fire_after w expr after db =
    let evaluated = (do
      tz ← display_tz w db
      t ← w.croniter.get_next tz (strip expr) after
      ok (some t)) in
    if is_valid_cron w expr then evaluated else ok none

-- The documented behaviour of croniter: wherever there is an occurrence before the base, what `get_prev`
-- returns is the last such one, and wherever there is one after it, what `get_next` returns is the first.
pub record Documented (c : Croniter) (Occurs : String → String → ℕ → Type 0) : Type 0 where
  pub prev :
      (tz e : String) (b t p : ℕ)
      → c.get_prev tz e b ≡ ok p
      → Occurs tz e t
      → t < b
      → Occurs tz e p × (p < b) × (t ≤ p)
  pub next :
      (tz e : String) (b t p : ℕ)
      → c.get_next tz e b ≡ ok p
      → Occurs tz e t
      → b < t
      → Occurs tz e p × (b < p) × (p ≤ t)
