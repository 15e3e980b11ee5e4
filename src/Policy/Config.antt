-- ===== src/Policy/Config.antt =====
-- Policies and due-ness depend on the database through its policies and settings alone.
use radiobeacon.Common.{
  ℕ, String, ◌≡◌, refl, ap, ◌∙◌, Option, none, some, ℤ, str_eq, find_row, inl, inr, Bool-cases,
}
use radiobeacon.Common.Result.{Result, ok, raised, ◌>>=◌}
use radiobeacon.Database.{Db, Kind, once, interval, cron, other, PolicyRow}
use radiobeacon.Database.Settings.{get_setting}
use radiobeacon.Cron.{World, display_tz, latest_fire_at_or_before}
use radiobeacon.Policy.{
  Policy, fetch_interval, row_to_policy, get_policy, get_policy_object, map_row, option_result,
  named, default_policy, named_policy, resolve_policy, policy_for,
}

pub record SameConfig (a b : Db) : Type 0 where
  pub policies : a.policies ≡ b.policies
  pub settings : a.settings ≡ b.settings

module _ (w : World) {a b : Db} (same : SameConfig a b) where
  pub latest_fire-config :
      (expr : String) (at : ℕ)
      → latest_fire_at_or_before w expr at a ≡ latest_fire_at_or_before w expr at b
  unfolding latest_fire_at_or_before display_tz get_setting
  latest_fire-config expr at = rw same.settings refl

  interval-config : (k : Kind) (s : Option ℤ) → fetch_interval w a k s ≡ fetch_interval w b k s
  unfolding fetch_interval get_setting
  interval-config once none = refl
  interval-config interval none = rw same.settings refl
  interval-config cron none = refl
  interval-config (other t) none = refl
  interval-config k (some i) = refl

  row-config : (r : PolicyRow) → row_to_policy w a r ≡ row_to_policy w b r
  unfolding row_to_policy
  row-config r = rw (interval-config r.fetch_kind r.fetch_interval_seconds) refl

  map_row-config : (o : Option PolicyRow) → map_row w a o ≡ map_row w b o
  map_row-config none = refl
  map_row-config (some r) = ap some (row-config r)

  object-config : (name : String) → get_policy_object w a name ≡ get_policy_object w b name
  unfolding get_policy_object get_policy
  object-config name =
      ap (λ t. option_result (map_row w a (find_row (named name) t))) same.policies
      ∙ ap option_result (map_row-config (find_row (named name) b.policies))

  default-config : (name : String) → default_policy w a name ≡ default_policy w b name
  unfolding default_policy
  default-config name = rw (object-config "default") refl

  named-config :
      (name : String) (o : Option Policy) → named_policy w a name o ≡ named_policy w b name o
  unfolding named_policy
  named-config name none = default-config name
  named-config name (some p) = refl

  resolve-config : (name : Option String) → resolve_policy w a name ≡ resolve_policy w b name
  unfolding resolve_policy
  resolve-config none = default-config "default"
  resolve-config (some name) = elim (Bool-cases (str_eq name "")) [
    | inl empty ↦ rw empty (default-config "default")
    | inr given ↦ rw (given, object-config name) (bind-config (get_policy_object w b name))
  ]
    where
      bind-config :
          (m : Result (Option Policy))
          → (m >>= named_policy w a name) ≡ (m >>= named_policy w b name)
      bind-config (ok o) = named-config name o
      bind-config (raised e) = refl

  pub policy_for-config : (name : Option String) → policy_for w a name ≡ policy_for w b name
  unfolding policy_for
  policy_for-config name = rw (resolve-config name) refl
