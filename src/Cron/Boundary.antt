-- ===== src/Cron/Boundary.antt =====
-- Which occurrence `latest_fire_at_or_before` finds.
use radiobeacon.Common.{
  ℕ, ◌+◌, ◌<◌, ◌≤◌, String, ◌≡◌, Bool, true, false, none, some, arith, if◌then◌else◌,
}
use radiobeacon.Common.Text.{strip}
use radiobeacon.Common.Result.{Result, ok, raised, ◌>>=◌}
use radiobeacon.Database.{Db}
use radiobeacon.Schedule.{second}
use radiobeacon.Cron.{
  World, Documented, is_valid_cron, display_tz, latest_fire_at_or_before, next_fire_after,
}

evaluated :
    (m : Result String) (get : String → Result ℕ) (b : Bool) {occ : ℕ}
    → (if b then (do tz ← m; t ← get tz; ok (some t)) else ok none) ≡ ok (some occ)
    → (tz : String) → m ≡ ok tz
    → get tz ≡ ok occ
evaluated m get true h tz e = read (get tz) (rw e at h)
  where
    read : (r : Result ℕ) {o : ℕ} → (do t ← r; ok (some t)) ≡ ok (some o) → r ≡ ok o
    read (ok t) k = cc
    read (raised x) k = cc
evaluated m get false h tz e = cc

-- What `latest_fire_at_or_before` returns is an occurrence of the expression that lies before one
-- second after the asked instant, and no occurrence before that bound is later; given that there is
-- an occurrence `t` before that bound at all.
pub latest_fire_window :
    (w : World) (Occurs : String → String → ℕ → Type 0) (expr tz : String) (at t : ℕ) (db : Db)
    {occ : ℕ}
    → Documented w.croniter Occurs
    → latest_fire_at_or_before w expr at db ≡ ok (some occ)
    → display_tz w db ≡ ok tz
    → Occurs tz (strip expr) t
    → t < at + second
    → Occurs tz (strip expr) occ × (occ < at + second) × (t ≤ occ)
unfolding latest_fire_at_or_before
latest_fire_window w Occurs expr tz at t db {occ} doc h zone o lt =
    doc.prev tz (strip expr) (at + second) t occ
      (evaluated (display_tz w db) (λ z. w.croniter.get_prev z (strip expr) (at + second))
        (is_valid_cron w expr) h tz zone)
      o lt

-- An occurrence less than a second after the asked instant makes the function return an occurrence
-- after that instant: "at or before" does not hold in that second.
latest_fire_too_late :
    (w : World) (Occurs : String → String → ℕ → Type 0) (expr tz : String) (at t : ℕ) (db : Db)
    {occ : ℕ}
    → Documented w.croniter Occurs
    → latest_fire_at_or_before w expr at db ≡ ok (some occ)
    → display_tz w db ≡ ok tz
    → Occurs tz (strip expr) t
    → at < t
    → t < at + second
    → at < occ
latest_fire_too_late w Occurs expr tz at t db doc h zone o after lt =
    omega (arith, (latest_fire_window w Occurs expr tz at t db doc h zone o lt).2)

-- What `next_fire_after` returns is the first occurrence strictly after the given instant, given
-- that there is one.
next_fire_first :
    (w : World) (Occurs : String → String → ℕ → Type 0) (expr tz : String) (after t : ℕ) (db : Db)
    {occ : ℕ}
    → Documented w.croniter Occurs
    → next_fire_after w expr after db ≡ ok (some occ)
    → display_tz w db ≡ ok tz
    → Occurs tz (strip expr) t
    → after < t
    → Occurs tz (strip expr) occ × (after < occ) × (occ ≤ t)
unfolding next_fire_after
next_fire_first w Occurs expr tz after t db {occ} doc h zone o lt =
    doc.next tz (strip expr) after t occ
      (evaluated (display_tz w db) (λ z. w.croniter.get_next z (strip expr) after)
        (is_valid_cron w expr) h tz zone)
      o lt
