-- ===== src/Beacon/Monitor/Agrees.antt =====
-- What the dashboard reads is what the monitor knows.
use radiobeacon.Common.{
  subst, ℕ, ◌-◌, String, ◌≡◌, refl, sym, ◌∙◌, arith, Bool, true, false, ◌&&◌, ◌||◌, Option, none,
  some, List, [], ◌∷◌, ltb, leb, is_text, inl, inr, Bool-cases, if◌then◌else◌,
}
use radiobeacon.Database.{Db}
use radiobeacon.Database.Settings.{Environ}
use radiobeacon.Database.Status.{set_beacon_status, get_beacon_status, get_beacon_status-set}
use radiobeacon.Beacon.Monitor.{
  LogTail, Round, Monitor, tx_state, ensure_open, readlines, record_keyed, same, turned, read_lines,
  watchdog, heartbeat, heartbeat_interval, max_keyed, tailing, dormant, opened, switched,
  monitor_enabled, log_path, on_path, monitor_round, run_tx_monitor,
}

-- Whether the dashboard's table has the transmitter keyed.
abbrev pub shows_keyed : Db → Bool
shows_keyed db = is_text (get_beacon_status "tx_keyed" db) "1"

-- The table has the state that the monitor has, and no key-up is older than the limit at the instant.
pub record Agrees (now : ℕ) (out : Monitor × Db) : Type 0 where
  pub told : shows_keyed out.1 ≡ out.0.keyed
  pub recent : (out.0.keyed && ltb max_keyed (now - out.0.keyed_since)) ≡ false

shows-record_keyed :
    (now : String) (want : Bool) (db : Db) → shows_keyed (record_keyed now want db) ≡ want
unfolding record_keyed
shows-record_keyed now true db =
    rw
      (
        get_beacon_status-set "tx_keyed_at" "tx_keyed" (some now)
            (set_beacon_status "tx_keyed" (some "1") db),
        get_beacon_status-set "tx_keyed" "tx_keyed" (some "1") db,
      )
      refl
shows-record_keyed now false db =
    rw
      (
        get_beacon_status-set "tx_unkeyed_at" "tx_keyed" (some now)
            (set_beacon_status "tx_keyed" (some "0") db),
        get_beacon_status-set "tx_keyed" "tx_keyed" (some "0") db,
      )
      refl

state_or : Bool → Option Bool → Bool
state_or keyed none = keyed
state_or keyed (some want) = want

-- The state after the last line that has one.
unfoldable pub last_state : Bool → List String → Bool
unfolding state_or
last_state keyed [] = keyed
last_state keyed (line ∷ lines) = last_state (state_or keyed (tx_state line)) lines

-- The table has the state that the monitor has, which is the one given.
record Told (keyed : Bool) (out : Monitor × Db) : Type 0 where
  told : shows_keyed out.1 ≡ out.0.keyed
  state : out.0.keyed ≡ keyed

same_eq : (a b : Bool) → same a b ≡ true → b ≡ a
same_eq true b h = h
same_eq false true h = cc
same_eq false false h = refl

module _ (r : Round) where
  turned-Told :
      (o : Option Bool) (m : Monitor) (db : Db)
      → shows_keyed db ≡ m.keyed
      → Told (state_or m.keyed o) (turned r o m db)
  unfolding turned state_or
  turned-Told none m db h = record { told = h; state = refl }
  turned-Told (some want) m db h = elim (Bool-cases (same want m.keyed)) [
    | inl old ↦ rw old (record { told = h; state = same_eq want m.keyed old })
    | inr new ↦ rw new (record { told = shows-record_keyed r.isoformat want db; state = refl })
  ]

  read_lines-Told :
      (lines : List String) (m : Monitor) (db : Db)
      → shows_keyed db ≡ m.keyed
      → Told (last_state m.keyed lines) (read_lines r lines m db)
  unfolding read_lines last_state
  read_lines-Told [] m db h = record { told = h; state = refl }
  read_lines-Told (line ∷ lines) m db h =
      let t = turned-Told (tx_state line) m db h in
      let out = turned r (tx_state line) m db in
      subst (λ keyed. Told (last_state keyed lines) (read_lines r lines out.0 out.1)) t.state
        (read_lines-Told lines out.0 out.1 t.told)

  watchdog-Agrees :
      (m : Monitor) (db : Db) → shows_keyed db ≡ m.keyed → Agrees r.monotonic (watchdog r (m, db))
  unfolding watchdog
  watchdog-Agrees m db h =
      elim (Bool-cases (m.keyed && ltb max_keyed (r.monotonic - m.keyed_since))) [
        | inl late ↦
            rw late (record { told = shows-record_keyed r.isoformat false db; recent = refl })
        | inr good ↦ rw good (record { told = h; recent = good })
      ]

  heartbeat-Agrees :
      (out : Monitor × Db) → Agrees r.monotonic out → Agrees r.monotonic (heartbeat r out)
  unfolding heartbeat
  heartbeat-Agrees (m, db) a =
      elim (Bool-cases (leb heartbeat_interval (r.monotonic - m.last_heartbeat))) [
        | inl beat ↦ rw beat (record {
          told =
              rw (get_beacon_status-set "tx_monitor_heartbeat_at" "tx_keyed" (some r.isoformat) db)
                a.told;
          recent = a.recent;
        })
        | inr quiet ↦ rw quiet a
      ]

  idle-told :
      (m : Monitor) (db : Db)
      → shows_keyed db ≡ m.keyed
      → shows_keyed (if m.keyed then record_keyed r.isoformat false db else db) ≡ false
  idle-told m db h = elim (Bool-cases m.keyed) [
    | inl keyed ↦ rw keyed (shows-record_keyed r.isoformat false db)
    | inr idle ↦ rw idle (h ∙ idle)
  ]

  dormant-Agrees :
      (m : Monitor) (db : Db) → shows_keyed db ≡ m.keyed → Agrees r.monotonic (dormant r m db)
  unfolding dormant
  dormant-Agrees m db h = elim (Bool-cases (m.active || m.keyed)) [
    | inl awake ↦ rw awake (record { told = idle-told m db h; recent = refl })
    | inr asleep ↦ rw asleep (record { told = h; recent = ground (arith, asleep) })
  ]

  opened-Agrees :
      (m : Monitor) (tail : LogTail × Bool) (db : Db)
      → shows_keyed db ≡ m.keyed
      → Agrees r.monotonic (opened r m tail db)
  unfolding opened tailing
  opened-Agrees m (tail, false) db h = dormant-Agrees (record m { tail = tail }) db h
  opened-Agrees m (tail, true) db h =
      let read = readlines r.files tail in
      let started = record m { tail = read.0; active = true } in
      heartbeat-Agrees _ (watchdog-Agrees _ _ (read_lines-Told read.1 started db h).told)

  on_path-keyed : (path : String) (m : Monitor) → (on_path path m).keyed ≡ m.keyed
  unfolding on_path
  on_path-keyed path m = ground arith

  switched-Agrees :
      (enabled : Bool) (m : Monitor) (db : Db)
      → shows_keyed db ≡ m.keyed
      → Agrees r.monotonic (switched r enabled m db)
  unfolding switched
  switched-Agrees false m db h = dormant-Agrees m db h
  switched-Agrees true m db h = opened-Agrees m (ensure_open r.files m.tail) db h

  round-Agrees :
      (environ : Environ) (m : Monitor) (db : Db)
      → shows_keyed db ≡ m.keyed
      → Agrees r.monotonic (monitor_round environ r m db)
  unfolding monitor_round
  round-Agrees environ m db h =
      switched-Agrees (monitor_enabled environ db) (on_path (log_path environ db) m) db
        (h ∙ sym (on_path-keyed (log_path environ db) m))

run-told :
    (environ : Environ) (rounds : List Round) (m : Monitor) (db : Db)
    → shows_keyed db ≡ m.keyed
    → shows_keyed (run_tx_monitor environ rounds m db).1
      ≡ (run_tx_monitor environ rounds m db).0.keyed
unfolding run_tx_monitor
run-told environ [] m db h = h
run-told environ (r ∷ rounds) m db h =
    run-told environ rounds _ _ (round-Agrees r environ m db h).told

-- A round of the monitor, after any rounds: the table shows the transmitter keyed just when the monitor
-- holds it to be, and then the key-up was seen no longer than five minutes ago, whatever the log said,
-- whether it could be read, was rotated, or another path or the monitor's switch was set in between;
-- when the table and the monitor agreed at the start.
pub run_tx_monitor-Agrees :
    (environ : Environ) (rounds : List Round) (r : Round) (m : Monitor) (db : Db)
    → shows_keyed db ≡ m.keyed
    → let before = run_tx_monitor environ rounds m db in
      Agrees r.monotonic (monitor_round environ r before.0 before.1)
run_tx_monitor-Agrees environ rounds r m db h =
    round-Agrees r environ _ _ (run-told environ rounds m db h)

-- Reading lines from the log leaves the table with the state of the last line that names one, and with
-- the state that it had if no line does, although only changes are written; when the table and the
-- monitor agreed before.
read_lines-last_state :
    (r : Round) (lines : List String) (m : Monitor) (db : Db)
    → shows_keyed db ≡ m.keyed
    → shows_keyed (read_lines r lines m db).1 ≡ last_state (shows_keyed db) lines
read_lines-last_state r lines m db h =
    let t = read_lines-Told r lines m db h in rw h (t.told ∙ t.state)
