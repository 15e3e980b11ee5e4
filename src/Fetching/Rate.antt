-- ===== src/Fetching/Rate.antt =====
-- How often an adapter with an interval fetches.
use radiobeacon.Common.{
  ℕ, suc, ◌+◌, ◌-◌, ◌*◌, ◌≤◌, String, ◌≡◌, refl, arith, Option, none, some, List, [], ◌∷◌, All,
  length, leb, ℤ, ◌⊎◌, inl, inr, Bool-cases,
}
use radiobeacon.Database.{interval}
use radiobeacon.Schedule.{second}
use radiobeacon.Cron.{World}
use radiobeacon.Policy.{Policy, Schedule}
use radiobeacon.Fetching.{
  Build, Reloaded, gone, unbuildable, loaded, reload_adapter, Tick, interval_of, is_elapsed,
  fetch_due, fetched, decided, occurrence, Round, stopped, idle, fetch, policy_round, step,
  adapter_round, follow, run_adapter_loop, started,
}

-- The ticks are in order: a round starts after the one before it, its fetch included, and by `end`.
abbrev pub InOrder : ℕ → List Tick → ℕ → Type 0
InOrder from [] end = from ≤ end
InOrder from (t ∷ ticks) end = (from ≤ t.now) × (t.now ≤ t.done) × InOrder t.done ticks end

-- Wherever a tick's round finds an adapter, it is to be fetched every `i` seconds.
abbrev pub Every : World → Build → String → ℤ → Tick → Type 0
Every w build source i t =
    (policy : Policy)
    → reload_adapter w build source t.db ≡ loaded policy
    → (policy.fetch.kind ≡ interval) × (policy.fetch.interval_seconds ≡ i)

-- Each fetch starts at least `gap` after the one before it was done.
abbrev pub Apart : ℕ → Option ℕ → List Tick → Type 0
Apart gap last [] = Unit
Apart gap none (t ∷ ticks) = Apart gap (some t.done) ticks
Apart gap (some last) (t ∷ ticks) = (last + gap ≤ t.now) × Apart gap (some t.done) ticks

InOrder-le : (from end : ℕ) (ticks : List Tick) → InOrder from ticks end → from ≤ end
InOrder-le from end [] h = h
InOrder-le from end (t ∷ ticks) (a, b, c) = omega (arith, a, b, InOrder-le t.done end ticks c)

module _ (w : World) (build : Build) (source : String) (i : ℤ) where
  abbrev gap : ℕ
  gap = interval_of i * second

  -- What a round makes of the variables after a fetch that was done at `last`.
  Next : ℕ → Option ℕ → Tick → Round → Type 0
  Next last o t r =
      (r ≡ stopped)
      ⊎ (r ≡ idle (record { last_fetch_at = some last; last_cron_occurrence = o }))
      ⊎ ((r ≡ fetch (record { last_fetch_at = some t.done; last_cron_occurrence = o }))
          × (last + gap ≤ t.now))

  policy_round-Next :
      (last : ℕ) (o : Option ℕ) (t : Tick) (s : Schedule)
      → (s.kind ≡ interval) × (s.interval_seconds ≡ i)
      → Next last o t
          (policy_round w s t (record { last_fetch_at = some last; last_cron_occurrence = o }))
  unfolding Next policy_round decided occurrence fetch_due fetched is_elapsed
  policy_round-Next last o t s (kind, seconds) =
      rw (kind, seconds)
        (elim (Bool-cases (leb (last + gap) t.now)) [
          | inl due ↦ rw due (inr (inr (refl, ground (arith, due))))
          | inr early ↦ rw early (inr (inl refl))
        ])

  step-Next :
      (last : ℕ) (o : Option ℕ) (t : Tick) (r : Reloaded)
      → ((policy : Policy)
          → r ≡ loaded policy
          → (policy.fetch.kind ≡ interval) × (policy.fetch.interval_seconds ≡ i))
      → Next last o t (step w r t (record { last_fetch_at = some last; last_cron_occurrence = o }))
  unfolding step Next
  step-Next last o t gone every = inl refl
  step-Next last o t unbuildable every = inr (inl refl)
  step-Next last o t (loaded policy) every =
      policy_round-Next last o t policy.fetch (every policy refl)

  -- The fetches after one that was done at `last`.
  rate :
      (last from end : ℕ) (o : Option ℕ) (ticks : List Tick)
      → last ≤ from
      → InOrder from ticks end
      → All (Every w build source i) ticks
      → last
          + length (
              run_adapter_loop w build source ticks
                (record { last_fetch_at = some last; last_cron_occurrence = o }))
            * gap
        ≤ end
  unfolding run_adapter_loop adapter_round follow Next
  rate last from end o [] lt order every = omega (arith, lt, order)
  rate last from end o (t ∷ ticks) lt (a, b, order) every =
      elim (step-Next last o t (reload_adapter w build source t.db) every.0) [
        | inl end_of_loop ↦
            rw end_of_loop (omega (arith, lt, a, b, InOrder-le t.done end ticks order))
        | inr (inl waits) ↦
            rw waits (rate last t.done end o ticks (omega (arith, lt, a, b)) order every.1)
        | inr (inr (fetches, due)) ↦
            rw fetches
              (omega (arith, rate t.done t.done end o ticks (omega arith) order every.1, due, b))
      ]

  rate-Apart :
      (last : ℕ) (o : Option ℕ) (ticks : List Tick)
      → All (Every w build source i) ticks
      → Apart gap (some last) (
          run_adapter_loop w build source ticks
            (record { last_fetch_at = some last; last_cron_occurrence = o }))
  unfolding run_adapter_loop adapter_round follow Next
  rate-Apart last o [] every = tt
  rate-Apart last o (t ∷ ticks) every =
      elim (step-Next last o t (reload_adapter w build source t.db) every.0) [
        | inl end_of_loop ↦ rw end_of_loop tt
        | inr (inl waits) ↦ rw waits (rate-Apart last o ticks every.1)
        | inr (inr (fetches, due)) ↦ rw fetches (due, rate-Apart t.done o ticks every.1)
      ]

  First : Tick → Round → Type 0
  First t r =
      (r ≡ stopped)
      ⊎ (r ≡ idle started)
      ⊎ (r ≡ fetch (record { last_fetch_at = some t.done; last_cron_occurrence = none }))

  step-First :
      (t : Tick) (r : Reloaded)
      → ((policy : Policy)
          → r ≡ loaded policy
          → (policy.fetch.kind ≡ interval) × (policy.fetch.interval_seconds ≡ i))
      → First t (step w r t started)
  unfolding step First policy_round decided occurrence fetch_due fetched is_elapsed
  step-First t gone every = inl refl
  step-First t unbuildable every = inr (inl refl)
  step-First t (loaded policy) every = rw (every policy refl).0 (inr (inr refl))

one_more :
    (from now done end n size : ℕ)
    → from ≤ now
    → now ≤ done
    → done + n * size ≤ end
    → from + (suc n - 1) * size ≤ end
one_more from now done end n size a b h =
    let less : suc n - 1 ≡ n = omega arith in rw less (omega (arith, a, b, h))

-- A loop whose adapter is to be fetched every `i` seconds, wherever it finds one, makes its second
-- fetch and every later one at least that long after the one before was done. An interval of 0 means
-- ten seconds, and less than 1 means 1.
pub fetch-Apart :
    (w : World) (build : Build) (source : String) (i : ℤ) (ticks : List Tick)
    → All (Every w build source i) ticks
    → Apart (interval_of i * second) none (run_adapter_loop w build source ticks started)
unfolding run_adapter_loop adapter_round follow First
fetch-Apart w build source i [] every = tt
fetch-Apart w build source i (t ∷ ticks) every =
    elim (step-First w build source i t (reload_adapter w build source t.db) every.0) [
      | inl end_of_loop ↦ rw end_of_loop tt
      | inr (inl waits) ↦ rw waits (fetch-Apart w build source i ticks every.1)
      | inr (inr fetches) ↦ rw fetches (rate-Apart w build source i t.done none ticks every.1)
    ]

-- `n` fetches take at least `n - 1` intervals, when the rounds are in order.
fetch-rate :
    (w : World) (build : Build) (source : String) (i : ℤ) (from end : ℕ) (ticks : List Tick)
    → InOrder from ticks end
    → All (Every w build source i) ticks
    → from + (length (run_adapter_loop w build source ticks started) - 1) * (interval_of i * second)
      ≤ end
unfolding run_adapter_loop adapter_round follow First
fetch-rate w build source i from end [] order every = omega (arith, order)
fetch-rate w build source i from end (t ∷ ticks) (a, b, order) every =
    elim (step-First w build source i t (reload_adapter w build source t.db) every.0) [
      | inl end_of_loop ↦ rw end_of_loop (omega (arith, a, b, InOrder-le t.done end ticks order))
      | inr (inl waits) ↦
          rw waits (omega (arith, a, b, fetch-rate w build source i t.done end ticks order every.1))
      | inr (inr fetches) ↦ rw fetches (
          one_more from t.now t.done end _ _ a b
            (rate w build source i t.done t.done end none ticks (omega arith) order every.1))
    ]
