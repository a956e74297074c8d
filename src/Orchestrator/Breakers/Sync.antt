-- ===== src/Orchestrator/Breakers/Sync.antt =====
-- The breakers in memory and the snapshot in the store stay in step: what the daemon records and
-- what it opens is accepted by the store's guards (src/orchestrator/daemon.ts, src/state/store.ts).
use runmill.Base.{
  ◌≢◌, Option-cases, zero, suc, ℕ, ◌+◌, ◌*◌, ◌≡◌, ◌<◌, ◌≤◌, refl, ◌∙◌, true, false, ◌&&◌, ◌||◌,
  List, Option, none, some, returned, leb, arith, inl, inr, Bool-cases,
}
use runmill.State.Breakers.{
  DurableName, consecutive_failures, quarantine, escalation_rate, Reason, counted, rated, Durable,
  Row, max_safe_integer, contradicts, get_circuit_breaker_state, assert_valid, check_update,
  valid_outcome_counters,
}
use runmill.State.Breakers.Save.{save-accepts, assert_valid-get}
use runmill.Orchestrator.Breakers.Counts.{evaluate_from-closed, evaluate_from-some}
use runmill.Orchestrator.Breakers.{
  RunOutcome, RunState, quarantined, needs_human, awaiting_approval, is_failed, is_escalated,
  is_quarantined, CircuitBreakers, CircuitBreakerConfig, durable, durable_state, counted_run,
  record_outcome, persist_non_daily_state, evaluate, evaluate_closed, Rate, trip_persistent, opened,
  because, reaches_rate, reaches_cap, cap_of, daily_cost, spent,
}

-- The store's snapshot is that of the breakers in memory.
pub record IsSynced (b : CircuitBreakers) (rows : List Row) : Type 0 where
  pub given : b.persistence ≡ some rows
  pub reads : get_circuit_breaker_state rows ≡ returned (durable_state b)

-- Persisting breakers whose snapshot the guards accept.
persist-IsSynced :
    (b : CircuitBreakers) (prior : Durable) (rows : List Row)
    → b.persistence ≡ some rows
    → get_circuit_breaker_state rows ≡ returned prior
    → assert_valid (durable_state b) ≡ returned tt
    → check_update prior (durable_state b) ≡ returned tt
    → (after : List Row) × (persist_non_daily_state b
        ≡ returned (record b { persistence = some after }))
      × IsSynced (record b { persistence = some after }) after
unfolding persist_non_daily_state
persist-IsSynced b prior rows given g v k =
    let (after, saved, reads) = save-accepts (durable_state b) prior rows g v k in
    (after, rw given (rw saved), record { given = refl; reads = reads })

-- A failed run is quarantined or escalated, and never both.
failure_kinds :
    (s : RunState)
    → (is_failed s ≡ (is_quarantined s || is_escalated s))
      × ((is_quarantined s && is_escalated s) ≡ false)
failure_kinds quarantined = (refl, refl)
failure_kinds needs_human = (refl, refl)
failure_kinds awaiting_approval = (refl, refl)
failure_kinds _ = (refl, refl)

module _ (o : RunOutcome) (b : CircuitBreakers) (closed : b.tripped ≡ none) where
  record-valid :
      b.completed < max_safe_integer
      → assert_valid (durable_state b) ≡ returned tt
      → assert_valid (durable_state (counted_run o b)) ≡ returned tt
  unfolding assert_valid
  record-valid fits v = ground (arith, failure_kinds o.final_state)

  record-checked : check_update (durable_state b) (durable_state (counted_run o b)) ≡ returned tt
  unfolding check_update valid_outcome_counters
  record-checked = ground (arith, failure_kinds o.final_state)

  -- With no breaker open, breakers in step with the store, and fewer completed runs than the greatest
  -- safe integer, recording a run returns, counts one more completed run, and leaves the breakers in
  -- step with the store.
  pub record-IsSynced :
      (rows : List Row)
      → b.completed < max_safe_integer
      → IsSynced b rows
      → (after : List Row) × (b' : CircuitBreakers) × (record_outcome o b ≡ returned b')
        × (b'.completed ≡ b.completed + 1)
        × IsSynced b' after
  unfolding record_outcome
  record-IsSynced rows fits s =
      let valid = assert_valid-get rows (durable_state b) s.reads in
      let (after, kept, next) =
        persist-IsSynced (counted_run o b) (durable_state b) rows s.given s.reads
          (record-valid fits valid) record-checked in
      (after, record (counted_run o b) { persistence = some after }, kept, refl, next)

-- A configuration whose thresholds cannot be met by no runs at all.
pub record IsPositive (c : CircuitBreakerConfig) : Type 0 where
  pub quarantines_pos : 0 < c.max_quarantines
  pub failures_pos : 0 < c.max_consecutive_failures
  pub rate_pos : (r : Rate) → c.max_escalation_rate ≡ some r → 0 < r.num
  pub runs_pos : c.min_runs_before_rate_check ≢ some 0

-- Opening a breaker whose counters agree with it.
trip-IsSynced :
    (n : DurableName) (at : ℕ) (why : Reason) (b : CircuitBreakers) (rows : List Row)
    → b.tripped ≡ none
    → contradicts (durable_state b) (some (record { name = n; opened_at = at; reason = why }))
      ≡ false
    → IsSynced b rows
    → (after : List Row) × (b' : CircuitBreakers) × (trip_persistent n at why b
        ≡ returned (b'.tripped, b'))
      × IsSynced b' after
unfolding trip_persistent assert_valid check_update
trip-IsSynced n at why b rows closed agrees s =
    let t = opened (durable n) at (because why) b in
    let valid = assert_valid-get rows (durable_state b) s.reads in
    let (after, kept, next) =
      persist-IsSynced t (durable_state b) rows s.given s.reads (ground arith) (ground arith) in
    (after, record t { persistence = some after }, rw kept refl, next)

pos_of_le : (a n e d : ℕ) → 0 < a → 0 < n → a * n ≤ e * d → 0 < e
pos_of_le zero n e d pa pn h = absurd (omega arith)
pos_of_le (suc a) zero e d pa pn h = absurd (omega arith)
pos_of_le (suc a) (suc n) zero d pa pn h = absurd (omega arith)
pos_of_le (suc a) (suc n) (suc e) d pa pn h = omega arith

-- A rate that is reached has an escalation behind it.
reaches_rate-pos :
    (rate : Option Rate) (least : Option ℕ) (e n : ℕ)
    → ((r : Rate) → rate ≡ some r → 0 < r.num)
    → least ≢ some 0
    → reaches_rate rate least e n ≡ true
    → (0 < e) × (0 < n)
reaches_rate-pos none least e n pos some_runs h = cc
reaches_rate-pos (some r) none e n pos some_runs h =
    (pos_of_le r.num n e r.den (pos r refl) (ground arith) (ground arith), ground arith)
reaches_rate-pos (some r) (some zero) e n pos some_runs h = absurd (some_runs refl)
reaches_rate-pos (some r) (some (suc m)) e n pos some_runs h =
    (pos_of_le r.num n e r.den (pos r refl) (ground arith) (ground arith), ground arith)

evaluate_closed-IsSynced :
    (at : ℕ) (b : CircuitBreakers) (rows : List Row)
    → b.tripped ≡ none
    → IsPositive b.config
    → IsSynced b rows
    → (after : List Row) × (b' : CircuitBreakers) × (evaluate_closed at b
        ≡ returned (b'.tripped, b'))
      × IsSynced b' after
unfolding evaluate_closed
evaluate_closed-IsSynced at b rows closed pos s =
    elim (Bool-cases (leb b.config.max_quarantines b.quarantines)) [
      | inl q ↦
          rw q (trip-IsSynced quarantine at (counted b.quarantines) b rows closed (ground arith) s)
      | inr q ↦ rw q (elim (Bool-cases (leb b.config.max_consecutive_failures b.failures)) [
        | inl f ↦ rw f (
            trip-IsSynced consecutive_failures at (counted b.failures) b rows closed (ground arith)
              s)
        | inr f ↦ rw f (elim (Bool-cases (reaches_cap b.config.daily_cost_usd b.spend_usd)) [
          | inl c ↦ rw c (
            rows,
            opened daily_cost at (spent b.spend_usd (cap_of b.config.daily_cost_usd)) b,
            refl,
            record { given = s.given; reads = s.reads ∙ rw closed refl },
          )
          | inr c ↦
              rw c
                (elim (Bool-cases (
                  reaches_rate b.config.max_escalation_rate b.config.min_runs_before_rate_check
                    b.escalations b.completed)) [
                      | inl r ↦
                          let runs =
                            reaches_rate-pos b.config.max_escalation_rate
                              b.config.min_runs_before_rate_check b.escalations b.completed
                              pos.rate_pos pos.runs_pos r in
                          rw r (
                            trip-IsSynced escalation_rate at (rated b.escalations b.completed) b
                              rows closed (ground arith) s)
                      | inr r ↦ rw r (rows, b, cc, s)
                    ])
        ])
      ])
    ]

-- With positive thresholds the evaluation of breakers that are in step with the store never throws,
-- gives the trip that it leaves, and leaves them in step.
pub evaluate-IsSynced :
    (at : ℕ) (b : CircuitBreakers) (rows : List Row)
    → IsPositive b.config
    → IsSynced b rows
    → (after : List Row) × (b' : CircuitBreakers) × (evaluate at b ≡ returned (b'.tripped, b'))
      × IsSynced b' after
unfolding evaluate
evaluate-IsSynced at b rows pos s = elim (Option-cases b.tripped) [
  | inr (t, stays) ↦ (rows, b, evaluate_from-some b.tripped t at b stays, s)
  | inl closed ↦
      let (after, b', h, next) = evaluate_closed-IsSynced at b rows closed pos s in
      (after, b', evaluate_from-closed b.tripped at b closed ∙ h, next)
]
