-- ===== src/Orchestrator/Breakers/Counts.antt =====
-- What an evaluation of the breakers changes and finds (src/orchestrator/daemon.ts).
use runmill.Base.{
  String, ℕ, ◌≡◌, ◌<◌, refl, sym, ◌∙◌, List, Option, none, some, returned, leb, arith, inl, inr,
  Bool-cases, Option-cases, >>=-eq-returned,
}
use runmill.State.Breakers.{
  Trip, Row, DurableName, quarantine, consecutive_failures, escalation_rate, counted, rated, Reason,
  save_circuit_breaker_state,
}
use runmill.Orchestrator.Breakers.{
  reopened_trip, set_daily_spend, RunOutcome, record_outcome, counted_run, CircuitBreakers,
  BreakerState, evaluate, evaluate_from, evaluate_closed, trip_persistent, persist_non_daily_state,
  stored, durable_state, opened, durable, because, reaches_cap, reaches_rate,
}

-- What recording and evaluating leave of the breakers.
pub record IsSameCount (b b' : CircuitBreakers) : Type 0 where
  pub config_eq : b'.config ≡ b.config
  pub quarantines_eq : b'.quarantines ≡ b.quarantines

stored-IsSameCount :
    (b b' : CircuitBreakers) (rows : Option (List Row))
    → stored b rows ≡ returned b'
    → IsSameCount b b' × (b'.tripped ≡ b.tripped)
unfolding stored
stored-IsSameCount b b' none h = (record { config_eq = cc; quarantines_eq = cc }, cc)
stored-IsSameCount b b' (some rows) h =
    let (after, _, e) = >>=-eq-returned (save_circuit_breaker_state (durable_state b) rows) _ h in
    (record { config_eq = cc; quarantines_eq = cc }, cc)

trip-opens :
    (n : DurableName) (at : ℕ) (why : Reason) (b b' : CircuitBreakers) (t : Option BreakerState)
    → trip_persistent n at why b ≡ returned (t, b')
    → IsSameCount b b'
      × (t ≡ some (record { name = durable n; opened_at = at; reason = because why }))
unfolding trip_persistent persist_non_daily_state
trip-opens n at why b b' t h =
    let t₀ = opened (durable n) at (because why) b in
    let (c, e, f) = >>=-eq-returned (stored t₀ t₀.persistence) _ h in
    let (same, trips) = stored-IsSameCount t₀ c t₀.persistence e in
    (record { config_eq = cc; quarantines_eq = cc }, cc)

-- What an evaluation that finds every breaker closed has seen.
pub record IsClear (b b' : CircuitBreakers) : Type 0 where
  pub unchanged : b' ≡ b
  pub few_quarantines : b.quarantines < b.config.max_quarantines
  pub few_failures : b.failures < b.config.max_consecutive_failures

evaluate_closed-cases :
    (at : ℕ) (b b' : CircuitBreakers) (t : Option BreakerState)
    → evaluate_closed at b ≡ returned (t, b')
    → IsSameCount b b' × ((t ≡ none) → IsClear b b')
unfolding evaluate_closed
evaluate_closed-cases at b b' t h = elim (Bool-cases (leb b.config.max_quarantines b.quarantines)) [
  | inl q ↦
      let (same, some_t) = trip-opens quarantine at (counted b.quarantines) b b' t (rw q at h) in
      (same, λ n. cc)
  | inr q ↦ elim (Bool-cases (leb b.config.max_consecutive_failures b.failures)) [
    | inl f ↦
        let (same, some_t) =
          trip-opens consecutive_failures at (counted b.failures) b b' t (rw (q, f) at h) in
        (same, λ n. cc)
    | inr f ↦ elim (Bool-cases (reaches_cap b.config.daily_cost_usd b.spend_usd)) [
      | inl c ↦
          let e = rw (q, f, c) at h in (record { config_eq = cc; quarantines_eq = cc }, λ n. cc)
      | inr c ↦
          elim (Bool-cases (
            reaches_rate b.config.max_escalation_rate b.config.min_runs_before_rate_check
              b.escalations b.completed)) [
                | inl r ↦
                    let (same, some_t) =
                      trip-opens escalation_rate at (rated b.escalations b.completed) b b' t
                        (rw (q, f, c, r) at h) in
                    (same, λ n. cc)
                | inr r ↦
                    let e = rw (q, f, c, r) at h in
                    (
                      record { config_eq = cc; quarantines_eq = cc },
                      λ n. record {
                        unchanged = cc;
                        few_quarantines = ground arith;
                        few_failures = ground arith;
                      },
                    )
              ]
    ]
  ]
]

pub evaluate_from-closed :
    (t : Option BreakerState) (at : ℕ) (b : CircuitBreakers)
    → t ≡ none
    → evaluate_from t at b ≡ evaluate_closed at b
unfolding evaluate_from
evaluate_from-closed none at b h = refl
evaluate_from-closed (some t) at b h = cc

pub evaluate_from-some :
    (t : Option BreakerState) (u : BreakerState) (at : ℕ) (b : CircuitBreakers)
    → t ≡ some u
    → evaluate_from t at b ≡ returned (t, b)
unfolding evaluate_from
evaluate_from-some none u at b h = cc
evaluate_from-some (some t) u at b h = refl

-- Whatever an evaluation gives, it keeps the counts; where it gives nothing, it has changed nothing,
-- no breaker was open, and the counts are below their thresholds.
pub evaluate-cases :
    (at : ℕ) (b b' : CircuitBreakers) (t : Option BreakerState)
    → evaluate at b ≡ returned (t, b')
    → IsSameCount b b' × ((t ≡ none) → IsClear b b' × (b.tripped ≡ none))
unfolding evaluate
evaluate-cases at b b' t h = elim (Option-cases b.tripped) [
  | inr (u, stays) ↦
      let e = evaluate_from-some b.tripped u at b stays in
      (record { config_eq = cc; quarantines_eq = cc }, λ n. cc)
  | inl closed ↦
      let (same, clear) =
        evaluate_closed-cases at b b' t (sym (evaluate_from-closed b.tripped at b closed) ∙ h) in
      (same, λ n. (clear n, closed))
]

-- Recording a run counts it.
pub record-cases :
    (o : RunOutcome) (b b' : CircuitBreakers)
    → record_outcome o b ≡ returned b'
    → IsSameCount (counted_run o b) b'
unfolding record_outcome persist_non_daily_state
record-cases o b b' h = (stored-IsSameCount (counted_run o b) b' b.persistence h).0

-- The daily spend touches no count, and resets no breaker but the daily one.
pub set_daily_spend-IsSameCount :
    (day : String) (cost : ℕ) (b : CircuitBreakers) → IsSameCount b (set_daily_spend day cost b)
unfolding set_daily_spend
set_daily_spend-IsSameCount day cost b = record {
  config_eq = ground arith;
  quarantines_eq = ground arith;
}

pub set_daily_spend-durable :
    (day : String) (cost : ℕ) (b : CircuitBreakers) (t : Trip)
    → b.tripped ≡ some (reopened_trip t)
    → (set_daily_spend day cost b).tripped ≡ some (reopened_trip t)
unfolding set_daily_spend
set_daily_spend-durable day cost b t h = ground (arith, h)
