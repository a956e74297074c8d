-- ===== src/Examples/Breakers.antt =====
-- Breaker snapshots and budgets (src/state/store.ts, src/orchestrator/daemon.ts).
use runmill.Base.{ℕ, ◌+◌, ◌≡◌, ◌≢◌, ◌<◌, refl, List, [], ◌∷◌, Option, none, some, returned, arith}
use runmill.State.Breakers.{
  DurableName, consecutive_failures, quarantine, escalation_rate, counted, counter, rate, Trip,
  Durable, Row, get_circuit_breaker_state, save_circuit_breaker_state, assert_valid, check_update,
  valid_outcome_counters,
}
use runmill.State.Breakers.Save.{get-save, save_all, save_all-Advances, Advances}
use runmill.State.Ledger.{BudgetRow}
use runmill.Orchestrator.Breakers.{
  RunOutcome, quarantined, CircuitBreakers, Rate, default_breakers, record_outcome, evaluate,
  restored,
}
use runmill.Orchestrator.Breakers.Sync.{IsSynced, IsPositive, record-IsSynced, evaluate-IsSynced}

abbrev pub counters : ℕ → ℕ → ℕ → ℕ → Option Trip → Durable
counters failures quarantines escalations completed tripped = record {
  failures = failures;
  quarantines = quarantines;
  escalations = escalations;
  completed = completed;
  tripped = tripped;
}

abbrev pub stored_row : DurableName → ℕ → Row
stored_row escalation_rate n = record {
  name = escalation_rate;
  state = rate n 0;
  opened_at = none;
  reason = none;
}
stored_row name n = record { name = name; state = counter 0; opened_at = none; reason = none }

-- The rows after two runs that succeeded, and those after a third one, quarantined.
abbrev pub calm_rows : List Row
calm_rows =
    stored_row quarantine 2 ∷ stored_row escalation_rate 2 ∷ stored_row consecutive_failures 2 ∷ []

abbrev pub calm : Durable
calm = counters 0 0 0 2 none

abbrev pub troubled : Durable
troubled = counters 1 1 0 3 none

abbrev quarantine_trip : Trip
quarantine_trip = record { name = quarantine; opened_at = 90; reason = counted 1 }

abbrev pub opened_state : Durable
opened_state = counters 1 1 0 3 (some quarantine_trip)

abbrev troubled_rows : List Row
troubled_rows =
    record { name = quarantine; state = counter 1; opened_at = none; reason = none }
    ∷ record { name = escalation_rate; state = rate 3 0; opened_at = none; reason = none }
    ∷ record { name = consecutive_failures; state = counter 1; opened_at = none; reason = none }
    ∷ []

abbrev pub opened_rows : List Row
opened_rows =
    record { name = quarantine; state = counter 1; opened_at = some 90; reason = some (counted 1) }
    ∷ record { name = escalation_rate; state = rate 3 0; opened_at = none; reason = none }
    ∷ record { name = consecutive_failures; state = counter 1; opened_at = none; reason = none }
    ∷ []

pub calm-reads : get_circuit_breaker_state calm_rows ≡ returned calm
unfolding get_circuit_breaker_state assert_valid
calm-reads = refl

pub opened-reads : get_circuit_breaker_state opened_rows ≡ returned opened_state
unfolding get_circuit_breaker_state assert_valid
opened-reads = refl

troubled-saved : save_circuit_breaker_state troubled calm_rows ≡ returned troubled_rows
unfolding save_circuit_breaker_state get_circuit_breaker_state assert_valid check_update
    valid_outcome_counters
troubled-saved = refl

get-save_example : get_circuit_breaker_state troubled_rows ≡ returned troubled
get-save_example = get-save troubled calm_rows troubled_rows troubled-saved

-- A run is counted, its breaker opens, and a later attempt to close it is refused.
save_all-Advances_example :
    (last : Durable) × (get_circuit_breaker_state
        (save_all (troubled ∷ opened_state ∷ troubled ∷ []) calm_rows)
      ≡ returned last)
    × Advances calm last
save_all-Advances_example =
    save_all-Advances (troubled ∷ opened_state ∷ troubled ∷ []) calm_rows calm calm-reads

abbrev budget : List BudgetRow
budget =
    record { day_bucket = "2026-01-05"; repo = "acme/site"; cost_usd = 300; invocations = 2 } ∷ []

abbrev spending : BudgetRow
spending = record { day_bucket = "2026-01-05"; repo = "acme/site"; cost_usd = 40; invocations = 1 }

abbrev pub outcome : RunOutcome
outcome = record { final_state = quarantined; cost_usd = 40; agent_invocations = some 1 }

abbrev pub breakers : CircuitBreakers
breakers = restored default_breakers calm_rows calm

breakers-IsSynced : IsSynced breakers calm_rows
breakers-IsSynced = record { given = refl; reads = calm-reads }

record-IsSynced_example :
    (after : List Row) × (b : CircuitBreakers) × (record_outcome outcome breakers ≡ returned b)
    × (b.completed ≡ breakers.completed + 1)
    × IsSynced b after
record-IsSynced_example =
    record-IsSynced outcome breakers refl calm_rows (omega arith) breakers-IsSynced

default-rate : (r : Rate) → default_breakers.max_escalation_rate ≡ some r → 0 < r.num
default-rate r h = ground arith

default-runs : default_breakers.min_runs_before_rate_check ≢ some 0
default-runs h = ground arith

default-IsPositive : IsPositive default_breakers
default-IsPositive = record {
  quarantines_pos = omega arith;
  failures_pos = omega arith;
  rate_pos = default-rate;
  runs_pos = default-runs;
}

evaluate-IsSynced_example :
    (after : List Row) × (b : CircuitBreakers) × (evaluate 90 breakers ≡ returned (b.tripped, b))
    × IsSynced b after
evaluate-IsSynced_example =
    evaluate-IsSynced 90 breakers calm_rows default-IsPositive breakers-IsSynced
