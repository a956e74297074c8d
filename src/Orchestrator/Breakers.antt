-- ===== src/Orchestrator/Breakers.antt =====
-- The circuit breakers of unattended operation (src/orchestrator/daemon.ts). Money is a whole number
-- of micro-dollars, and the escalation rate is a fraction, compared without division. A trip always
-- carries its instant and its reason, as every constructor of one gives them.
pub mod Counts
pub mod Sync
use runmill.Base.{
  ℕ, ◌+◌, ◌*◌, Bool, true, false, ◌&&◌, List, Option, none, some, String, Outcome, returned, thrown,
  ◌>>=◌, leb, str_eq, if◌then◌else◌,
}
use runmill.State.Breakers.{
  DurableName, consecutive_failures, quarantine, escalation_rate, Reason, counted, rated, Trip,
  Durable, Row, StateError, get_circuit_breaker_state, save_circuit_breaker_state,
}

-- RunState, of src/orchestrator/orchestrator.ts.
pub data RunState : Type 0 where
  discovered eligibility_checked claimed workspace_ready task_packet_ready implementing : RunState
  local_verify local_review fixing pr_ready pushed pr_open ci_wait pr_review : RunState
  merge_ready awaiting_approval merged backlog_updated pr_delivered cleanup : RunState
  completed_run needs_human quarantined aborted : RunState

-- The fields of RunOutcome that the daemon reads.
pub record RunOutcome : Type 0 where
  pub final_state : RunState
  pub cost_usd : ℕ
  pub agent_invocations : Option ℕ

pub data BreakerName : Type 0 where
  durable : DurableName → BreakerName
  daily_cost : BreakerName

pub data BreakerReason : Type 0 where
  because : Reason → BreakerReason
  spent : ℕ → ℕ → BreakerReason

pub record BreakerState : Type 0 where
  pub name : BreakerName
  pub opened_at : ℕ
  pub reason : BreakerReason

pub record Rate : Type 0 where
  pub num : ℕ
  pub den : ℕ

pub record CircuitBreakerConfig : Type 0 where
  pub max_consecutive_failures : ℕ
  pub max_quarantines : ℕ
  pub daily_cost_usd : Option ℕ
  pub max_escalation_rate : Option Rate
  pub min_runs_before_rate_check : Option ℕ

-- DEFAULT_BREAKERS
abbrev pub default_breakers : CircuitBreakerConfig
default_breakers = record {
  max_consecutive_failures = 3;
  max_quarantines = 1;
  daily_cost_usd = none;
  max_escalation_rate = some (record { num = 4; den = 5 });
  min_runs_before_rate_check = some 5;
}

-- `persistence` is the rows of the store that the breakers are given, if any.
pub record CircuitBreakers : Type 0 where
  pub config : CircuitBreakerConfig
  pub persistence : Option (List Row)
  pub failures : ℕ
  pub quarantines : ℕ
  pub escalations : ℕ
  pub completed : ℕ
  pub spend_usd : ℕ
  pub daily_bucket : Option String
  pub tripped : Option BreakerState

abbrev pub reopened_trip : Trip → BreakerState
reopened_trip t = record {
  name = durable t.name;
  opened_at = t.opened_at;
  reason = because t.reason;
}

abbrev pub reopened : Option Trip → Option BreakerState
reopened none = none
reopened (some t) = some (reopened_trip t)

abbrev pub restored : CircuitBreakerConfig → List Row → Durable → CircuitBreakers
restored config rows d = record {
  config = config;
  persistence = some rows;
  failures = d.failures;
  quarantines = d.quarantines;
  escalations = d.escalations;
  completed = d.completed;
  spend_usd = 0;
  daily_bucket = none;
  tripped = reopened d.tripped;
}

-- The constructor of CircuitBreakers.
unfoldable pub new : CircuitBreakerConfig → Option (List Row) → Outcome StateError CircuitBreakers
new config none = returned (record {
  config = config;
  persistence = none;
  failures = 0;
  quarantines = 0;
  escalations = 0;
  completed = 0;
  spend_usd = 0;
  daily_bucket = none;
  tripped = none;
})
new config (some rows) = get_circuit_breaker_state rows >>= λ d. returned (restored config rows d)

-- The part of a trip that is persisted.
abbrev pub trip_of : BreakerName → ℕ → BreakerReason → Option Trip
trip_of (durable n) at (because why) = some (record { name = n; opened_at = at; reason = why })
trip_of _ at why = none

abbrev pub durable_trip : Option BreakerState → Option Trip
durable_trip none = none
durable_trip (some b) = trip_of b.name b.opened_at b.reason

abbrev pub durable_state : CircuitBreakers → Durable
durable_state b = record {
  failures = b.failures;
  quarantines = b.quarantines;
  escalations = b.escalations;
  completed = b.completed;
  tripped = durable_trip b.tripped;
}

stored : CircuitBreakers → Option (List Row) → Outcome StateError CircuitBreakers
stored b none = returned b
stored b (some rows) = save_circuit_breaker_state (durable_state b) rows >>= λ after.
    returned (record b { persistence = some after })

-- `#persistNonDailyState`
unfoldable pub persist_non_daily_state : CircuitBreakers → Outcome StateError CircuitBreakers
unfolding stored
persist_non_daily_state b = stored b b.persistence

abbrev pub is_escalated : RunState → Bool
is_escalated needs_human = true
is_escalated awaiting_approval = true
is_escalated _ = false

abbrev pub is_quarantined : RunState → Bool
is_quarantined quarantined = true
is_quarantined _ = false

abbrev pub is_failed : RunState → Bool
is_failed quarantined = true
is_failed s = is_escalated s

-- The counters after one more run.
abbrev pub counted_run : RunOutcome → CircuitBreakers → CircuitBreakers
counted_run o b = record b {
  completed = b.completed + 1;
  spend_usd = b.spend_usd + o.cost_usd;
  escalations = if is_escalated o.final_state then b.escalations + 1 else b.escalations;
  quarantines = if is_quarantined o.final_state then b.quarantines + 1 else b.quarantines;
  failures = if is_failed o.final_state then b.failures + 1 else 0;
}

-- `record`
unfoldable pub record_outcome : RunOutcome → CircuitBreakers → Outcome StateError CircuitBreakers
record_outcome o b = persist_non_daily_state (counted_run o b)

abbrev same_bucket : Option String → String → Bool
same_bucket none b = false
same_bucket (some a) b = str_eq a b

-- The trip that a new day leaves: only the daily breaker is reset.
abbrev without_daily : Option BreakerState → Option BreakerState
without_daily none = none
without_daily (some b) = elim b.name [ daily_cost ↦ none | durable n ↦ some b ]

unfoldable pub set_daily_spend : String → ℕ → CircuitBreakers → CircuitBreakers
set_daily_spend day cost b =
    if same_bucket b.daily_bucket day
    then record b { spend_usd = cost }
    else record b { daily_bucket = some day; tripped = without_daily b.tripped; spend_usd = cost }

abbrev opened : BreakerName → ℕ → BreakerReason → CircuitBreakers → CircuitBreakers
opened n at why b = record b { tripped = some (record { name = n; opened_at = at; reason = why }) }

abbrev pub reaches_cap : Option ℕ → ℕ → Bool
reaches_cap none spend = false
reaches_cap (some cap) spend = leb cap spend

abbrev pub cap_of : Option ℕ → ℕ
cap_of none = 0
cap_of (some cap) = cap

-- `escalations / completed >= maxRate`, once enough runs have completed.
abbrev pub reaches_rate : Option Rate → Option ℕ → ℕ → ℕ → Bool
reaches_rate none least escalations completed = false
reaches_rate (some r) least escalations completed =
    leb (elim least [ none ↦ 5 | some n ↦ n ]) completed
    && leb (r.num * completed) (escalations * r.den)

trip_persistent :
    DurableName
    → ℕ
    → Reason
    → CircuitBreakers
    → Outcome StateError (Option BreakerState × CircuitBreakers)
trip_persistent n at why b =
    let t = opened (durable n) at (because why) b in
    persist_non_daily_state t >>= λ b'. returned (b'.tripped, b')

unfoldable pub evaluate_closed :
    ℕ → CircuitBreakers → Outcome StateError (Option BreakerState × CircuitBreakers)
unfolding trip_persistent
evaluate_closed at b =
    if leb b.config.max_quarantines b.quarantines
    then trip_persistent quarantine at (counted b.quarantines) b
    else if leb b.config.max_consecutive_failures b.failures
    then trip_persistent consecutive_failures at (counted b.failures) b
    else if reaches_cap b.config.daily_cost_usd b.spend_usd
    then (let t = opened daily_cost at (spent b.spend_usd (cap_of b.config.daily_cost_usd)) b in
        returned (t.tripped, t))
    else if reaches_rate b.config.max_escalation_rate b.config.min_runs_before_rate_check
        b.escalations b.completed
    then trip_persistent escalation_rate at (rated b.escalations b.completed) b
    else returned (none, b)

pub evaluate_from :
    Option BreakerState
    → ℕ
    → CircuitBreakers
    → Outcome StateError (Option BreakerState × CircuitBreakers)
evaluate_from (some t) at b = returned (some t, b)
evaluate_from none at b = evaluate_closed at b

-- `evaluate`: the breaker that is open, or the first that opens now.
unfoldable pub evaluate :
    ℕ → CircuitBreakers → Outcome StateError (Option BreakerState × CircuitBreakers)
unfolding evaluate_from
evaluate at b = evaluate_from b.tripped at b
