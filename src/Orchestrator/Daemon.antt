-- ===== src/Orchestrator/Daemon.antt =====
-- The serial loop of src/orchestrator/daemon.ts. What the loop meets in one turn is a value: whether a
-- stop was asked for, the clock, the budget window's buckets, and what `runOnce` gives. A list of turns
-- is a prefix of an execution; waiting while idle changes nothing that is kept here.
pub mod Limits
pub mod Stops
use runmill.Base.{
  ℕ, ◌+◌, Bool, false, List, [], ◌∷◌, ◌++◌, Option, none, some, String, Outcome, returned, ◌>>=◌,
  leb, length, if◌then◌else◌,
}
use runmill.State.Breakers.{StateError}
use runmill.State.Ledger.{BudgetRow, budget_usage, record_budget_usage}
use runmill.Orchestrator.Breakers.{
  RunOutcome, CircuitBreakers, BreakerState, set_daily_spend, evaluate, record_outcome, RunState,
  quarantined,
}

-- DaemonOptions: `ledger` is the repository of dailyBudgetLedger.
pub record DaemonOptions : Type 0 where
  pub max_runs : Option ℕ
  pub stop_when_idle : Bool
  pub ledger : Option String

pub record Turn : Type 0 where
  pub stop_requested : Bool
  pub now : ℕ
  pub bucket : String
  pub run_once : Option RunOutcome
  pub bucket_after : String

-- The fields of Daemon, the store's ledger, and `outcomes`.
pub record Loop : Type 0 where
  pub breakers : CircuitBreakers
  pub budget : List BudgetRow
  pub outcomes : List RunOutcome

pub data StoppedBecause : Type 0 where
  no_work max_runs signal : StoppedBecause
  breaker : BreakerState → StoppedBecause

-- A loop that goes on, or its DaemonResult.
pub data Progress : Type 0 where
  running : Loop → Progress
  stopped : StoppedBecause → Loop → Progress

-- `#refreshDailyBudget`
abbrev refreshed : Option String → String → Loop → Loop
refreshed none bucket s = s
refreshed (some repo) bucket s = record s {
  breakers = set_daily_spend bucket (budget_usage bucket repo s.budget).cost_usd s.breakers;
}

abbrev pub refresh_daily_budget : DaemonOptions → Turn → Loop → Loop
refresh_daily_budget o t s = refreshed o.ledger t.bucket s

abbrev reached : Option ℕ → ℕ → Bool
reached none n = false
reached (some m) n = leb m n

abbrev invoked : Option ℕ → ℕ
invoked none = 0
invoked (some n) = n

-- The ledger after a run.
abbrev spent_on : Option String → String → RunOutcome → List BudgetRow → List BudgetRow
spent_on none bucket r rows = rows
spent_on (some repo) bucket r rows =
    record_budget_usage
      (record {
        day_bucket = bucket;
        repo = repo;
        cost_usd = r.cost_usd;
        invocations = invoked r.agent_invocations;
      })
      rows

-- The turn from the call of `runOnce` on.
unfoldable pub finish :
    DaemonOptions → Turn → Option RunOutcome → Loop → Outcome StateError Progress
finish o t none s = if o.stop_when_idle then returned (stopped no_work s) else returned (running s)
finish o t (some r) s = record_outcome r s.breakers >>= λ b. returned (
    running (record s {
      breakers = b;
      budget = spent_on o.ledger t.bucket_after r s.budget;
      outcomes = s.outcomes ++ (r ∷ []);
    }))

-- The turn from the evaluation on.
unfoldable pub proceed :
    DaemonOptions → Turn → Option BreakerState → Loop → Outcome StateError Progress
proceed o t (some b) s = returned (stopped (breaker b) s)
proceed o t none s =
    if reached o.max_runs (length s.outcomes)
    then returned (stopped max_runs s)
    else finish o t t.run_once s

-- One turn of the `for` of `loop`.
unfoldable pub turn : DaemonOptions → Turn → Loop → Outcome StateError Progress
turn o t s =
    if t.stop_requested
    then returned (stopped signal s)
    else (let s' = refresh_daily_budget o t s in
        evaluate t.now s'.breakers >>= λ e. proceed o t e.0 (record s' { breakers = e.1 }))

-- `loop` from `running`: the turns in their order, up to the one that stops it.
unfoldable pub loop : DaemonOptions → List Turn → Progress → Outcome StateError Progress
loop o [] p = returned p
loop o (t ∷ ts) (stopped why s) = returned (stopped why s)
loop o (t ∷ ts) (running s) = turn o t s >>= λ p. loop o ts p

abbrev pub kept : Progress → Loop
kept (running s) = s
kept (stopped why s) = s

abbrev pub quarantines_of : RunState → ℕ
quarantines_of quarantined = 1
quarantines_of _ = 0

-- The runs that ended in quarantine.
abbrev pub quarantined_runs : List RunOutcome → ℕ
quarantined_runs [] = 0
quarantined_runs (r ∷ rs) = quarantines_of r.final_state + quarantined_runs rs
