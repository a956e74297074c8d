-- ===== src/Examples/Daemons.antt =====
-- Sessions of the daemon (src/orchestrator/daemon.ts).
use runmill.Base.{
  ◌+◌, ◌≡◌, ◌≢◌, ◌≤◌, ◌⊎◌, refl, true, false, List, [], ◌∷◌, none, some, returned, arith,
}
use runmill.State.Breakers.{quarantine, counted}
use runmill.State.Ledger.{BudgetRow}
use runmill.Orchestrator.Breakers.{
  CircuitBreakers, new, default_breakers, reopened_trip, record_outcome, evaluate, evaluate_closed,
  persist_non_daily_state,
}
use runmill.Orchestrator.Daemon.{
  DaemonOptions, Turn, Loop, running, stopped, StoppedBecause, breaker, signal, loop, turn, proceed,
  finish, quarantined_runs,
}
use runmill.Orchestrator.Daemon.Limits.{loop-max_quarantines}
use runmill.Orchestrator.Daemon.Stops.{restart-no_run, loop-stops}
use runmill.Examples.Breakers.{opened_rows, opened_state, opened-reads, outcome}

abbrev options : DaemonOptions
options = record { max_runs = some 1; stop_when_idle = true; ledger = none }

abbrev fresh : CircuitBreakers
fresh = record {
  config = default_breakers;
  persistence = none;
  failures = 0;
  quarantines = 0;
  escalations = 0;
  completed = 0;
  spend_usd = 0;
  daily_bucket = none;
  tripped = none;
}

abbrev start : Loop
start = record { breakers = fresh; budget = []; outcomes = [] }

abbrev working : Turn
working = record {
  stop_requested = false;
  now = 90;
  bucket = "2026-01-05";
  run_once = some outcome;
  bucket_after = "2026-01-05";
}

abbrev after_run : Loop
after_run = record {
  breakers = record fresh { failures = 1; quarantines = 1; completed = 1; spend_usd = 40 };
  budget = [];
  outcomes = outcome ∷ [];
}

one_turn : loop options (working ∷ []) (running start) ≡ returned (running after_run)
unfolding loop turn proceed finish evaluate evaluate_closed record_outcome persist_non_daily_state
one_turn = refl

loop-max_quarantines_example :
    (after_run.breakers.quarantines ≡ 0 + quarantined_runs after_run.outcomes)
    × (after_run.breakers.quarantines ≤ 1)
loop-max_quarantines_example =
    loop-max_quarantines options (working ∷ []) start (running after_run) refl (omega arith)
      one_turn

loop-stops_example :
    loop options (working ∷ working ∷ []) (running start) ≢ returned (running after_run)
loop-stops_example =
    loop-stops options 1 (working ∷ working ∷ []) start after_run refl refl refl (omega arith)

restart-no_run_example :
    (b : CircuitBreakers) × (new default_breakers (some opened_rows) ≡ returned b)
    × ((o : DaemonOptions) (budget : List BudgetRow) (u : Turn) (us : List Turn)
        → (why : StoppedBecause) × (s : Loop) × (loop o
              (u ∷ us)
              (running (record { breakers = b; budget = budget; outcomes = [] }))
            ≡ returned (stopped why s))
          × (s.outcomes ≡ [])
          × ((why ≡ signal)
              ⊎ (why
                  ≡ breaker (
                      reopened_trip
                        (record { name = quarantine; opened_at = 90; reason = counted 1 })))))
restart-no_run_example =
    restart-no_run default_breakers opened_rows opened_state
      (record { name = quarantine; opened_at = 90; reason = counted 1 }) opened-reads refl
