-- ===== src/Orchestrator/Daemon/Stops.antt =====
-- What ends a session of the daemon, and what a breaker that is open does to the next session
-- (src/orchestrator/daemon.ts, src/state/store.ts).
use runmill.Base.{
  length-append, ◌≢◌, suc, ℕ, ◌+◌, ◌≡◌, ◌<◌, refl, sym, ◌∙◌, true, List, [], ◌∷◌, ◌++◌, Option,
  none, some, String, returned, length, arith, inl, inr, ◌⊎◌, Bool-cases, >>=-eq-returned,
  returned-inj,
}
use runmill.State.Breakers.{Row, Durable, Trip, get_circuit_breaker_state}
use runmill.State.Ledger.{BudgetRow, budget_usage}
use runmill.Orchestrator.Breakers.{
  RunOutcome, CircuitBreakers, CircuitBreakerConfig, BreakerState, record_outcome, new, restored,
  reopened, reopened_trip, set_daily_spend, evaluate,
}
use runmill.Orchestrator.Breakers.Counts.{set_daily_spend-durable, evaluate_from-some}
use runmill.Orchestrator.Daemon.Limits.{loop-max_runs}
use runmill.Orchestrator.Daemon.{
  finish, reached, no_work, max_runs, DaemonOptions, Turn, Loop, Progress, StoppedBecause, breaker,
  signal, running, stopped, proceed, turn, loop, kept, refresh_daily_budget, refreshed,
}

refreshed-tripped :
    (ledger : Option String) (day : String) (s : Loop) (t : Trip)
    → s.breakers.tripped ≡ some (reopened_trip t)
    → (refreshed ledger day s).breakers.tripped ≡ some (reopened_trip t)
unfolding set_daily_spend
refreshed-tripped none day s t h = h
refreshed-tripped (some repo) day s t h =
    set_daily_spend-durable day (budget_usage day repo s.budget).cost_usd s.breakers t h

refreshed-outcomes :
    (ledger : Option String) (day : String) (s : Loop)
    → (refreshed ledger day s).outcomes ≡ s.outcomes
refreshed-outcomes none day s = refl
refreshed-outcomes (some repo) day s = refl

turn-open :
    (o : DaemonOptions) (u : Turn) (s : Loop) (t : Trip)
    → s.breakers.tripped ≡ some (reopened_trip t)
    → (why : StoppedBecause) × (s' : Loop) × (turn o u s ≡ returned (stopped why s'))
      × (s'.outcomes ≡ s.outcomes)
      × ((why ≡ signal) ⊎ (why ≡ breaker (reopened_trip t)))
unfolding turn proceed evaluate
turn-open o u s t h = elim (Bool-cases u.stop_requested) [
  | inl asked ↦ (signal, s, rw asked refl, refl, inl refl)
  | inr goes ↦
      let s₁ = refresh_daily_budget o u s in
      let open_still = refreshed-tripped o.ledger u.bucket s t h in
      let found =
        evaluate_from-some s₁.breakers.tripped (reopened_trip t) u.now s₁.breakers open_still in
      (
        breaker (reopened_trip t),
        s₁,
        rw goes (rw found (rw open_still refl)),
        refreshed-outcomes o.ledger u.bucket s,
        inr refl,
      )
]

abbrev starting : CircuitBreakers → List BudgetRow → Loop
starting b budget = record { breakers = b; budget = budget; outcomes = [] }

new-restored :
    (c : CircuitBreakerConfig) (rows : List Row) (d : Durable)
    → get_circuit_breaker_state rows ≡ returned d
    → new c (some rows) ≡ returned (restored c rows d)
unfolding new
new-restored c rows d h = rw h refl

reopened-some : (d : Option Trip) (t : Trip) → d ≡ some t → reopened d ≡ some (reopened_trip t)
reopened-some none t h = cc
reopened-some (some u) t h = cc

stopped_stays :
    (o : DaemonOptions) (us : List Turn) (why : StoppedBecause) (s : Loop)
    → loop o us (stopped why s) ≡ returned (stopped why s)
unfolding loop
stopped_stays o [] why s = refl
stopped_stays o (u ∷ us) why s = refl

-- Breakers that are made from a store in which one is open make no run, whatever the configuration,
-- the budgets and the turns: the first turn ends the session, on a signal or on that breaker.
pub restart-no_run :
    (c : CircuitBreakerConfig) (rows : List Row) (d : Durable) (t : Trip)
    → get_circuit_breaker_state rows ≡ returned d
    → d.tripped ≡ some t
    → (b : CircuitBreakers) × (new c (some rows) ≡ returned b)
      × ((o : DaemonOptions) (budget : List BudgetRow) (u : Turn) (us : List Turn)
          → (why : StoppedBecause) × (s' : Loop) × (loop o (u ∷ us) (running (starting b budget))
              ≡ returned (stopped why s'))
            × (s'.outcomes ≡ [])
            × ((why ≡ signal) ⊎ (why ≡ breaker (reopened_trip t))))
unfolding loop
restart-no_run c rows d t reads stays = (
  restored c rows d,
  new-restored c rows d reads,
  λ o budget u us.
      let (why, s', ends, none_run, reason) =
        turn-open o u (starting (restored c rows d) budget) t (reopened-some d.tripped t stays) in
      (why, s', rw ends (stopped_stays o us why s'), none_run, reason),
)

finish-running :
    (o : DaemonOptions) (t : Turn) (r : Option RunOutcome) (s s' : Loop)
    → o.stop_when_idle ≡ true
    → finish o t r s ≡ returned (running s')
    → length s'.outcomes ≡ length s.outcomes + 1
unfolding finish
finish-running o t none s s' exits h =
    let same : stopped no_work s ≡ running s' = returned-inj (rw exits at h) in cc
finish-running o t (some r) s s' exits h =
    let (b, _, f) = >>=-eq-returned (record_outcome r s.breakers) _ h in
    let pushed : s'.outcomes ≡ s.outcomes ++ (r ∷ []) = cc in
    rw pushed (length-append s.outcomes (r ∷ []))

proceed-running :
    (o : DaemonOptions) (t : Turn) (e : Option BreakerState) (s s' : Loop)
    → o.stop_when_idle ≡ true
    → proceed o t e s ≡ returned (running s')
    → length s'.outcomes ≡ length s.outcomes + 1
unfolding proceed
proceed-running o t (some b) s s' exits h = cc
proceed-running o t none s s' exits h = elim (Bool-cases (reached o.max_runs (length s.outcomes))) [
  | inl full ↦ let same : stopped max_runs s ≡ running s' = returned-inj (rw full at h) in cc
  | inr room ↦ finish-running o t t.run_once s s' exits (rw room at h)
]

-- A turn that leaves a session running, in one that exits when idle, has made a run.
turn-running :
    (o : DaemonOptions) (t : Turn) (s s' : Loop)
    → o.stop_when_idle ≡ true
    → turn o t s ≡ returned (running s')
    → length s'.outcomes ≡ length s.outcomes + 1
unfolding turn proceed finish
turn-running o t s s' exits h = elim (Bool-cases t.stop_requested) [
  | inl asked ↦ let same : stopped signal s ≡ running s' = returned-inj (rw asked at h) in cc
  | inr goes ↦
      let s₁ = refresh_daily_budget o t s in
      let (e, found, h₂) = >>=-eq-returned (evaluate t.now s₁.breakers) _ (rw goes at h) in
      let counted = proceed-running o t e.0 (record s₁ { breakers = e.1 }) s' exits h₂ in
      rw⁻¹ (refreshed-outcomes o.ledger t.bucket s) counted
]

after_turn :
    (o : DaemonOptions) (t : Turn) (ts : List Turn) (s : Loop) (p : Progress) (s' : Loop)
    → o.stop_when_idle ≡ true
    → turn o t s ≡ returned p
    → loop o ts p ≡ returned (running s')
    → length s'.outcomes ≡ length (kept p).outcomes + length ts
    → length s'.outcomes ≡ length s.outcomes + suc (length ts)
after_turn o t ts s (running s₁) s' exits e more made =
    omega (arith, turn-running o t s s₁ exits e, made)
after_turn o t ts s (stopped why s₁) s' exits e more made =
    let same : stopped why s₁ ≡ running s' =
      returned-inj (sym (stopped_stays o ts why s₁) ∙ more) in
    cc

loop-running :
    (o : DaemonOptions) (ts : List Turn) (p : Progress) (s' : Loop)
    → o.stop_when_idle ≡ true
    → loop o ts p ≡ returned (running s')
    → length s'.outcomes ≡ length (kept p).outcomes + length ts
unfolding loop
loop-running o [] p s' exits h = rw (returned-inj h) (omega arith)
loop-running o (t ∷ ts) (stopped why s) s' exits h = cc
loop-running o (t ∷ ts) (running s) s' exits h =
    let (p, e, more) = >>=-eq-returned (turn o t s) _ h in
    after_turn o t ts s p s' exits e more (loop-running o ts p s' exits more)

-- A session that has a ceiling and that exits when idle is not running after more turns than the
-- ceiling allows runs: it has ended, or has thrown.
pub loop-stops :
    (o : DaemonOptions) (m : ℕ) (ts : List Turn) (s s' : Loop)
    → o.stop_when_idle ≡ true
    → o.max_runs ≡ some m
    → s.outcomes ≡ []
    → m < length ts
    → loop o ts (running s) ≢ returned (running s')
loop-stops o m ts s s' exits ceiling fresh long h =
    let made = loop-running o ts (running s) s' exits h in
    let few = loop-max_runs o m ts s (running s') ceiling fresh h in
    absurd (omega (arith, made, few, long))
