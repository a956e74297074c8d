-- ===== src/Lib.antt =====
-- Runmill, verified: the lifecycle of an ASF run, its fenced ownership and provider budget, the breakers
-- and the serial daemon, the rows of standalone runs with their outbox and leases, the choice of the next
-- issue and its lease, the verdicts of required checks and of reviews, and the path policy of a diff.
--
-- The parts and their files:
--   Asf.Phase, Asf.Event   src/asf/run-event.ts: phases, event contracts, and the checks
--                          assertRunPhaseTransition, parseRunEvent and assertRunEventTransition
--   Asf.Edges              the same checks as a finite table, which the history proofs compute with
--   Asf.History            the replay of a run's events, as src/asf/evidence-finalizer.ts makes it
--   Asf.Ownership          claimAsfRun, heartbeatAsfRun, releaseAsfRunOwnership and the guard of
--                          transitionAsfRun (src/state/store.ts) over the rows of Asf.Ownership.Table
--   Asf.ProviderBudget     reserveAsfProviderBudget, completeAsfProviderBudget, checkAsfRunBudget and
--                          the settlement of unknown costs (src/state/store.ts)
--   State.Breakers         getCircuitBreakerState and saveCircuitBreakerState (src/state/store.ts)
--   State.Ledger           budgetUsage and recordBudgetUsage (src/state/store.ts)
--   State.Runs             createRun, getRun, transitionRun, transitionHistory and attemptsFor
--                          (src/state/store.ts)
--   State.Outbox           intendSideEffect and the calls that settle an effect (src/state/store.ts)
--   State.Leases           recordLease, getLease, heartbeatLease, releaseLease and
--                          activeLeaseIssueIds (src/state/store.ts)
--   Orchestrator.Breakers  the class CircuitBreakers (src/orchestrator/daemon.ts)
--   Orchestrator.Daemon    the class Daemon and its loop (src/orchestrator/daemon.ts)
--   Orchestrator.Budget    the class RunBudget (src/orchestrator/run-budget.ts), and the cost of
--                          accumulateUsage (src/agent/events.ts)
--   Orchestrator.Effects   #withOutbox (src/orchestrator/orchestrator.ts) over State.Outbox
--   Orchestrator.Risk      src/orchestrator/risk-policy.ts; toLowerCase is a parameter
--   Review                 src/review/schema.ts: RiskPath (matchesRiskPath), Verdict (blockingFindings
--                          and crossCheckVerdict)
--   Queue                  src/queue/ordering.ts, repository-mapping.ts, eligibility.ts, selector.ts,
--                          stack.ts
--   Queue.GitLease         the class GitRefLease (src/queue/git-lease.ts); git is its parameter Remote
--   Pr.Reconcile           src/pr/reconcile.ts
--   Workspace              src/workspace/path-scope.ts: Paths (normalizeRepositoryPath), Expression
--                          (segmentExpression), Segments (segmentsMatch), Pattern (compilePattern and
--                          pathMatchesPattern), Diff (evaluateChangedPathScope)
--   Base                   lists, tests, and the outcome of a call that may throw
--   Examples               concrete runs, rows and issues
-- The daemon evaluates the breakers before each run and records its outcome after it; the breakers
-- write their counters through the store's guarded update. A worker claims a run in the store, and
-- each later call of it is checked against the generation that the claim gave. A standalone run moves
-- through its states by compare-and-swap, writes an intent to the outbox before each external effect, and
-- holds the lease of its issue; its review and the risk policy may each withhold the merge.
--
-- A transaction is a function from the rows to an outcome, and one that throws gives no rows back, so
-- its caller keeps the old ones. Calls that reach the store are lists, in the order of their
-- transactions. The daemon's loop takes a list of turns, each with what the loop meets in it, so no
-- fuel is needed: a theorem over every list is one over every prefix of an execution. The one recursion
-- on fuel, that of the dependency chains, is given one more than there are candidates, and never runs
-- out: each nested call sees one identifier more. Numbers are
-- natural numbers; the one bound of the source, Number.MAX_SAFE_INTEGER, is written out.
--
-- Not modelled: SQL and JSON texts, the zod schemas, the sentences of messages, network and process
-- adapters, and the rest of the store. Instants are numbers where the source compares ISO texts.
-- Claims compare repository names in ASCII lower case, where toLowerCase also folds other letters.
-- Digests are parameters, and the texts of the provider budgets are taken well formed. The key of an
-- effect is a digest too: two intents with one digest are one effect.
pub mod Base
pub mod Asf
pub mod Queue
pub mod State
pub mod Orchestrator
pub mod Pr
pub mod Review
pub mod Examples
pub mod Workspace
