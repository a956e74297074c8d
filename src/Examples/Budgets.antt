-- ===== src/Examples/Budgets.antt =====
-- Calls on the budget of one issue (src/orchestrator/run-budget.ts).
use runmill.Base.{◌≡◌, refl, List, [], ◌∷◌, true, none, some, returned, thrown}
use runmill.Orchestrator.Budget.{
  Role, RunBudgetOptions, RunBudget, Exhausted, new_budget, begin_invocation, finish_invocation,
  usage_updated, other_event,
}
use runmill.Orchestrator.Budget.Within.{
  Call, begins, finishes, after_calls, IsWithin, new_budget-IsWithin,
}

abbrev options : RunBudgetOptions
options = record {
  max_wall_ms = 1000;
  max_cost_usd = some 50;
  max_invocations = record {
    total = 2;
    implementer = 1;
    local_review = 1;
    fixer = 1;
    pr_review = 1;
    pr_fixer = 1;
  };
  clamp_invocation_timeout = true;
  enforces_cost = true;
}

abbrev spent_calls : List Call
spent_calls =
    begins Role.implementer 600 10 20
    ∷ finishes (usage_updated (some 30) ∷ other_event ∷ usage_updated none ∷ []) 400
    ∷ begins Role.implementer 600 410 410
    ∷ begins Role.fixer 700 500 500
    ∷ []

abbrev spent : RunBudget
spent = record {
  options = options;
  started_at = 0;
  counts = record {
    total = 2;
    implementer = 1;
    local_review = 0;
    fixer = 1;
    pr_review = 0;
    pr_fixer = 0;
  };
  cost_usd = 30;
}

spent_after : after_calls spent_calls (new_budget options 0) ≡ spent
unfolding begin_invocation finish_invocation
spent_after = refl

third_refused : (begin_invocation Role.fixer 700 600 600 spent).1 ≡ thrown Exhausted.total_exhausted
unfolding begin_invocation
third_refused = refl

clamped : (begin_invocation Role.implementer 1200 300 400 (new_budget options 0)).1 ≡ returned 600
unfolding begin_invocation
clamped = refl

unknown_cost_refused :
    (finish_invocation (usage_updated none ∷ []) 10 spent).1 ≡ thrown Exhausted.unknown_cost
unfolding finish_invocation
unknown_cost_refused = refl

new_budget-IsWithin_example : IsWithin options (after_calls spent_calls (new_budget options 0))
new_budget-IsWithin_example = new_budget-IsWithin options 0 spent_calls
