-- ===== src/State/Ledger.antt =====
-- The durable daily budgets of src/state/store.ts: a row for each day and repository. A repository is
-- a text, and money a whole number of micro-dollars.
use runmill.Base.{
  texts, ℕ, ◌+◌, ◌≡◌, Bool, true, false, ◌&&◌, List, [], ◌∷◌, String, str_eq, arith, if◌then◌else◌,
  inl, inr, Bool-cases,
}

-- BudgetLedgerRow
pub record BudgetRow : Type 0 where
  pub day_bucket : String
  pub repo : String
  pub cost_usd : ℕ
  pub invocations : ℕ

abbrev pub has_key : String → String → BudgetRow → Bool
has_key day repo r = str_eq r.day_bucket day && str_eq r.repo repo

-- `budgetUsage`
unfoldable pub budget_usage : String → String → List BudgetRow → BudgetRow
budget_usage day repo [] = record { day_bucket = day; repo = repo; cost_usd = 0; invocations = 0 }
budget_usage day repo (r ∷ rs) = if has_key day repo r then r else budget_usage day repo rs

abbrev pub added : BudgetRow → BudgetRow → BudgetRow
added input r = record r {
  cost_usd = r.cost_usd + input.cost_usd;
  invocations = r.invocations + input.invocations;
}

-- `recordBudgetUsage`: INSERT ... ON CONFLICT(day_bucket, repo) DO UPDATE.
unfoldable pub record_budget_usage : BudgetRow → List BudgetRow → List BudgetRow
record_budget_usage input [] = input ∷ []
record_budget_usage input (r ∷ rs) =
    let rest = record_budget_usage input rs in
    if has_key input.day_bucket input.repo r then added input r ∷ rs else r ∷ rest

-- What one record counts under a key.
abbrev pub cost_under : String → String → BudgetRow → ℕ
cost_under day repo input = if has_key day repo input then input.cost_usd else 0

same_key :
    (input r : BudgetRow) (day repo : String)
    → has_key input.day_bucket input.repo r ≡ true
    → has_key day repo input ≡ has_key day repo r
same_key input r day repo h = grind texts

-- A row under a key has no key that another row has not.
other_key :
    (input r : BudgetRow) (day repo : String)
    → has_key input.day_bucket input.repo r ≡ false
    → has_key day repo r ≡ true
    → has_key day repo input ≡ false
other_key input r day repo h g = grind texts

-- A record adds its cost under its own key, and changes no other key.
usage-record :
    (input : BudgetRow) (day repo : String) (rows : List BudgetRow)
    → (budget_usage day repo (record_budget_usage input rows)).cost_usd
      ≡ (budget_usage day repo rows).cost_usd + cost_under day repo input
unfolding budget_usage record_budget_usage
usage-record input day repo [] = ground arith
usage-record input day repo (r ∷ rs) = elim (Bool-cases (has_key input.day_bucket input.repo r)) [
  | inl here ↦ rw here (elim (Bool-cases (has_key day repo r)) [
    | inl h ↦ ground (arith, same_key input r day repo here)
    | inr h ↦ ground (arith, same_key input r day repo here)
  ])
  | inr elsewhere ↦ rw elsewhere (elim (Bool-cases (has_key day repo r)) [
    | inl h ↦ ground (arith, other_key input r day repo elsewhere h)
    | inr h ↦ ground (arith, usage-record input day repo rs)
  ])
]
