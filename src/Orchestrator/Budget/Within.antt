-- ===== src/Orchestrator/Budget/Within.antt =====
-- The invocation limits of RunBudget over a sequence of its calls (src/orchestrator/run-budget.ts).
use runmill.Orchestrator.Budget.{
  Role, Counts, RunBudgetOptions, RunBudget, AgentEvent, new_budget, begin_invocation,
  finish_invocation, count_of, counted_in, is_active,
}
use runmill.Base.{ℕ, ◌+◌, ◌≡◌, ◌≤◌, refl, List, [], ◌∷◌, arith, leb, Bool-cases, inl, inr, false}

-- A call of the budget's owner, with its readings of the clock.
pub data Call : Type 0 where
  begins : Role → ℕ → ℕ → ℕ → Call
  finishes : List AgentEvent → ℕ → Call

abbrev pub after_call : Call → RunBudget → RunBudget
after_call (begins r requested now later) b = (begin_invocation r requested now later b).0
after_call (finishes es now) b = (finish_invocation es now b).0

abbrev pub after_calls : List Call → RunBudget → RunBudget
after_calls [] b = b
after_calls (c ∷ cs) b = after_calls cs (after_call c b)

-- The total is the sum of the roles' counts, and no count is above its limit.
pub record IsWithin (o : RunBudgetOptions) (b : RunBudget) : Type 0 where
  pub options_eq : b.options ≡ o
  pub sum_eq :
      b.counts.total
      ≡ b.counts.implementer + b.counts.local_review + b.counts.fixer + b.counts.pr_review
        + b.counts.pr_fixer
  pub total_le : b.counts.total ≤ o.max_invocations.total
  pub role_le : (r : Role) → count_of r b.counts ≤ count_of r o.max_invocations

counted-role_le :
    (m c : Counts) (r s : Role)
    → leb (count_of r m) (count_of r c) ≡ false
    → count_of s c ≤ count_of s m
    → count_of s (counted_in r c) ≤ count_of s m
counted-role_le m c Role.implementer Role.implementer free low = ground arith
counted-role_le m c Role.local_review Role.local_review free low = ground arith
counted-role_le m c Role.fixer Role.fixer free low = ground arith
counted-role_le m c Role.pr_review Role.pr_review free low = ground arith
counted-role_le m c Role.pr_fixer Role.pr_fixer free low = ground arith
counted-role_le m c Role.implementer _ free low = low
counted-role_le m c Role.local_review _ free low = low
counted-role_le m c Role.fixer _ free low = low
counted-role_le m c Role.pr_review _ free low = low
counted-role_le m c Role.pr_fixer _ free low = low

counted-sum :
    (c : Counts) (r : Role)
    → c.total ≡ c.implementer + c.local_review + c.fixer + c.pr_review + c.pr_fixer
    → ((counted_in r c).total ≡ c.total + 1)
      × ((counted_in r c).total
          ≡ (counted_in r c).implementer
            + (counted_in r c).local_review
            + (counted_in r c).fixer
            + (counted_in r c).pr_review
            + (counted_in r c).pr_fixer)
counted-sum c Role.implementer h = (refl, omega arith)
counted-sum c Role.local_review h = (refl, omega arith)
counted-sum c Role.fixer h = (refl, omega arith)
counted-sum c Role.pr_review h = (refl, omega arith)
counted-sum c Role.pr_fixer h = (refl, omega arith)

-- A granted invocation keeps every limit.
counted-IsWithin :
    (o : RunBudgetOptions) (r : Role) (b : RunBudget)
    → IsWithin o b
    → leb o.max_invocations.total b.counts.total ≡ false
    → leb (count_of r o.max_invocations) (count_of r b.counts) ≡ false
    → IsWithin o (record b { counts = counted_in r b.counts })
counted-IsWithin o r b i room free =
    let (total_eq, sum_eq) = counted-sum b.counts r i.sum_eq in
    record {
      options_eq = i.options_eq;
      sum_eq = sum_eq;
      total_le = rw total_eq ground (arith, room);
      role_le = λ s. counted-role_le o.max_invocations b.counts r s free (i.role_le s);
    }

begin-IsWithin :
    (o : RunBudgetOptions) (r : Role) (requested now later : ℕ) (b : RunBudget)
    → IsWithin o b
    → IsWithin o (begin_invocation r requested now later b).0
unfolding begin_invocation
begin-IsWithin o r requested now later b i = elim (Bool-cases (is_active now b)) [
  | inr ended ↦ rw ended i
  | inl active ↦ rw active (elim (Bool-cases (leb b.options.max_invocations.total b.counts.total)) [
    | inl full ↦ rw full i
    | inr room ↦
        rw room
          (elim (Bool-cases (leb (count_of r b.options.max_invocations) (count_of r b.counts))) [
            | inl full ↦ rw full i
            | inr free ↦
                rw free (counted-IsWithin o r b i (rw⁻¹ i.options_eq room) (rw⁻¹ i.options_eq free))
          ])
  ])
]

call-IsWithin :
    (o : RunBudgetOptions) (c : Call) (b : RunBudget) → IsWithin o b → IsWithin o (after_call c b)
unfolding finish_invocation
call-IsWithin o (begins r requested now later) b i = begin-IsWithin o r requested now later b i
call-IsWithin o (finishes es now) b i = record {
  options_eq = i.options_eq;
  sum_eq = i.sum_eq;
  total_le = i.total_le;
  role_le = i.role_le;
}

calls-IsWithin :
    (o : RunBudgetOptions) (cs : List Call) (b : RunBudget)
    → IsWithin o b
    → IsWithin o (after_calls cs b)
calls-IsWithin o [] b i = i
calls-IsWithin o (c ∷ cs) b i = calls-IsWithin o cs (after_call c b) (call-IsWithin o c b i)

-- Whatever calls are made on a new budget, refused ones included, its total count is the sum of the
-- roles' counts, and neither the total nor a role's count is above its configured limit.
pub new_budget-IsWithin :
    (o : RunBudgetOptions) (at : ℕ) (cs : List Call) → IsWithin o (after_calls cs (new_budget o at))
new_budget-IsWithin o at cs = calls-IsWithin o cs (new_budget o at) (record {
  options_eq = refl;
  sum_eq = refl;
  total_le = omega arith;
  role_le = elim [
    | Role.implementer ↦ omega arith
    | Role.local_review ↦ omega arith
    | Role.fixer ↦ omega arith
    | Role.pr_review ↦ omega arith
    | Role.pr_fixer ↦ omega arith
  ];
})
