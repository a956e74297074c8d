-- ===== src/Orchestrator/Budget.antt =====
-- The limits of one issue: RunBudget (src/orchestrator/run-budget.ts) and the usage of a stream of
-- events (src/agent/events.ts). Each call takes the readings of the monotonic clock that it makes.
-- Costs are numbers of a fixed small unit; a refusal is kept without the sentence that it prints.
pub mod Within
use runmill.Base.{
  ℕ, ◌+◌, ◌-◌, Bool, true, false, not, ◌&&◌, List, [], ◌∷◌, Option, none, some, Outcome, returned,
  thrown, ltb, leb, max, min, if◌then◌else◌,
}

-- InvocationBudgetRole
pub data Role : Type 0 where
  implementer local_review fixer pr_review pr_fixer : Role

-- A number for each role and for the total.
pub record Counts : Type 0 where
  pub total : ℕ
  pub implementer : ℕ
  pub local_review : ℕ
  pub fixer : ℕ
  pub pr_review : ℕ
  pub pr_fixer : ℕ

abbrev pub count_of : Role → Counts → ℕ
count_of Role.implementer c = c.implementer
count_of Role.local_review c = c.local_review
count_of Role.fixer c = c.fixer
count_of Role.pr_review c = c.pr_review
count_of Role.pr_fixer c = c.pr_fixer

-- One more invocation, in the total and in its role.
abbrev pub counted_in : Role → Counts → Counts
counted_in Role.implementer c = record c { total = c.total + 1; implementer = c.implementer + 1 }
counted_in Role.local_review c = record c { total = c.total + 1; local_review = c.local_review + 1 }
counted_in Role.fixer c = record c { total = c.total + 1; fixer = c.fixer + 1 }
counted_in Role.pr_review c = record c { total = c.total + 1; pr_review = c.pr_review + 1 }
counted_in Role.pr_fixer c = record c { total = c.total + 1; pr_fixer = c.pr_fixer + 1 }

-- RunBudgetOptions without its clock. `enforces_cost` tells the setting "auto" from the other one.
pub record RunBudgetOptions : Type 0 where
  pub max_wall_ms : ℕ
  pub max_cost_usd : Option ℕ
  pub max_invocations : Counts
  pub clamp_invocation_timeout : Bool
  pub enforces_cost : Bool

pub record RunBudget : Type 0 where
  pub options : RunBudgetOptions
  pub started_at : ℕ
  pub counts : Counts
  pub cost_usd : ℕ

pub data Exhausted : Type 0 where
  wall_time total_exhausted unknown_cost cost_exceeded : Exhausted
  role_exhausted : Role → Exhausted

abbrev pub new_budget : RunBudgetOptions → ℕ → RunBudget
new_budget o now = record {
  options = o;
  started_at = now;
  counts = record {
    total = 0;
    implementer = 0;
    local_review = 0;
    fixer = 0;
    pr_review = 0;
    pr_fixer = 0;
  };
  cost_usd = 0;
}

-- `elapsedMs` at a reading of the clock: the subtraction stops at 0 as the source's `max` does.
abbrev pub elapsed_ms : ℕ → RunBudget → ℕ
elapsed_ms now b = now - b.started_at

-- `assertActive`: is the wall time left at this reading?
abbrev pub is_active : ℕ → RunBudget → Bool
is_active now b = not (leb b.options.max_wall_ms (elapsed_ms now b))

-- The timeout that a reserved call is given, at the later reading of the clock.
abbrev pub granted_timeout : ℕ → ℕ → RunBudget → ℕ
granted_timeout requested later b =
    if not b.options.clamp_invocation_timeout
    then requested
    else min requested (max 1 (b.options.max_wall_ms - elapsed_ms later b))

-- `beginInvocation`: the budget after the call, and its answer.
unfoldable pub begin_invocation : Role → ℕ → ℕ → ℕ → RunBudget → RunBudget × Outcome Exhausted ℕ
begin_invocation r requested now later b =
    if not (is_active now b)
    then (b, thrown wall_time)
    else if leb b.options.max_invocations.total b.counts.total
    then (b, thrown total_exhausted)
    else if leb (count_of r b.options.max_invocations) (count_of r b.counts)
    then (b, thrown (role_exhausted r))
    else (record b { counts = counted_in r b.counts }, returned (granted_timeout requested later b))

-- AgentEvent, by what the usage reads of it: a `usage.updated` carries its cost when it has one.
pub data AgentEvent : Type 0 where
  usage_updated : Option ℕ → AgentEvent
  other_event : AgentEvent

-- The cost of `accumulateUsage`; none when no event reported one.
abbrev pub reported_from : Option ℕ → List AgentEvent → Option ℕ
reported_from c [] = c
reported_from c (usage_updated (some d) ∷ es) = reported_from (some d) es
reported_from c (usage_updated none ∷ es) = reported_from c es
reported_from c (other_event ∷ es) = reported_from c es

abbrev pub cost_reported : Option ℕ → Bool
cost_reported none = false
cost_reported (some c) = true

abbrev pub cost_of : Option ℕ → ℕ
cost_of none = 0
cost_of (some c) = c

-- What the configured cap says of the spending so far.
abbrev pub cost_verdict : Option ℕ → Bool → Option ℕ → ℕ → Option Exhausted
cost_verdict none enforces usage spent = none
cost_verdict (some cap) enforces usage spent =
    if not enforces
    then none
    else if not (cost_reported usage)
    then some unknown_cost
    else if ltb cap spent
    then some cost_exceeded
    else none

abbrev pub finished : Option Exhausted → Bool → Outcome Exhausted (Unit {0})
finished (some e) active = thrown e
finished none active = if active then returned tt else thrown wall_time

-- `finishInvocation`: the cost is added also when the call is refused.
unfoldable pub finish_invocation :
    List AgentEvent → ℕ → RunBudget → RunBudget × Outcome Exhausted (Unit {0})
finish_invocation es now b =
    let usage = reported_from none es in
    let spent = b.cost_usd + cost_of usage in
    (
      record b { cost_usd = spent },
      finished (cost_verdict b.options.max_cost_usd b.options.enforces_cost usage spent)
          (is_active now b),
    )
