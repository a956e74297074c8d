-- ===== src/Examples/Stacks.antt =====
-- Two issues of which one blocks the other, and two that block each other (src/queue/stack.ts).
use runmill.Base.{◌≡◌, ◌≢◌, refl, true, ◌||◌, List, [], ◌∷◌, some, none, All, thrown, inl}
use runmill.Queue.Issue.{BacklogIssue}
use runmill.Queue.Stack.{no_fuel, resolve_all, plan_stack, is_planned, is_explained}
use runmill.Queue.Stack.Fuel.{resolve_all-ends}
use runmill.Queue.Stack.Covers.{plan_stack-covers}
use runmill.Queue.Stack.Chains.{IsStack, plan_stack-IsStack}
use runmill.Examples.Issues.{issue}

abbrev lower : BacklogIssue
lower = issue (1 ∷ []) 2

abbrev upper : BacklogIssue
upper = record (issue (2 ∷ []) 2) { blocked_by = (1 ∷ []) ∷ [] }

abbrev knot : BacklogIssue
knot = record (issue (1 ∷ []) 2) { blocked_by = (2 ∷ []) ∷ [] }

abbrev sequential : List BacklogIssue
sequential = upper ∷ lower ∷ []

abbrev knotted : List BacklogIssue
knotted = upper ∷ knot ∷ []

resolve_all-ends_example : resolve_all knotted upper ≢ thrown no_fuel
resolve_all-ends_example = resolve_all-ends knotted upper refl

plan_stack-IsStack_example : All (IsStack 4) (plan_stack none sequential).chains
plan_stack-IsStack_example = plan_stack-IsStack none sequential

plan_stack-covers_example :
    (is_planned (plan_stack (some 2) knotted) (2 ∷ [])
      || is_explained (plan_stack (some 2) knotted).rejected (2 ∷ []))
    ≡ true
plan_stack-covers_example = plan_stack-covers (some 2) knotted upper (inl refl)
