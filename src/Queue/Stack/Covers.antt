-- ===== src/Queue/Stack/Covers.antt =====
-- No candidate vanishes from a plan (src/queue/stack.ts).
use runmill.Base.{
  ℕ, ◌≡◌, refl, true, false, ◌||◌, List, [], ◌∷◌, ◌++◌, Option, inl, inr, Bool-cases, arith, Member,
}
use runmill.Queue.Issue.{BacklogIssue}
use runmill.Queue.Stack.{
  Rejected, StackPlan, is_planned, is_explained, leftovers, plan_stack, start_chains, depth_limit,
}
use runmill.Queue.Stack.Fuel.{same_id_refl}

explained-append :
    (rs ss : List Rejected) (id : List ℕ)
    → is_explained (rs ++ ss) id ≡ (is_explained rs id || is_explained ss id)
explained-append [] ss id = refl
explained-append (r ∷ rs) ss id = ground (arith, explained-append rs ss id)

leftovers-explained :
    (p : StackPlan) (cs xs : List BacklogIssue) (i : BacklogIssue)
    → Member i xs
    → (is_planned p i.identifier || is_explained p.rejected i.identifier) ≡ false
    → is_explained (leftovers p cs xs) i.identifier ≡ true
unfolding leftovers
leftovers-explained p cs [] i m h = absurd m
leftovers-explained p cs (x ∷ xs) i (inl e) h =
    let new = rw e at h in rw e (rw new (ground (arith, same_id_refl x.identifier)))
leftovers-explained p cs (x ∷ xs) i (inr m) h =
    elim (Bool-cases (is_planned p x.identifier || is_explained p.rejected x.identifier)) [
      | inl known ↦ rw known (leftovers-explained p cs xs i m h)
      | inr unknown ↦ rw unknown (ground (arith, leftovers-explained p cs xs i m h))
    ]

-- Each candidate's identifier is in a chain of the plan or has a rejection with its reason.
pub plan_stack-covers :
    (max_depth : Option ℕ) (cs : List BacklogIssue) (i : BacklogIssue)
    → Member i cs
    → (is_planned (plan_stack max_depth cs) i.identifier
        || is_explained (plan_stack max_depth cs).rejected i.identifier)
      ≡ true
unfolding plan_stack
plan_stack-covers max_depth cs i m =
    let p = start_chains (depth_limit max_depth) cs cs in
    elim (Bool-cases (is_planned p i.identifier || is_explained p.rejected i.identifier)) [
      | inl known ↦ rw (explained-append p.rejected (leftovers p cs cs) i.identifier) (ground arith)
      | inr unknown ↦
          rw (explained-append p.rejected (leftovers p cs cs) i.identifier)
            (ground (arith, leftovers-explained p cs cs i m unknown))
    ]
