-- ===== src/Queue/Selector/Explained.antt =====
-- What the selector says of the candidates that it rejects (src/queue/selector.ts).
use runmill.Base.{
  ℕ, ◌+◌, ◌≡◌, refl, Bool, false, List, [], ◌∷◌, Option, none, some, length, all, Member, All, inl,
  inr, Bool-cases, arith,
}
use runmill.Queue.Issue.{BacklogIssue, RepositoryTarget}
use runmill.Queue.Ordering.{order_issues}
use runmill.Queue.Ordering.Sorted.{order_issues-length}
use runmill.Queue.Eligibility.{
  EligibilityPolicy, evaluate_eligibility, RuleResult, decide, all_rules, target_of,
}
use runmill.Queue.Mapping.{resolve_repository}
use runmill.Queue.Selector.{
  QueueConfig, SelectedCandidate, RejectedCandidate, policy_of, screen, chosen, select_next,
}
use runmill.Queue.Selector.Choice.{screen-eligible, screen-rejected}

-- A rejected candidate's decision is that of its own evaluation, and names a rule that failed.
pub record IsExplained (p : EligibilityPolicy) (r : RejectedCandidate) : Type 0 where
  pub decision_eq : r.decision ≡ evaluate_eligibility r.issue p
  pub failing : (x : RuleResult) × Member x r.decision.rules × (x.passed ≡ false)

failed_of :
    (rs : List RuleResult)
    → all (λ r. r.passed) rs ≡ false
    → (x : RuleResult) × Member x rs × (x.passed ≡ false)
failed_of [] h = cc
failed_of (r ∷ rs) h = elim (Bool-cases r.passed) [
  | inr fails ↦ (r, inl refl, fails)
  | inl passes ↦ let (x, m, fails) = failed_of rs (ground arith) in (x, inr m, fails)
]

refused :
    (rules : List RuleResult) (t : Option RepositoryTarget)
    → (decide rules t).eligible ≡ false
    → (x : RuleResult) × Member x (decide rules t).rules × (x.passed ≡ false)
refused rules t h = elim (Bool-cases (all (λ r. r.passed) rules)) [
  | inl passes ↦ absurd (ground arith)
  | inr fails ↦ rw fails (failed_of rules fails)
]

rejected-IsExplained :
    (i : BacklogIssue) (p : EligibilityPolicy)
    → (evaluate_eligibility i p).eligible ≡ false
    → IsExplained p (record { issue = i; decision = evaluate_eligibility i p })
unfolding evaluate_eligibility
rejected-IsExplained i p h =
    let rules = all_rules i p in
    record {
      decision_eq = refl;
      failing = refused rules (target_of (resolve_repository i p.repository_rules)) h;
    }

screen-IsExplained :
    (p : EligibilityPolicy) (xs : List BacklogIssue) → All (IsExplained p) (screen p xs).rejected
unfolding screen
screen-IsExplained p [] = tt
screen-IsExplained p (i ∷ xs) = elim (Bool-cases (evaluate_eligibility i p).eligible) [
  | inl good ↦ let (t, _, e) = screen-eligible p i xs good in rw e (screen-IsExplained p xs)
  | inr bad ↦
      rw (screen-rejected p i xs bad) (rejected-IsExplained i p bad, screen-IsExplained p xs)
]

screen-length :
    (p : EligibilityPolicy) (xs : List BacklogIssue)
    → length (screen p xs).eligible + length (screen p xs).rejected ≡ length xs
unfolding screen
screen-length p [] = refl
screen-length p (i ∷ xs) = elim (Bool-cases (evaluate_eligibility i p).eligible) [
  | inl good ↦
      let (t, _, e) = screen-eligible p i xs good in rw e (omega (arith, screen-length p xs))
  | inr bad ↦ rw (screen-rejected p i xs bad) (omega (arith, screen-length p xs))
]

abbrev pub selected_count : Option SelectedCandidate → ℕ
selected_count none = 0
selected_count (some s) = 1

chosen-parts :
    (ss : List SelectedCandidate) (rs : List RejectedCandidate)
    → ((chosen ss rs).rejected ≡ rs)
      × (selected_count (chosen ss rs).selected + length (chosen ss rs).runners_up ≡ length ss)
chosen-parts [] rs = (refl, refl)
chosen-parts (s ∷ ss) rs = (refl, omega arith)

-- Every candidate is selected, a runner-up or rejected, and each that is rejected carries its own
-- decision with a rule that failed.
select_next-IsExplained :
    (c : QueueConfig) (leased : List (List ℕ)) (capacity : Option Bool) (xs : List BacklogIssue)
    → All (IsExplained (policy_of c leased capacity)) (select_next c leased capacity xs).rejected
      × (selected_count (select_next c leased capacity xs).selected
            + length (select_next c leased capacity xs).runners_up
            + length (select_next c leased capacity xs).rejected
          ≡ length xs)
unfolding select_next
select_next-IsExplained c leased capacity xs =
    let p = policy_of c leased capacity in
    let ordered = order_issues c.selection xs in
    let (rejects, counts) = chosen-parts (screen p ordered).eligible (screen p ordered).rejected in
    (
      rw rejects (screen-IsExplained p ordered),
      rw rejects
          (omega (arith, counts, screen-length p ordered, order_issues-length c.selection xs)),
    )
