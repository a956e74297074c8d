-- ===== src/Queue/Selector/Choice.antt =====
-- What the selector chooses and what it leaves (src/queue/selector.ts).
use runmill.Base.{
  ℕ, ◌≡◌, refl, ap, Bool, true, false, List, [], ◌∷◌, Option, none, some, Member, All, inl, inr,
  ◌↔◌, Bool-cases,
}
use runmill.Queue.Issue.{BacklogIssue, RepositoryTarget}
use runmill.Queue.Compare.{not_after_refl}
use runmill.Queue.Ordering.{order_issues, compare_issues, compare_issues-IsComparison}
use runmill.Queue.Ordering.Sorted.{Precedes, IsSorted, order_issues-IsSorted, order_issues-Member}
use runmill.Queue.Ordering.Unique.{IsDistinct, order_issues_unique}
use runmill.Queue.Eligibility.{EligibilityPolicy, EligibilityDecision, evaluate_eligibility}
use runmill.Queue.Eligibility.Decide.{IsEligible, evaluate_eligibility-IsEligible}
use runmill.Queue.Selector.{
  QueueConfig, SelectedCandidate, RejectedCandidate, policy_of, screen, sorted_out, chosen,
  select_next, Screened,
}

sorted_out-rejected :
    (i : BacklogIssue) (d : EligibilityDecision) (t : Option RepositoryTarget) (e : Bool)
    (s : Screened)
    → e ≡ false
    → sorted_out i d t e s ≡ record s { rejected = record { issue = i; decision = d } ∷ s.rejected }
unfolding sorted_out
sorted_out-rejected i d none e s h = refl
sorted_out-rejected i d (some t) true s h = cc
sorted_out-rejected i d (some t) false s h = refl

-- The two ways in which a candidate is sorted out.
pub screen-eligible :
    (p : EligibilityPolicy) (i : BacklogIssue) (rest : List BacklogIssue)
    → (evaluate_eligibility i p).eligible ≡ true
    → (t : RepositoryTarget) × IsEligible i p t
      × (screen p (i ∷ rest) ≡ record {
        eligible =
            record { issue = i; target = t; decision = evaluate_eligibility i p }
            ∷ (screen p rest).eligible;
        rejected = (screen p rest).rejected;
      })
unfolding screen sorted_out
screen-eligible p i rest h =
    let (t, target, ok) = evaluate_eligibility-IsEligible i p h in (t, ok, rw (target, h) refl)

pub screen-rejected :
    (p : EligibilityPolicy) (i : BacklogIssue) (rest : List BacklogIssue)
    → (evaluate_eligibility i p).eligible ≡ false
    → screen p (i ∷ rest) ≡ record {
      eligible = (screen p rest).eligible;
      rejected =
          record { issue = i; decision = evaluate_eligibility i p } ∷ (screen p rest).rejected;
    }
unfolding screen
screen-rejected p i rest h =
    let d = evaluate_eligibility i p in
    sorted_out-rejected i d d.target d.eligible (screen p rest) h

-- What the eligible candidates of a list say: none, or the first of them.
pub data IsChoice (c : QueueConfig) (p : EligibilityPolicy) (xs : List BacklogIssue)
    : Option SelectedCandidate → Type 0 where
  nothing :
      ((x : BacklogIssue) → Member x xs → (evaluate_eligibility x p).eligible ≡ false)
      → IsChoice c p xs none
  first :
      (s : SelectedCandidate)
      → Member s.issue xs
      → IsEligible s.issue p s.target
      → s.decision ≡ evaluate_eligibility s.issue p
      → ((x : BacklogIssue)
          → Member x xs
          → (evaluate_eligibility x p).eligible ≡ true
          → Precedes c.selection s.issue x)
      → IsChoice c p xs (some s)

abbrev head : List SelectedCandidate → Option SelectedCandidate
head [] = none
head (s ∷ ss) = some s

All-Precedes :
    (c : QueueConfig) (a x : BacklogIssue) (xs : List BacklogIssue)
    → All (Precedes c.selection a) xs
    → Member x xs
    → Precedes c.selection a x
All-Precedes c a x [] ps m = absurd m
All-Precedes c a x (y ∷ ys) (p, ps) (inl e) = rw e p
All-Precedes c a x (y ∷ ys) (p, ps) (inr m) = All-Precedes c a x ys ps m

IsChoice-rejected :
    (c : QueueConfig) (p : EligibilityPolicy) (i : BacklogIssue) (xs : List BacklogIssue)
    (o : Option SelectedCandidate)
    → (evaluate_eligibility i p).eligible ≡ false
    → IsChoice c p xs o
    → IsChoice c p (i ∷ xs) o
IsChoice-rejected c p i xs none h (nothing none_of) = nothing later
  where
    later : (x : BacklogIssue) → Member x (i ∷ xs) → (evaluate_eligibility x p).eligible ≡ false
    later x (inl e) = rw e h
    later x (inr m) = none_of x m
IsChoice-rejected c p i xs (some s) h (first _ m ok d least) = first s (inr m) ok d later
  where
    later :
        (x : BacklogIssue)
        → Member x (i ∷ xs)
        → (evaluate_eligibility x p).eligible ≡ true
        → Precedes c.selection s.issue x
    later x (inl e) good = let same = ap (λ z. (evaluate_eligibility z p).eligible) e in absurd cc
    later x (inr n) good = least x n good

least_head :
    (c : QueueConfig) (p : EligibilityPolicy) (i : BacklogIssue) (xs : List BacklogIssue)
    → All (Precedes c.selection i) xs
    → (x : BacklogIssue) → Member x (i ∷ xs)
    → (evaluate_eligibility x p).eligible ≡ true
    → Precedes c.selection i x
least_head c p i xs below x (inl e) good = rw e (record {
  not_after =
      not_after_refl (compare_issues c.selection) (compare_issues-IsComparison c.selection) i;
})
least_head c p i xs below x (inr m) good = All-Precedes c i x xs below m

screen-IsChoice :
    (c : QueueConfig) (p : EligibilityPolicy) (xs : List BacklogIssue)
    → IsSorted c.selection xs
    → IsChoice c p xs (head (screen p xs).eligible)
unfolding screen
screen-IsChoice c p [] s = nothing (λ x m. absurd m)
screen-IsChoice c p (i ∷ xs) (below, s) = elim (Bool-cases (evaluate_eligibility i p).eligible) [
  | inl good ↦
      let (t, ok, e) = screen-eligible p i xs good in
      rw e (
        first (record { issue = i; target = t; decision = evaluate_eligibility i p }) (inl refl) ok
          refl (least_head c p i xs below))
  | inr not_i ↦
      rw (screen-rejected p i xs not_i)
        (IsChoice-rejected c p i xs (head (screen p xs).eligible) not_i (screen-IsChoice c p xs s))
]

IsChoice-members :
    (c : QueueConfig) (p : EligibilityPolicy) (xs ys : List BacklogIssue)
    (o : Option SelectedCandidate)
    → ((x : BacklogIssue) → Member x xs ↔ Member x ys)
    → IsChoice c p xs o
    → IsChoice c p ys o
IsChoice-members c p xs ys none same (nothing none_of) = nothing (λ x m. none_of x ((same x).1 m))
IsChoice-members c p xs ys (some s) same (first _ m ok d least) =
    first s ((same s.issue).0 m) ok d (λ x n. least x ((same x).1 n))

chosen-selected :
    (ss : List SelectedCandidate) (rs : List RejectedCandidate) → (chosen ss rs).selected ≡ head ss
chosen-selected [] rs = refl
chosen-selected (s ∷ ss) rs = refl

-- The selector gives nothing exactly when no candidate is eligible; otherwise it gives a candidate
-- that meets every rule, with its repository and its decision, that no other eligible one precedes.
pub select_next-IsChoice :
    (c : QueueConfig) (leased : List (List ℕ)) (capacity : Option Bool) (xs : List BacklogIssue)
    → IsChoice c (policy_of c leased capacity) xs (select_next c leased capacity xs).selected
unfolding select_next
select_next-IsChoice c leased capacity xs =
    let p = policy_of c leased capacity in
    let ordered = order_issues c.selection xs in
    let choice = screen-IsChoice c p ordered (order_issues-IsSorted c.selection xs) in
    let kept =
      IsChoice-members c p ordered xs (head (screen p ordered).eligible)
        (λ x. order_issues-Member c.selection x xs) choice in
    rw (chosen-selected (screen p ordered).eligible (screen p ordered).rejected) kept

-- The selection does not depend on the order in which the backlog lists its issues.
select_next_unique :
    (c : QueueConfig) (leased : List (List ℕ)) (capacity : Option Bool) (xs ys : List BacklogIssue)
    → IsDistinct xs
    → IsDistinct ys
    → ((x : BacklogIssue) → Member x xs ↔ Member x ys)
    → select_next c leased capacity xs ≡ select_next c leased capacity ys
unfolding select_next
select_next_unique c leased capacity xs ys d e same =
    rw (order_issues_unique c.selection xs ys d e same) refl
