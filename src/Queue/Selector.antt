-- ===== src/Queue/Selector.antt =====
-- The choice of the next issue (src/queue/selector.ts). The candidates are what the backlog's adapter
-- lists; of the configuration, the fields that are read.
pub mod Choice
pub mod Explained
use runmill.Base.{ℕ, Bool, true, false, List, [], ◌∷◌, Option, none, some, String, if◌then◌else◌}
use runmill.Queue.Issue.{BacklogIssue, RepositoryTarget}
use runmill.Queue.Mapping.{RepositoryRule, includes_text}
use runmill.Queue.Ordering.{IssueOrderingOptions, order_issues}
use runmill.Queue.Eligibility.{EligibilityPolicy, EligibilityDecision, evaluate_eligibility}

pub record QueueConfig : Type 0 where
  pub eligible_states : List String
  pub include_labels : List String
  pub exclude_labels : List String
  pub allow_unassigned : Option Bool
  pub claim_assignee : Option String
  pub max_estimate : Option ℕ
  pub selection : IssueOrderingOptions
  pub repositories : List RepositoryRule

pub record SelectedCandidate : Type 0 where
  pub issue : BacklogIssue
  pub target : RepositoryTarget
  pub decision : EligibilityDecision

pub record RejectedCandidate : Type 0 where
  pub issue : BacklogIssue
  pub decision : EligibilityDecision

pub record SelectionResult : Type 0 where
  pub selected : Option SelectedCandidate
  pub rejected : List RejectedCandidate
  pub runners_up : List SelectedCandidate

abbrev pub policy_of : QueueConfig → List (List ℕ) → Option Bool → EligibilityPolicy
policy_of c leased capacity = record {
  eligible_states = c.eligible_states;
  include_labels = c.include_labels;
  exclude_labels = c.exclude_labels;
  repository_rules = c.repositories;
  capacity_available = elim capacity [ none ↦ true | some b ↦ b ];
  leased_issue_ids = leased;
  allow_unassigned = c.allow_unassigned;
  claim_assignee = c.claim_assignee;
  max_estimate = c.max_estimate;
  readiness_override_label =
      if includes_text c.include_labels "agent-ready" then some "agent-ready" else none;
  min_description_chars = none;
}

-- The arrays `eligible` and `rejected` of the loop.
pub record Screened : Type 0 where
  pub eligible : List SelectedCandidate
  pub rejected : List RejectedCandidate

-- One candidate, before those that follow it.
sorted_out :
    BacklogIssue → EligibilityDecision → Option RepositoryTarget → Bool → Screened → Screened
sorted_out i d (some t) true s = record s {
  eligible = record { issue = i; target = t; decision = d } ∷ s.eligible;
}
sorted_out i d _ _ s = record s { rejected = record { issue = i; decision = d } ∷ s.rejected }

-- The `for` of `selectNext`.
unfoldable pub screen : EligibilityPolicy → List BacklogIssue → Screened
unfolding sorted_out
screen p [] = record { eligible = []; rejected = [] }
screen p (i ∷ rest) =
    let d = evaluate_eligibility i p in sorted_out i d d.target d.eligible (screen p rest)

abbrev pub chosen : List SelectedCandidate → List RejectedCandidate → SelectionResult
chosen [] rejected = record { selected = none; rejected = rejected; runners_up = [] }
chosen (c ∷ cs) rejected = record { selected = some c; rejected = rejected; runners_up = cs }

-- `selectNext`
unfoldable pub select_next :
    QueueConfig → List (List ℕ) → Option Bool → List BacklogIssue → SelectionResult
select_next c leased capacity candidates =
    let s = screen (policy_of c leased capacity) (order_issues c.selection candidates) in
    chosen s.eligible s.rejected
