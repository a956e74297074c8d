-- ===== src/Examples/Issues.antt =====
-- A small backlog (src/queue).
use runmill.Base.{
  ℕ, ◌≡◌, ◌↔◌, refl, true, false, List, [], ◌∷◌, Member, none, some, arith, inl, inr,
}
use runmill.Queue.Issue.{BacklogIssue}
use runmill.Queue.Mapping.{RepositoryRule, resolve_repository}
use runmill.Queue.Ordering.{default_ordering}
use runmill.Queue.Ordering.Unique.{IsDistinct, Differs}
use runmill.Queue.Eligibility.{EligibilityPolicy, evaluate_eligibility, all_rules}
use runmill.Queue.Selector.{QueueConfig, select_next, policy_of}
use runmill.Queue.Selector.Choice.{IsChoice, select_next-IsChoice}

abbrev pub issue : List ℕ → ℕ → BacklogIssue
issue identifier priority = record {
  identifier = identifier;
  title = "Fix the footer";
  description = [];
  priority = priority;
  labels = "agent-ready" ∷ [];
  state = "Todo";
  team_key = "ENG";
  project_name = some "Site";
  estimate = some 2;
  assignee_id = none;
  assignee_is_human = none;
  due_date = none;
  manual_rank = none;
  created_at = some 5;
  canceled = false;
  completed = false;
  blocked_by = [];
}

abbrev idle : BacklogIssue
idle = issue (1 ∷ []) 0

abbrev urgent : BacklogIssue
urgent = issue (2 ∷ []) 1

abbrev backlog : List BacklogIssue
backlog = idle ∷ urgent ∷ []

abbrev turned : List BacklogIssue
turned = urgent ∷ idle ∷ []

abbrev team_rule : RepositoryRule
team_rule = record {
  matching = record { team = some "ENG"; project = none; label = none };
  repo = "acme/site";
  base_branch = "main";
}

abbrev project_rule : RepositoryRule
project_rule = record {
  matching = record { team = some "ENG"; project = some "Site"; label = none };
  repo = "acme/other";
  base_branch = "main";
}

abbrev config : QueueConfig
config = record {
  eligible_states = "Todo" ∷ [];
  include_labels = "agent-ready" ∷ [];
  exclude_labels = [];
  allow_unassigned = none;
  claim_assignee = none;
  max_estimate = some 3;
  selection = default_ordering;
  repositories = team_rule ∷ project_rule ∷ [];
}

abbrev policy : EligibilityPolicy
policy = policy_of config [] none

apart : Differs idle urgent
apart = record { other_identifier = λ h. ground arith }

apart_too : Differs urgent idle
apart_too = record { other_identifier = λ h. ground arith }

backlog-IsDistinct : IsDistinct backlog
backlog-IsDistinct = ((apart, tt), (tt, tt))

turned-IsDistinct : IsDistinct turned
turned-IsDistinct = ((apart_too, tt), (tt, tt))

swapped : (a b x : BacklogIssue) → Member x (a ∷ b ∷ []) → Member x (b ∷ a ∷ [])
swapped a b x (inl e) = inr (inl e)
swapped a b x (inr (inl e)) = inl e
swapped a b x (inr (inr m)) = absurd m

same_issues : (x : BacklogIssue) → Member x backlog ↔ Member x turned
same_issues x = (swapped idle urgent x, swapped urgent idle x)

urgent-eligible : (evaluate_eligibility urgent policy).eligible ≡ true
unfolding evaluate_eligibility all_rules resolve_repository
urgent-eligible = refl

select_next-IsChoice_example :
    IsChoice config policy backlog (select_next config [] none backlog).selected
select_next-IsChoice_example = select_next-IsChoice config [] none backlog
