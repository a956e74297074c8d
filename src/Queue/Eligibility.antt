-- ===== src/Queue/Eligibility.antt =====
-- Whether an issue may be claimed (src/queue/eligibility.ts). A rule's result keeps its code and leaves
-- out its sentence, which prints values that the issue and the policy hold.
pub mod Decide
use runmill.Base.{
  ℕ, Bool, true, false, not, ◌&&◌, ◌||◌, List, [], ◌∷◌, Option, none, some, String, str_eq, any,
  all, keep, length, ltb, leb, ◌==◌, if◌then◌else◌, suc, zero, map,
}
use runmill.Queue.Issue.{BacklogIssue, RepositoryTarget}
use runmill.Queue.Compare.{Ordering, cmp_text}
use runmill.Queue.Mapping.{
  RepositoryRule, RepositoryResolution, resolved, unresolved, resolve_repository, includes_text,
  equals_text,
}

-- RuleId, in the order of RULE_IDS.
pub data RuleId : Type 0 where
  mapped_repository workflow_state not_terminal assignment not_leased : RuleId
  labels_rule estimate_rule dependencies readiness capacity : RuleId

abbrev pub rule_ids : List RuleId
rule_ids =
    mapped_repository ∷ workflow_state ∷ not_terminal ∷ assignment ∷ not_leased ∷ labels_rule
    ∷ estimate_rule ∷ dependencies ∷ readiness ∷ capacity ∷ []

pub record RuleResult : Type 0 where
  pub rule : RuleId
  pub passed : Bool
  pub code : Option String

pub record EligibilityPolicy : Type 0 where
  pub eligible_states : List String
  pub include_labels : List String
  pub exclude_labels : List String
  pub repository_rules : List RepositoryRule
  pub capacity_available : Bool
  pub leased_issue_ids : List (List ℕ)
  pub allow_unassigned : Option Bool
  pub claim_assignee : Option String
  pub max_estimate : Option ℕ
  pub readiness_override_label : Option String
  pub min_description_chars : Option ℕ

-- DEFAULT_MIN_DESCRIPTION_CHARS
abbrev pub default_min_description_chars : ℕ
default_min_description_chars = 80

abbrev pub pass : RuleId → RuleResult
pass r = record { rule = r; passed = true; code = none }

abbrev pub fail : RuleId → Option String → RuleResult
fail r code = record { rule = r; passed = false; code = code }

abbrev pub same_id : List ℕ → List ℕ → Bool
same_id a b = elim (cmp_text a b) [ Ordering.eq ↦ true | _ ↦ false ]

abbrev pub mapping_rule : RepositoryResolution → RuleResult
mapping_rule (resolved t k) = pass mapped_repository
mapping_rule unresolved = fail mapped_repository (some "RM-SELECT-002")

abbrev pub state_rule : BacklogIssue → EligibilityPolicy → RuleResult
state_rule i p =
    if includes_text p.eligible_states i.state
    then pass workflow_state
    else fail workflow_state none

abbrev pub terminal_rule : BacklogIssue → RuleResult
terminal_rule i = if i.canceled || i.completed then fail not_terminal none else pass not_terminal

abbrev pub is_explicitly_false : Option Bool → Bool
is_explicitly_false (some false) = true
is_explicitly_false _ = false

abbrev pub assigned_rule : Option String → EligibilityPolicy → RuleResult
assigned_rule none p =
    if is_explicitly_false p.allow_unassigned then fail assignment none else pass assignment
assigned_rule (some a) p =
    if equals_text p.claim_assignee a then pass assignment else fail assignment none

abbrev pub assignment_rule : BacklogIssue → EligibilityPolicy → RuleResult
assignment_rule i p = assigned_rule i.assignee_id p

abbrev pub lease_rule : BacklogIssue → EligibilityPolicy → RuleResult
lease_rule i p =
    if any (same_id i.identifier) p.leased_issue_ids then fail not_leased none else pass not_leased

abbrev pub missing_includes : BacklogIssue → EligibilityPolicy → List String
missing_includes i p = keep (λ l. not (includes_text i.labels l)) p.include_labels

abbrev pub present_excludes : BacklogIssue → EligibilityPolicy → List String
present_excludes i p = keep (λ l. includes_text i.labels l) p.exclude_labels

abbrev pub label_rule : BacklogIssue → EligibilityPolicy → RuleResult
label_rule i p =
    if ltb 0 (length (missing_includes i p))
    then fail labels_rule none
    else if ltb 0 (length (present_excludes i p))
    then fail labels_rule none
    else pass labels_rule

abbrev pub exceeds : Option ℕ → Option ℕ → Bool
exceeds (some e) (some m) = ltb m e
exceeds _ _ = false

abbrev pub size_rule : BacklogIssue → EligibilityPolicy → RuleResult
size_rule i p =
    if exceeds i.estimate p.max_estimate then fail estimate_rule none else pass estimate_rule

abbrev pub dependency_rule : BacklogIssue → RuleResult
dependency_rule i =
    if ltb 0 (length i.blocked_by) then fail dependencies none else pass dependencies

-- The code units that `trim` removes: the language's white space and line ends.
abbrev pub is_space : ℕ → Bool
is_space c =
    (leb 9 c && leb c 13)
    || c == 32
    || c == 160
    || c == 5760
    || (leb 8192 c && leb c 8202)
    || c == 8232
    || c == 8233
    || c == 8239
    || c == 8287
    || c == 12288
    || c == 65279

abbrev pub trim_start : List ℕ → List ℕ
trim_start [] = []
trim_start (c ∷ cs) = let rest = trim_start cs in if is_space c then rest else c ∷ cs

-- The texts of white space only become empty from behind.
abbrev pub trim_end : List ℕ → List ℕ
trim_end [] = []
trim_end (c ∷ cs) = kept_end c (trim_end cs)
  where
    kept_end : ℕ → List ℕ → List ℕ
    kept_end c [] = if is_space c then [] else c ∷ []
    kept_end c (d ∷ ds) = c ∷ d ∷ ds

abbrev pub trim : List ℕ → List ℕ
trim cs = trim_end (trim_start cs)

abbrev pub min_chars : EligibilityPolicy → ℕ
min_chars p = elim p.min_description_chars [ none ↦ default_min_description_chars | some n ↦ n ]

abbrev pub has_override : BacklogIssue → EligibilityPolicy → Bool
has_override i p = elim p.readiness_override_label [
  | none ↦ false
  | some l ↦ includes_text i.labels l
]

abbrev pub readiness_rule : BacklogIssue → EligibilityPolicy → RuleResult
readiness_rule i p =
    if has_override i p
    then pass readiness
    else if ltb (length (trim i.description)) (min_chars p)
    then fail readiness (some "RM-SELECT-003")
    else pass readiness

abbrev pub capacity_rule : EligibilityPolicy → RuleResult
capacity_rule p = if p.capacity_available then pass capacity else fail capacity none

-- EligibilityDecision
pub record EligibilityDecision : Type 0 where
  pub eligible : Bool
  pub rules : List RuleResult
  pub target : Option RepositoryTarget

abbrev pub target_of : RepositoryResolution → Option RepositoryTarget
target_of (resolved t k) = some t
target_of unresolved = none

unfoldable pub all_rules : BacklogIssue → EligibilityPolicy → List RuleResult
all_rules i p =
    mapping_rule (resolve_repository i p.repository_rules)
    ∷ state_rule i p
    ∷ terminal_rule i
    ∷ assignment_rule i p
    ∷ lease_rule i p
    ∷ label_rule i p
    ∷ size_rule i p
    ∷ dependency_rule i
    ∷ readiness_rule i p
    ∷ capacity_rule p
    ∷ []

abbrev pub decide : List RuleResult → Option RepositoryTarget → EligibilityDecision
decide rules target =
    let eligible = all (λ r. r.passed) rules in
    if eligible
    then record { eligible = eligible; rules = rules; target = target }
    else record { eligible = eligible; rules = rules; target = none }

-- `evaluateEligibility`
unfoldable pub evaluate_eligibility : BacklogIssue → EligibilityPolicy → EligibilityDecision
evaluate_eligibility i p =
    decide (all_rules i p) (target_of (resolve_repository i p.repository_rules))
