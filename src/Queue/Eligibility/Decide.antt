-- ===== src/Queue/Eligibility/Decide.antt =====
-- What a decision of eligibility says (src/queue/eligibility.ts).
use runmill.Base.{
  ℕ, ◌≡◌, ◌≤◌, refl, Bool, true, false, ◌||◌, List, [], ◌∷◌, Option, none, some, String, length,
  map, any, all, arith, inl, inr, Bool-cases, ltb, ◌⊎◌, ap, ◌∙◌, if◌then◌else◌,
}
use runmill.Queue.Issue.{BacklogIssue, RepositoryTarget}
use runmill.Queue.Mapping.{
  RepositoryResolution, resolved, unresolved, resolve_repository, includes_text, equals_text,
}
use runmill.Queue.Eligibility.{
  RuleId, RuleResult, rule_ids, pass, fail, decide, mapping_rule, state_rule, terminal_rule,
  assigned_rule, assignment_rule, lease_rule, label_rule, size_rule, dependency_rule,
  readiness_rule, capacity_rule, target_of, EligibilityPolicy, all_rules, evaluate_eligibility,
  same_id, is_explicitly_false, missing_includes, present_excludes, exceeds, trim, min_chars,
  has_override,
}

decide-rules :
    (rules : List RuleResult) (t : Option RepositoryTarget) → (decide rules t).rules ≡ rules
decide-rules rules t = ground arith

mapping-id : (r : RepositoryResolution) → (mapping_rule r).rule ≡ RuleId.mapped_repository
mapping-id (resolved t k) = refl
mapping-id unresolved = refl

assigned-id :
    (a : Option String) (p : EligibilityPolicy) → (assigned_rule a p).rule ≡ RuleId.assignment
assigned-id none p = ground arith
assigned-id (some a) p = ground arith

-- A rule that one test decides.
if-id : (r : RuleId) (b : Bool) (x : Option String) → (if b then fail r x else pass r).rule ≡ r
if-id r true x = refl
if-id r false x = refl

-- Every rule is evaluated, once and in the order of RULE_IDS, whatever the issue and the policy.
evaluate_eligibility-rules :
    (i : BacklogIssue) (p : EligibilityPolicy)
    → map (λ r. r.rule) (evaluate_eligibility i p).rules ≡ rule_ids
unfolding evaluate_eligibility all_rules
evaluate_eligibility-rules i p =
    let states : (state_rule i p).rule ≡ RuleId.workflow_state = ground arith in
    let labels : (label_rule i p).rule ≡ RuleId.labels_rule = ground arith in
    let reads : (readiness_rule i p).rule ≡ RuleId.readiness = ground arith in
    let capacities : (capacity_rule p).rule ≡ RuleId.capacity = ground arith in
    ap (map (λ r. r.rule))
      (decide-rules (all_rules i p) (target_of (resolve_repository i p.repository_rules)))
    ∙ rw
        (
          mapping-id (resolve_repository i p.repository_rules),
          states,
          if-id RuleId.not_terminal (i.canceled || i.completed) none,
          assigned-id i.assignee_id p,
          if-id RuleId.not_leased (any (same_id i.identifier) p.leased_issue_ids) none,
          labels,
          if-id RuleId.estimate_rule (exceeds i.estimate p.max_estimate) none,
          if-id RuleId.dependencies (ltb 0 (length i.blocked_by)) none,
          reads,
          capacities,
        )
        refl

-- What an eligible issue is, rule by rule.
pub record IsEligible (i : BacklogIssue) (p : EligibilityPolicy) (t : RepositoryTarget)
    : Type 0 where
  pub mapped : (k : ℕ) × (resolve_repository i p.repository_rules ≡ resolved t k)
  pub in_state : includes_text p.eligible_states i.state ≡ true
  pub live : (i.canceled ≡ false) × (i.completed ≡ false)
  pub unleased : any (same_id i.identifier) p.leased_issue_ids ≡ false
  pub labelled : (missing_includes i p ≡ []) × (present_excludes i p ≡ [])
  pub small : exceeds i.estimate p.max_estimate ≡ false
  pub unblocked : i.blocked_by ≡ []
  pub ready : (has_override i p ≡ true) ⊎ (min_chars p ≤ length (trim i.description))
  pub room : p.capacity_available ≡ true
  pub assigned :
      ((i.assignee_id ≡ none) × (is_explicitly_false p.allow_unassigned ≡ false))
      ⊎ ((a : String) × (i.assignee_id ≡ some a) × (equals_text p.claim_assignee a ≡ true))

mapping-passed :
    (r : RepositoryResolution)
    → (mapping_rule r).passed ≡ true
    → (t : RepositoryTarget) × (k : ℕ) × (r ≡ resolved t k)
mapping-passed (resolved t k) h = (t, k, refl)
mapping-passed unresolved h = cc

assigned-passed :
    (a : Option String) (p : EligibilityPolicy)
    → (assigned_rule a p).passed ≡ true
    → ((a ≡ none) × (is_explicitly_false p.allow_unassigned ≡ false))
      ⊎ ((b : String) × (a ≡ some b) × (equals_text p.claim_assignee b ≡ true))
assigned-passed none p h = inl (refl, ground arith)
assigned-passed (some b) p h = inr (b, refl, ground arith)

empty_of : {A : Type 0} (xs : List A) → ltb 0 (length xs) ≡ false → xs ≡ []
empty_of [] h = refl
empty_of (x ∷ xs) h = absurd (ground arith)

-- Ten results that have all passed.
ten :
    (a b c d e f g h i j : RuleResult)
    → all (λ r. r.passed) (a ∷ b ∷ c ∷ d ∷ e ∷ f ∷ g ∷ h ∷ i ∷ j ∷ []) ≡ true
    → (a.passed ≡ true)
      × (b.passed ≡ true)
      × (c.passed ≡ true)
      × (d.passed ≡ true)
      × (e.passed ≡ true)
      × (f.passed ≡ true)
      × (g.passed ≡ true)
      × (h.passed ≡ true)
      × (i.passed ≡ true)
      × (j.passed ≡ true)
ten a b c d e f g h i j x = ground arith

module _ (i : BacklogIssue) (p : EligibilityPolicy) where
  state-passed : (state_rule i p).passed ≡ true → includes_text p.eligible_states i.state ≡ true
  state-passed h = ground arith

  terminal-passed : (terminal_rule i).passed ≡ true → (i.canceled ≡ false) × (i.completed ≡ false)
  terminal-passed h = ground arith

  lease-passed :
      (lease_rule i p).passed ≡ true → any (same_id i.identifier) p.leased_issue_ids ≡ false
  lease-passed h = ground arith

  label-passed :
      (label_rule i p).passed ≡ true → (missing_includes i p ≡ []) × (present_excludes i p ≡ [])
  label-passed h = (
    empty_of (missing_includes i p) (ground arith),
    empty_of (present_excludes i p) (ground arith),
  )

  size-passed : (size_rule i p).passed ≡ true → exceeds i.estimate p.max_estimate ≡ false
  size-passed h = ground arith

  dependency-passed : (dependency_rule i).passed ≡ true → i.blocked_by ≡ []
  dependency-passed h = empty_of i.blocked_by (ground arith)

  readiness-passed :
      (readiness_rule i p).passed ≡ true
      → (has_override i p ≡ true) ⊎ (min_chars p ≤ length (trim i.description))
  readiness-passed h = elim (Bool-cases (has_override i p)) [
    | inl over ↦ inl over
    | inr not_over ↦ elim (Bool-cases (ltb (length (trim i.description)) (min_chars p))) [
      | inl short ↦ absurd (ground arith)
      | inr long ↦ inr (ground arith)
    ]
  ]

  capacity-passed : (capacity_rule p).passed ≡ true → p.capacity_available ≡ true
  capacity-passed h = ground arith

decided :
    (rules : List RuleResult) (t : Option RepositoryTarget)
    → (decide rules t).eligible ≡ true
    → (all (λ r. r.passed) rules ≡ true) × ((decide rules t).target ≡ t)
decided rules t h = (ground arith, ground arith)

-- An issue that is found eligible meets every rule, and the decision carries its repository.
pub evaluate_eligibility-IsEligible :
    (i : BacklogIssue) (p : EligibilityPolicy)
    → (evaluate_eligibility i p).eligible ≡ true
    → (t : RepositoryTarget) × ((evaluate_eligibility i p).target ≡ some t) × IsEligible i p t
unfolding evaluate_eligibility all_rules
evaluate_eligibility-IsEligible i p h =
    let (passed, target) =
      decided (all_rules i p) (target_of (resolve_repository i p.repository_rules)) h in
    let (h1, h2, h3, h4, h5, h6, h7, h8, h9, h10) =
      ten (mapping_rule (resolve_repository i p.repository_rules)) (state_rule i p)
        (terminal_rule i) (assignment_rule i p) (lease_rule i p) (label_rule i p) (size_rule i p)
        (dependency_rule i) (readiness_rule i p) (capacity_rule p) passed in
    let (t, k, found) = mapping-passed (resolve_repository i p.repository_rules) h1 in
    (
      t,
      target ∙ rw found refl,
      record {
        mapped = (k, found);
        in_state = state-passed i p h2;
        live = terminal-passed i p h3;
        unleased = lease-passed i p h5;
        labelled = label-passed i p h6;
        small = size-passed i p h7;
        unblocked = dependency-passed i p h8;
        ready = readiness-passed i p h9;
        room = capacity-passed i p h10;
        assigned = assigned-passed i.assignee_id p h4;
      },
    )
