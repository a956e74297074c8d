-- ===== src/Review/Verdict.antt =====
-- `blockingFindings` and `crossCheckVerdict` (src/review/schema.ts). The output of a reviewer is taken
-- parsed, and of a finding its identifier and severity are kept, which is what this code reads.
pub mod Passes
pub mod Withholds
use runmill.Workspace.Texts.{Text}
use runmill.Review.RiskPath.{matches_risk_path}
use runmill.Base.{
  ℕ, Bool, true, false, not, ◌&&◌, ◌||◌, List, [], ◌∷◌, ◌++◌, Option, none, some, String, str_eq,
  any, keep, length, if◌then◌else◌,
}

pub data Severity : Type 0 where
  critical high medium low : Severity

pub record Finding : Type 0 where
  pub id : String
  pub severity : Severity

pub data ReviewVerdict : Type 0 where
  approved changes_required no_findings : ReviewVerdict

pub data ScopeAssessment : Type 0 where
  within_scope out_of_scope unclear : ScopeAssessment

pub record CriterionMet : Type 0 where
  pub criterion : String
  pub met : Bool

pub record Review : Type 0 where
  pub verdict : ReviewVerdict
  pub scope_assessment : ScopeAssessment
  pub acceptance_criteria_met : List CriterionMet
  pub findings : List Finding

abbrev pub severity_name : Severity → String
severity_name critical = "critical"
severity_name high = "high"
severity_name medium = "medium"
severity_name low = "low"

abbrev pub is_changes_required : ReviewVerdict → Bool
is_changes_required changes_required = true
is_changes_required _ = false

abbrev pub is_no_findings : ReviewVerdict → Bool
is_no_findings no_findings = true
is_no_findings _ = false

abbrev pub is_within : ScopeAssessment → Bool
is_within within_scope = true
is_within _ = false

unfoldable pub blocking_findings : Review → List String → Bool → List Finding
blocking_findings r blocking_severities require_all_findings_resolved =
    if require_all_findings_resolved || is_changes_required r.verdict
    then r.findings
    else keep (λ f. any (str_eq (severity_name f.severity)) blocking_severities) r.findings

-- The reasons for which a verdict is not accepted.
pub data Withheld : Type 0 where
  findings_with_no_findings no_actionable_finding approved_out_of_scope scope_unclear : Withheld
  unknown_rule : Text → Withheld
  risk_without_findings : Withheld
  incomplete_criteria : List String → Withheld

abbrev pub has_findings : List Finding → Bool
has_findings [] = false
has_findings (f ∷ fs) = true

abbrev pub is_unknown_rule : Text → Bool
is_unknown_rule rule = elim (matches_risk_path [] rule) [ none ↦ true | some b ↦ false ]

abbrev pub is_match : Option Bool → Bool
is_match none = false
is_match (some b) = b

-- `changedPaths.some((path) => riskPaths.some((rule) => matchesRiskPath(path, rule) === true))`
abbrev pub touches_risk : List Text → List Text → Bool
touches_risk changed_paths risk_paths =
    any (λ path. any (λ rule. is_match (matches_risk_path path rule)) risk_paths) changed_paths

-- `evidenceByCriterion.get(criterion)`: what the reviewer says of a criterion, in order.
abbrev pub evidence_of : String → List CriterionMet → List Bool
evidence_of c [] = []
evidence_of c (e ∷ es) =
    let rest = evidence_of c es in if str_eq e.criterion c then e.met ∷ rest else rest

-- One answer, and a positive one.
abbrev pub is_proved : List Bool → Bool
is_proved (true ∷ []) = true
is_proved _ = false

abbrev pub incomplete : List CriterionMet → List String → List String
incomplete evidence criteria = keep (λ c. not (is_proved (evidence_of c evidence))) criteria

abbrev pub unknown_rules : List Text → List Text
unknown_rules rules = keep is_unknown_rule rules

abbrev pub scope_reason : ScopeAssessment → Withheld
scope_reason out_of_scope = approved_out_of_scope
scope_reason _ = scope_unclear

-- The gate on the acceptance criteria.
abbrev pub criteria_gate : ReviewVerdict → List String → Option Withheld
criteria_gate v [] = none
criteria_gate changes_required (c ∷ cs) = none
criteria_gate _ (c ∷ cs) = some (incomplete_criteria (c ∷ cs))

-- The gates on the paths, from the first rule that is not understood on.
abbrev pub risk_gate :
    Review → List Text → List Text → List Text → Option Withheld → Option Withheld
risk_gate r (rule ∷ more) changed_paths risk_paths later = some (unknown_rule rule)
risk_gate r [] changed_paths risk_paths later =
    if is_no_findings r.verdict && touches_risk changed_paths risk_paths
    then some risk_without_findings
    else later

-- `none` is an accepted verdict.
unfoldable pub cross_check_verdict : Review → List Text → List Text → List String → Option Withheld
cross_check_verdict r changed_paths risk_paths acceptance_criteria =
    if is_no_findings r.verdict && has_findings r.findings
    then some findings_with_no_findings
    else if is_changes_required r.verdict && not (has_findings r.findings)
    then some no_actionable_finding
    else if not (is_changes_required r.verdict) && not (is_within r.scope_assessment)
    then some (scope_reason r.scope_assessment)
    else risk_gate r (unknown_rules risk_paths) changed_paths risk_paths
        (criteria_gate r.verdict (incomplete r.acceptance_criteria_met acceptance_criteria))
