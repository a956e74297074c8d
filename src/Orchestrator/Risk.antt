-- ===== src/Orchestrator/Risk.antt =====
-- `evaluateAutomaticMergeRisk` (src/orchestrator/risk-policy.ts). The sentences of the reasons are left
-- out. `toLowerCase` is a parameter: nothing here depends on the alphabet.
pub mod Labels
pub mod Conditions
pub mod Allows
use runmill.Workspace.Texts.{Text, codes, slash, text_eq, split}
use runmill.Workspace.Paths.{is_empty}
use runmill.Workspace.Pattern.{last}
use runmill.Review.RiskPath.{matches_risk_path, normalize_risk_path, trim}
use runmill.Review.Verdict.{is_match, is_unknown_rule}
use runmill.Base.{
  Bool, true, false, not, ◌&&◌, ◌||◌, List, [], ◌∷◌, ◌++◌, Option, none, some, String, str_eq, any,
  find, if◌then◌else◌,
}

-- `risk` of the configuration: the tier, and `manual_approval`.
pub record RiskPolicy : Type 0 where
  pub default_tier : String
  pub paths : List Text
  pub labels : List Text
  pub conditions : List String

-- AutomaticMergeRiskEvidence
pub record Evidence : Type 0 where
  pub changed_paths : List Text
  pub issue_labels : List Text
  pub acceptance_criteria : List Text
  pub check_manifest_path : Text

pub data Reason : Type 0 where
  unknown_tier not_low empty_label : Reason
  unsupported_rule : Text → Reason
  path_matches : Text → Text → Reason
  label_matches : Text → Reason
  condition_matched condition_unknown : String → Reason

pub data RiskDecision : Type 0 where
  allow : RiskDecision
  manual_approval unknown : List Reason → RiskDecision

abbrev pub one_of : List String → String → Bool
one_of names s = any (λ n. str_eq n s) names

abbrev pub risk_tiers : List String
risk_tiers = "low" ∷ "medium" ∷ "high" ∷ "critical" ∷ []

abbrev pub lockfiles : List Text
lockfiles =
    codes "Cargo.lock"
    ∷ codes "Gemfile.lock"
    ∷ codes "Package.resolved"
    ∷ codes "Pipfile.lock"
    ∷ codes "bun.lock"
    ∷ codes "bun.lockb"
    ∷ codes "composer.lock"
    ∷ codes "flake.lock"
    ∷ codes "go.sum"
    ∷ codes "npm-shrinkwrap.json"
    ∷ codes "package-lock.json"
    ∷ codes "pnpm-lock.yaml"
    ∷ codes "pnpm-lock.yml"
    ∷ codes "poetry.lock"
    ∷ codes "pubspec.lock"
    ∷ codes "uv.lock"
    ∷ codes "yarn.lock"
    ∷ []

-- What is found of one entry of the policy: nothing, a match, or that it cannot be told.
pub data Result : Type 0 where
  clear matched untold : Result

abbrev pub matched_if : Bool → Result
matched_if true = matched
matched_if false = clear

unfoldable pub is_lockfile : Text → Bool
is_lockfile path = any (text_eq (last (split (normalize_risk_path path)))) lockfiles

-- `conditionResult`
unfoldable pub condition_result : Evidence → String → Result
condition_result e condition =
    if str_eq condition "missing_acceptance_criteria"
    then matched_if (not (any (λ c. not (is_empty (trim c))) e.acceptance_criteria))
    else if str_eq condition "check_config_changed"
    then (if is_unknown_rule e.check_manifest_path
        then untold
        else matched_if
            (any (λ path. is_match (matches_risk_path path e.check_manifest_path)) e.changed_paths))
    else if str_eq condition "lockfile_changed"
    then matched_if (any is_lockfile e.changed_paths)
    else untold

abbrev pub matching_path : Text → List Text → Option Text
matching_path rule paths = find (λ path. is_match (matches_risk_path path rule)) paths

-- The reason that a rule adds, with the first path that it matches.
abbrev pub path_reasons : Evidence → Text → List Reason
path_reasons e rule =
    if is_unknown_rule rule
    then []
    else elim (matching_path rule e.changed_paths) [ none ↦ [] | some p ↦ path_matches p rule ∷ [] ]

abbrev pub tier_result : String → Result
tier_result tier =
    if not (one_of risk_tiers tier)
    then untold
    else if not (str_eq tier "low")
    then matched
    else clear

-- The reasons that one result adds to the reasons for an approval, and to the unknown ones.
abbrev pub manual_of : Reason → Result → List Reason
manual_of r matched = r ∷ []
manual_of r _ = []

abbrev pub unknown_of : Reason → Result → List Reason
unknown_of r untold = r ∷ []
unknown_of r _ = []

abbrev pub path_doubts : Text → List Reason
path_doubts rule = if is_unknown_rule rule then unsupported_rule rule ∷ [] else []

abbrev pub condition_reasons : Evidence → String → List Reason
condition_reasons e c = manual_of (condition_matched c) (condition_result e c)

abbrev pub condition_doubts : Evidence → String → List Reason
condition_doubts e c = unknown_of (condition_unknown c) (condition_result e c)

abbrev pub gather {ℓ} : {A : Type ℓ} → (A → List Reason) → List A → List Reason
gather f [] = []
gather f (x ∷ xs) = f x ++ gather f xs

module _ (to_lower_case : Text → Text) where
  abbrev pub label_of : Text → Text
  label_of l = to_lower_case (trim l)

  abbrev pub label_result : Evidence → Text → Result
  label_result e label =
      if is_empty (label_of label)
      then untold
      else matched_if (any (λ l. text_eq (label_of l) (label_of label)) e.issue_labels)

  abbrev pub label_reasons : Evidence → Text → List Reason
  label_reasons e l = manual_of (label_matches l) (label_result e l)

  abbrev pub label_doubts : Evidence → Text → List Reason
  label_doubts e l = unknown_of empty_label (label_result e l)

  abbrev pub manual_reasons : RiskPolicy → Evidence → List Reason
  manual_reasons risk e =
      manual_of not_low (tier_result risk.default_tier)
      ++ (gather (path_reasons e) risk.paths
          ++ (gather (label_reasons e) risk.labels ++ gather (condition_reasons e) risk.conditions))

  abbrev pub unknown_reasons : RiskPolicy → Evidence → List Reason
  unknown_reasons risk e =
      unknown_of unknown_tier (tier_result risk.default_tier)
      ++ (gather path_doubts risk.paths
          ++ (gather (label_doubts e) risk.labels ++ gather (condition_doubts e) risk.conditions))

  abbrev pub decided : List Reason → List Reason → RiskDecision
  decided [] [] = allow
  decided (u ∷ us) manual = unknown (u ∷ us)
  decided [] (m ∷ ms) = manual_approval (m ∷ ms)

  unfoldable pub evaluate_automatic_merge_risk : RiskPolicy → Evidence → RiskDecision
  evaluate_automatic_merge_risk risk e = decided (unknown_reasons risk e) (manual_reasons risk e)
