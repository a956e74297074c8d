-- ===== src/Examples/Reviews.antt =====
-- Reviews and the risk policy (src/review/schema.ts, src/orchestrator/risk-policy.ts).
use runmill.Base.{◌≡◌, ◌↔◌, refl, true, false, List, [], ◌∷◌, ◌++◌, none, some, String}
use runmill.Workspace.Texts.{Text, codes, includes}
use runmill.Review.RiskPath.{
  matches_risk_path, normalize_risk_path, valid_risk_path_rule, risk_path_expression, pieces, test,
}
use runmill.Review.RiskPath.Covered.{matches_risk_path-misses}
use runmill.Review.Verdict.{
  Review, approved, within_scope, cross_check_verdict, incomplete_criteria, no_findings,
  risk_without_findings,
}
use runmill.Review.Verdict.Withholds.{
  IsAcceptable, cross_check_verdict_iff, cross_check_verdict-withholds,
}
use runmill.Orchestrator.Risk.{
  RiskPolicy, Evidence, evaluate_automatic_merge_risk, allow, condition_result, is_lockfile,
  manual_approval, condition_matched, path_matches,
}
use runmill.Orchestrator.Risk.Allows.{IsMergeable, evaluate_automatic_merge_risk_iff}

below_directory : matches_risk_path (codes "./infra/db/main.tf") (codes "infra/") ≡ some true
unfolding matches_risk_path valid_risk_path_rule normalize_risk_path
below_directory = refl

any_depth : matches_risk_path (codes "a/b/secrets.env") (codes "**/*.env") ≡ some true
unfolding matches_risk_path valid_risk_path_rule normalize_risk_path risk_path_expression pieces
    test
any_depth = refl

other_dialect : matches_risk_path (codes "a") (codes "src/[ab]") ≡ none
unfolding matches_risk_path valid_risk_path_rule normalize_risk_path
other_dialect = refl

-- `src/a` and `b` on two lines.
abbrev broken_name : Text
broken_name = codes "src/a" ++ 10 ∷ codes "b"

broken_name_missed : matches_risk_path broken_name (codes "src/**") ≡ some false
unfolding matches_risk_path valid_risk_path_rule normalize_risk_path risk_path_expression pieces
    test
broken_name_missed = refl

broken_name-includes : includes 10 (normalize_risk_path broken_name) ≡ true
unfolding normalize_risk_path
broken_name-includes = refl

matches_risk_path-misses_example : matches_risk_path broken_name (codes "**") ≡ some false
matches_risk_path-misses_example = matches_risk_path-misses broken_name broken_name-includes

abbrev review : Review
review = record {
  verdict = approved;
  scope_assessment = within_scope;
  acceptance_criteria_met = record { criterion = "logs in"; met = true } ∷ [];
  findings = [];
}

abbrev changed : List Text
changed = codes "infra/main.tf" ∷ codes "src/a.ts" ∷ []

abbrev rules : List Text
rules = codes "infra/" ∷ []

abbrev criteria : List String
criteria = "logs in" ∷ []

accepted : cross_check_verdict review changed rules criteria ≡ none
unfolding cross_check_verdict matches_risk_path valid_risk_path_rule normalize_risk_path
accepted = refl

unproved :
    cross_check_verdict review changed rules ("logs out" ∷ [])
    ≡ some (incomplete_criteria ("logs out" ∷ []))
unfolding cross_check_verdict matches_risk_path valid_risk_path_rule normalize_risk_path
unproved = refl

silent_on_risk :
    cross_check_verdict (record review { verdict = no_findings }) changed rules criteria
    ≡ some risk_without_findings
unfolding cross_check_verdict matches_risk_path valid_risk_path_rule normalize_risk_path
silent_on_risk = refl

cross_check_verdict_iff_example :
    (cross_check_verdict review changed rules criteria ≡ none)
    ↔ IsAcceptable review changed rules criteria
cross_check_verdict_iff_example = cross_check_verdict_iff review changed rules criteria

cross_check_verdict-withholds_example : cross_check_verdict review [] [] criteria ≡ none
cross_check_verdict-withholds_example =
    cross_check_verdict-withholds review [] changed [] rules criteria criteria (λ p m. absurd m)
      (λ q m. absurd m) (λ c m. m) accepted

abbrev policy : RiskPolicy
policy = record {
  default_tier = "low";
  paths = codes "infra/" ∷ [];
  labels = codes "sensitive" ∷ [];
  conditions = "lockfile_changed" ∷ [];
}

abbrev evidence : Evidence
evidence = record {
  changed_paths = codes "infra/main.tf" ∷ codes "web/yarn.lock" ∷ [];
  issue_labels = codes " sensitive-no " ∷ [];
  acceptance_criteria = codes "logs in" ∷ [];
  check_manifest_path = codes "checks.yml";
}

needs_approval :
    evaluate_automatic_merge_risk (λ l. l) policy evidence
    ≡ manual_approval (
        path_matches (codes "infra/main.tf") (codes "infra/")
        ∷ condition_matched "lockfile_changed"
        ∷ [])
unfolding evaluate_automatic_merge_risk matches_risk_path valid_risk_path_rule normalize_risk_path
    condition_result is_lockfile
needs_approval = refl

evaluate_automatic_merge_risk_iff_example :
    (evaluate_automatic_merge_risk (λ l. l) policy evidence ≡ allow)
    ↔ IsMergeable (λ l. l) policy evidence
evaluate_automatic_merge_risk_iff_example =
    evaluate_automatic_merge_risk_iff (λ l. l) policy evidence
