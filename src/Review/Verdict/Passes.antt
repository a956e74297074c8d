-- ===== src/Review/Verdict/Passes.antt =====
-- The checks of `crossCheckVerdict` as tests, in the order of the code (src/review/schema.ts).
use runmill.Workspace.Texts.{Text}
use runmill.Review.Verdict.{
  Review, Withheld, is_changes_required, is_no_findings, is_within, has_findings, touches_risk,
  incomplete, unknown_rules, criteria_gate, risk_gate, cross_check_verdict,
}
use runmill.Base.{
  ◌≡◌, refl, false, not, ◌&&◌, List, [], ◌∷◌, Option, none, String, Bool-cases, inl, inr,
}

-- The checks as tests, in the order of the code.
pub record Passes (r : Review) (changed_paths risk_paths : List Text) (criteria : List String)
    : Type 0 where
  pub first : (is_no_findings r.verdict && has_findings r.findings) ≡ false
  pub second : (is_changes_required r.verdict && not (has_findings r.findings)) ≡ false
  pub third : (not (is_changes_required r.verdict) && not (is_within r.scope_assessment)) ≡ false
  pub rules : unknown_rules risk_paths ≡ []
  pub risk : (is_no_findings r.verdict && touches_risk changed_paths risk_paths) ≡ false
  pub criteria_met : criteria_gate r.verdict (incomplete r.acceptance_criteria_met criteria) ≡ none

risk_gate-none :
    (r : Review) (unknown changed_paths risk_paths : List Text) (later : Option Withheld)
    → risk_gate r unknown changed_paths risk_paths later ≡ none
    → (unknown ≡ [])
      × ((is_no_findings r.verdict && touches_risk changed_paths risk_paths) ≡ false)
      × (later ≡ none)
risk_gate-none r (rule ∷ more) changed_paths risk_paths later h = cc
risk_gate-none r [] changed_paths risk_paths later h =
    elim (Bool-cases (is_no_findings r.verdict && touches_risk changed_paths risk_paths)) [
      | inl risky ↦ absurd (cc (rw risky at h))
      | inr safe ↦ (refl, safe, rw safe at h)
    ]

module _ (r : Review) (changed_paths risk_paths : List Text) (criteria : List String) where
  pub cross_check-Passes :
      cross_check_verdict r changed_paths risk_paths criteria ≡ none
      → Passes r changed_paths risk_paths criteria
  unfolding cross_check_verdict
  cross_check-Passes h = elim (Bool-cases (is_no_findings r.verdict && has_findings r.findings)) [
    | inl bad ↦ absurd (cc (rw bad at h))
    | inr first ↦
        elim (Bool-cases (is_changes_required r.verdict && not (has_findings r.findings))) [
          | inl bad ↦ absurd (cc (rw (first, bad) at h))
          | inr second ↦
              elim (Bool-cases
                (not (is_changes_required r.verdict) && not (is_within r.scope_assessment))) [
                  | inl bad ↦ absurd (cc (rw (first, second, bad) at h))
                  | inr third ↦
                      let (rules, risk, met) =
                        risk_gate-none r (unknown_rules risk_paths) changed_paths risk_paths _
                          (rw (first, second, third) at h) in
                      record {
                        first = first;
                        second = second;
                        third = third;
                        rules = rules;
                        risk = risk;
                        criteria_met = met;
                      }
                ]
        ]
  ]

  pub Passes-cross_check :
      Passes r changed_paths risk_paths criteria
      → cross_check_verdict r changed_paths risk_paths criteria ≡ none
  unfolding cross_check_verdict
  Passes-cross_check x = rw (x.first, x.second, x.third, x.rules, risk_gate, x.risk) x.criteria_met
