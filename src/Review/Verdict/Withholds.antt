-- ===== src/Review/Verdict/Withholds.antt =====
-- What an accepted verdict has passed, and that more to check never grants anything
-- (src/review/schema.ts).
use runmill.Workspace.Texts.{Text}
use runmill.Review.RiskPath.{matches_risk_path}
use runmill.Review.Verdict.{
  Review, ReviewVerdict, approved, changes_required, no_findings, ScopeAssessment, within_scope,
  out_of_scope, unclear, Finding, CriterionMet, is_changes_required, is_no_findings, is_within,
  has_findings, is_unknown_rule, is_match, evidence_of, is_proved, incomplete, criteria_gate,
  cross_check_verdict,
}
use runmill.Base.{
  ◌≡◌, ◌≢◌, ◌↔◌, refl, Bool, true, false, not, ◌&&◌, List, [], ◌∷◌, Option, none, some, String,
  Member, any, keep-nil, nil-keep, any-false, false-any, Option-cases, inl, inr, arith,
}
use runmill.Review.Verdict.Passes.{Passes, cross_check-Passes, Passes-cross_check}

-- An accepted verdict: its findings agree with it, the change is in scope, every rule is understood, a
-- verdict without findings is given only off the risk paths, and each criterion has one answer, a yes.
pub record IsAcceptable (r : Review) (changed_paths risk_paths : List Text) (criteria : List String)
    : Type 0 where
  pub no_findings_given : r.verdict ≡ no_findings → r.findings ≡ []
  pub findings_given : r.verdict ≡ changes_required → r.findings ≢ []
  pub in_scope : r.verdict ≢ changes_required → r.scope_assessment ≡ within_scope
  pub rules_known : (rule : Text) → Member rule risk_paths → matches_risk_path [] rule ≢ none
  pub off_risk :
      r.verdict ≡ no_findings
      → (path rule : Text) → Member path changed_paths
      → Member rule risk_paths
      → matches_risk_path path rule ≢ some true
  pub criteria_proved :
      r.verdict ≢ changes_required
      → (c : String) → Member c criteria
      → evidence_of c r.acceptance_criteria_met ≡ true ∷ []

pub is_unknown_rule_iff :
    (rule : Text) → (is_unknown_rule rule ≡ false) ↔ (matches_risk_path [] rule ≢ none)
is_unknown_rule_iff rule = elim (Option-cases (matches_risk_path [] rule)) [
  | inl unknown ↦ rw (unknown, is_unknown_rule) (λ h e. cc, λ h. absurd (h refl))
  | inr (b, known) ↦ rw (known, is_unknown_rule) (λ h e. cc, λ h. refl)
]

pub is_match_iff : (m : Option Bool) → (is_match m ≡ false) ↔ (m ≢ some true)
is_match_iff none = (λ h e. cc, λ h. refl)
is_match_iff (some true) = (λ h e. cc, λ h. absurd (h refl))
is_match_iff (some false) = (λ h e. cc, λ h. refl)

is_proved_iff : (bs : List Bool) → (is_proved bs ≡ true) ↔ (bs ≡ true ∷ [])
is_proved_iff [] = (λ h. cc, λ h. cc)
is_proved_iff (false ∷ bs) = (λ h. cc, λ h. cc)
is_proved_iff (true ∷ []) = (λ h. refl, λ h. refl)
is_proved_iff (true ∷ b ∷ bs) = (λ h. cc, λ h. cc)

is_no_findings_iff : (v : ReviewVerdict) → (is_no_findings v ≡ true) ↔ (v ≡ no_findings)
is_no_findings_iff approved = (λ h. cc, λ h. cc)
is_no_findings_iff changes_required = (λ h. cc, λ h. cc)
is_no_findings_iff no_findings = (λ h. refl, λ h. refl)

is_changes_required_iff :
    (v : ReviewVerdict) → (is_changes_required v ≡ true) ↔ (v ≡ changes_required)
is_changes_required_iff approved = (λ h. cc, λ h. cc)
is_changes_required_iff changes_required = (λ h. refl, λ h. refl)
is_changes_required_iff no_findings = (λ h. cc, λ h. cc)

is_within_iff : (s : ScopeAssessment) → (is_within s ≡ true) ↔ (s ≡ within_scope)
is_within_iff within_scope = (λ h. refl, λ h. refl)
is_within_iff out_of_scope = (λ h. cc, λ h. cc)
is_within_iff unclear = (λ h. cc, λ h. cc)

has_findings_iff : (fs : List Finding) → (has_findings fs ≡ false) ↔ (fs ≡ [])
has_findings_iff [] = (λ h. refl, λ h. refl)
has_findings_iff (f ∷ fs) = (λ h. cc, λ h. cc)

criteria_gate_iff :
    (v : ReviewVerdict) (cs : List String)
    → (criteria_gate v cs ≡ none) ↔ (v ≢ changes_required → cs ≡ [])
criteria_gate_iff v [] = (λ h n. refl, λ h. refl)
criteria_gate_iff approved (c ∷ cs) = (λ h n. cc, λ h. let e = h (λ k. cc) in cc)
criteria_gate_iff changes_required (c ∷ cs) = (λ h n. absurd (n refl), λ h. refl)
criteria_gate_iff no_findings (c ∷ cs) = (λ h n. cc, λ h. let e = h (λ k. cc) in cc)

not-false : (b : Bool) → not b ≡ false → b ≡ true
not-false true h = refl
not-false false h = cc

not-both : (b : Bool) → not b ≡ true → b ≢ true
not-both true h k = cc
not-both false h k = cc

not_required : (v : ReviewVerdict) → v ≢ changes_required → is_changes_required v ≡ false
not_required approved h = refl
not_required changes_required h = absurd (h refl)
not_required no_findings h = refl

given : (fs : List Finding) → fs ≢ [] → not (has_findings fs) ≡ false
given [] h = absurd (h refl)
given (f ∷ fs) h = refl

-- A test that fails under a condition.
and-false : (a b : Bool) → ((a && b) ≡ false) ↔ (a ≡ true → b ≡ false)
and-false true b = (λ h k. h, λ h. h refl)
and-false false b = (λ h k. cc, λ h. refl)

-- With positive evidence for each criterion none is incomplete, and the other way round.
incomplete_iff :
    (evidence : List CriterionMet) (criteria : List String)
    → (incomplete evidence criteria ≡ [])
      ↔ ((c : String) → Member c criteria → evidence_of c evidence ≡ true ∷ [])
incomplete_iff evidence criteria = (
  λ h c m.
      (is_proved_iff (evidence_of c evidence)).0
        (not-false _ (keep-nil (λ d. not (is_proved (evidence_of d evidence))) c criteria h m)),
  λ h.
      nil-keep (λ d. not (is_proved (evidence_of d evidence))) criteria
        (λ c m. rw ((is_proved_iff (evidence_of c evidence)).1 (h c m)) refl),
)

module _ (r : Review) (changed_paths risk_paths : List Text) (criteria : List String) where
  Passes-IsAcceptable :
      Passes r changed_paths risk_paths criteria → IsAcceptable r changed_paths risk_paths criteria
  Passes-IsAcceptable x = record {
    no_findings_given = λ e.
        (has_findings_iff r.findings).0
          ((and-false _ _).0 x.first ((is_no_findings_iff r.verdict).1 e));
    findings_given = λ e empty.
        let given = (and-false _ _).0 x.second ((is_changes_required_iff r.verdict).1 e) in
        let absent = (has_findings_iff r.findings).1 empty in ground arith;
    in_scope = λ other. (is_within_iff r.scope_assessment).0 (
        not-false _ (
          (and-false (not (is_changes_required r.verdict)) _).0 x.third
            (rw (not_required r.verdict other) refl)));
    rules_known =
        λ rule m. (is_unknown_rule_iff rule).0 (keep-nil is_unknown_rule rule risk_paths x.rules m);
    off_risk = λ e path rule in_paths in_rules.
        let safe = (and-false _ _).0 x.risk ((is_no_findings_iff r.verdict).1 e) in
        (is_match_iff (matches_risk_path path rule)).0 (
          false-any (λ q. is_match (matches_risk_path path q)) rule risk_paths
            (false-any (λ p. any (λ q. is_match (matches_risk_path p q)) risk_paths) path
              changed_paths safe in_paths)
            in_rules);
    criteria_proved = λ other c m.
        (incomplete_iff r.acceptance_criteria_met criteria).0
          ((criteria_gate_iff r.verdict _).0 x.criteria_met other) c m;
  }

  IsAcceptable-Passes :
      IsAcceptable r changed_paths risk_paths criteria → Passes r changed_paths risk_paths criteria
  IsAcceptable-Passes i = record {
    first = (and-false _ _).1 (λ e.
        (has_findings_iff r.findings).1 (i.no_findings_given ((is_no_findings_iff r.verdict).0 e)));
    second =
        (and-false _ _).1
          (λ e. given r.findings (i.findings_given ((is_changes_required_iff r.verdict).0 e)));
    third = (and-false _ _).1 (λ (e : not (is_changes_required r.verdict) ≡ true).
        rw
          ((is_within_iff r.scope_assessment).1 (
            i.in_scope
              (λ k. let bad = (is_changes_required_iff r.verdict).1 k in not-both _ e bad)))
          refl);
    rules =
        nil-keep is_unknown_rule risk_paths
          (λ rule m. (is_unknown_rule_iff rule).1 (i.rules_known rule m));
    risk = (and-false _ _).1 (λ e.
        any-false (λ p. any (λ q. is_match (matches_risk_path p q)) risk_paths) changed_paths
          (λ path in_paths.
            any-false (λ q. is_match (matches_risk_path path q)) risk_paths
              (λ rule in_rules.
                (is_match_iff (matches_risk_path path rule)).1
                  (i.off_risk ((is_no_findings_iff r.verdict).0 e) path rule in_paths in_rules))));
    criteria_met =
        (criteria_gate_iff r.verdict _).1 (λ other.
          (incomplete_iff r.acceptance_criteria_met criteria).1 (i.criteria_proved other));
  }

-- A verdict is accepted exactly when it is acceptable.
pub cross_check_verdict_iff :
    (r : Review) (changed_paths risk_paths : List Text) (criteria : List String)
    → (cross_check_verdict r changed_paths risk_paths criteria ≡ none)
      ↔ IsAcceptable r changed_paths risk_paths criteria
cross_check_verdict_iff r changed_paths risk_paths criteria = (
  λ h.
      Passes-IsAcceptable r changed_paths risk_paths criteria
        (cross_check-Passes r changed_paths risk_paths criteria h),
  λ i.
      Passes-cross_check r changed_paths risk_paths criteria
        (IsAcceptable-Passes r changed_paths risk_paths criteria i),
)

-- The checks only withhold: a verdict that is accepted with more changed paths, more risk rules and more
-- criteria is accepted with fewer.
pub cross_check_verdict-withholds :
    (r : Review) (changed_paths more_paths risk_paths more_rules : List Text)
    (criteria more_criteria : List String)
    → ((p : Text) → Member p changed_paths → Member p more_paths)
    → ((q : Text) → Member q risk_paths → Member q more_rules)
    → ((c : String) → Member c criteria → Member c more_criteria)
    → cross_check_verdict r more_paths more_rules more_criteria ≡ none
    → cross_check_verdict r changed_paths risk_paths criteria ≡ none
cross_check_verdict-withholds r changed_paths more_paths risk_paths more_rules criteria
      more_criteria paths rules wanted h =
    let i = (cross_check_verdict_iff r more_paths more_rules more_criteria).0 h in
    (cross_check_verdict_iff r changed_paths risk_paths criteria).1 (record {
      no_findings_given = i.no_findings_given;
      findings_given = i.findings_given;
      in_scope = i.in_scope;
      rules_known = λ rule m. i.rules_known rule (rules rule m);
      off_risk = λ e path rule m n. i.off_risk e path rule (paths path m) (rules rule n);
      criteria_proved = λ e c m. i.criteria_proved e c (wanted c m);
    })
