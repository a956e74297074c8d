-- ===== src/Orchestrator/Risk/Allows.antt =====
-- When the risk policy lets a run merge by itself (src/orchestrator/risk-policy.ts).
use runmill.Workspace.Texts.{Text}
use runmill.Review.RiskPath.{matches_risk_path}
use runmill.Review.Verdict.{is_match, is_unknown_rule}
use runmill.Review.Verdict.Withholds.{is_unknown_rule_iff, is_match_iff}
use runmill.Orchestrator.Risk.Labels.{IsAbsent, label_result_iff}
use runmill.Orchestrator.Risk.Conditions.{IsSettled, condition_result_iff}
use runmill.Orchestrator.Risk.{
  RiskPolicy, Evidence, Reason, not_low, unknown_tier, empty_label, label_matches,
  condition_matched, condition_unknown, allow, Result, clear, matched, untold, one_of, risk_tiers,
  condition_result, matching_path, path_reasons, tier_result, manual_of, unknown_of, gather,
  label_result, manual_reasons, unknown_reasons, path_doubts, label_reasons, label_doubts,
  condition_reasons, condition_doubts, decided, evaluate_automatic_merge_risk,
}
use runmill.Base.{
  ◌≡◌, ◌≢◌, ◌↔◌, refl, true, false, List, [], ◌∷◌, ◌++◌, none, some, String, str_eq, str_eq_iff,
  Member, find-none, find-none_made, Bool-cases, Option-cases, inl, inr,
}

-- The default tier is low, every rule is understood and matches no changed path, no label of the policy is
-- blank or, in lower case and trimmed, on the issue, and every condition is a known one that does not
-- hold: an acceptance criterion that is not blank is given, the manifest's path is understood and matches
-- no changed path, no changed path ends in the name of a dependency lock.
pub record IsMergeable (to_lower_case : Text → Text) (risk : RiskPolicy) (e : Evidence)
    : Type 0 where
  pub tier : risk.default_tier ≡ "low"
  pub rules_known : (rule : Text) → Member rule risk.paths → matches_risk_path [] rule ≢ none
  pub off_risk :
      (rule path : Text)
      → Member rule risk.paths
      → Member path e.changed_paths
      → matches_risk_path path rule ≢ some true
  pub labels_absent : (l : Text) → Member l risk.labels → IsAbsent to_lower_case e l
  pub settled : (c : String) → Member c risk.conditions → IsSettled e c

append-nil_parts : {A : Type 0} (xs ys : List A) → xs ++ ys ≡ [] → (xs ≡ []) × (ys ≡ [])
append-nil_parts [] ys h = (refl, h)
append-nil_parts (x ∷ xs) ys h = cc

module _ {A : Type 0} (f : A → List Reason) where
  gather-nil : (a : A) (xs : List A) → gather f xs ≡ [] → Member a xs → f a ≡ []
  gather-nil a [] h m = absurd m
  gather-nil a (x ∷ xs) h (inl same) = rw same (append-nil_parts (f x) (gather f xs) h).0
  gather-nil a (x ∷ xs) h (inr later) =
      gather-nil a xs (append-nil_parts (f x) (gather f xs) h).1 later

  nil-gather : (xs : List A) → ((a : A) → Member a xs → f a ≡ []) → gather f xs ≡ []
  nil-gather [] h = refl
  nil-gather (x ∷ xs) h = rw (h x (inl refl)) (nil-gather xs (λ a m. h a (inr m)))

-- A result that adds no reason of either kind is clear.
no_reasons : (r q : Reason) (x : Result) → manual_of r x ≡ [] → unknown_of q x ≡ [] → x ≡ clear
no_reasons r q clear h k = refl
no_reasons r q matched h k = cc
no_reasons r q untold h k = cc

decided-allow :
    (to_lower_case : Text → Text) (us ms : List Reason)
    → decided to_lower_case us ms ≡ allow
    → (us ≡ []) × (ms ≡ [])
decided-allow l [] [] h = (refl, refl)
decided-allow l (u ∷ us) ms h = cc
decided-allow l [] (m ∷ ms) h = cc

tier_result-clear : (t : String) → tier_result t ≡ clear → t ≡ "low"
tier_result-clear t h = elim (Bool-cases (one_of risk_tiers t)) [
  | inr other ↦ absurd (cc (rw (other, tier_result) at h))
  | inl known ↦ elim (Bool-cases (str_eq t "low")) [
    | inl low ↦ (str_eq_iff t "low").0 low
    | inr high ↦ absurd (cc (rw (known, high, tier_result) at h))
  ]
]

four_parts :
    {A : Type 0} (a b c d : List A)
    → a ++ (b ++ (c ++ d)) ≡ []
    → (a ≡ []) × (b ≡ []) × (c ≡ []) × (d ≡ [])
four_parts a b c d h =
    let (first, more) = append-nil_parts a (b ++ (c ++ d)) h in
    let (second, rest) = append-nil_parts b (c ++ d) more in
    let (third, fourth) = append-nil_parts c d rest in (first, second, third, fourth)

known_rule : (rule : Text) → path_doubts rule ≡ [] → is_unknown_rule rule ≡ false
known_rule rule h = elim (Bool-cases (is_unknown_rule rule)) [
  | inl unknown ↦ absurd (cc (rw (unknown, path_doubts) at h))
  | inr known ↦ known
]

no_matching_path :
    (e : Evidence) (rule path : Text)
    → is_unknown_rule rule ≡ false
    → path_reasons e rule ≡ []
    → Member path e.changed_paths
    → is_match (matches_risk_path path rule) ≡ false
no_matching_path e rule path known h m = elim (Option-cases (matching_path rule e.changed_paths)) [
  | inl none_of ↦
      find-none (λ p. is_match (matches_risk_path p rule)) path e.changed_paths none_of m
  | inr (p, found) ↦ absurd (cc (rw (known, found, path_reasons) at h))
]

off_path :
    (e : Evidence) (rule : Text)
    → is_unknown_rule rule ≡ false
    → ((p : Text) → Member p e.changed_paths → is_match (matches_risk_path p rule) ≡ false)
    → path_reasons e rule ≡ []
off_path e rule known off =
    rw
      (
        known,
        find-none_made (λ p. is_match (matches_risk_path p rule)) e.changed_paths off,
        path_reasons,
      )
      refl

module _ (to_lower_case : Text → Text) (risk : RiskPolicy) (e : Evidence) where
  allow-IsMergeable :
      evaluate_automatic_merge_risk to_lower_case risk e ≡ allow → IsMergeable to_lower_case risk e
  unfolding evaluate_automatic_merge_risk
  allow-IsMergeable h =
      let (us, ms) =
        decided-allow to_lower_case (unknown_reasons to_lower_case risk e)
          (manual_reasons to_lower_case risk e) h in
      let (u0, u1, u2, u3) =
        four_parts (unknown_of unknown_tier (tier_result risk.default_tier))
          (gather path_doubts risk.paths) (gather (label_doubts to_lower_case e) risk.labels)
          (gather (condition_doubts e) risk.conditions) us in
      let (m0, m1, m2, m3) =
        four_parts (manual_of not_low (tier_result risk.default_tier))
          (gather (path_reasons e) risk.paths) (gather (label_reasons to_lower_case e) risk.labels)
          (gather (condition_reasons e) risk.conditions) ms in
      let known = λ (rule : Text) (m : Member rule risk.paths).
        known_rule rule (gather-nil path_doubts rule risk.paths u1 m) in
      record {
        tier =
            tier_result-clear risk.default_tier
              (no_reasons not_low unknown_tier (tier_result risk.default_tier) m0 u0);
        rules_known = λ rule m. (is_unknown_rule_iff rule).0 (known rule m);
        off_risk = λ rule path m n. (is_match_iff (matches_risk_path path rule)).0 (
            no_matching_path e rule path (known rule m)
              (gather-nil (path_reasons e) rule risk.paths m1 m) n);
        labels_absent = λ l m. (label_result_iff to_lower_case e l).0 (
            no_reasons (label_matches l) empty_label (label_result to_lower_case e l)
              (gather-nil (label_reasons to_lower_case e) l risk.labels m2 m)
              (gather-nil (label_doubts to_lower_case e) l risk.labels u2 m));
        settled = λ c m. (condition_result_iff e c).0 (
            no_reasons (condition_matched c) (condition_unknown c) (condition_result e c)
              (gather-nil (condition_reasons e) c risk.conditions m3 m)
              (gather-nil (condition_doubts e) c risk.conditions u3 m));
      }

  IsMergeable-allow :
      IsMergeable to_lower_case risk e → evaluate_automatic_merge_risk to_lower_case risk e ≡ allow
  unfolding evaluate_automatic_merge_risk
  IsMergeable-allow i =
      let known = λ (rule : Text) (m : Member rule risk.paths).
        (is_unknown_rule_iff rule).1 (i.rules_known rule m) in
      let u1 = nil-gather path_doubts risk.paths (λ rule m. rw (known rule m, path_doubts) refl) in
      let m1 = nil-gather (path_reasons e) risk.paths (λ rule m.
        off_path e rule (known rule m)
          (λ p n. (is_match_iff (matches_risk_path p rule)).1 (i.off_risk rule p m n))) in
      let absent = λ (l : Text) (m : Member l risk.labels).
        (label_result_iff to_lower_case e l).1 (i.labels_absent l m) in
      let settled = λ (c : String) (m : Member c risk.conditions).
        (condition_result_iff e c).1 (i.settled c m) in
      let u2 =
        nil-gather (label_doubts to_lower_case e) risk.labels
          (λ l m. rw (absent l m, unknown_of) refl) in
      let m2 =
        nil-gather (label_reasons to_lower_case e) risk.labels
          (λ l m. rw (absent l m, manual_of) refl) in
      let u3 =
        nil-gather (condition_doubts e) risk.conditions
          (λ c m. rw (settled c m, unknown_of) refl) in
      let m3 =
        nil-gather (condition_reasons e) risk.conditions
          (λ c m. rw (settled c m, manual_of) refl) in
      rw (i.tier, u1, u2, u3, m1, m2, m3) refl

-- Whatever lower case is, a run may merge by itself exactly when the default tier is low, every rule is
-- understood and matches no changed path, no label of the policy is blank or, trimmed and in lower case,
-- carried by the issue, and each condition is one of three that does not hold: a criterion that is not
-- blank is given, the manifest's path is understood and unchanged, no changed path ends in the name of a
-- dependency lock.
pub evaluate_automatic_merge_risk_iff :
    (to_lower_case : Text → Text) (risk : RiskPolicy) (e : Evidence)
    → (evaluate_automatic_merge_risk to_lower_case risk e ≡ allow)
      ↔ IsMergeable to_lower_case risk e
evaluate_automatic_merge_risk_iff to_lower_case risk e =
    (allow-IsMergeable to_lower_case risk e, IsMergeable-allow to_lower_case risk e)
