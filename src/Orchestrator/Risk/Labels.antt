-- ===== src/Orchestrator/Risk/Labels.antt =====
-- The labels that let a run merge by itself (src/orchestrator/risk-policy.ts).
use runmill.Workspace.Texts.{Text, text_eq, text_eq_iff}
use runmill.Workspace.Paths.{is_empty}
use runmill.Review.RiskPath.{trim}
use runmill.Orchestrator.Risk.{Evidence, clear, matched_if, label_result}
use runmill.Base.{
  ◌≡◌, ◌≢◌, ◌↔◌, refl, Bool, true, false, [], ◌∷◌, any, Member, any-false, false-any, Bool-cases,
  inl, inr,
}

-- The label of the policy has a name, which no label of the issue has.
pub record IsAbsent (to_lower_case : Text → Text) (e : Evidence) (label : Text) : Type 0 where
  pub named : to_lower_case (trim label) ≢ []
  pub unlike :
      (l : Text) → Member l e.issue_labels → to_lower_case (trim l) ≢ to_lower_case (trim label)

pub matched_if-clear : (b : Bool) → (matched_if b ≡ clear) ↔ (b ≡ false)
matched_if-clear true = (λ h. cc, λ h. cc)
matched_if-clear false = (λ h. refl, λ h. refl)

pub not_empty_iff : (t : Text) → (is_empty t ≡ false) ↔ (t ≢ [])
not_empty_iff [] = (λ h e. cc, λ h. absurd (h refl))
not_empty_iff (c ∷ t) = (λ h e. cc, λ h. refl)

pub unlike_iff : (a b : Text) → (text_eq a b ≡ false) ↔ (a ≢ b)
unlike_iff a b = elim (Bool-cases (text_eq a b)) [
  | inl same ↦ (λ h. absurd (cc (same, h)), λ h. absurd (h ((text_eq_iff a b).0 same)))
  | inr other ↦ (λ h e. absurd (cc ((text_eq_iff a b).1 e, other)), λ h. other)
]

pub label_result_iff :
    (to_lower_case : Text → Text) (e : Evidence) (l : Text)
    → (label_result to_lower_case e l ≡ clear) ↔ IsAbsent to_lower_case e l
label_result_iff f e l =
    let same = λ (x : Text). text_eq (f (trim x)) (f (trim l)) in
    let has_none = matched_if-clear (any same e.issue_labels) in
    elim (Bool-cases (is_empty (f (trim l)))) [
      | inl blank ↦
          rw blank
            (λ h. absurd (cc h), λ k. absurd (cc ((not_empty_iff (f (trim l))).1 k.named, blank)))
      | inr named ↦ rw named (
        λ h. record {
          named = (not_empty_iff (f (trim l))).0 named;
          unlike = λ x m.
              (unlike_iff (f (trim x)) (f (trim l))).0
                (false-any same x e.issue_labels (has_none.0 h) m);
        },
        λ k. has_none.1 (
            any-false same e.issue_labels
              (λ x m. (unlike_iff (f (trim x)) (f (trim l))).1 (k.unlike x m))),
      )
    ]
