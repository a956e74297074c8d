-- ===== src/Orchestrator/Risk/Conditions.antt =====
-- The conditions that let a run merge by itself (src/orchestrator/risk-policy.ts).
use runmill.Workspace.Texts.{Text, codes, text_eq, split}
use runmill.Workspace.Paths.{is_empty}
use runmill.Workspace.Pattern.{last}
use runmill.Review.RiskPath.{matches_risk_path, normalize_risk_path, trim}
use runmill.Review.Verdict.{is_match, is_unknown_rule}
use runmill.Review.Verdict.Withholds.{is_unknown_rule_iff, is_match_iff}
use runmill.Orchestrator.Risk.{Evidence, clear, untold, is_lockfile, condition_result}
use runmill.Orchestrator.Risk.Labels.{matched_if-clear, not_empty_iff, unlike_iff}
use runmill.Base.{
  ◌≡◌, ◌≢◌, ◌↔◌, ◌⊎◌, refl, Bool, true, false, not, List, [], ◌∷◌, none, some, String, str_eq,
  str_eq_iff, any, Member, any-Member, Member-any, any-false, false-any, Bool-cases, inl, inr,
}

-- The file names of dependency locks.
abbrev pub lockfile_names : List Text
lockfile_names =
    codes "Cargo.lock"
    ∷ codes "Gemfile.lock"
    ∷ codes "Package.resolved"
    ∷ codes "Pipfile.lock"
    ∷ codes "bun.lock"
    ∷ codes "bun.lockb"
    ∷ codes "composer.lock"
    ∷ codes "flake.lock"
    ∷ codes "go.sum"
    ∷ codes "npm-shrinkwrap.json"
    ∷ codes "package-lock.json"
    ∷ codes "pnpm-lock.yaml"
    ∷ codes "pnpm-lock.yml"
    ∷ codes "poetry.lock"
    ∷ codes "pubspec.lock"
    ∷ codes "uv.lock"
    ∷ codes "yarn.lock"
    ∷ []

-- A criterion that is not blank is given.
pub record HasCriterion (e : Evidence) (condition : String) : Type 0 where
  pub condition_eq : condition ≡ "missing_acceptance_criteria"
  pub criterion : Text
  pub given : Member criterion e.acceptance_criteria
  pub not_blank : trim criterion ≢ []

-- The manifest's path is a rule that is understood, and it matches no changed path.
pub record KeepsManifest (e : Evidence) (condition : String) : Type 0 where
  pub condition_eq : condition ≡ "check_config_changed"
  pub understood : matches_risk_path [] e.check_manifest_path ≢ none
  pub unchanged :
      (path : Text)
      → Member path e.changed_paths
      → matches_risk_path path e.check_manifest_path ≢ some true

-- No changed path ends in the name of a dependency lock.
pub record KeepsLockfiles (e : Evidence) (condition : String) : Type 0 where
  pub condition_eq : condition ≡ "lockfile_changed"
  pub unchanged :
      (path name : Text)
      → Member path e.changed_paths
      → Member name lockfile_names
      → last (split (normalize_risk_path path)) ≢ name

-- The condition is a known one, and it does not hold.
abbrev pub IsSettled : Evidence → String → Type 0
IsSettled e condition =
    HasCriterion e condition ⊎ (KeepsManifest e condition ⊎ KeepsLockfiles e condition)

not-true : (b : Bool) → (not b ≡ true) ↔ (b ≡ false)
not-true true = (λ h. cc, λ h. cc)
not-true false = (λ h. refl, λ h. refl)

not-false : (b : Bool) → (not b ≡ false) ↔ (b ≡ true)
not-false true = (λ h. refl, λ h. refl)
not-false false = (λ h. cc, λ h. cc)

HasCriterion-iff :
    (e : Evidence)
    → (any (λ c. not (is_empty (trim c))) e.acceptance_criteria ≡ true)
      ↔ HasCriterion e "missing_acceptance_criteria"
HasCriterion-iff e =
    let p = λ (c : Text). not (is_empty (trim c)) in
    (
      λ h.
          let (c, m, t) = any-Member p e.acceptance_criteria h in
          record {
            condition_eq = refl;
            criterion = c;
            given = m;
            not_blank = (not_empty_iff (trim c)).0 ((not-true (is_empty (trim c))).0 t);
          },
      λ k. Member-any p k.criterion e.acceptance_criteria k.given (
          (not-true (is_empty (trim k.criterion))).1
            ((not_empty_iff (trim k.criterion)).1 k.not_blank)),
    )

criteria-clear :
    (e : Evidence)
    → (condition_result e "missing_acceptance_criteria" ≡ clear)
      ↔ HasCriterion e "missing_acceptance_criteria"
unfolding condition_result
criteria-clear e =
    let some_given = any (λ c. not (is_empty (trim c))) e.acceptance_criteria in
    let (to, from) = HasCriterion-iff e in
    (
      λ h. to ((not-false some_given).0 ((matched_if-clear (not some_given)).0 h)),
      λ k. (matched_if-clear (not some_given)).1 ((not-false some_given).1 (from k)),
    )

manifest-clear :
    (e : Evidence)
    → (condition_result e "check_config_changed" ≡ clear) ↔ KeepsManifest e "check_config_changed"
unfolding condition_result
manifest-clear e =
    let rule = e.check_manifest_path in
    let p = λ (path : Text). is_match (matches_risk_path path rule) in
    let has_none = matched_if-clear (any p e.changed_paths) in
    elim (Bool-cases (is_unknown_rule rule)) [
      | inl unknown ↦ rw unknown (
        λ h. absurd (cc h),
        λ k. absurd (cc ((is_unknown_rule_iff rule).1 k.understood, unknown)),
      )
      | inr known ↦ rw known (
        λ h. record {
          condition_eq = refl;
          understood = (is_unknown_rule_iff rule).0 known;
          unchanged = λ path m.
              (is_match_iff (matches_risk_path path rule)).0
                (false-any p path e.changed_paths (has_none.0 h) m);
        },
        λ k. has_none.1 (
            any-false p e.changed_paths
              (λ path m. (is_match_iff (matches_risk_path path rule)).1 (k.unchanged path m))),
      )
    ]

not_lockfile_iff :
    (path : Text)
    → (is_lockfile path ≡ false) ↔ (
        (name : Text) → Member name lockfile_names → last (split (normalize_risk_path path)) ≢ name)
unfolding is_lockfile
not_lockfile_iff path =
    let file = last (split (normalize_risk_path path)) in
    (
      λ h name m. (unlike_iff file name).0 (false-any (text_eq file) name lockfile_names h m),
      λ k. any-false (text_eq file) lockfile_names (λ name m. (unlike_iff file name).1 (k name m)),
    )

lockfiles-clear :
    (e : Evidence)
    → (condition_result e "lockfile_changed" ≡ clear) ↔ KeepsLockfiles e "lockfile_changed"
unfolding condition_result
lockfiles-clear e =
    let has_none = matched_if-clear (any is_lockfile e.changed_paths) in
    (
      λ h. record {
        condition_eq = refl;
        unchanged = λ path name m n.
            (not_lockfile_iff path).0 (false-any is_lockfile path e.changed_paths (has_none.0 h) m)
              name n;
      },
      λ k. has_none.1 (
          any-false is_lockfile e.changed_paths
            (λ path m. (not_lockfile_iff path).1 (λ name n. k.unchanged path name m n))),
    )

unknown_condition :
    (e : Evidence) (c : String)
    → str_eq c "missing_acceptance_criteria" ≡ false
    → str_eq c "check_config_changed" ≡ false
    → str_eq c "lockfile_changed" ≡ false
    → condition_result e c ≡ untold
unfolding condition_result
unknown_condition e c a b d = rw (a, b, d) refl

clear-IsSettled : (e : Evidence) (c : String) → condition_result e c ≡ clear → IsSettled e c
clear-IsSettled e c h = elim (Bool-cases (str_eq c "missing_acceptance_criteria")) [
  | inl first ↦
      let same = (str_eq_iff c "missing_acceptance_criteria").0 first in
      rw same (inl ((criteria-clear e).0 (rw same at h)))
  | inr a ↦ elim (Bool-cases (str_eq c "check_config_changed")) [
    | inl second ↦
        let same = (str_eq_iff c "check_config_changed").0 second in
        rw same (inr (inl ((manifest-clear e).0 (rw same at h))))
    | inr b ↦ elim (Bool-cases (str_eq c "lockfile_changed")) [
      | inl third ↦
          let same = (str_eq_iff c "lockfile_changed").0 third in
          rw same (inr (inr ((lockfiles-clear e).0 (rw same at h))))
      | inr d ↦ absurd (cc (unknown_condition e c a b d, h))
    ]
  ]
]

IsSettled-clear : (e : Evidence) (c : String) → IsSettled e c → condition_result e c ≡ clear
IsSettled-clear e c (inl k) = rw k.condition_eq (
    (criteria-clear e).1 (record {
      condition_eq = refl;
      criterion = k.criterion;
      given = k.given;
      not_blank = k.not_blank;
    }))
IsSettled-clear e c (inr (inl k)) = rw k.condition_eq (
    (manifest-clear e).1
      (record { condition_eq = refl; understood = k.understood; unchanged = k.unchanged }))
IsSettled-clear e c (inr (inr k)) =
    rw k.condition_eq
      ((lockfiles-clear e).1 (record { condition_eq = refl; unchanged = k.unchanged }))

pub condition_result_iff :
    (e : Evidence) (c : String) → (condition_result e c ≡ clear) ↔ IsSettled e c
condition_result_iff e c = (clear-IsSettled e c, IsSettled-clear e c)
