-- ===== src/Workspace/Diff/Accepts.antt =====
-- Which diffs the policy accepts (src/workspace/path-scope.ts).
use mathlib.Core.Path.{subst}
use runmill.Workspace.Texts.{Text, codes, split}
use runmill.Workspace.Paths.{normalize_repository_path}
use runmill.Workspace.Pattern.{CompiledPattern}
use runmill.Workspace.Pattern.Decides.{
  MatchesPath, matches, IsUsable, matches_iff, path_matches_pattern-matches,
}
use runmill.Workspace.Diff.{
  ChangeScope, Violation, Evaluation, compile_policy, first_match, some_match, violation_of,
  violations_of, outside_allowed_paths, forbidden_path, invalid_path, invalid_pattern, push,
  no_violation, evaluate_changed_path_scope,
}
use runmill.Workspace.Diff.Policy.{normalize_self, compile_policy-IsUsable}
use runmill.Base.{
  ◌≡◌, ◌↔◌, refl, sym, ◌∙◌, Bool, true, false, List, [], ◌∷◌, Option, none, some, returned, ◌>>=◌,
  Outcome-cases, returned-inj, Option-cases, Bool-cases, inl, inr, Member, All, All-Member, any,
  find, find-Member, find-none, any-Member, Member-any, if◌then◌else◌,
}

abbrev matched : Text → CompiledPattern → Bool
matched path p = matches p (split path)

module _ (path : Text) (normal : normalize_repository_path path ≡ returned path) where
  first_match-find :
      (ps : List CompiledPattern)
      → All IsUsable ps
      → first_match path ps ≡ returned (find (matched path) ps)
  unfolding first_match
  first_match-find [] u = refl
  first_match-find (p ∷ ps) u = elim (Bool-cases (matched path p)) [
    | inl hit ↦ rw (path_matches_pattern-matches p path u.0 normal, ◌>>=◌, hit) refl
    | inr miss ↦
        rw (path_matches_pattern-matches p path u.0 normal, ◌>>=◌, miss) (first_match-find ps u.1)
  ]

  some_match-any :
      (ps : List CompiledPattern)
      → All IsUsable ps
      → some_match path ps ≡ returned (any (matched path) ps)
  unfolding some_match
  some_match-any [] u = refl
  some_match-any (p ∷ ps) u = elim (Bool-cases (matched path p)) [
    | inl hit ↦ rw (path_matches_pattern-matches p path u.0 normal, ◌>>=◌, hit) refl
    | inr miss ↦
        rw (path_matches_pattern-matches p path u.0 normal, ◌>>=◌, miss) (some_match-any ps u.1)
  ]

-- A path of the repository, as it stands, that some allowed pattern matches and no forbidden one does.
pub record IsPermitted (allowed forbidden : List CompiledPattern) (path : Text) : Type 0 where
  pub normal : normalize_repository_path path ≡ returned path
  pub is_allowed : (p : CompiledPattern) × Member p allowed × MatchesPath p (split path)
  pub not_forbidden : (p : CompiledPattern) → Member p forbidden → ¬ MatchesPath p (split path)

abbrev is_none : Option Violation → Bool
is_none none = true
is_none (some v) = false

push_iff :
    (v : Option Violation) (vs : List Violation) (P Q : Type 0)
    → (is_none v ≡ true) ↔ P
    → (no_violation vs ≡ true) ↔ Q
    → (no_violation (push v vs) ≡ true) ↔ (P × Q)
push_iff none vs P Q e f = (λ h. (e.0 refl, f.0 h), λ h. f.1 h.1)
push_iff (some v) vs P Q e f = (λ h. cc, λ h. let stays = e.1 h.0 in cc)

module _ (allowed forbidden : List CompiledPattern) where
  -- What `violationOf` says of a path that is as Git reports it.
  verdict : Text → Option Violation
  verdict path = elim (find (matched path) forbidden) [
    | some p ↦ some (record { path = path; reason = forbidden_path; pattern = some p.source })
    | none ↦
        if any (matched path) allowed
        then none
        else some (record { path = path; reason = outside_allowed_paths; pattern = none })
  ]

  module _ (usable_allowed : All IsUsable allowed) (usable_forbidden : All IsUsable forbidden) where
    violation_of-verdict :
        (path : Text)
        → normalize_repository_path path ≡ returned path
        → violation_of allowed forbidden path ≡ returned (verdict path)
    unfolding violation_of verdict
    violation_of-verdict path normal = elim (Option-cases (find (matched path) forbidden)) [
      | inr (p, found) ↦
          rw
            (
              normal,
              first_match-find path normal forbidden usable_forbidden,
              ◌>>=◌,
              found,
              violation_of,
              verdict,
            )
            refl
      | inl clear ↦
          rw
            (
              normal,
              first_match-find path normal forbidden usable_forbidden,
              ◌>>=◌,
              clear,
              some_match-any path normal allowed usable_allowed,
              violation_of,
              verdict,
            )
            refl
    ]

    verdict-IsPermitted :
        (path : Text)
        → normalize_repository_path path ≡ returned path
        → (is_none (verdict path) ≡ true) ↔ IsPermitted allowed forbidden path
    unfolding verdict
    verdict-IsPermitted path normal = elim (Option-cases (find (matched path) forbidden)) [
      | inr (p, found) ↦
          let (listed, hit) = find-Member (matched path) p forbidden found in
          let denied =
            (matches_iff p (split path) (All-Member IsUsable p forbidden usable_forbidden listed)).0
              hit in
          rw (found, verdict) (λ h. cc, λ i. absurd (i.not_forbidden p listed denied))
      | inl clear ↦ elim (Bool-cases (any (matched path) allowed)) [
        | inl permitted ↦
            let (p, listed, hit) = any-Member (matched path) allowed permitted in
            let allows =
              (matches_iff p (split path) (All-Member IsUsable p allowed usable_allowed listed)).0
                hit in
            rw (clear, permitted, verdict)
              (
                λ h. record {
                  normal = normal;
                  is_allowed = (p, listed, allows);
                  not_forbidden = λ q m hits.
                      let fails = find-none (matched path) q forbidden clear m in
                      let holds =
                        (matches_iff q (split path)
                            (All-Member IsUsable q forbidden usable_forbidden m)).1
                          hits in
                      cc;
                },
                λ i. refl,
              )
        | inr outside ↦
            rw (clear, outside, verdict)
              (
                λ h. cc,
                λ i.
                    let (p, listed, allows) = i.is_allowed in
                    let hit =
                      (matches_iff p (split path)
                          (All-Member IsUsable p allowed usable_allowed listed)).1
                        allows in
                    let permitted = Member-any (matched path) p allowed listed hit in cc,
              )
      ]
    ]

    violation_of-IsPermitted :
        (path : Text)
        → (v : Option Violation) × (violation_of allowed forbidden path ≡ returned v)
          × ((is_none v ≡ true) ↔ IsPermitted allowed forbidden path)
    unfolding violation_of
    violation_of-IsPermitted path = elim (Outcome-cases (normalize_repository_path path)) [
      | inl (n, found) ↦
          let normal = normalize_self path n found in
          (verdict path, violation_of-verdict path normal, verdict-IsPermitted path normal)
      | inr (e, bad) ↦ (
        some (record { path = path; reason = invalid_path; pattern = none }),
        rw (bad, violation_of) refl,
        (λ h. cc, λ i. let normal = i.normal in cc),
      )
    ]

    violations_of-IsPermitted :
        (paths : List Text)
        → (vs : List Violation) × (violations_of allowed forbidden paths ≡ returned vs)
          × ((no_violation vs ≡ true) ↔ All (IsPermitted allowed forbidden) paths)
    unfolding violations_of
    violations_of-IsPermitted [] = ([], refl, (λ h. tt, λ h. refl))
    violations_of-IsPermitted (path ∷ paths) =
        let (v, here, permits) = violation_of-IsPermitted path in
        let (vs, rest, permit) = violations_of-IsPermitted paths in
        (
          push v vs,
          rw (here, ◌>>=◌, rest) refl,
          push_iff v vs (IsPermitted allowed forbidden path)
              (All (IsPermitted allowed forbidden) paths) permits permit,
        )

-- An evaluation never throws, and it accepts a diff exactly when every pattern of the policy compiles and
-- every changed path is a plain path of the repository that some allowed pattern matches and no
-- forbidden one does.
pub evaluate_changed_path_scope-accepts :
    (paths : List Text) (scope : ChangeScope)
    → (r : Evaluation) × (evaluate_changed_path_scope paths scope ≡ returned r)
      × ((r.accepted ≡ true) ↔ (
          (allowed : List CompiledPattern) × (forbidden : List CompiledPattern) × (compile_policy
              scope
            ≡ returned (allowed, forbidden))
          × All (IsPermitted allowed forbidden) paths))
unfolding evaluate_changed_path_scope
evaluate_changed_path_scope-accepts paths scope = elim (Outcome-cases (compile_policy scope)) [
  | inr (e, bad) ↦ (
    record {
      accepted = false;
      violations =
          record { path = codes "<policy>"; reason = invalid_pattern; pattern = none } ∷ [];
    },
    rw (bad, evaluate_changed_path_scope) refl,
    (λ h. cc, λ (a, f, made, all_permitted). cc),
  )
  | inl ((allowed, forbidden), made) ↦
      let (usable_allowed, usable_forbidden) =
        compile_policy-IsUsable scope allowed forbidden made in
      let (vs, ended, permits) =
        violations_of-IsPermitted allowed forbidden usable_allowed usable_forbidden paths in
      (
        record { accepted = no_violation vs; violations = vs },
        rw (made, ended, ◌>>=◌, evaluate_changed_path_scope) refl,
        (
          λ h. (allowed, forbidden, made, permits.0 h),
          λ (a, f, again, all_permitted). permits.1 (
              subst
                (λ (t : List CompiledPattern × List CompiledPattern).
                  All (IsPermitted t.0 t.1) paths)
                (returned-inj (sym again ∙ made)) all_permitted),
        ),
      )
]
