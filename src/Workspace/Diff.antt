-- ===== src/Workspace/Diff.antt =====
-- `evaluateChangedPathScope` (src/workspace/path-scope.ts): every path of a candidate diff against the
-- policy of its task. The sentences of the violations are left out.
pub mod Policy
pub mod Accepts
use runmill.Workspace.Texts.{Text, codes, split}
use runmill.Workspace.Paths.{normalize_repository_path}
use runmill.Workspace.Expression.{PatternError, segment_expression}
use runmill.Workspace.Segments.{is_globstar}
use runmill.Workspace.Pattern.{CompiledPattern, compile_pattern, MatchError, path_matches_pattern}
use runmill.Base.{
  Bool, true, false, List, [], ◌∷◌, ◌++◌, Option, none, some, Outcome, returned, thrown, ◌>>=◌,
  if◌then◌else◌,
}

pub record ChangeScope : Type 0 where
  pub allowed_paths : List Text
  pub forbidden_paths : List Text

pub data ViolationReason : Type 0 where
  outside_allowed_paths forbidden_path invalid_path invalid_pattern : ViolationReason

-- ChangeScopeViolation
pub record Violation : Type 0 where
  pub path : Text
  pub reason : ViolationReason
  pub pattern : Option Text

-- `patterns.map(compilePattern)`
unfoldable pub compile_all : List Text → Outcome PatternError (List CompiledPattern)
compile_all [] = returned []
compile_all (s ∷ rest) = compile_pattern s >>= λ p. compile_all rest >>= λ ps. returned (p ∷ ps)

-- Every segment is compiled once, whether or not a path reaches it.
unfoldable pub check_segments : List Text → Outcome PatternError (Unit {0})
check_segments [] = returned tt
check_segments (s ∷ rest) = elim (is_globstar s) [
  | true ↦ check_segments rest
  | false ↦ segment_expression s >>= λ _. check_segments rest
]

unfoldable pub check_patterns : List CompiledPattern → Outcome PatternError (Unit {0})
check_patterns [] = returned tt
check_patterns (p ∷ rest) = check_segments p.segments >>= λ _. check_patterns rest

-- The two lists of patterns, compiled and checked: the body of the `try`.
unfoldable pub compile_policy :
    ChangeScope → Outcome PatternError (List CompiledPattern × List CompiledPattern)
compile_policy scope = compile_all scope.allowed_paths >>= λ allowed.
    compile_all scope.forbidden_paths >>= λ forbidden.
    check_patterns (allowed ++ forbidden) >>= λ _. returned (allowed, forbidden)

-- `patterns.find((pattern) => pathMatchesPattern(path, pattern.source))`
unfoldable pub first_match :
    Text → List CompiledPattern → Outcome MatchError (Option CompiledPattern)
first_match path [] = returned none
first_match path (p ∷ rest) = path_matches_pattern path p.source >>= λ matched. elim matched [
  | true ↦ returned (some p)
  | false ↦ first_match path rest
]

-- `patterns.some(...)`
unfoldable pub some_match : Text → List CompiledPattern → Outcome MatchError Bool
some_match path [] = returned false
some_match path (p ∷ rest) = path_matches_pattern path p.source >>= λ matched. elim matched [
  | true ↦ returned true
  | false ↦ some_match path rest
]

-- What the loop pushes for one candidate.
unfoldable pub violation_of :
    List CompiledPattern → List CompiledPattern → Text → Outcome MatchError (Option Violation)
violation_of allowed forbidden candidate = elim (normalize_repository_path candidate) [
  | thrown e ↦ returned (some (record { path = candidate; reason = invalid_path; pattern = none }))
  | returned path ↦ first_match path forbidden >>= λ denied. elim denied [
    | some p ↦
        returned (some (record { path = path; reason = forbidden_path; pattern = some p.source }))
    | none ↦ some_match path allowed >>= λ permitted. returned (
        if permitted
        then none
        else some (record { path = path; reason = outside_allowed_paths; pattern = none }))
  ]
]

abbrev pub push : Option Violation → List Violation → List Violation
push none vs = vs
push (some v) vs = v ∷ vs

unfoldable pub violations_of :
    List CompiledPattern → List CompiledPattern → List Text → Outcome MatchError (List Violation)
violations_of allowed forbidden [] = returned []
violations_of allowed forbidden (candidate ∷ rest) =
    violation_of allowed forbidden candidate >>= λ v.
    violations_of allowed forbidden rest >>= λ vs. returned (push v vs)

pub record Evaluation : Type 0 where
  pub accepted : Bool
  pub violations : List Violation

abbrev pub no_violation : List Violation → Bool
no_violation [] = true
no_violation (v ∷ vs) = false

unfoldable pub evaluate_changed_path_scope : List Text → ChangeScope → Outcome MatchError Evaluation
evaluate_changed_path_scope changed_paths scope = elim (compile_policy scope) [
  | thrown e ↦ returned (record {
    accepted = false;
    violations = record { path = codes "<policy>"; reason = invalid_pattern; pattern = none } ∷ [];
  })
  | returned (allowed, forbidden) ↦ violations_of allowed forbidden changed_paths >>= λ vs.
      returned (record { accepted = no_violation vs; violations = vs })
]

-- The errors that leave `assertChangedPathScope`.
pub data ScopeError : Type 0 where
  not_evaluated : MatchError → ScopeError
  violated : List Violation → ScopeError

abbrev pub judged : Outcome MatchError Evaluation → Outcome ScopeError (Unit {0})
judged (thrown e) = thrown (not_evaluated e)
judged (returned r) = if r.accepted then returned tt else thrown (violated r.violations)

unfoldable pub assert_changed_path_scope : List Text → ChangeScope → Outcome ScopeError (Unit {0})
assert_changed_path_scope changed_paths scope =
    judged (evaluate_changed_path_scope changed_paths scope)
