-- ===== src/Examples/Diffs.antt =====
-- Paths, patterns and diffs (src/workspace/path-scope.ts).
use runmill.Base.{
  ◌≡◌, ◌↔◌, refl, Bool, true, false, List, [], ◌∷◌, ◌++◌, none, some, returned, thrown, arith, All,
  all,
}
use runmill.Workspace.Texts.{Text, codes, split}
use runmill.Workspace.Paths.{normalize_repository_path, not_relative, ambiguous}
use runmill.Workspace.Expression.{
  segment_expression, parts, ranges, test, literal, unterminated_class, range_out_of_order, class,
  run,
}
use runmill.Workspace.Segments.{segments_match, visit}
use runmill.Workspace.Segments.Memo.{compiles}
use runmill.Workspace.Segments.Covers.{Covers, segments_match-Covers}
use runmill.Workspace.Pattern.{CompiledPattern, compile_pattern, matched_by, path_matches_pattern}
use runmill.Workspace.Pattern.Itself.{below_any, globstar_directory-matches_itself}
use runmill.Workspace.Diff.{
  ChangeScope, Evaluation, compile_policy, compile_all, check_patterns, check_segments, first_match,
  some_match, violation_of, violations_of, evaluate_changed_path_scope, outside_allowed_paths,
  forbidden_path, invalid_path,
}
use runmill.Workspace.Diff.Accepts.{IsPermitted, evaluate_changed_path_scope-accepts}

escapes : normalize_repository_path (codes "src/../etc") ≡ thrown ambiguous
unfolding normalize_repository_path
escapes = refl

drive : normalize_repository_path (codes "C:/x") ≡ thrown not_relative
unfolding normalize_repository_path
drive = refl

class_range :
    segment_expression (codes "v[!0-9a-]*")
    ≡ returned
        (literal b'v' ∷ class true ((b'0', b'9') ∷ (b'a', b'a') ∷ (b'-', b'-') ∷ []) ∷ run ∷ [])
unfolding segment_expression parts ranges
class_range = refl

open_class : segment_expression (codes "a[b") ≡ thrown unterminated_class
unfolding segment_expression parts
open_class = refl

bad_range : segment_expression (codes "[z-a]") ≡ thrown range_out_of_order
unfolding segment_expression parts ranges
bad_range = refl

abbrev sources : List Text
sources = codes "src" ∷ codes "**" ∷ codes "*.ts" ∷ []

abbrev deep_file : List Text
deep_file = split (codes "src/a/b/main.ts")

sources-compiles : all compiles sources ≡ true
unfolding segment_expression parts
sources-compiles = refl

found_deep : segments_match sources deep_file ≡ returned true
unfolding segments_match visit segment_expression parts test
found_deep = refl

segments_match-Covers_example :
    (b : Bool) × (segments_match sources deep_file ≡ returned b)
    × ((b ≡ true) ↔ Covers sources deep_file)
segments_match-Covers_example = segments_match-Covers sources deep_file sources-compiles

abbrev policy : ChangeScope
policy = record {
  allowed_paths = codes "src/**" ∷ codes "*.md" ∷ [];
  forbidden_paths = codes "/src/secrets/" ∷ [];
}

abbrev mixed_diff : List Text
mixed_diff =
    codes "src/main.ts"
    ∷ codes "docs/a.md"
    ∷ codes "src/secrets/key"
    ∷ codes "src"
    ∷ codes "a//b"
    ∷ []

mixed_diff_evaluated :
    evaluate_changed_path_scope mixed_diff policy
    ≡ returned (record {
      accepted = false;
      violations =
          record {
            path = codes "src/secrets/key";
            reason = forbidden_path;
            pattern = some (codes "/src/secrets/");
          }
          ∷ record { path = codes "src"; reason = outside_allowed_paths; pattern = none }
          ∷ record { path = codes "a//b"; reason = invalid_path; pattern = none }
          ∷ [];
    })
unfolding evaluate_changed_path_scope compile_policy compile_all check_patterns check_segments
    first_match some_match violation_of violations_of normalize_repository_path path_matches_pattern
    compile_pattern matched_by segments_match visit segment_expression parts test
mixed_diff_evaluated = refl

evaluate_changed_path_scope-accepts_example :
    (r : Evaluation) × (evaluate_changed_path_scope mixed_diff policy ≡ returned r)
    × ((r.accepted ≡ true) ↔ (
        (allowed : List CompiledPattern) × (forbidden : List CompiledPattern) × (compile_policy
            policy
          ≡ returned (allowed, forbidden))
        × All (IsPermitted allowed forbidden) mixed_diff))
evaluate_changed_path_scope-accepts_example = evaluate_changed_path_scope-accepts mixed_diff policy

below_any_compiled : compile_pattern (codes "**/src/**") ≡ returned (below_any (codes "src"))
unfolding compile_pattern
below_any_compiled = refl

src_expression :
    segment_expression (codes "src") ≡ returned (literal b's' ∷ literal b'r' ∷ literal b'c' ∷ [])
unfolding segment_expression parts
src_expression = refl

src_matched : test (literal b's' ∷ literal b'r' ∷ literal b'c' ∷ []) (codes "src") ≡ true
unfolding test
src_matched = refl

globstar_directory-matches_itself_example :
    matched_by (below_any (codes "src")) ((codes "lib" ∷ codes "a" ∷ []) ++ codes "src" ∷ [])
    ≡ returned true
globstar_directory-matches_itself_example =
    globstar_directory-matches_itself (codes "src") (codes "src")
      (literal b's' ∷ literal b'r' ∷ literal b'c' ∷ []) (codes "lib" ∷ codes "a" ∷ []) refl
      src_expression src_matched (omega arith)
