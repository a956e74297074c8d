-- ===== src/Review/RiskPath/Covered.antt =====
-- Paths that the rules of the risk policy miss (src/review/schema.ts).
use runmill.Workspace.Texts.{Text, codes, includes}
use runmill.Workspace.Paths.{is_empty}
use runmill.Review.RiskPath.{
  normalize_risk_path, valid_risk_path_rule, risk_path_expression, pieces, in_line, spread, test,
  matches_risk_path,
}
use runmill.Base.{◌≡◌, ap, true, false, [], ◌∷◌, some, ◌==◌, Bool-cases, inl, inr, arith}

line_stops : (s : Text) → includes 10 s ≡ true → spread in_line is_empty s ≡ false
line_stops [] h = cc
line_stops (c ∷ s) h = elim (Bool-cases (c == 10)) [
  | inl break ↦ ground arith
  | inr other ↦ let later = line_stops s (ground arith) in ground arith
]

-- The rule `**` is to match every path. It misses each whose name has a line break, since `.` matches none.
pub matches_risk_path-misses :
    (path : Text)
    → includes 10 (normalize_risk_path path) ≡ true
    → matches_risk_path path (codes "**") ≡ some false
unfolding matches_risk_path normalize_risk_path valid_risk_path_rule risk_path_expression pieces
    test
matches_risk_path-misses path h = ap some (line_stops (normalize_risk_path path) h)
