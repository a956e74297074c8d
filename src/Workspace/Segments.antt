-- ===== src/Workspace/Segments.antt =====
-- `segmentsMatch` (src/workspace/path-scope.ts): the segments of a pattern against those of a path,
-- with the table of the answers found so far.
pub mod Memo
pub mod Covers
use runmill.Workspace.Texts.{Text, codes, text_eq}
use runmill.Workspace.Expression.{PatternError, segment_expression, test}
use runmill.Base.{
  ℕ, suc, Bool, true, false, ◌&&◌, List, [], ◌∷◌, Option, none, some, Outcome, returned, ◌>>=◌,
  ◌==◌, if◌then◌else◌,
}

-- `memo`: the answer at a place of the pattern and a place of the path.
pub record Entry : Type 0 where
  pub pattern_index : ℕ
  pub path_index : ℕ
  pub matched : Bool

abbrev pub Memo : Type 0
Memo = List Entry

abbrev pub Answer : Type 0
Answer = Outcome PatternError (Bool × Memo)

-- `memo.get(key)`
abbrev pub recall : ℕ → ℕ → Memo → Option Bool
recall i j [] = none
recall i j (e ∷ memo) =
    if e.pattern_index == i && e.path_index == j then some e.matched else recall i j memo

-- `memo.set(key, matched)`, and the answer.
abbrev pub remember : ℕ → ℕ → Bool × Memo → Answer
remember i j (matched, memo) =
    returned (matched, record { pattern_index = i; path_index = j; matched = matched } ∷ memo)

abbrev pub is_globstar : Text → Bool
is_globstar p = text_eq p (codes "**")

abbrev pub is_end : List Text → Bool
is_end [] = true
is_end (q ∷ qs) = false

-- `visit`, by what is left of the pattern and of the path at the two places.
unfoldable pub visit : List Text → List Text → ℕ → ℕ → Memo → Answer
visit [] qs i j memo = elim (recall i j memo) [
  | some b ↦ returned (b, memo)
  | none ↦ remember i j (is_end qs, memo)
]
visit (p ∷ ps) [] i j memo = elim (recall i j memo) [
  | some b ↦ returned (b, memo)
  | none ↦ elim (is_globstar p) [
    | true ↦ visit ps [] (suc i) j memo >>= remember i j
    | false ↦ remember i j (false, memo)
  ]
]
visit (p ∷ ps) (q ∷ qs) i j memo = elim (recall i j memo) [
  | some b ↦ returned (b, memo)
  | none ↦ elim (is_globstar p) [
    | true ↦ visit ps (q ∷ qs) (suc i) j memo >>= λ (here, found). elim here [
      | true ↦ remember i j (true, found)
      | false ↦ visit (p ∷ ps) qs i (suc j) found >>= remember i j
    ]
    | false ↦ segment_expression p >>= λ items. elim (test items q) [
      | true ↦ visit ps qs (suc i) (suc j) memo >>= remember i j
      | false ↦ remember i j (false, memo)
    ]
  ]
]

unfoldable pub segments_match : List Text → List Text → Outcome PatternError Bool
segments_match pattern path = visit pattern path 0 0 [] >>= λ (matched, memo). returned matched
