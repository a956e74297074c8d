-- ===== src/Workspace/Segments/Memo.antt =====
-- Why the table of `visit` changes no answer (src/workspace/path-scope.ts).
use runmill.Workspace.Texts.{Text}
use runmill.Workspace.Expression.{Item, segment_expression, test}
use runmill.Workspace.Segments.{
  Memo, Answer, recall, remember, is_end, is_globstar, visit, segments_match,
}
use runmill.Base.{
  ℕ, zero, suc, ◌≡◌, refl, sym, ◌∙◌, Bool, true, false, ◌&&◌, ◌||◌, List, [], ◌∷◌, some, returned,
  thrown, ◌>>=◌, ◌==◌, &&-eq-true, all, inl, inr, ◌⊎◌, Bool-cases, Option-cases, arith,
  Outcome-cases,
}

-- Does the pattern's segment match the path's?
abbrev pub segment_test : Text → Text → Bool
segment_test p q = elim (segment_expression p) [ returned is ↦ test is q | thrown e ↦ false ]

abbrev pub compiles : Text → Bool
compiles p = is_globstar p || elim (segment_expression p) [ returned is ↦ true | thrown e ↦ false ]

-- The answer with no table.
unfoldable pub covers : List Text → List Text → Bool
covers [] [] = true
covers [] (q ∷ qs) = false
covers (p ∷ ps) [] = is_globstar p && covers ps []
covers (p ∷ ps) (q ∷ qs) = elim (is_globstar p) [
  | true ↦ covers ps (q ∷ qs) || covers (p ∷ ps) qs
  | false ↦ segment_test p q && covers ps qs
]

abbrev drop : ℕ → List Text → List Text
drop zero xs = xs
drop (suc i) [] = []
drop (suc i) (x ∷ xs) = drop i xs

drop-next :
    (i : ℕ) (xs : List Text) (y : Text) (ys : List Text) → y ∷ ys ≡ drop i xs → ys ≡ drop (suc i) xs
drop-next zero [] y ys h = cc
drop-next zero (x ∷ xs) y ys h = cc
drop-next (suc i) [] y ys h = cc
drop-next (suc i) (x ∷ xs) y ys h = drop-next i xs y ys h

pub covers-both_end : covers [] [] ≡ true
unfolding covers
covers-both_end = refl

pub covers-end_more : (q : Text) (qs : List Text) → covers [] (q ∷ qs) ≡ false
unfolding covers
covers-end_more q qs = refl

module _ (p : Text) (ps : List Text) where
  pub covers-globstar_end : is_globstar p ≡ true → covers (p ∷ ps) [] ≡ covers ps []
  unfolding covers
  covers-globstar_end star = rw (star, ◌&&◌) refl

  pub covers-segment_end : is_globstar p ≡ false → covers (p ∷ ps) [] ≡ false
  unfolding covers
  covers-segment_end named = rw (named, ◌&&◌) refl

  module _ (q : Text) (qs : List Text) where
    pub covers-globstar :
        is_globstar p ≡ true → covers (p ∷ ps) (q ∷ qs) ≡ (covers ps (q ∷ qs) || covers (p ∷ ps) qs)
    unfolding covers
    covers-globstar star = rw (star, covers) refl

    pub covers-segment :
        (is : List Item)
        → is_globstar p ≡ false
        → segment_expression p ≡ returned is
        → covers (p ∷ ps) (q ∷ qs) ≡ (test is q && covers ps qs)
    unfolding covers
    covers-segment is named found = rw (named, found, covers, segment_test) refl

pub compiled :
    (p : Text)
    → is_globstar p ≡ false
    → compiles p ≡ true
    → (is : List Item) × (segment_expression p ≡ returned is)
compiled p named h = elim (Outcome-cases (segment_expression p)) [
  | inl found ↦ found
  | inr (e, failed) ↦ absurd (ground arith)
]

recall-cases :
    (i j k l : ℕ) (b c : Bool) (memo : Memo)
    → recall k l (record { pattern_index = i; path_index = j; matched = b } ∷ memo) ≡ some c
    → ((i ≡ k) × (j ≡ l) × (b ≡ c)) ⊎ (recall k l memo ≡ some c)
recall-cases i j k l b c memo h = elim (Bool-cases (i == k && j == l)) [
  | inl same ↦ inl (ground arith, ground arith, ground arith)
  | inr other ↦ inr (ground arith)
]

is_end-covers : (qs : List Text) → is_end qs ≡ covers [] qs
unfolding covers
is_end-covers [] = refl
is_end-covers (q ∷ qs) = refl

-- The pattern and the path of the outermost call.
module _ (pattern path : List Text) where
  -- Every answer of the table is that of its places.
  abbrev IsRight : Memo → Type 0
  IsRight memo =
      (i j : ℕ) (b : Bool) → recall i j memo ≡ some b → b ≡ covers (drop i pattern) (drop j path)

  abbrev Answers : List Text → List Text → Answer → Type 0
  Answers ps qs answer = (found : Memo) × (answer ≡ returned (covers ps qs, found)) × IsRight found

  remember-Answers :
      (ps qs : List Text) (i j : ℕ) (b : Bool) (memo : Memo)
      → ps ≡ drop i pattern
      → qs ≡ drop j path
      → IsRight memo
      → b ≡ covers ps qs
      → Answers ps qs (remember i j (b, memo))
  remember-Answers ps qs i j b memo at_pattern at_path right here =
      (record { pattern_index = i; path_index = j; matched = b } ∷ memo, rw here refl, still)
    where
      still : IsRight (record { pattern_index = i; path_index = j; matched = b } ∷ memo)
      still k l c h = elim (recall-cases i j k l b c memo h) [
        | inl (same_i, same_j, same) ↦ rw (← same, ← same_i, ← same_j, ← at_pattern, ← at_path) here
        | inr older ↦ right k l c older
      ]

  recall-Answers :
      (ps qs : List Text) (i j : ℕ) (b : Bool) (memo : Memo)
      → ps ≡ drop i pattern
      → qs ≡ drop j path
      → IsRight memo
      → recall i j memo ≡ some b
      → Answers ps qs (returned (b, memo))
  recall-Answers ps qs i j b memo at_pattern at_path right known =
      let same : b ≡ covers ps qs = rw (at_pattern, at_path) (right i j b known) in
      (memo, rw same refl, right)

  visit-known :
      (ps qs : List Text) (i j : ℕ) (b : Bool) (memo : Memo)
      → ps ≡ drop i pattern
      → qs ≡ drop j path
      → IsRight memo
      → recall i j memo ≡ some b
      → Answers ps qs (visit ps qs i j memo)
  unfolding visit
  visit-known [] qs i j b memo at_pattern at_path right known =
      rw (known, visit) (recall-Answers [] qs i j b memo at_pattern at_path right known)
  visit-known (p ∷ ps) [] i j b memo at_pattern at_path right known =
      rw (known, visit) (recall-Answers (p ∷ ps) [] i j b memo at_pattern at_path right known)
  visit-known (p ∷ ps) (q ∷ qs) i j b memo at_pattern at_path right known =
      rw (known, visit) (recall-Answers (p ∷ ps) (q ∷ qs) i j b memo at_pattern at_path right known)

  visit-covers :
      (ps qs : List Text) (i j : ℕ) (memo : Memo)
      → ps ≡ drop i pattern
      → qs ≡ drop j path
      → all compiles ps ≡ true
      → IsRight memo
      → Answers ps qs (visit ps qs i j memo)
  unfolding visit
  visit-covers [] qs i j memo at_pattern at_path valid right =
      elim (Option-cases (recall i j memo)) [
        | inr (b, known) ↦ visit-known [] qs i j b memo at_pattern at_path right known
        | inl new ↦
            rw (new, visit)
              (remember-Answers [] qs i j (is_end qs) memo at_pattern at_path right
                (is_end-covers qs))
      ]
  visit-covers (p ∷ ps) [] i j memo at_pattern at_path valid right =
      elim (Option-cases (recall i j memo)) [
        | inr (b, known) ↦ visit-known (p ∷ ps) [] i j b memo at_pattern at_path right known
        | inl new ↦ elim (Bool-cases (is_globstar p)) [
          | inl star ↦
              let (found, e, still) =
                visit-covers ps [] (suc i) j memo (drop-next i pattern p ps at_pattern) at_path
                  (&&-eq-true (compiles p) (all compiles ps) valid).1 right in
              rw (new, star, e, visit)
                (remember-Answers (p ∷ ps) [] i j (covers ps []) found at_pattern at_path still
                  (sym (covers-globstar_end p ps star)))
          | inr named ↦
              rw (new, named, visit)
                (remember-Answers (p ∷ ps) [] i j false memo at_pattern at_path right
                  (sym (covers-segment_end p ps named)))
        ]
      ]
  visit-covers (p ∷ ps) (q ∷ qs) i j memo at_pattern at_path valid right =
      elim (Option-cases (recall i j memo)) [
        | inr (b, known) ↦ visit-known (p ∷ ps) (q ∷ qs) i j b memo at_pattern at_path right known
        | inl new ↦
            let (first_valid, rest_valid) = &&-eq-true (compiles p) (all compiles ps) valid in
            let next_pattern = drop-next i pattern p ps at_pattern in
            let next_path = drop-next j path q qs at_path in
            let keep = λ (b : Bool) (found : Memo).
              remember-Answers (p ∷ ps) (q ∷ qs) i j b found at_pattern at_path in
            elim (Bool-cases (is_globstar p)) [
              | inl star ↦
                  let equation = covers-globstar p ps q qs star in
                  let (found, e, still) =
                    visit-covers ps (q ∷ qs) (suc i) j memo next_pattern at_path rest_valid right in
                  elim (Bool-cases (covers ps (q ∷ qs))) [
                    | inl here ↦
                        rw (new, star, e, here, visit)
                          (keep true found still (sym (equation ∙ rw here refl)))
                    | inr further ↦
                        let (found', e', still') =
                          visit-covers (p ∷ ps) qs i (suc j) found at_pattern next_path valid
                            still in
                        rw (new, star, e, further, e', visit)
                          (keep (covers (p ∷ ps) qs) found' still'
                            (sym (equation ∙ rw further refl)))
                  ]
              | inr named ↦
                  let (is, expression) = compiled p named first_valid in
                  let equation = covers-segment p ps q qs is named expression in
                  elim (Bool-cases (test is q)) [
                    | inl same ↦
                        let (found, e, still) =
                          visit-covers ps qs (suc i) (suc j) memo next_pattern next_path rest_valid
                            right in
                        rw (new, named, expression, ◌>>=◌, same, e, visit)
                          (keep (covers ps qs) found still (sym (equation ∙ rw same refl)))
                    | inr other ↦
                        rw (new, named, expression, ◌>>=◌, other, visit)
                          (keep false memo right (sym (equation ∙ rw other refl)))
                  ]
            ]
      ]

-- Where every segment compiles, `segmentsMatch` gives the answer with no table.
pub segments_match-covers :
    (pattern path : List Text)
    → all compiles pattern ≡ true
    → segments_match pattern path ≡ returned (covers pattern path)
unfolding segments_match
segments_match-covers pattern path valid =
    let (found, e, right) =
      visit-covers pattern path pattern path 0 0 [] refl refl valid (λ i j b h. cc) in
    rw e refl
