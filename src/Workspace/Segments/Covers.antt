-- ===== src/Workspace/Segments/Covers.antt =====
-- What it means that a pattern's segments cover those of a path, with no search order in it
-- (src/workspace/path-scope.ts).
use runmill.Workspace.Texts.{Text}
use runmill.Workspace.Expression.{Item, segment_expression, test}
use runmill.Workspace.Segments.{is_globstar, segments_match}
use runmill.Workspace.Segments.Memo.{
  compiles, compiled, covers, covers-globstar, covers-globstar_end, covers-segment,
  segments_match-covers,
}
use runmill.Base.{
  ◌≡◌, ◌↔◌, refl, sym, ◌∙◌, true, false, ◌||◌, List, [], ◌∷◌, returned, &&-eq-true, all, inl, inr,
  Bool-cases, arith, ◌⊎◌, Bool,
}

-- `**` covers any number of segments, none included; any other segment covers one that it matches.
pub data Covers : List Text → List Text → Type 0 where
  both_end : Covers [] []
  skips : {p : Text} {ps qs : List Text} → is_globstar p ≡ true → Covers ps qs → Covers (p ∷ ps) qs
  swallows :
      {p q : Text} {ps qs : List Text}
      → is_globstar p ≡ true
      → Covers (p ∷ ps) qs
      → Covers (p ∷ ps) (q ∷ qs)
  matches :
      {p q : Text} {ps qs : List Text} {is : List Item}
      → is_globstar p ≡ false
      → segment_expression p ≡ returned is
      → test is q ≡ true
      → Covers ps qs
      → Covers (p ∷ ps) (q ∷ qs)

||-cases : (a b : Bool) → (a || b) ≡ true → (a ≡ true) ⊎ (b ≡ true)
||-cases true b h = inl refl
||-cases false b h = inr h

covers→Covers : (ps qs : List Text) → all compiles ps ≡ true → covers ps qs ≡ true → Covers ps qs
unfolding covers
covers→Covers [] [] valid h = both_end
covers→Covers [] (q ∷ qs) valid h = cc
covers→Covers (p ∷ ps) [] valid h =
    let (star, rest) = &&-eq-true (is_globstar p) (covers ps []) h in
    skips star (covers→Covers ps [] (&&-eq-true (compiles p) (all compiles ps) valid).1 rest)
covers→Covers (p ∷ ps) (q ∷ qs) valid h =
    let (first_valid, rest_valid) = &&-eq-true (compiles p) (all compiles ps) valid in
    elim (Bool-cases (is_globstar p)) [
      | inl star ↦
          elim (||-cases (covers ps (q ∷ qs)) (covers (p ∷ ps) qs)
            (sym (covers-globstar p ps q qs star) ∙ h)) [
              | inl here ↦ skips star (covers→Covers ps (q ∷ qs) rest_valid here)
              | inr further ↦ swallows star (covers→Covers (p ∷ ps) qs valid further)
            ]
      | inr named ↦
          let (is, expression) = compiled p named first_valid in
          let (same, rest) =
            &&-eq-true (test is q) (covers ps qs)
              (sym (covers-segment p ps q qs is named expression) ∙ h) in
          matches named expression same (covers→Covers ps qs rest_valid rest)
    ]

skips-covers :
    (p : Text) (ps qs : List Text)
    → is_globstar p ≡ true
    → covers ps qs ≡ true
    → covers (p ∷ ps) qs ≡ true
skips-covers p ps [] star h = covers-globstar_end p ps star ∙ h
skips-covers p ps (q ∷ qs) star h = covers-globstar p ps q qs star ∙ rw h refl

Covers→covers : {ps qs : List Text} → Covers ps qs → covers ps qs ≡ true
unfolding covers
Covers→covers both_end = refl
Covers→covers (skips {p} {ps} {qs} star rest) = skips-covers p ps qs star (Covers→covers rest)
Covers→covers (swallows {p} {q} {ps} {qs} star rest) =
    let further = Covers→covers rest in ground (arith, covers-globstar p ps q qs star)
Covers→covers (matches {p} {q} {ps} {qs} {is} named expression same rest) =
    let covered = Covers→covers rest in ground (arith, covers-segment p ps q qs is named expression)

pub covers_iff : (ps qs : List Text) → all compiles ps ≡ true → (covers ps qs ≡ true) ↔ Covers ps qs
covers_iff ps qs valid = (covers→Covers ps qs valid, Covers→covers)

-- Where every segment of a pattern compiles, the search with its table ends without an error, and says
-- that the pattern covers the path exactly when `Covers` holds.
pub segments_match-Covers :
    (pattern path : List Text)
    → all compiles pattern ≡ true
    → (b : Bool) × (segments_match pattern path ≡ returned b) × ((b ≡ true) ↔ Covers pattern path)
segments_match-Covers pattern path valid =
    (covers pattern path, segments_match-covers pattern path valid, covers_iff pattern path valid)
