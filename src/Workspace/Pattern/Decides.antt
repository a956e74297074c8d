-- ===== src/Workspace/Pattern/Decides.antt =====
-- What a compiled pattern matches, and that `pathMatchesPattern` decides it
-- (src/workspace/path-scope.ts).
use runmill.Workspace.Texts.{Text, slash, ends_with, split, split_first}
use runmill.Workspace.Paths.{is_ambiguous, normalize_repository_path}
use runmill.Workspace.Expression.{Item, segment_expression, test}
use runmill.Workspace.Segments.{is_globstar}
use runmill.Workspace.Segments.Memo.{
  compiles, compiled, covers, covers-globstar, covers-globstar_end, covers-segment,
  segments_match-covers, covers-both_end, covers-end_more,
}
use runmill.Workspace.Segments.Covers.{Covers, covers_iff}
use runmill.Workspace.Pattern.{
  CompiledPattern, unrooted, trimmed, last, first, take, compiled_segments, compile_pattern,
  matched_by, path_matches_pattern,
}
use runmill.Base.{
  ◌≡◌, ◌↔◌, ◌≤◌, ◌<◌, refl, sym, ap, ◌∙◌, Bool, true, false, not, ◌&&◌, List, [], ◌∷◌, returned,
  ◌>>=◌, ltb, leb, ◌==◌, length, any, all, if◌then◌else◌, Bool-cases, inl, inr, arith, &&-eq-true,
  returned-inj,
}

-- A name alone stands for the last segment, at any depth. A directory stands for what lies below it,
-- never for a file of its name. `dir/**` stands for descendants of `dir`, never for `dir` itself.
abbrev pub MatchesPath : CompiledPattern → List Text → Type 0
MatchesPath p path =
    if p.basename_only
    then Covers p.segments (last path ∷ [])
    else if p.directory
    then (length p.segments < length path) × Covers p.segments (take (length p.segments) path)
    else (p.recursive_directory ≡ true → length p.segments ≤ length path) × Covers p.segments path

-- The same as a test.
abbrev pub matches : CompiledPattern → List Text → Bool
matches p path =
    if p.basename_only
    then covers p.segments (last path ∷ [])
    else if p.directory
    then not (leb (length path) (length p.segments))
      && covers p.segments (take (length p.segments) path)
    else not (p.recursive_directory && ltb (length path) (length p.segments))
      && covers p.segments path

-- What the compilation of a pattern's text and the check of its segments give.
pub record IsUsable (p : CompiledPattern) : Type 0 where
  pub compiled_source : compile_pattern p.source ≡ returned p
  pub valid : all compiles p.segments ≡ true
  pub single : p.basename_only ≡ true → p.segments ≡ first p.segments ∷ []

&&-true_right : (b : Bool) → (b && true) ≡ b
&&-true_right true = refl
&&-true_right false = refl

first-compiles :
    (ss : List Text) → ss ≡ first ss ∷ [] → all compiles ss ≡ true → compiles (first ss) ≡ true
first-compiles [] alone valid = cc
first-compiles (s ∷ ss) alone valid = (&&-eq-true (compiles s) (all compiles ss) valid).0

globstar_alone :
    (only name : Text) → is_globstar only ≡ true → covers (only ∷ []) (name ∷ []) ≡ true
globstar_alone only name star =
    covers-globstar only [] name [] star
    ∙ rw (nothing_left, covers-globstar_end only [] star, both_end_lem) refl
  where
    nothing_left : covers [] (name ∷ []) ≡ false
    nothing_left = covers-end_more name []

    both_end_lem : covers [] [] ≡ true
    both_end_lem = covers-both_end

segment_alone :
    (only name : Text) (is : List Item)
    → is_globstar only ≡ false
    → segment_expression only ≡ returned is
    → covers (only ∷ []) (name ∷ []) ≡ test is name
segment_alone only name is named expression =
    covers-segment only [] name [] is named expression
    ∙ rw covers-both_end (&&-true_right (test is name))

single_segment :
    (only name : Text)
    → compiles only ≡ true
    → (if is_globstar only
        then returned true
        else (segment_expression only >>= λ is. returned (test is name)))
      ≡ returned (covers (only ∷ []) (name ∷ []))
single_segment only name valid = elim (Bool-cases (is_globstar only)) [
  | inl star ↦ rw (star, globstar_alone only name star) refl
  | inr named ↦
      let (is, expression) = compiled only named valid in
      rw (named, expression, ◌>>=◌, segment_alone only name is named expression) refl
]

pub matched_by-matches :
    (p : CompiledPattern) (path : List Text)
    → IsUsable p
    → matched_by p path ≡ returned (matches p path)
unfolding matched_by
matched_by-matches p path u = elim (Bool-cases p.basename_only) [
  | inl basename ↦
      let alone = u.single basename in
      let valid = first-compiles p.segments alone u.valid in
      rw basename (
        single_segment (first p.segments) (last path) valid
        ∙ ap (λ (ss : List Text). returned (covers ss (last path ∷ []))) (sym alone))
  | inr deep ↦ elim (Bool-cases p.directory) [
    | inl directory ↦ elim (Bool-cases (leb (length path) (length p.segments))) [
      | inl short ↦ rw (deep, directory, short) refl
      | inr long ↦
          rw (deep, directory, long)
            (segments_match-covers p.segments (take (length p.segments) path) u.valid)
    ]
    | inr other ↦
        elim (Bool-cases (p.recursive_directory && ltb (length path) (length p.segments))) [
          | inl short ↦ rw (deep, other, short) refl
          | inr long ↦ rw (deep, other, long) (segments_match-covers p.segments path u.valid)
        ]
  ]
]

bounded :
    (p : CompiledPattern) (path : List Text)
    → (p.recursive_directory ≡ true → length p.segments ≤ length path)
    → covers p.segments path ≡ true
    → (not (p.recursive_directory && ltb (length path) (length p.segments))
        && covers p.segments path)
      ≡ true
bounded p path deep whole = elim (Bool-cases p.recursive_directory) [
  | inl recursive ↦ let enough = deep recursive in ground arith
  | inr flat ↦ ground arith
]

pub matches_iff :
    (p : CompiledPattern) (path : List Text)
    → IsUsable p
    → (matches p path ≡ true) ↔ MatchesPath p path
matches_iff p path u = elim (Bool-cases p.basename_only) [
  | inl basename ↦ rw basename (covers_iff p.segments (last path ∷ []) u.valid)
  | inr deep ↦ elim (Bool-cases p.directory) [
    | inl directory ↦
        let below = covers_iff p.segments (take (length p.segments) path) u.valid in
        rw (deep, directory)
          (λ h. (ground arith, below.0 (ground arith)), λ h. let c = below.1 h.1 in ground arith)
    | inr other ↦
        let whole = covers_iff p.segments path u.valid in
        rw (deep, other)
          (λ h. (λ r. ground arith, whole.0 (ground arith)), λ h. bounded p path h.0 (whole.1 h.1))
  ]
]

one_segment :
    (directory : Bool) (s : Text) (rest : List Text)
    → (length (s ∷ rest) == 1 && not directory) ≡ true
    → (s ∷ rest) ≡ s ∷ []
one_segment directory s [] h = refl
one_segment directory s (t ∷ rest) h = absurd (ground arith)

compiled_segments-parts :
    (source : Text) (directory : Bool) (s : Text) (rest : List Text) (p : CompiledPattern)
    → compiled_segments source directory (s ∷ rest) ≡ returned p
    → (p.source ≡ source) × (p.basename_only ≡ true → p.segments ≡ first p.segments ∷ [])
compiled_segments-parts source directory s rest p h =
    elim (Bool-cases (any is_ambiguous (s ∷ rest))) [
      | inl bad ↦ absurd (ground arith)
      | inr fine ↦
          let e = returned-inj (rw fine at h) in rw (← e) (refl, one_segment directory s rest)
    ]

pub compile_pattern-IsUsable :
    (s : Text) (p : CompiledPattern)
    → compile_pattern s ≡ returned p
    → all compiles p.segments ≡ true
    → IsUsable p
unfolding compile_pattern
compile_pattern-IsUsable s p h valid =
    let trimmed_source = trimmed (unrooted s) in
    let segments = split_first trimmed_source in
    let parts : compiled_segments s (ends_with slash (unrooted s)) (split trimmed_source)
        ≡ returned p =
      ground arith in
    let (same, alone) =
      compiled_segments-parts s (ends_with slash (unrooted s)) segments.0 segments.1 p parts in
    record { compiled_source = ap compile_pattern same ∙ h; valid = valid; single = alone }

pub path_matches_pattern-matches :
    (p : CompiledPattern) (path : Text)
    → IsUsable p
    → normalize_repository_path path ≡ returned path
    → path_matches_pattern path p.source ≡ returned (matches p (split path))
unfolding path_matches_pattern
path_matches_pattern-matches p path u normal =
    rw (normal, u.compiled_source, matched_by-matches p (split path) u) refl
