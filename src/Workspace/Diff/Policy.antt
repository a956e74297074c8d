-- ===== src/Workspace/Diff/Policy.antt =====
-- The paths and the patterns that come out of the checks of src/workspace/path-scope.ts.
use mathlib.Core.Path.{subst}
use runmill.Workspace.Texts.{Text, slash, split}
use runmill.Workspace.Paths.{join, is_ambiguous, is_not_relative, normalize_repository_path}
use runmill.Workspace.Expression.{Item, segment_expression}
use runmill.Workspace.Segments.{is_globstar}
use runmill.Workspace.Segments.Memo.{compiles}
use runmill.Workspace.Pattern.{CompiledPattern, compile_pattern}
use runmill.Workspace.Pattern.Decides.{IsUsable, compile_pattern-IsUsable}
use runmill.Workspace.Diff.{
  ChangeScope, compile_all, check_segments, check_patterns, compile_policy,
}
use runmill.Base.{
  ◌≡◌, refl, ap, true, List, [], ◌∷◌, ◌++◌, returned, ◌>>=◌, >>=-eq-returned, returned-inj,
  Bool-cases, inl, inr, All, All-append_both, all, any, arith, ◌==◌, ==_iff,
}

-- A text is put together again from its segments.
join-split : (s : Text) → join (split s) ≡ s
join-split [] = refl
join-split (a ∷ s) = elim (Bool-cases (a == slash)) [
  | inl cut ↦ let same = (==_iff a slash).0 cut in rw cut (cc (join-split s))
  | inr kept ↦ rw kept (ap (λ t. a ∷ t) (join-split s))
]

pub normalize_self :
    (c n : Text)
    → normalize_repository_path c ≡ returned n
    → normalize_repository_path c ≡ returned c
unfolding normalize_repository_path
normalize_self c n h = elim (Bool-cases (is_not_relative c)) [
  | inl bad ↦ absurd (cc (rw bad at h))
  | inr relative ↦ elim (Bool-cases (any is_ambiguous (split c))) [
    | inl bad ↦ absurd (cc (rw (relative, bad) at h))
    | inr clear ↦ rw (relative, clear) (ap returned (join-split c))
  ]
]

compiles-globstar : (s : Text) → is_globstar s ≡ true → compiles s ≡ true
compiles-globstar s star = rw star refl

compiles-expression :
    (s : Text) (is : List Item) → segment_expression s ≡ returned is → compiles s ≡ true
compiles-expression s is found = ground arith

check_segments-compiles :
    (ss : List Text) → check_segments ss ≡ returned tt → all compiles ss ≡ true
unfolding check_segments
check_segments-compiles [] h = refl
check_segments-compiles (s ∷ ss) h = elim (Bool-cases (is_globstar s)) [
  | inl star ↦
      let rest = check_segments-compiles ss (rw (star, check_segments) at h) in
      let first = compiles-globstar s star in ground arith
  | inr named ↦
      let (is, found, later) =
        >>=-eq-returned (segment_expression s) (λ _. check_segments ss)
          (rw (named, check_segments) at h) in
      let rest = check_segments-compiles ss later in
      let first = compiles-expression s is found in ground arith
]

abbrev IsCompiled : CompiledPattern → Type 0
IsCompiled p = (s : Text) × (compile_pattern s ≡ returned p)

compile_all-All :
    (ss : List Text) (ps : List CompiledPattern) → compile_all ss ≡ returned ps → All IsCompiled ps
unfolding compile_all
compile_all-All [] ps h = rw (← returned-inj h) tt
compile_all-All (s ∷ ss) ps h =
    let (p, first, later) =
      >>=-eq-returned (compile_pattern s) (λ p. compile_all ss >>= λ qs. returned (p ∷ qs)) h in
    let (qs, rest, end) = >>=-eq-returned (compile_all ss) (λ qs. returned (p ∷ qs)) later in
    rw (← returned-inj end) ((s, first), compile_all-All ss qs rest)

check_patterns-IsUsable :
    (ps : List CompiledPattern)
    → All IsCompiled ps
    → check_patterns ps ≡ returned tt
    → All IsUsable ps
unfolding check_patterns
check_patterns-IsUsable [] made h = tt
check_patterns-IsUsable (p ∷ ps) ((s, made), rest) h =
    let (u, first, later) =
      >>=-eq-returned (check_segments p.segments) (λ _. check_patterns ps) h in
    (
      compile_pattern-IsUsable s p made (check_segments-compiles p.segments first),
      check_patterns-IsUsable ps rest later,
    )

All-append_made :
    {A : Type 0} (P : A → Type 0) (xs ys : List A) → All P xs → All P ys → All P (xs ++ ys)
All-append_made P [] ys h k = k
All-append_made P (x ∷ xs) ys h k = (h.0, All-append_made P xs ys h.1 k)

pub compile_policy-IsUsable :
    (scope : ChangeScope) (allowed forbidden : List CompiledPattern)
    → compile_policy scope ≡ returned (allowed, forbidden)
    → All IsUsable allowed × All IsUsable forbidden
unfolding compile_policy
compile_policy-IsUsable scope allowed forbidden h =
    let (a, made_a, h1) =
      >>=-eq-returned (compile_all scope.allowed_paths)
        (λ a. compile_all scope.forbidden_paths >>= λ f.
          check_patterns (a ++ f) >>= λ _. returned (a, f))
        h in
    let (f, made_f, h2) =
      >>=-eq-returned (compile_all scope.forbidden_paths)
        (λ f. check_patterns (a ++ f) >>= λ _. returned (a, f)) h1 in
    let (u, checked, end) = >>=-eq-returned (check_patterns (a ++ f)) (λ _. returned (a, f)) h2 in
    let both = All-append_both IsUsable a f (
      check_patterns-IsUsable (a ++ f)
        (All-append_made IsCompiled a f (compile_all-All scope.allowed_paths a made_a)
          (compile_all-All scope.forbidden_paths f made_f))
        checked) in
    subst (λ (t : List CompiledPattern × List CompiledPattern). All IsUsable t.0 × All IsUsable t.1)
      (returned-inj end) both
