-- ===== src/Workspace/Pattern.antt =====
-- `compilePattern` and `pathMatchesPattern` (src/workspace/path-scope.ts). The sentences of the errors
-- are left out; what the source computes twice is computed twice here.
pub mod Decides
pub mod Itself
use runmill.Workspace.Texts.{
  Text, codes, backslash, slash, includes, starts_with, ends_with, tail, init, split,
}
use runmill.Workspace.Paths.{PathError, is_empty, is_ambiguous, normalize_repository_path}
use runmill.Workspace.Expression.{
  PatternError, unsupported, backslashes, empty_pattern, ambiguous_pattern, segment_expression,
  test,
}
use runmill.Workspace.Segments.{is_globstar, segments_match}
use runmill.Base.{
  ℕ, zero, suc, Bool, true, false, not, ◌&&◌, ◌||◌, List, [], ◌∷◌, ◌++◌, Option, none, some,
  Outcome, returned, thrown, ◌>>=◌, ltb, leb, ◌==◌, length, any, if◌then◌else◌,
}

pub record CompiledPattern : Type 0 where
  pub source : Text
  pub segments : List Text
  pub directory : Bool
  pub recursive_directory : Bool
  pub basename_only : Bool

-- `segments.at(-1) ?? ""`
abbrev pub last : List Text → Text
last [] = []
last (s ∷ []) = s
last (s ∷ t ∷ rest) = last (t ∷ rest)

-- `segments[0] ?? ""`
abbrev pub first : List Text → Text
first [] = []
first (s ∷ rest) = s

-- `segments.slice(0, n)`
abbrev pub take : ℕ → List Text → List Text
take zero xs = []
take (suc n) [] = []
take (suc n) (x ∷ xs) = x ∷ take n xs

-- `compilePattern` from the split on.
abbrev pub compiled_segments : Text → Bool → List Text → Outcome PatternError CompiledPattern
compiled_segments source directory segments =
    if any is_ambiguous segments
    then thrown ambiguous_pattern
    else returned (record {
      source = source;
      segments = segments;
      directory = directory;
      recursive_directory = ltb 1 (length segments) && is_globstar (last segments);
      basename_only = length segments == 1 && not directory;
    })

-- The pattern without the slash at its start, and then without the one at its end.
abbrev pub unrooted : Text → Text
unrooted source = if starts_with slash source then tail source else source

abbrev pub trimmed : Text → Text
trimmed pattern = if ends_with slash pattern then init pattern else pattern

unfoldable pub compile_pattern : Text → Outcome PatternError CompiledPattern
compile_pattern source =
    if is_empty source || includes 0 source || starts_with b'!' source
    then thrown unsupported
    else if includes backslash source
    then thrown backslashes
    else if is_empty (trimmed (unrooted source))
    then thrown empty_pattern
    else compiled_segments source (ends_with slash (unrooted source))
        (split (trimmed (unrooted source)))

-- `pathMatchesPattern` from the compiled pattern on.
unfoldable pub matched_by : CompiledPattern → List Text → Outcome PatternError Bool
matched_by p path =
    if p.basename_only
    then (if is_globstar (first p.segments)
        then returned true
        else (segment_expression (first p.segments) >>= λ is. returned (test is (last path))))
    else if p.directory
    then (if leb (length path) (length p.segments)
        then returned false
        else segments_match p.segments (take (length p.segments) path))
    else if p.recursive_directory && ltb (length path) (length p.segments)
    then returned false
    else segments_match p.segments path

-- Either error leaves `pathMatchesPattern`.
pub data MatchError : Type 0 where
  bad_path : PathError → MatchError
  bad_pattern : PatternError → MatchError

abbrev pub of_path : Outcome PathError Text → Outcome MatchError Text
of_path (returned path) = returned path
of_path (thrown e) = thrown (bad_path e)

abbrev pub of_pattern {ℓ} : {A : Type ℓ} → Outcome PatternError A → Outcome MatchError A
of_pattern (returned a) = returned a
of_pattern (thrown e) = thrown (bad_pattern e)

unfoldable pub path_matches_pattern : Text → Text → Outcome MatchError Bool
path_matches_pattern path source = of_path (normalize_repository_path path) >>= λ normalized.
    of_pattern (compile_pattern source) >>= λ pattern.
    of_pattern (matched_by pattern (split normalized))
