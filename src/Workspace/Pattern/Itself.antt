-- ===== src/Workspace/Pattern/Itself.antt =====
-- Where `dir/**` stands for `dir` itself after all (src/workspace/path-scope.ts).
use runmill.Workspace.Texts.{Text, codes}
use runmill.Workspace.Expression.{Item, segment_expression, test}
use runmill.Workspace.Segments.{is_globstar}
use runmill.Workspace.Segments.Memo.{compiles, segments_match-covers}
use runmill.Workspace.Segments.Covers.{Covers, both_end, skips, swallows, matches, covers_iff}
use runmill.Workspace.Pattern.{CompiledPattern, matched_by}
use runmill.Base.{
  ◌≡◌, ◌≤◌, refl, ◌∙◌, ap, true, false, List, [], ◌∷◌, ◌++◌, returned, length, length-append, arith,
  all, ltb,
}

below :
    {p s t name : Text} (front : List Text)
    → is_globstar p ≡ true
    → Covers (s ∷ t ∷ []) (name ∷ [])
    → Covers (p ∷ s ∷ t ∷ []) (front ++ name ∷ [])
below [] star end = skips star end
below (q ∷ front) star end = swallows star (below front star end)

-- What `compilePattern` gives for `**/dir/**`.
abbrev pub below_any : Text → CompiledPattern
below_any dir = record {
  source = codes "**/" ++ (dir ++ codes "/**");
  segments = codes "**" ∷ dir ∷ codes "**" ∷ [];
  directory = false;
  recursive_directory = true;
  basename_only = false;
}

-- The pattern `**/dir/**` matches a path that ends in `dir` itself, as soon as two directories stand
-- before it: the comparison of the lengths, which is to keep `dir` out, counts the leading `**` too.
pub globstar_directory-matches_itself :
    (dir name : Text) (is : List Item) (front : List Text)
    → is_globstar dir ≡ false
    → segment_expression dir ≡ returned is
    → test is name ≡ true
    → 2 ≤ length front
    → matched_by (below_any dir) (front ++ name ∷ []) ≡ returned true
unfolding matched_by
globstar_directory-matches_itself dir name is front named expression same enough =
    let valid : all compiles (below_any dir).segments ≡ true = rw (named, expression) refl in
    let end : Covers (dir ∷ codes "**" ∷ []) (name ∷ []) =
      matches named expression same (skips refl both_end) in
    let whole =
      (covers_iff (below_any dir).segments (front ++ name ∷ []) valid).1 (below front refl end) in
    let long_enough : ltb (length (front ++ name ∷ [])) 3 ≡ false =
      ground (arith, length-append front (name ∷ [])) in
    rw long_enough (
      segments_match-covers (below_any dir).segments (front ++ name ∷ []) valid ∙ ap returned whole)
