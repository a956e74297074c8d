-- ===== src/Workspace/Paths.antt =====
-- `normalizeRepositoryPath` (src/workspace/path-scope.ts).
use runmill.Workspace.Texts.{Text, codes, slash, backslash, text_eq, includes, starts_with, split}
use runmill.Base.{
  ℕ, Bool, true, false, ◌&&◌, ◌||◌, List, [], ◌∷◌, ◌++◌, Outcome, returned, thrown, any, ◌==◌, leb,
  if◌then◌else◌,
}

pub data PathError : Type 0 where
  not_relative ambiguous : PathError

abbrev pub is_letter : ℕ → Bool
is_letter c = (leb b'A' c && leb c b'Z') || (leb b'a' c && leb c b'z')

-- `/^[A-Za-z]:\//`
abbrev pub has_drive : Text → Bool
has_drive (a ∷ b ∷ c ∷ s) = is_letter a && b == b':' && c == slash
has_drive _ = false

abbrev pub is_empty : Text → Bool
is_empty [] = true
is_empty (a ∷ s) = false

-- A segment that is empty, `.` or `..`.
abbrev pub is_ambiguous : Text → Bool
is_ambiguous s = is_empty s || text_eq s (codes ".") || text_eq s (codes "..")

-- `segments.join("/")`
abbrev pub join_rest : List Text → Text
join_rest [] = []
join_rest (s ∷ rest) = slash ∷ (s ++ join_rest rest)

abbrev pub join : List Text → Text
join [] = []
join (s ∷ rest) = s ++ join_rest rest

abbrev pub is_not_relative : Text → Bool
is_not_relative path =
    is_empty path
    || includes 0 path
    || includes backslash path
    || starts_with slash path
    || has_drive path

unfoldable pub normalize_repository_path : Text → Outcome PathError Text
normalize_repository_path path =
    if is_not_relative path
    then thrown not_relative
    else if any is_ambiguous (split path)
    then thrown ambiguous
    else returned (join (split path))
