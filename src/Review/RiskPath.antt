-- ===== src/Review/RiskPath.antt =====
-- `matchesRiskPath` (src/review/schema.ts): a changed path against one rule of the risk policy. Texts are
-- lists of UTF-16 code units, as the expression without the flag u reads them.
pub mod Covered
use runmill.Workspace.Texts.{Text, codes, slash, backslash, text_eq, includes, starts_with, split}
use runmill.Workspace.Paths.{is_empty, has_drive}
use runmill.Base.{
  ℕ, Bool, true, false, not, ◌&&◌, ◌||◌, List, [], ◌∷◌, ◌++◌, map, Option, none, some, any, ◌==◌,
  leb, if◌then◌else◌,
}

-- What `trim` takes away.
abbrev is_space : ℕ → Bool
is_space c =
    (leb 9 c && leb c 13)
    || c == 32
    || c == 160
    || c == 0x1680
    || (leb 0x2000 c && leb c 0x200a)
    || c == 0x2028
    || c == 0x2029
    || c == 0x202f
    || c == 0x205f
    || c == 0x3000
    || c == 0xfeff

-- A text without the characters of a kind at its start, and at its end.
abbrev pub strip_start : (ℕ → Bool) → Text → Text
strip_start p [] = []
strip_start p (a ∷ s) = if p a then strip_start p s else a ∷ s

abbrev pub strip_end : (ℕ → Bool) → Text → Text
strip_end p [] = []
strip_end p (a ∷ s) = let rest = strip_end p s in if is_empty rest && p a then [] else a ∷ rest

abbrev pub trim : Text → Text
trim s = strip_end is_space (strip_start is_space s)

-- `replaceAll("\\", "/")`
abbrev pub to_slashes : Text → Text
to_slashes s = map (λ c. if c == backslash then slash else c) s

-- `replace(/^\.\//, "")`
abbrev pub strip_dot : Text → Text
strip_dot [] = []
strip_dot (a ∷ []) = a ∷ []
strip_dot (a ∷ b ∷ s) = if a == b'.' && b == slash then s else a ∷ b ∷ s

abbrev pub is_slash : ℕ → Bool
is_slash c = c == slash

unfoldable pub normalize_risk_path : Text → Text
normalize_risk_path value = strip_start is_slash (strip_dot (to_slashes value))

-- `segments.slice(0, -1)`
abbrev pub but_last : List Text → List Text
but_last [] = []
but_last (s ∷ []) = []
but_last (s ∷ t ∷ rest) = s ∷ but_last (t ∷ rest)

abbrev pub is_dots : Text → Bool
is_dots s = text_eq s (codes ".") || text_eq s (codes "..")

-- A character of another dialect of globs.
abbrev pub is_foreign : ℕ → Bool
is_foreign c = c == b'[' || c == b']' || c == b'{' || c == b'}' || c == b'!'

abbrev pub valid_rule : Text → Text → Bool
valid_rule trimmed normalized =
    if is_empty normalized
      || includes 0 normalized
      || includes 10 normalized
      || includes 13 normalized
      || starts_with slash trimmed
      || has_drive trimmed
    then false
    else if any is_dots (split normalized)
    then false
    else if any is_empty (but_last (split normalized))
    then false
    else not (any is_foreign normalized)

unfoldable pub valid_risk_path_rule : Text → Bool
valid_risk_path_rule rule =
    valid_rule (to_slashes (trim rule)) (normalize_risk_path (to_slashes (trim rule)))

-- A part of the expression: `(?:.*/)?`, `.*`, `[^/]*`, `[^/]` or one escaped character.
pub data Piece : Type 0 where
  directories line run one : Piece
  literal : ℕ → Piece

-- The stars that have been read and are not written out yet.
pub data Stars : Type 0 where
  no_star one_star two_stars : Stars

abbrev piece : ℕ → Piece
piece c = if c == b'?' then one else literal c

-- The loop of `riskPathExpression`.
unfoldable pub pieces : Stars → Text → List Piece
pieces no_star [] = []
pieces one_star [] = run ∷ []
pieces two_stars [] = line ∷ []
pieces no_star (c ∷ s) = elim (c == b'*') [
  | true ↦ pieces one_star s
  | false ↦ piece c ∷ pieces no_star s
]
pieces one_star (c ∷ s) = elim (c == b'*') [
  | true ↦ pieces two_stars s
  | false ↦ run ∷ piece c ∷ pieces no_star s
]
pieces two_stars (c ∷ s) = elim (c == slash) [
  | true ↦ directories ∷ pieces no_star s
  | false ↦ elim (c == b'*') [
    | true ↦ line ∷ pieces one_star s
    | false ↦ line ∷ piece c ∷ pieces no_star s
  ]
]

unfoldable pub risk_path_expression : Text → List Piece
risk_path_expression rule = pieces no_star (normalize_risk_path (trim rule))

-- The characters that `.` and `[^/]` match.
abbrev pub in_line : ℕ → Bool
in_line c = not (c == 10 || c == 13 || c == 0x2028 || c == 0x2029)

abbrev pub in_segment : ℕ → Bool
in_segment c = not (c == slash)

-- Any number of characters of a kind, and then what `rest` matches.
abbrev pub spread : (ℕ → Bool) → (Text → Bool) → Text → Bool
spread p rest [] = rest []
spread p rest (c ∷ s) = rest (c ∷ s) || (p c && spread p rest s)

-- One character of a kind, and then what `rest` matches.
abbrev pub single : (ℕ → Bool) → (Text → Bool) → Text → Bool
single p rest [] = false
single p rest (c ∷ s) = p c && rest s

-- `.*/`, and then what `rest` matches.
abbrev pub through_slash : (Text → Bool) → Text → Bool
through_slash rest [] = false
through_slash rest (c ∷ s) = (c == slash && rest s) || (in_line c && through_slash rest s)

-- `expression.test(path)`
unfoldable pub test : List Piece → Text → Bool
test [] s = is_empty s
test (directories ∷ ps) s = test ps s || through_slash (test ps) s
test (line ∷ ps) s = spread in_line (test ps) s
test (run ∷ ps) s = spread in_segment (test ps) s
test (one ∷ ps) s = single in_segment (test ps) s
test (literal a ∷ ps) s = single (λ c. c == a) (test ps) s

-- `path.startsWith(prefix + "/")`
abbrev pub is_below : Text → Text → Bool
is_below [] [] = false
is_below [] (c ∷ s) = c == slash
is_below (a ∷ prefix) [] = false
is_below (a ∷ prefix) (c ∷ s) = a == c && is_below prefix s

abbrev pub has_wildcard : Text → Bool
has_wildcard s = includes b'?' s || includes b'*' s

-- `none` is `undefined`: the rule is not understood.
unfoldable pub matches_risk_path : Text → Text → Option Bool
matches_risk_path path rule =
    let normalized = normalize_risk_path path in
    let normalized_rule = normalize_risk_path (trim rule) in
    let prefix = strip_end is_slash normalized_rule in
    if not (valid_risk_path_rule rule)
    then none
    else if not (has_wildcard normalized_rule)
    then some (text_eq normalized prefix || is_below prefix normalized)
    else some (test (risk_path_expression normalized_rule) normalized)
