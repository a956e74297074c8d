-- ===== src/Workspace/Expression.antt =====
-- `segmentExpression` (src/workspace/path-scope.ts), and what the expression that it builds matches.
-- The text of the expression is kept as its parts; those of a class are read, as `new RegExp` reads
-- them, once the whole segment has been walked.
use runmill.Workspace.Texts.{Text, slash, backslash, includes}
use runmill.Workspace.Paths.{is_empty}
use runmill.Base.{
  ℕ, Bool, true, false, not, ◌&&◌, ◌||◌, List, [], ◌∷◌, ◌++◌, Option, none, some, Outcome, returned,
  thrown, ◌>>=◌, ◌==◌, leb, if◌then◌else◌,
}

pub data PatternError : Type 0 where
  unsupported backslashes empty_pattern ambiguous_pattern : PatternError
  unterminated_class empty_class class_backslash range_out_of_order : PatternError

-- A part of the expression's text: `[^/]*`, `[^/]`, `[body]` or one escaped character.
pub data Part : Type 0 where
  any_run any_one : Part
  class_text : Text → Part
  literal_text : ℕ → Part

-- `body.startsWith("!")`
abbrev pub negation : Text → Text
negation [] = []
negation (a ∷ s) = if a == b'!' then b'^' ∷ s else a ∷ s

-- The class that a `]` closes, with the parts after it.
abbrev pub closed : Text → Outcome PatternError (List Part) → Outcome PatternError (List Part)
closed body rest =
    if is_empty body
    then thrown empty_class
    else if includes backslash (negation body)
    then thrown class_backslash
    else rest >>= λ parts. returned (class_text (negation body) ∷ parts)

-- The loop over the characters; the body of a class that is not closed yet stands beside them.
unfoldable pub parts : Option Text → Text → Outcome PatternError (List Part)
parts none [] = returned []
parts (some body) [] = thrown unterminated_class
parts (some body) (c ∷ s) = elim (c == b']') [
  | true ↦ closed body (parts none s)
  | false ↦ parts (some (body ++ c ∷ [])) s
]
parts none (c ∷ s) = elim (c == b'[') [
  | true ↦ parts (some []) s
  | false ↦ parts none s >>= λ rest.
      returned
        ((if c == b'*' then any_run else if c == b'?' then any_one else literal_text c) ∷ rest)
]

-- A character, or a range of a class.
abbrev pub Range : Type 0
Range = ℕ × ℕ

pub data Item : Type 0 where
  run one : Item
  class : Bool → List Range → Item
  literal : ℕ → Item

-- The ranges of a class: a `-` with a character on either side makes one.
unfoldable pub ranges : Text → Outcome PatternError (List Range)
ranges [] = returned []
ranges (a ∷ []) = returned ((a, a) ∷ [])
ranges (a ∷ d ∷ []) = returned ((a, a) ∷ (d, d) ∷ [])
ranges (a ∷ d ∷ b ∷ s) = elim (d == b'-') [
  | true ↦
      if leb a b then (ranges s >>= λ rest. returned ((a, b) ∷ rest)) else thrown range_out_of_order
  | false ↦ ranges (d ∷ b ∷ s) >>= λ rest. returned ((a, a) ∷ rest)
]

abbrev pub class_item : Text → Outcome PatternError Item
class_item [] = returned (class false [])
class_item (a ∷ s) =
    if a == b'^'
    then (ranges s >>= λ rs. returned (class true rs))
    else (ranges (a ∷ s) >>= λ rs. returned (class false rs))

abbrev pub item : Part → Outcome PatternError Item
item any_run = returned run
item any_one = returned one
item (class_text body) = class_item body
item (literal_text c) = returned (literal c)

abbrev pub items : List Part → Outcome PatternError (List Item)
items [] = returned []
items (p ∷ ps) = item p >>= λ i. items ps >>= λ is. returned (i ∷ is)

unfoldable pub segment_expression : Text → Outcome PatternError (List Item)
segment_expression pattern = parts none pattern >>= items

abbrev pub in_ranges : List Range → ℕ → Bool
in_ranges [] c = false
in_ranges ((a, b) ∷ rest) c = (leb a c && leb c b) || in_ranges rest c

-- Does one character match?
abbrev pub accepts : Item → ℕ → Bool
accepts run c = not (c == slash)
accepts one c = not (c == slash)
accepts (class true rs) c = not (in_ranges rs c)
accepts (class false rs) c = in_ranges rs c
accepts (literal a) c = c == a

-- `expression.test(text)`, from the first character to the last.
unfoldable pub test : List Item → Text → Bool
test [] [] = true
test [] (c ∷ s) = false
test (run ∷ is) [] = test is []
test (run ∷ is) (c ∷ s) = test is (c ∷ s) || (accepts run c && test (run ∷ is) s)
test (i ∷ is) [] = false
test (i ∷ is) (c ∷ s) = accepts i c && test is s
