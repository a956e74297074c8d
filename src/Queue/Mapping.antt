-- ===== src/Queue/Mapping.antt =====
-- From an issue to its repository (src/queue/repository-mapping.ts). The reason of a miss is left out:
-- it prints fields of the issue.
pub mod First
use runmill.Base.{
  ℕ, ◌+◌, Bool, true, false, not, ◌&&◌, ◌||◌, List, [], ◌∷◌, ◌++◌, Option, none, some, String,
  str_eq, any, all, length, ltb, leb, ◌==◌, if◌then◌else◌,
}
use Prim.Native.String.{◌++◌ as ◌+++◌}
use runmill.Queue.Issue.{BacklogIssue, RepositoryTarget}

-- The `match` of a rule.
pub record Match : Type 0 where
  pub team : Option String
  pub project : Option String
  pub label : Option String

pub record RepositoryRule : Type 0 where
  pub matching : Match
  pub repo : String
  pub base_branch : String

abbrev pub includes_text : List String → String → Bool
includes_text xs x = any (str_eq x) xs

abbrev pub equals_text : Option String → String → Bool
equals_text none x = false
equals_text (some y) x = str_eq y x

abbrev pub is_defined : Option String → Bool
is_defined none = false
is_defined (some x) = true

-- A key that is absent holds; one that is present is tested.
abbrev pub holds_if_given : Option String → (String → Bool) → Bool
holds_if_given none test = true
holds_if_given (some x) test = test x

-- `ruleMatches`
abbrev pub rule_matches : BacklogIssue → RepositoryRule → Bool
rule_matches i r =
    holds_if_given r.matching.team (λ t. str_eq i.team_key t)
    && holds_if_given r.matching.project (λ p. equals_text i.project_name p)
    && holds_if_given r.matching.label (λ l. includes_text i.labels l)
    && (is_defined r.matching.team || is_defined r.matching.project || is_defined r.matching.label)

-- RepositoryResolution: the target and the index of its rule.
pub data RepositoryResolution : Type 0 where
  resolved : RepositoryTarget → ℕ → RepositoryResolution
  unresolved : RepositoryResolution

-- The `for` of `resolveRepository`, from `index`.
resolve_from : BacklogIssue → ℕ → List RepositoryRule → RepositoryResolution
resolve_from i index [] = unresolved
resolve_from i index (r ∷ rs) =
    let rest = resolve_from i (index + 1) rs in
    if rule_matches i r
    then resolved (record { repo = r.repo; base_branch = r.base_branch }) index
    else rest

-- `resolveRepository`
unfoldable pub resolve_repository : BacklogIssue → List RepositoryRule → RepositoryResolution
unfolding resolve_from
resolve_repository i rules = resolve_from i 0 rules

-- An entry of `matchKeys` before those that follow it: their order by text is that of the keys.
abbrev entry : String → Option String → List String → List String
entry key none rest = rest
entry key (some x) rest = (key +++ x) ∷ rest

-- `matchKeys`
abbrev pub match_keys : Match → List String
match_keys m = entry "label=" m.label (entry "project=" m.project (entry "team=" m.team []))

-- `join("&")`
abbrev pub joined : List String → String
joined [] = ""
joined (x ∷ []) = x
joined (x ∷ xs) = x +++ ("&" +++ joined xs)

abbrev pub same_match : Match → Match → Bool
same_match a b = str_eq (joined (match_keys a)) (joined (match_keys b))

abbrev count_given : Option String → ℕ
count_given none = 0
count_given (some x) = 1

-- The number of `matchKeys`.
abbrev pub key_count : Match → ℕ
key_count m = count_given m.team + (count_given m.project + count_given m.label)

-- Every entry of the broad match is one of the narrow match.
abbrev pub keys_included : Match → Match → Bool
keys_included broad narrow =
    holds_if_given broad.team (λ t. equals_text narrow.team t)
    && holds_if_given broad.project (λ p. equals_text narrow.project p)
    && holds_if_given broad.label (λ l. equals_text narrow.label l)

-- `isShadowedBy`
abbrev pub is_shadowed_by : RepositoryRule → RepositoryRule → Bool
is_shadowed_by narrow broad =
    if key_count broad.matching == 0 || leb (key_count narrow.matching) (key_count broad.matching)
    then false
    else keys_included broad.matching narrow.matching

-- RuleConflict, with its two indices.
pub data RuleConflict : Type 0 where
  duplicate : ℕ → ℕ → RuleConflict
  shadowed : ℕ → ℕ → RuleConflict

-- The conflict of two rules, if any.
conflict : ℕ → ℕ → RepositoryRule → RepositoryRule → List RuleConflict
conflict i j a b =
    if same_match a.matching b.matching && not (str_eq a.repo b.repo)
    then duplicate i j ∷ []
    else if not (same_match a.matching b.matching) && is_shadowed_by b a
    then shadowed i j ∷ []
    else []

conflicts_after : ℕ → ℕ → RepositoryRule → List RepositoryRule → List RuleConflict
unfolding conflict
conflicts_after i j a [] = []
conflicts_after i j a (b ∷ bs) = conflict i j a b ++ conflicts_after i (j + 1) a bs

conflicts_from : ℕ → List RepositoryRule → List RuleConflict
unfolding conflicts_after
conflicts_from i [] = []
conflicts_from i (a ∷ rest) = conflicts_after i (i + 1) a rest ++ conflicts_from (i + 1) rest

-- `findConflictingRules`
unfoldable pub find_conflicting_rules : List RepositoryRule → List RuleConflict
unfolding conflicts_from
find_conflicting_rules rules = conflicts_from 0 rules
