-- ===== src/Queue/Mapping/First.antt =====
-- The first rule that matches, and the rules that never fire (src/queue/repository-mapping.ts).
use mathlib.Core.Path.{subst}
use runmill.Base.{
  ◌≢◌, ℕ, suc, zero, ◌+◌, ◌≡◌, ◌<◌, refl, sym, ◌∙◌, Bool, true, false, List, [], ◌∷◌, Option, none,
  some, String, str_eq, str_eq_iff, get_elem?, arith, inl, inr, Bool-cases, some-inj, ◌==◌, ◌||◌,
}
use runmill.Queue.Issue.{BacklogIssue, RepositoryTarget}
use runmill.Queue.Mapping.{
  Match, RepositoryRule, rule_matches, RepositoryResolution, resolved, unresolved, resolve_from,
  resolve_repository, is_shadowed_by, holds_if_given, equals_text, includes_text, key_count,
  is_defined,
}

-- What the loop over the rules from `index` on has found.
pub IsFirst : BacklogIssue → ℕ → List RepositoryRule → RepositoryResolution → Type 0
IsFirst i index rules (resolved t k) =
    (r : RepositoryRule) × (d : ℕ) × (k ≡ index + d)
    × (get_elem? rules d ≡ some r)
    × (rule_matches i r ≡ true)
    × (t ≡ record { repo = r.repo; base_branch = r.base_branch })
    × ((j : ℕ) (q : RepositoryRule) → j < d → get_elem? rules j ≡ some q → rule_matches i q ≡ false)
IsFirst i index rules unresolved =
    (j : ℕ) (q : RepositoryRule) → get_elem? rules j ≡ some q → rule_matches i q ≡ false

IsFirst-later :
    (i : BacklogIssue) (index : ℕ) (r : RepositoryRule) (rs : List RepositoryRule)
    (x : RepositoryResolution)
    → rule_matches i r ≡ false
    → IsFirst i (index + 1) rs x
    → IsFirst i index (r ∷ rs) x
unfolding IsFirst
IsFirst-later i index r rs (resolved t k) h (q, d, e, found, fires, target, before) =
    (q, suc d, omega arith, found, fires, target, earlier)
  where
    earlier :
        (j : ℕ) (x : RepositoryRule)
        → j < suc d
        → get_elem? (r ∷ rs) j ≡ some x
        → rule_matches i x ≡ false
    earlier zero x lt g = rw⁻¹ (some-inj g) h
    earlier (suc j) x lt g = before j x (omega arith) g
IsFirst-later i index r rs unresolved h none_of = later
  where
    later : (j : ℕ) (x : RepositoryRule) → get_elem? (r ∷ rs) j ≡ some x → rule_matches i x ≡ false
    later zero x g = rw⁻¹ (some-inj g) h
    later (suc j) x g = none_of j x g

resolve_from-IsFirst :
    (i : BacklogIssue) (index : ℕ) (rules : List RepositoryRule)
    → IsFirst i index rules (resolve_from i index rules)
unfolding IsFirst resolve_from
resolve_from-IsFirst i index [] = λ j q h. cc
resolve_from-IsFirst i index (r ∷ rs) = elim (Bool-cases (rule_matches i r)) [
  | inl fires ↦ rw fires (r, 0, omega arith, refl, fires, refl, λ j q lt h. absurd (omega arith))
  | inr not_r ↦ rw not_r (
      IsFirst-later i index r rs (resolve_from i (index + 1) rs) not_r
        (resolve_from-IsFirst i (index + 1) rs))
]

-- The rule that a resolution names matches, and none before it does; without one no rule matches.
resolve_repository-IsFirst :
    (i : BacklogIssue) (rules : List RepositoryRule)
    → IsFirst i 0 rules (resolve_repository i rules)
unfolding resolve_repository
resolve_repository-IsFirst i rules = resolve_from-IsFirst i 0 rules

included-key :
    (broad narrow : Option String) (test : String → Bool)
    → holds_if_given broad (λ t. equals_text narrow t) ≡ true
    → holds_if_given narrow test ≡ true
    → holds_if_given broad test ≡ true
included-key none narrow test h g = refl
included-key (some b) none test h g = cc
included-key (some b) (some n) test h g = let same = (str_eq_iff n b).0 h in cc

some_key :
    (m : Match)
    → (key_count m == 0) ≡ false
    → (is_defined m.team || is_defined m.project || is_defined m.label) ≡ true
some_key m h = ground arith

-- An issue that a shadowed rule matches is matched by the broader rule.
pub shadowed-matches :
    (i : BacklogIssue) (narrow broad : RepositoryRule)
    → is_shadowed_by narrow broad ≡ true
    → rule_matches i narrow ≡ true
    → rule_matches i broad ≡ true
shadowed-matches i narrow broad h g =
    let team =
      included-key broad.matching.team narrow.matching.team (λ t. str_eq i.team_key t)
        (ground arith) (ground arith) in
    let project =
      included-key broad.matching.project narrow.matching.project
        (λ p. equals_text i.project_name p) (ground arith) (ground arith) in
    let label =
      included-key broad.matching.label narrow.matching.label (λ l. includes_text i.labels l)
        (ground arith) (ground arith) in
    let given = some_key broad.matching (ground arith) in rw (team, project, label, given) refl

-- A rule that an earlier, broader rule shadows is never the one that resolves an issue.
shadowed-never_first :
    (i : BacklogIssue) (rules : List RepositoryRule) (x y : ℕ) (a b : RepositoryRule)
    → x < y
    → get_elem? rules x ≡ some a
    → get_elem? rules y ≡ some b
    → is_shadowed_by b a ≡ true
    → (t : RepositoryTarget) → resolve_repository i rules ≢ resolved t y
unfolding IsFirst
shadowed-never_first i rules x y a b lt at_x at_y shadows t h =
    let (r, d, e, found, fires, _, before) =
      subst (IsFirst i 0 rules) h (resolve_repository-IsFirst i rules) in
    let same_place : y ≡ d = omega arith in
    let same_rule : b ≡ r = some-inj (sym at_y ∙ (rw same_place refl ∙ found)) in
    let not_a = before x a (omega arith) at_x in
    let a_fires = shadowed-matches i b a shadows (rw same_rule fires) in absurd cc
