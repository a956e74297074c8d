-- ===== src/Queue/Stack.antt =====
-- Dependency chains (src/queue/stack.ts). `resolve` takes fuel, one more than there are candidates: each
-- nested call sees one identifier more. Sets of identifiers are lists.
pub mod Fuel
pub mod Pushes
pub mod Chains
pub mod Covers
use runmill.Base.{
  ℕ, zero, suc, Bool, true, false, not, ◌&&◌, ◌||◌, List, [], ◌∷◌, ◌++◌, Option, none, some, String,
  str_eq, Outcome, returned, thrown, ◌>>=◌, ltb, any, length, max, if◌then◌else◌,
}
use runmill.Queue.Issue.{BacklogIssue}
use runmill.Queue.Eligibility.{same_id}

-- The two errors of `resolve`, and the end of the fuel.
pub data StackError : Type 0 where
  cycle : List ℕ → StackError
  not_eligible : List ℕ → StackError
  no_fuel : StackError

abbrev pub Resolution : Type 0
Resolution = Outcome StackError (List BacklogIssue)

-- `new Map(...).get(id)`: of two entries with one key, the later.
unfoldable pub by_id : List ℕ → List BacklogIssue → Option BacklogIssue
by_id id [] = none
by_id id (c ∷ cs) = elim (by_id id cs) [
  | some later ↦ some later
  | none ↦ if same_id c.identifier id then some c else none
]

abbrev pub has_id : List ℕ → List BacklogIssue → Bool
has_id id cs = any (λ c. same_id c.identifier id) cs

-- `if (!chain.some(...)) chain.push(u)`
unfoldable pub push : List BacklogIssue → BacklogIssue → List BacklogIssue
push cs u = if has_id u.identifier cs then cs else cs ++ (u ∷ [])

-- The `for (const u of upstream)`.
unfoldable pub push_all : List BacklogIssue → List BacklogIssue → List BacklogIssue
push_all cs [] = cs
push_all cs (u ∷ us) = push_all (push cs u) us

-- The turn for one blocker, found or not, with the recursive call as a function.
unfoldable pub blocker :
    (BacklogIssue → Resolution) → List BacklogIssue → List ℕ → Option BacklogIssue → Resolution
blocker upstream done b none = thrown (not_eligible b)
blocker upstream done b (some k) = upstream k >>= λ us. returned (push (push_all done us) k)

-- The loop over `blockedBy`.
unfoldable pub walk :
    (BacklogIssue → Resolution) → List BacklogIssue → List (List ℕ) → List BacklogIssue → Resolution
walk upstream candidates [] done = returned done
walk upstream candidates (b ∷ bs) done =
    blocker upstream done b (by_id b candidates) >>= λ more. walk upstream candidates bs more

abbrev pub seen_in : List (List ℕ) → List ℕ → Bool
seen_in seen id = any (λ s. same_id s id) seen

-- `resolve`
unfoldable pub resolve : ℕ → List BacklogIssue → BacklogIssue → List (List ℕ) → Resolution
resolve zero candidates i seen = thrown no_fuel
resolve (suc fuel) candidates i seen =
    let found =
      walk (λ k. resolve fuel candidates k (i.identifier ∷ seen)) candidates i.blocked_by [] in
    if seen_in seen i.identifier then thrown (cycle i.identifier) else found

unfoldable pub resolve_all : List BacklogIssue → BacklogIssue → Resolution
resolve_all candidates i = resolve (suc (length candidates)) candidates i []

-- The reasons of `rejected`.
pub data Reason : Type 0 where
  unresolved : StackError → Reason
  too_deep : ℕ → ℕ → Reason
  no_chain : Reason

pub record Rejected : Type 0 where
  pub issue : BacklogIssue
  pub reason : Reason

pub record StackPlan : Type 0 where
  pub chains : List (List BacklogIssue)
  pub rejected : List Rejected

-- `isBlockerOf.has(id)`
abbrev pub is_blocker : List BacklogIssue → List ℕ → Bool
is_blocker candidates id =
    has_id id candidates && any (λ c. any (λ b. same_id b id) c.blocked_by) candidates

-- `Math.max(1, maxDepth ?? DEFAULT_MAX_DEPTH)`
abbrev pub depth_limit : Option ℕ → ℕ
depth_limit none = 4
depth_limit (some n) = max 1 n

-- The turn of the second loop for an issue that starts a chain, before the turns that follow.
started : ℕ → BacklogIssue → Resolution → StackPlan → StackPlan
started limit i (returned us) p =
    if ltb limit (length (us ++ (i ∷ [])))
    then record p {
      rejected =
          record { issue = i; reason = too_deep (length (us ++ (i ∷ []))) limit } ∷ p.rejected;
    }
    else record p { chains = (us ++ (i ∷ [])) ∷ p.chains }
started limit i (thrown e) p = record p {
  rejected = record { issue = i; reason = unresolved e } ∷ p.rejected;
}

-- The loop that starts the chains, over the candidates that are left.
unfoldable pub start_chains : ℕ → List BacklogIssue → List BacklogIssue → StackPlan
unfolding started
start_chains limit candidates [] = record { chains = []; rejected = [] }
start_chains limit candidates (i ∷ rest) =
    let p = start_chains limit candidates rest in
    if is_blocker candidates i.identifier then p else started limit i (resolve_all candidates i) p

-- `planned.has(id)` and `explained.has(id)`
abbrev pub is_planned : StackPlan → List ℕ → Bool
is_planned p id = any (has_id id) p.chains

abbrev pub is_explained : List Rejected → List ℕ → Bool
is_explained rs id = any (λ r. same_id r.issue.identifier id) rs

leftover_reason : Resolution → Reason
leftover_reason (returned us) = no_chain
leftover_reason (thrown e) = unresolved e

-- The last loop: the candidates that are neither planned nor explained.
unfoldable pub leftovers : StackPlan → List BacklogIssue → List BacklogIssue → List Rejected
unfolding leftover_reason
leftovers p candidates [] = []
leftovers p candidates (i ∷ rest) =
    let more = leftovers p candidates rest in
    if is_planned p i.identifier || is_explained p.rejected i.identifier
    then more
    else record { issue = i; reason = leftover_reason (resolve_all candidates i) } ∷ more

-- `planStack`
unfoldable pub plan_stack : Option ℕ → List BacklogIssue → StackPlan
plan_stack max_depth candidates =
    let p = start_chains (depth_limit max_depth) candidates candidates in
    record p { rejected = p.rejected ++ leftovers p candidates candidates }

-- `evidenceSurvivesRebase`: whether the evidence is still valid.
abbrev pub evidence_survives_rebase : String → String → Bool
evidence_survives_rebase verified current =
    if str_eq verified "" || str_eq current "" then false else str_eq verified current
