-- ===== src/Queue/Stack/Chains.antt =====
-- The chains of a plan (src/queue/stack.ts).
use runmill.Base.{
  ℕ, zero, suc, ◌≡◌, ◌≤◌, refl, true, List, [], ◌∷◌, ◌++◌, Option, none, some, returned, thrown,
  all, length, ltb, inl, inr, Bool-cases, arith, All, >>=-eq-returned, returned-inj,
}
use runmill.Queue.Issue.{BacklogIssue}
use runmill.Queue.Stack.{
  Resolution, blocker, by_id, has_id, push, push_all, walk, seen_in, resolve, resolve_all,
  StackPlan, started, start_chains, plan_stack, depth_limit, is_blocker,
}
use runmill.Queue.Stack.Fuel.{by_id-found}
use runmill.Queue.Stack.Pushes.{
  blockers_in, IsBottomFirst, none_yet, above, Covers, push-Covers, push-has, push-IsBottomFirst,
  ids_in, Covers-trans, push_all-IsJoined,
}

-- What a resolution of `k` gives.
record IsUpstream (k : BacklogIssue) (us : List BacklogIssue) : Type 0 where
  pub ordered : IsBottomFirst us
  pub complete : blockers_in k us ≡ true

-- The chain after the turns for the blockers `bs`.
record IsExtended (bs : List (List ℕ)) (cs ds : List BacklogIssue) : Type 0 where
  pub ordered : IsBottomFirst ds
  pub covers : Covers cs ds
  pub present : all (λ b. has_id b ds) bs ≡ true

blocker-IsExtended :
    (upstream : BacklogIssue → Resolution) (done : List BacklogIssue) (b : List ℕ)
    (o : Option BacklogIssue) (ds : List BacklogIssue)
    → ((k : BacklogIssue) → o ≡ some k → k.identifier ≡ b)
    → ((k : BacklogIssue) (us : List BacklogIssue) → upstream k ≡ returned us → IsUpstream k us)
    → IsBottomFirst done
    → blocker upstream done b o ≡ returned ds
    → IsExtended (b ∷ []) done ds
unfolding blocker
blocker-IsExtended upstream done b none ds named rec s h = cc
blocker-IsExtended upstream done b (some k) ds named rec s h =
    let (us, e, f) = >>=-eq-returned (upstream k) _ h in
    let r = rec k us e in
    let j = push_all-IsJoined done us s r.ordered in
    let d = push_all done us in
    let has : has_id b (push d k) ≡ true = rw⁻¹ (named k refl) (push-has d k) in
    rw⁻¹ (returned-inj f) (record {
      ordered = push-IsBottomFirst d k j.ordered (ids_in k.blocked_by us d j.covers_new r.complete);
      covers = Covers-trans done d (push d k) j.covers_old (push-Covers d k);
      present = ground (arith, has);
    })

walk-IsExtended :
    (upstream : BacklogIssue → Resolution) (cs : List BacklogIssue) (bs : List (List ℕ))
    (done ds : List BacklogIssue)
    → ((k : BacklogIssue) (us : List BacklogIssue) → upstream k ≡ returned us → IsUpstream k us)
    → IsBottomFirst done
    → walk upstream cs bs done ≡ returned ds
    → IsExtended bs done ds
unfolding walk
walk-IsExtended upstream cs [] done ds rec s h =
    rw⁻¹ (returned-inj h)
      (record { ordered = s; covers = record { kept = λ id g. g }; present = refl })
walk-IsExtended upstream cs (b ∷ bs) done ds rec s h =
    let (more, e, rest) = >>=-eq-returned (blocker upstream done b (by_id b cs)) _ h in
    let first =
      blocker-IsExtended upstream done b (by_id b cs) more (λ k found. (by_id-found b cs k found).0)
        rec s e in
    let others = walk-IsExtended upstream cs bs more ds rec first.ordered rest in
    let kept = ids_in (b ∷ []) more ds others.covers first.present in
    record {
      ordered = others.ordered;
      covers = Covers-trans done more ds first.covers others.covers;
      present = ground (arith, kept, others.present);
    }

resolve-IsUpstream :
    (fuel : ℕ) (cs : List BacklogIssue) (i : BacklogIssue) (seen : List (List ℕ))
    (us : List BacklogIssue)
    → resolve fuel cs i seen ≡ returned us
    → IsUpstream i us
unfolding resolve
resolve-IsUpstream zero cs i seen us h = cc
resolve-IsUpstream (suc fuel) cs i seen us h = elim (Bool-cases (seen_in seen i.identifier)) [
  | inl again ↦ let e = rw again at h in cc
  | inr fresh ↦
      let w =
        walk-IsExtended (λ k. resolve fuel cs k (i.identifier ∷ seen)) cs i.blocked_by [] us
          (λ k vs e. resolve-IsUpstream fuel cs k (i.identifier ∷ seen) vs e) none_yet
          (rw fresh at h) in
      record { ordered = w.ordered; complete = w.present }
]

-- A chain that may be submitted: bottom first, and no deeper than the limit.
pub record IsStack (limit : ℕ) (cs : List BacklogIssue) : Type 0 where
  pub ordered : IsBottomFirst cs
  pub shallow : length cs ≤ limit

started-IsStack :
    (limit : ℕ) (i : BacklogIssue) (r : Resolution) (p : StackPlan)
    → ((us : List BacklogIssue) → r ≡ returned us → IsUpstream i us)
    → All (IsStack limit) p.chains
    → All (IsStack limit) (started limit i r p).chains
unfolding started
started-IsStack limit i (thrown e) p up s = s
started-IsStack limit i (returned us) p up s =
    elim (Bool-cases (ltb limit (length (us ++ (i ∷ []))))) [
      | inl deep ↦ rw deep s
      | inr fits ↦
          let u = up us refl in
          rw fits (record { ordered = above us i u.ordered u.complete; shallow = ground arith }, s)
    ]

start_chains-IsStack :
    (limit : ℕ) (cs xs : List BacklogIssue) → All (IsStack limit) (start_chains limit cs xs).chains
unfolding start_chains resolve_all
start_chains-IsStack limit cs [] = tt
start_chains-IsStack limit cs (i ∷ xs) = elim (Bool-cases (is_blocker cs i.identifier)) [
  | inl blocks ↦ rw blocks (start_chains-IsStack limit cs xs)
  | inr starts ↦ rw starts (
      started-IsStack limit i (resolve_all cs i) (start_chains limit cs xs)
        (λ us e. resolve-IsUpstream (suc (length cs)) cs i [] us e)
        (start_chains-IsStack limit cs xs))
]

-- Every chain of a plan stands bottom first, each issue after all its blockers, and is no deeper than
-- the limit.
pub plan_stack-IsStack :
    (max_depth : Option ℕ) (cs : List BacklogIssue)
    → All (IsStack (depth_limit max_depth)) (plan_stack max_depth cs).chains
unfolding plan_stack
plan_stack-IsStack max_depth cs = start_chains-IsStack (depth_limit max_depth) cs cs
