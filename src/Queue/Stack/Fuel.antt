-- ===== src/Queue/Stack/Fuel.antt =====
-- The fuel of `resolve` is enough, and no candidate vanishes (src/queue/stack.ts).
use runmill.Base.{
  ℕ, zero, suc, ◌≡◌, ◌≢◌, ◌≤◌, ◌<◌, refl, true, false, not, List, [], ◌∷◌, Option, none, some,
  some-inj, Outcome, returned, thrown, ◌>>=◌, length, keep, inl, inr, ◌⊎◌, Bool-cases, Option-cases,
  arith,
}
use runmill.Queue.Issue.{BacklogIssue}
use runmill.Queue.Compare.{Ordering, cmp_text, cmp_text-eq}
use runmill.Queue.Eligibility.{same_id}
use runmill.Queue.Stack.{
  Resolution, StackError, blocker, no_fuel, by_id, has_id, push, push_all, walk, seen_in, resolve,
  resolve_all,
}

pub same_id-eq : (a b : List ℕ) → same_id a b ≡ true → a ≡ b
same_id-eq a b h = cmp_text-eq a b (ground arith)

cmp_text_refl : (a : List ℕ) → cmp_text a a ≡ Ordering.eq
cmp_text_refl [] = refl
cmp_text_refl (x ∷ xs) = ground (arith, cmp_text_refl xs)

pub same_id_refl : (a : List ℕ) → same_id a a ≡ true
same_id_refl a = ground (arith, cmp_text_refl a)

-- The candidates whose identifiers have not been seen.
abbrev unseen : List BacklogIssue → List (List ℕ) → ℕ
unseen cs seen = length (keep (λ c. not (seen_in seen c.identifier)) cs)

-- Seeing one identifier more leaves no more candidates, and fewer if it is that of an unseen one.
unseen_le :
    (cs : List BacklogIssue) (seen : List (List ℕ)) (id : List ℕ)
    → unseen cs (id ∷ seen) ≤ unseen cs seen
unseen_le [] seen id = omega arith
unseen_le (c ∷ cs) seen id = ground (arith, unseen_le cs seen id)

unseen_lt :
    (cs : List BacklogIssue) (seen : List (List ℕ)) (id : List ℕ)
    → has_id id cs ≡ true
    → seen_in seen id ≡ false
    → unseen cs (id ∷ seen) < unseen cs seen
unseen_lt [] seen id h g = cc
unseen_lt (c ∷ cs) seen id h g = elim (Bool-cases (same_id c.identifier id)) [
  | inl here ↦
      let e = same_id-eq c.identifier id here in
      let old : seen_in seen c.identifier ≡ false = rw e g in
      let new : same_id id c.identifier ≡ true = rw e (same_id_refl id) in
      rw (new, old) (omega (arith, unseen_le cs seen id))
  | inr elsewhere ↦
      let later : has_id id cs ≡ true = ground arith in ground (arith, unseen_lt cs seen id later g)
]

unseen-length : (cs : List BacklogIssue) → unseen cs [] ≡ length cs
unseen-length [] = refl
unseen-length (c ∷ cs) = omega (arith, unseen-length cs)

-- The candidate that an identifier names.
pub by_id-found :
    (b : List ℕ) (cs : List BacklogIssue) (k : BacklogIssue)
    → by_id b cs ≡ some k
    → (k.identifier ≡ b) × (has_id b cs ≡ true)
unfolding by_id
by_id-found b [] k h = cc
by_id-found b (c ∷ cs) k h = elim (Option-cases (by_id b cs)) [
  | inr (later, e) ↦
      let (same, there) = by_id-found b cs later e in
      let k_later : later ≡ k = some-inj (rw e at h) in (rw⁻¹ k_later same, ground (arith, there))
  | inl none_of ↦ elim (Bool-cases (same_id c.identifier b)) [
    | inl here ↦
        let k_here : c ≡ k = some-inj (rw (none_of, here) at h) in
        (rw⁻¹ k_here (same_id-eq c.identifier b here), rw here refl)
    | inr other ↦ absurd (ground arith)
  ]
]

thrown_by :
    {A B : Type 0} (m : Outcome StackError A) (f : A → Outcome StackError B) (e : StackError)
    → (m >>= f) ≡ thrown e
    → (m ≡ thrown e) ⊎ ((a : A) × (m ≡ returned a) × (f a ≡ thrown e))
thrown_by (returned a) f e h = inr (a, refl, h)
thrown_by (thrown d) f e h = inl cc

blocker-ends :
    (upstream : BacklogIssue → Resolution) (done : List BacklogIssue) (b : List ℕ)
    (k : Option BacklogIssue)
    → ((c : BacklogIssue) → k ≡ some c → upstream c ≢ thrown no_fuel)
    → blocker upstream done b k ≢ thrown no_fuel
unfolding blocker
blocker-ends upstream done b none ends h = cc
blocker-ends upstream done b (some c) ends h =
    elim (thrown_by (upstream c) (λ us. returned (push (push_all done us) c)) no_fuel h) [
      | inl e ↦ ends c refl e
      | inr (us, _, e) ↦ cc
    ]

walk-ends :
    (upstream : BacklogIssue → Resolution) (cs : List BacklogIssue) (bs : List (List ℕ))
    (done : List BacklogIssue)
    → ((b : List ℕ) (k : BacklogIssue) → by_id b cs ≡ some k → upstream k ≢ thrown no_fuel)
    → walk upstream cs bs done ≢ thrown no_fuel
unfolding walk
walk-ends upstream cs [] done ends h = cc
walk-ends upstream cs (b ∷ bs) done ends h =
    elim (thrown_by (blocker upstream done b (by_id b cs)) (λ more. walk upstream cs bs more)
      no_fuel h) [
        | inl e ↦ blocker-ends upstream done b (by_id b cs) (ends b) e
        | inr (more, _, e) ↦ walk-ends upstream cs bs more ends e
      ]

resolve-ends :
    (fuel : ℕ) (cs : List BacklogIssue) (i : BacklogIssue) (seen : List (List ℕ))
    → has_id i.identifier cs ≡ true
    → unseen cs seen < fuel
    → resolve fuel cs i seen ≢ thrown no_fuel
unfolding resolve
resolve-ends zero cs i seen there enough h = absurd (omega arith)
resolve-ends (suc fuel) cs i seen there enough h = elim (Bool-cases (seen_in seen i.identifier)) [
  | inl again ↦ let e = rw again at h in cc
  | inr fresh ↦
      walk-ends (λ k. resolve fuel cs k (i.identifier ∷ seen)) cs i.blocked_by []
        (λ b k found.
          let (same, has) = by_id-found b cs k found in
          resolve-ends fuel cs k (i.identifier ∷ seen) (rw same has)
            (omega (arith, unseen_lt cs seen i.identifier there fresh, enough)))
        (rw fresh at h)
]

-- The recursion of `resolve` ends on every candidate: one level of calls for each, and one more, is enough.
pub resolve_all-ends :
    (cs : List BacklogIssue) (i : BacklogIssue)
    → has_id i.identifier cs ≡ true
    → resolve_all cs i ≢ thrown no_fuel
unfolding resolve_all
resolve_all-ends cs i there =
    resolve-ends (suc (length cs)) cs i [] there (omega (arith, unseen-length cs))
