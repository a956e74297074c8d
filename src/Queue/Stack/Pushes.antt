-- ===== src/Queue/Stack/Pushes.antt =====
-- Pushing one chain onto another keeps it bottom first (src/queue/stack.ts).
use runmill.Base.{
  ℕ, ◌≡◌, refl, Bool, true, ◌||◌, List, [], ◌∷◌, ◌++◌, all, inl, inr, Bool-cases, arith,
}
use runmill.Queue.Issue.{BacklogIssue}
use runmill.Queue.Eligibility.{same_id}
use runmill.Queue.Stack.{has_id, push, push_all}
use runmill.Queue.Stack.Fuel.{same_id_refl, same_id-eq}

-- Every blocker of `i` is in the list.
abbrev pub blockers_in : BacklogIssue → List BacklogIssue → Bool
blockers_in i cs = all (λ b. has_id b cs) i.blocked_by

-- Bottom first: each issue of the chain comes after all its blockers.
pub data IsBottomFirst : List BacklogIssue → Type 0 where
  none_yet : IsBottomFirst []
  above :
      (cs : List BacklogIssue) (i : BacklogIssue)
      → IsBottomFirst cs
      → blockers_in i cs ≡ true
      → IsBottomFirst (cs ++ (i ∷ []))

has_id-append :
    (id : List ℕ) (cs ds : List BacklogIssue)
    → has_id id (cs ++ ds) ≡ (has_id id cs || has_id id ds)
has_id-append id [] ds = refl
has_id-append id (c ∷ cs) ds = ground (arith, has_id-append id cs ds)

-- `ds` has every identifier that `cs` has.
pub record Covers (cs ds : List BacklogIssue) : Type 0 where
  pub kept : (id : List ℕ) → has_id id cs ≡ true → has_id id ds ≡ true

pub push-Covers : (cs : List BacklogIssue) (u : BacklogIssue) → Covers cs (push cs u)
unfolding push
push-Covers cs u = record {
  kept = λ id h. elim (Bool-cases (has_id u.identifier cs)) [
    | inl there ↦ rw there h
    | inr fresh ↦ rw (fresh, has_id-append id cs (u ∷ [])) (ground arith)
  ];
}

pub push-has : (cs : List BacklogIssue) (u : BacklogIssue) → has_id u.identifier (push cs u) ≡ true
unfolding push
push-has cs u = elim (Bool-cases (has_id u.identifier cs)) [
  | inl there ↦ rw there there
  | inr fresh ↦
      rw (fresh, has_id-append u.identifier cs (u ∷ [])) (ground (arith, same_id_refl u.identifier))
]

pub push-IsBottomFirst :
    (cs : List BacklogIssue) (u : BacklogIssue)
    → IsBottomFirst cs
    → blockers_in u cs ≡ true
    → IsBottomFirst (push cs u)
unfolding push
push-IsBottomFirst cs u s h = elim (Bool-cases (has_id u.identifier cs)) [
  | inl there ↦ rw there s
  | inr fresh ↦ rw fresh (above cs u s h)
]

pub ids_in :
    (bs : List (List ℕ)) (cs ds : List BacklogIssue)
    → Covers cs ds
    → all (λ b. has_id b cs) bs ≡ true
    → all (λ b. has_id b ds) bs ≡ true
ids_in [] cs ds c h = refl
ids_in (b ∷ bs) cs ds c h = ground (arith, ids_in bs cs ds c, c.kept b)

push_all-append :
    (cs us : List BacklogIssue) (u : BacklogIssue)
    → push_all cs (us ++ (u ∷ [])) ≡ push (push_all cs us) u
unfolding push_all
push_all-append cs [] u = refl
push_all-append cs (x ∷ xs) u = push_all-append (push cs x) xs u

pub Covers-trans : (a b c : List BacklogIssue) → Covers a b → Covers b c → Covers a c
Covers-trans a b c x y = record { kept = λ id h. y.kept id (x.kept id h) }

Covers-append :
    (us ds : List BacklogIssue) (u : BacklogIssue)
    → Covers us ds
    → has_id u.identifier ds ≡ true
    → Covers (us ++ (u ∷ [])) ds
Covers-append us ds u c h = record {
  kept = λ id g. elim (Bool-cases (has_id id us)) [
    | inl old ↦ c.kept id old
    | inr new ↦
        let same : same_id u.identifier id ≡ true = ground (arith, has_id-append id us (u ∷ [])) in
        rw⁻¹ (same_id-eq u.identifier id same) h
  ];
}

-- What pushing a chain onto another gives.
pub record IsJoined (cs us ds : List BacklogIssue) : Type 0 where
  pub ordered : IsBottomFirst ds
  pub covers_old : Covers cs ds
  pub covers_new : Covers us ds

pub push_all-IsJoined :
    (cs us : List BacklogIssue)
    → IsBottomFirst cs
    → IsBottomFirst us
    → IsJoined cs us (push_all cs us)
unfolding push_all
push_all-IsJoined cs _ s none_yet = record {
  ordered = s;
  covers_old = record { kept = λ id h. h };
  covers_new = record { kept = λ id h. cc };
}
push_all-IsJoined cs _ s (above us u t h) =
    let j = push_all-IsJoined cs us s t in
    let d = push_all cs us in
    let pushed = push-Covers d u in
    rw (push_all-append cs us u) (record {
      ordered = push-IsBottomFirst d u j.ordered (ids_in u.blocked_by us d j.covers_new h);
      covers_old = Covers-trans cs d (push d u) j.covers_old pushed;
      covers_new =
          Covers-append us (push d u) u (Covers-trans us d (push d u) j.covers_new pushed)
            (push-has d u);
    })
