-- ===== src/Queue/Ordering/Sorted.antt =====
-- What ordering the issues gives (src/queue/ordering.ts).
use mathlib.Core.List.{Perm}
use mathlib.Core.List.Perm
use runmill.Base.{length, suc, ◌≡◌, ◌≢◌, refl, List, [], ◌∷◌, All, Member, inl, inr, arith, ◌↔◌}
use runmill.Queue.Issue.{BacklogIssue}
use runmill.Queue.Compare.{Ordering, gt_or_not, not_after_trans}
use runmill.Queue.Ordering.{
  IssueOrderingOptions, compare_issues, compare_issues-IsComparison, insert, order_issues,
}

-- `a` may stand before `b`.
pub record Precedes (o : IssueOrderingOptions) (a b : BacklogIssue) : Type 0 where
  pub not_after : compare_issues o a b ≢ Ordering.gt

abbrev pub IsSorted : IssueOrderingOptions → List BacklogIssue → Type 0
IsSorted o [] = Unit
IsSorted o (a ∷ xs) = All (Precedes o a) xs × IsSorted o xs

module _ (o : IssueOrderingOptions) where
  pub Precedes-trans : (a b x : BacklogIssue) → Precedes o a b → Precedes o b x → Precedes o a x
  Precedes-trans a b x p q = record {
    not_after =
        not_after_trans (compare_issues o) (compare_issues-IsComparison o) a b x p.not_after
          q.not_after;
  }

  -- An issue that follows `b` is preceded by `b`.
  gt-Precedes : (a b : BacklogIssue) → compare_issues o a b ≡ Ordering.gt → Precedes o b a
  gt-Precedes a b h = record {
    not_after = rw ((compare_issues-IsComparison o).flips a b, h) (λ g. cc);
  }

  below_trans :
      (a b : BacklogIssue) (xs : List BacklogIssue)
      → Precedes o a b
      → All (Precedes o b) xs
      → All (Precedes o a) xs
  below_trans a b [] p below = tt
  below_trans a b (x ∷ xs) p (q, below) = (Precedes-trans a b x p q, below_trans a b xs p below)

  pub insert-front :
      (a b : BacklogIssue) (bs : List BacklogIssue)
      → compare_issues o a b ≢ Ordering.gt
      → insert o a (b ∷ bs) ≡ a ∷ b ∷ bs
  unfolding insert
  insert-front a b bs h = ground arith

  pub insert-behind :
      (a b : BacklogIssue) (bs : List BacklogIssue)
      → compare_issues o a b ≡ Ordering.gt
      → insert o a (b ∷ bs) ≡ b ∷ insert o a bs
  unfolding insert
  insert-behind a b bs h = ground (arith, h)

  pub insert-All :
      (P : BacklogIssue → Type 0) (a : BacklogIssue) (xs : List BacklogIssue)
      → P a
      → All P xs
      → All P (insert o a xs)
  unfolding insert
  insert-All P a [] p ps = (p, tt)
  insert-All P a (b ∷ bs) p (q, ps) = elim (gt_or_not (compare_issues o a b)) [
    | inl gt ↦ rw (insert-behind a b bs gt) (q, insert-All P a bs p ps)
    | inr before ↦ rw (insert-front a b bs before) (p, (q, ps))
  ]

  insert-IsSorted :
      (a : BacklogIssue) (xs : List BacklogIssue) → IsSorted o xs → IsSorted o (insert o a xs)
  unfolding insert
  insert-IsSorted a [] s = (tt, tt)
  insert-IsSorted a (b ∷ bs) (below, s) = elim (gt_or_not (compare_issues o a b)) [
    | inl gt ↦
        rw (insert-behind a b bs gt)
          (insert-All (Precedes o b) a bs (gt-Precedes a b gt) below, insert-IsSorted a bs s)
    | inr before ↦
        let p : Precedes o a b = record { not_after = before } in
        rw (insert-front a b bs before) ((p, below_trans a b bs p below), (below, s))
  ]

  -- The ordered issues stand in the order of `compareIssues`, none before one that it follows.
  pub order_issues-IsSorted : (xs : List BacklogIssue) → IsSorted o (order_issues o xs)
  unfolding order_issues
  order_issues-IsSorted [] = tt
  order_issues-IsSorted (a ∷ xs) = insert-IsSorted a (order_issues o xs) (order_issues-IsSorted xs)

  insert-Perm : (a : BacklogIssue) (xs : List BacklogIssue) → Perm (insert o a xs) (a ∷ xs)
  unfolding insert
  insert-Perm a [] = Perm.rfl
  insert-Perm a (b ∷ bs) = elim (gt_or_not (compare_issues o a b)) [
    | inl gt ↦
        rw (insert-behind a b bs gt)
          (Perm.trans (Perm.cons b (insert-Perm a bs)) (Perm.swap a b bs))
    | inr before ↦ rw (insert-front a b bs before) Perm.rfl
  ]

  -- Ordering neither drops nor invents nor repeats an issue.
  order_issues-Perm : (xs : List BacklogIssue) → Perm (order_issues o xs) xs
  unfolding order_issues
  order_issues-Perm [] = Perm.rfl
  order_issues-Perm (a ∷ xs) =
      Perm.trans (insert-Perm a (order_issues o xs)) (Perm.cons a (order_issues-Perm xs))

  insert-Member :
      (x a : BacklogIssue) (xs : List BacklogIssue) → Member x (insert o a xs) ↔ Member x (a ∷ xs)
  unfolding insert
  insert-Member x a [] = (λ m. m, λ m. m)
  insert-Member x a (b ∷ bs) = elim (gt_or_not (compare_issues o a b)) [
    | inl gt ↦ let rest = insert-Member x a bs in rw (insert-behind a b bs gt) (ground arith)
    | inr before ↦ rw (insert-front a b bs before) (λ m. m, λ m. m)
  ]

  pub order_issues-Member :
      (x : BacklogIssue) (xs : List BacklogIssue) → Member x (order_issues o xs) ↔ Member x xs
  unfolding order_issues
  order_issues-Member x [] = (λ m. m, λ m. m)
  order_issues-Member x (a ∷ xs) =
      let here = insert-Member x a (order_issues o xs) in
      let rest = order_issues-Member x xs in (ground arith, ground arith)

  insert-length :
      (a : BacklogIssue) (xs : List BacklogIssue) → length (insert o a xs) ≡ suc (length xs)
  unfolding insert
  insert-length a [] = refl
  insert-length a (b ∷ bs) = elim (gt_or_not (compare_issues o a b)) [
    | inl gt ↦ rw (insert-behind a b bs gt) (omega (arith, insert-length a bs))
    | inr before ↦ rw (insert-front a b bs before) refl
  ]

  pub order_issues-length : (xs : List BacklogIssue) → length (order_issues o xs) ≡ length xs
  unfolding order_issues
  order_issues-length [] = refl
  order_issues-length (a ∷ xs) =
      omega (arith, insert-length a (order_issues o xs), order_issues-length xs)
