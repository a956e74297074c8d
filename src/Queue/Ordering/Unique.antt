-- ===== src/Queue/Ordering/Unique.antt =====
-- The order of the issues does not depend on the order in which the backlog lists them
-- (src/queue/ordering.ts).
use runmill.Base.{◌≡◌, ◌≢◌, refl, sym, ◌∙◌, List, [], ◌∷◌, All, Member, inl, inr, arith, ◌↔◌}
use runmill.Queue.Issue.{BacklogIssue}
use runmill.Queue.Compare.{Ordering, gt_or_not, not_after-both, cmp_text-eq}
use runmill.Queue.Ordering.{
  IssueOrderingOptions, compare_issues, compare_issues-IsComparison, insert, order_issues,
}
use runmill.Queue.Ordering.Sorted.{
  Precedes, IsSorted, order_issues-IsSorted, order_issues-Member, insert-All, insert-front,
  insert-behind,
}

-- An issue of another identifier.
pub record Differs (a b : BacklogIssue) : Type 0 where
  pub other_identifier : a.identifier ≢ b.identifier

-- No two issues of the list have one identifier.
abbrev pub IsDistinct : List BacklogIssue → Type 0
IsDistinct [] = Unit
IsDistinct (a ∷ xs) = All (Differs a) xs × IsDistinct xs

All-Member :
    (P : BacklogIssue → Type 0) (x : BacklogIssue) (xs : List BacklogIssue)
    → All P xs
    → Member x xs
    → P x
All-Member P x [] ps m = absurd m
All-Member P x (y ∷ ys) (p, ps) (inl e) = rw e p
All-Member P x (y ∷ ys) (p, ps) (inr m) = All-Member P x ys ps m

compare_issues-eq :
    (o : IssueOrderingOptions) (a b : BacklogIssue)
    → compare_issues o a b ≡ Ordering.eq
    → a.identifier ≡ b.identifier
unfolding compare_issues
compare_issues-eq o a b h = cmp_text-eq a.identifier b.identifier (ground arith)

module _ (o : IssueOrderingOptions) where
  both-eq : (a b : BacklogIssue) → Precedes o a b → Precedes o b a → a.identifier ≡ b.identifier
  both-eq a b p q = compare_issues-eq o a b (
      not_after-both (compare_issues o) (compare_issues-IsComparison o) a b p.not_after q.not_after)

  -- The heads of two sorted lists of the same issues.
  head-eq :
      (a b : BacklogIssue) (xs ys : List BacklogIssue)
      → IsSorted o (a ∷ xs)
      → IsSorted o (b ∷ ys)
      → IsDistinct (a ∷ xs)
      → Member b (a ∷ xs)
      → Member a (b ∷ ys)
      → a ≡ b
  head-eq a b xs ys s t d (inl e) n = sym e
  head-eq a b xs ys s t d (inr m) (inl e) = e
  head-eq a b xs ys (s, _) (t, _) (d, _) (inr m) (inr n) = absurd (
      (All-Member (Differs a) b xs d m).other_identifier
        (both-eq a b (All-Member (Precedes o a) b xs s m) (All-Member (Precedes o b) a ys t n)))

  not_self : (a : BacklogIssue) (xs : List BacklogIssue) → All (Differs a) xs → Member a xs → ⊥
  not_self a xs d m = (All-Member (Differs a) a xs d m).other_identifier refl

  tail_of :
      (a b : BacklogIssue) (xs ys : List BacklogIssue)
      → a ≡ b
      → All (Differs a) xs
      → ((x : BacklogIssue) → Member x (a ∷ xs) → Member x (b ∷ ys))
      → (x : BacklogIssue) → Member x xs
      → Member x ys
  tail_of a b xs ys e d sub x m = elim (sub x (inr m)) [
    | inr n ↦ n
    | inl f ↦ absurd (not_self a xs d (rw (e ∙ sym f) m))
  ]

  sorted_unique :
      (xs ys : List BacklogIssue)
      → IsSorted o xs
      → IsSorted o ys
      → IsDistinct xs
      → IsDistinct ys
      → ((x : BacklogIssue) → Member x xs → Member x ys)
      → ((x : BacklogIssue) → Member x ys → Member x xs)
      → xs ≡ ys
  sorted_unique [] [] s t d e f g = refl
  sorted_unique [] (y ∷ ys) s t d e f g = absurd (g y (inl refl))
  sorted_unique (x ∷ xs) [] s t d e f g = absurd (f x (inl refl))
  sorted_unique (x ∷ xs) (y ∷ ys) s t d e f g =
      let same = head-eq x y xs ys s t d (g y (inl refl)) (f x (inl refl)) in
      let rest =
        sorted_unique xs ys s.1 t.1 d.1 e.1 (tail_of x y xs ys same d.0 f)
          (tail_of y x ys xs (sym same) e.0 g) in
      cc

  insert-IsDistinct :
      (a : BacklogIssue) (xs : List BacklogIssue)
      → All (Differs a) xs
      → IsDistinct xs
      → IsDistinct (insert o a xs)
  unfolding insert
  insert-IsDistinct a [] d e = (tt, tt)
  insert-IsDistinct a (b ∷ bs) (d, ds) (e, es) = elim (gt_or_not (compare_issues o a b)) [
    | inl gt ↦
        let flipped : Differs b a = record { other_identifier = λ h. d.other_identifier (sym h) } in
        rw (insert-behind o a b bs gt)
          (insert-All o (Differs b) a bs flipped e, insert-IsDistinct a bs ds es)
    | inr before ↦ rw (insert-front o a b bs before) ((d, ds), (e, es))
  ]

  order-All :
      (P : BacklogIssue → Type 0) (xs : List BacklogIssue) → All P xs → All P (order_issues o xs)
  unfolding order_issues
  order-All P [] ps = tt
  order-All P (a ∷ xs) (p, ps) = insert-All o P a (order_issues o xs) p (order-All P xs ps)

  order_issues-IsDistinct :
      (xs : List BacklogIssue) → IsDistinct xs → IsDistinct (order_issues o xs)
  unfolding order_issues
  order_issues-IsDistinct [] d = tt
  order_issues-IsDistinct (a ∷ xs) (d, ds) =
      insert-IsDistinct a (order_issues o xs) (order-All (Differs a) xs d)
        (order_issues-IsDistinct xs ds)

  -- Two listings of the same issues, each without repeated identifiers, are ordered alike.
  pub order_issues_unique :
      (xs ys : List BacklogIssue)
      → IsDistinct xs
      → IsDistinct ys
      → ((x : BacklogIssue) → Member x xs ↔ Member x ys)
      → order_issues o xs ≡ order_issues o ys
  order_issues_unique xs ys d e same =
      sorted_unique (order_issues o xs) (order_issues o ys) (order_issues-IsSorted o xs)
        (order_issues-IsSorted o ys) (order_issues-IsDistinct xs d) (order_issues-IsDistinct ys e)
        (λ x m. (order_issues-Member o x ys).1 ((same x).0 ((order_issues-Member o x xs).0 m)))
        (λ x m. (order_issues-Member o x xs).1 ((same x).1 ((order_issues-Member o x ys).0 m)))
