-- ===== src/Queue/Ordering/Unprioritized.antt =====
-- Issues without a priority come last (src/queue/ordering.ts).
use runmill.Base.{◌≡◌, ◌≢◌, refl, true, List, [], ◌∷◌, All, arith, ℕ, zero, suc}
use runmill.Queue.Issue.{BacklogIssue}
use runmill.Queue.Compare.{Ordering}
use runmill.Queue.Ordering.{IssueOrderingOptions, compare_issues, order_issues}
use runmill.Queue.Ordering.Sorted.{Precedes, IsSorted, order_issues-IsSorted}

pub record IsUnprioritized (a : BacklogIssue) : Type 0 where
  pub none_eq : a.priority ≡ 0

-- After an issue without a priority there is none with one.
abbrev pub EndsUnprioritized : List BacklogIssue → Type 0
EndsUnprioritized [] = Unit
EndsUnprioritized (a ∷ xs) = (IsUnprioritized a → All IsUnprioritized xs) × EndsUnprioritized xs

module _ (o : IssueOrderingOptions) (first : o.priority_first ≡ true)
    (last : o.unprioritized_last ≡ true) where
  unprioritized-compare :
      (a b : BacklogIssue) → a.priority ≡ 0 → b.priority ≢ 0 → compare_issues o a b ≡ Ordering.gt
  unfolding compare_issues
  unprioritized-compare a b h g = ground (arith, first, last)

  unprioritized-next :
      (a b : BacklogIssue) (m : ℕ)
      → b.priority ≡ m
      → a.priority ≡ 0
      → Precedes o a b
      → b.priority ≡ 0
  unprioritized-next a b zero e h p = e
  unprioritized-next a b (suc m) e h p =
      absurd (p.not_after (unprioritized-compare a b h (λ z. omega arith)))

  IsUnprioritized-rest :
      (a : BacklogIssue) (xs : List BacklogIssue)
      → IsUnprioritized a
      → All (Precedes o a) xs
      → All IsUnprioritized xs
  IsUnprioritized-rest a [] u ps = tt
  IsUnprioritized-rest a (b ∷ bs) u (p, ps) = (
    record { none_eq = unprioritized-next a b b.priority refl u.none_eq p },
    IsUnprioritized-rest a bs u ps,
  )

  sorted-EndsUnprioritized : (xs : List BacklogIssue) → IsSorted o xs → EndsUnprioritized xs
  sorted-EndsUnprioritized [] s = tt
  sorted-EndsUnprioritized (a ∷ xs) (below, s) =
      (λ u. IsUnprioritized-rest a xs u below, sorted-EndsUnprioritized xs s)

  -- With priorities first and unprioritized issues last, no issue with a priority is ordered after
  -- one without.
  order_issues-EndsUnprioritized : (xs : List BacklogIssue) → EndsUnprioritized (order_issues o xs)
  order_issues-EndsUnprioritized xs =
      sorted-EndsUnprioritized (order_issues o xs) (order_issues-IsSorted o xs)
