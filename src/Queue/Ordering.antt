-- ===== src/Queue/Ordering.antt =====
-- The order of the queue (src/queue/ordering.ts). `sort` is given by insertion: the language asks for a
-- stable sort, and two stable sorts give the same array.
pub mod Sorted
pub mod Unique
pub mod Unprioritized
use runmill.Base.{
  ℕ, Bool, true, false, List, [], ◌∷◌, Option, none, some, ◌==◌, if◌then◌else◌, ◌≡◌, refl,
}
use runmill.Queue.Issue.{BacklogIssue}
use runmill.Queue.Compare.{
  Ordering, cmp, cmp_text, ◌or◌, IsComparison, cmp-IsComparison, text-IsComparison, by-IsComparison,
  never-IsComparison, or-IsComparison,
}

-- `prioritySortKey`: 0 is no priority, and is last.
abbrev pub priority_sort_key : ℕ → Option ℕ
priority_sort_key p = if p == 0 then none else some p

-- IssueOrderingOptions
pub record IssueOrderingOptions : Type 0 where
  pub priority_first : Bool
  pub unprioritized_last : Bool
  pub due_date_tiebreaker : Bool
  pub oldest_first : Bool

-- DEFAULT_ORDERING
abbrev pub default_ordering : IssueOrderingOptions
default_ordering = record {
  priority_first = true;
  unprioritized_last = true;
  due_date_tiebreaker = true;
  oldest_first = true;
}

abbrev pub priority_key : IssueOrderingOptions → BacklogIssue → Option ℕ
priority_key o a = if o.unprioritized_last then priority_sort_key a.priority else some a.priority

-- A comparison under an option, 0 without it.
abbrev pub when_set : Bool → Ordering → Ordering
when_set true c = c
when_set false c = Ordering.eq

-- `compareIssues`
unfoldable pub compare_issues : IssueOrderingOptions → BacklogIssue → BacklogIssue → Ordering
compare_issues o a b =
    when_set o.priority_first (cmp (priority_key o a) (priority_key o b))
    or when_set o.due_date_tiebreaker (cmp a.due_date b.due_date)
    or cmp a.manual_rank b.manual_rank
    or when_set o.oldest_first (cmp a.created_at b.created_at)
    or cmp_text a.identifier b.identifier

-- An issue before those that it does not follow.
pub insert : IssueOrderingOptions → BacklogIssue → List BacklogIssue → List BacklogIssue
insert o a [] = a ∷ []
insert o a (b ∷ bs) =
    let rest = insert o a bs in
    elim (compare_issues o a b) [ Ordering.gt ↦ b ∷ rest | _ ↦ a ∷ b ∷ bs ]

-- `orderIssues`
unfoldable pub order_issues : IssueOrderingOptions → List BacklogIssue → List BacklogIssue
unfolding insert
order_issues o [] = []
order_issues o (a ∷ rest) = insert o a (order_issues o rest)

when_set-IsComparison :
    {A : Type 0} (c : A → A → Ordering) (set : Bool)
    → IsComparison c
    → IsComparison (λ a b. when_set set (c a b))
when_set-IsComparison c true l = l
when_set-IsComparison c false l = never-IsComparison

-- The order of issues is a total preorder under every choice of options.
pub compare_issues-IsComparison : (o : IssueOrderingOptions) → IsComparison (compare_issues o)
unfolding compare_issues
compare_issues-IsComparison o =
    or-IsComparison (λ a b. when_set o.priority_first (cmp (priority_key o a) (priority_key o b))) _
      (when_set-IsComparison _ o.priority_first
        (by-IsComparison cmp (λ a. priority_key o a) cmp-IsComparison))
      (or-IsComparison (λ a b. when_set o.due_date_tiebreaker (cmp a.due_date b.due_date)) _
        (when_set-IsComparison _ o.due_date_tiebreaker
          (by-IsComparison cmp (λ a. a.due_date) cmp-IsComparison))
        (or-IsComparison (λ a b. cmp a.manual_rank b.manual_rank) _
          (by-IsComparison cmp (λ a. a.manual_rank) cmp-IsComparison)
          (or-IsComparison (λ a b. when_set o.oldest_first (cmp a.created_at b.created_at)) _
            (when_set-IsComparison _ o.oldest_first
              (by-IsComparison cmp (λ a. a.created_at) cmp-IsComparison))
            (by-IsComparison cmp_text (λ a. a.identifier) text-IsComparison))))
