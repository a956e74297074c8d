-- ===== src/Asf/ProviderBudget/Charges.antt =====
-- What the changes of the ledger do to its sums (src/state/store.ts).
use runmill.Base.{
  ℕ, ◌+◌, ◌-◌, ◌≤◌, ◌≡◌, refl, Bool, true, List, [], ◌∷◌, ◌++◌, some, String, str_eq, some-inj,
  Bool-cases, Option-cases, inl, inr, arith, if◌then◌else◌,
}
use runmill.Asf.ProviderBudget.{
  Reservation, Status, completed, sum_of, row_cost, row_count, conservative_cost, invocation_count,
}
use runmill.Asf.ProviderBudget.Updates.{with_status}

-- What a provider reports above the reservation of its call.
abbrev pub excess_of : Status → ℕ → ℕ
excess_of (completed report generation at) cap = report.actual_cost_micros - cap
excess_of _ cap = 0

abbrev pub row_excess : Reservation → ℕ
row_excess r = excess_of r.status r.material.reserved_cost_micros

abbrev pub excess : String → List Reservation → ℕ
excess run rows = sum_of row_excess run rows

pub sum_of-append :
    (f : Reservation → ℕ) (run : String) (rows : List Reservation) (r : Reservation)
    → sum_of f run (rows ++ r ∷ [])
      ≡ sum_of f run rows + (if str_eq r.material.run_id run then f r else 0)
sum_of-append f run [] r = elim (Bool-cases (str_eq r.material.run_id run)) [
  | inl it ↦ rw it (omega arith)
  | inr other ↦ rw other refl
]
sum_of-append f run (x ∷ xs) r = elim (Bool-cases (str_eq x.material.run_id run)) [
  | inl it ↦ rw it (let rest = sum_of-append f run xs r in omega (arith, rest))
  | inr other ↦ rw other (sum_of-append f run xs r)
]

-- A new status raises the charges by no more than the excess, and makes no new invocation.
pub record IsFair (f : Reservation → Status) (r : Reservation) : Type 0 where
  pub cost_fair :
      row_cost (record r { status = f r }) + row_excess r
      ≤ row_cost r + row_excess (record r { status = f r })
  pub count_fair : row_count (record r { status = f r }) ≤ row_count r

pub record IsNoWorse (run : String) (before after : List Reservation) : Type 0 where
  pub cost_kept :
      conservative_cost run after + excess run before
      ≤ conservative_cost run before + excess run after
  pub count_kept : invocation_count run after ≤ invocation_count run before

pub IsNoWorse-refl : (run : String) (rows : List Reservation) → IsNoWorse run rows rows
IsNoWorse-refl run rows = record { cost_kept = omega arith; count_kept = omega arith }

IsNoWorse-kept :
    (run : String) (r : Reservation) (rows after : List Reservation)
    → IsNoWorse run rows after
    → IsNoWorse run (r ∷ rows) (r ∷ after)
IsNoWorse-kept run r rows after w = elim (Bool-cases (str_eq r.material.run_id run)) [
  | inr other ↦ record { cost_kept = rw other w.cost_kept; count_kept = rw other w.count_kept }
  | inl it ↦ record {
    cost_kept = rw it (omega (arith, w.cost_kept));
    count_kept = rw it (omega (arith, w.count_kept));
  }
]

IsNoWorse-changed :
    (run : String) (f : Reservation → Status) (r : Reservation) (rows : List Reservation)
    → IsFair f r
    → IsNoWorse run (r ∷ rows) (record r { status = f r } ∷ rows)
IsNoWorse-changed run f r rows fair = elim (Bool-cases (str_eq r.material.run_id run)) [
  | inr other ↦ record { cost_kept = rw other (omega arith); count_kept = rw other (omega arith) }
  | inl it ↦ record {
    cost_kept = rw it (omega (arith, fair.cost_fair));
    count_kept = rw it (omega (arith, fair.count_fair));
  }
]

pub with_status-IsNoWorse :
    (run : String) (p : Reservation → Bool) (f : Reservation → Status)
    (rows after : List Reservation)
    → ((r : Reservation) → p r ≡ true → IsFair f r)
    → with_status p f rows ≡ some after
    → IsNoWorse run rows after
unfolding with_status
with_status-IsNoWorse run p f [] after fair h = absurd (cc h)
with_status-IsNoWorse run p f (r ∷ rs) after fair h = elim (Bool-cases (p r)) [
  | inl it ↦
      let same = some-inj (rw (with_status, it) at h) in
      rw (← same) (IsNoWorse-changed run f r rs (fair r it))
  | inr other ↦ elim (Option-cases (with_status p f rs)) [
    | inl lost ↦ absurd (cc (rw (with_status, other, lost) at h))
    | inr (rest, found) ↦
        let same = some-inj (rw (with_status, other, found) at h) in
        rw (← same)
          (IsNoWorse-kept run r rs rest (with_status-IsNoWorse run p f rs rest fair found))
  ]
]
