-- ===== src/Asf/ProviderBudget/Fits.antt =====
-- A row that is written for a reservation fits the policy (src/state/store.ts).
use runmill.Base.{
  ℕ, ◌+◌, ◌≤◌, ◌≡◌, refl, true, false, not, ◌||◌, List, [], ◌∷◌, ◌++◌, Option, none, some, String,
  str_eq, str_eq_iff, returned, returned-inj, Bool-cases, inl, inr, arith, leb,
}
use runmill.State.Breakers.{max_safe_integer}
use runmill.Asf.ProviderBudget.{
  Reservation, Reason, Digests, Policy, sum_of, row_cost, row_count, row_denied, conservative_cost,
  invocation_count, Usage, usage_of,
}
use runmill.Asf.ProviderBudget.Request.{ReserveInput}
use runmill.Asf.ProviderBudget.Reserve.{refusal, row_for, new_row}
use runmill.Asf.ProviderBudget.Charges.{excess, row_excess, sum_of-append, IsNoWorse}

-- The sums of a run within its policy.
pub record IsWithin (run : String) (p : Policy) (rows : List Reservation) : Type 0 where
  pub cost_within : conservative_cost run rows ≤ p.max_cost_micros + excess run rows
  pub count_within : invocation_count run rows ≤ p.max_agent_invocations

pub IsNoWorse-IsWithin :
    (run : String) (p : Policy) (rows after : List Reservation)
    → IsNoWorse run rows after
    → IsWithin run p rows
    → IsWithin run p after
IsNoWorse-IsWithin run p rows after w h = record {
  cost_within = omega (arith, w.cost_kept, h.cost_within);
  count_within = omega (arith, w.count_kept, h.count_within);
}

own-IsWithin :
    (run : String) (p : Policy) (rows : List Reservation) (r : Reservation)
    → r.material.run_id ≡ run
    → conservative_cost run rows + row_cost r ≤ p.max_cost_micros + excess run rows
    → invocation_count run rows + row_count r ≤ p.max_agent_invocations
    → IsWithin run p (rows ++ r ∷ [])
own-IsWithin run p rows r mine cost count =
    let it : str_eq r.material.run_id run ≡ true = (str_eq_iff r.material.run_id run).1 mine in
    let cost_sum = rw it at (sum_of-append row_cost run rows r) in
    let excess_sum = rw it at (sum_of-append row_excess run rows r) in
    let count_sum = rw it at (sum_of-append row_count run rows r) in
    record {
      cost_within = omega (arith, cost_sum, excess_sum, cost);
      count_within = omega (arith, count_sum, count);
    }

-- A row that is written with this reason fits.
row_for-IsWithin :
    (run : String) (d : Digests) (i : ReserveInput) (p : Policy) (u : Usage) (now : ℕ)
    (rows : List Reservation) (reason : Option Reason)
    → i.binding.run_id ≡ run
    → u.conservative_cost_micros ≡ conservative_cost run rows
    → u.invocations ≡ invocation_count run rows
    → refusal p u now ≡ reason
    → IsWithin run p rows
    → IsWithin run p (rows ++ row_for d i p u now reason ∷ [])
row_for-IsWithin run d i p u now rows (some reason) mine cost count why h =
    own-IsWithin run p rows (row_for d i p u now (some reason)) mine (omega (arith, h.cost_within))
      (omega (arith, h.count_within))
row_for-IsWithin run d i p u now rows none mine cost count why h =
    let free : leb p.max_cost_micros u.conservative_cost_micros ≡ false = ground (arith, why) in
    let room : leb p.max_agent_invocations u.invocations ≡ false = ground (arith, why) in
    own-IsWithin run p rows (row_for d i p u now none) mine (ground (arith, cost, free))
      (ground (arith, count, room))

foreign-IsWithin :
    (run : String) (p : Policy) (rows : List Reservation) (r : Reservation)
    → str_eq r.material.run_id run ≡ false
    → IsWithin run p rows
    → IsWithin run p (rows ++ r ∷ [])
foreign-IsWithin run p rows r other h =
    let cost = sum_of-append row_cost run rows r in
    let more = sum_of-append row_excess run rows r in
    let count = sum_of-append row_count run rows r in
    record {
      cost_within = omega (arith, rw other at cost, rw other at more, h.cost_within);
      count_within = omega (arith, rw other at count, h.count_within);
    }

usage_of-eq :
    (run : String) (rows : List Reservation) (u : Usage)
    → usage_of run rows ≡ returned u
    → (u.conservative_cost_micros ≡ conservative_cost run rows)
      × (u.invocations ≡ invocation_count run rows)
unfolding usage_of
usage_of-eq run rows u h =
    let corrupt =
      not (leb (conservative_cost run rows) max_safe_integer)
      || not (leb (invocation_count run rows) max_safe_integer)
      || not (leb (sum_of row_denied run rows) max_safe_integer) in
    elim (Bool-cases corrupt) [
      | inl bad ↦ absurd (cc (rw (usage_of, bad) at h))
      | inr good ↦
          let same = returned-inj (rw (usage_of, good) at h) in (rw (← same) refl, rw (← same) refl)
    ]

-- A row that is written for another run, or for this one under its policy.
pub new_row-IsWithin :
    (run : String) (d : Digests) (i : ReserveInput) (p q : Policy) (u : Usage) (now : ℕ)
    (rows : List Reservation)
    → (i.binding.run_id ≡ run → q ≡ p)
    → usage_of i.binding.run_id rows ≡ returned u
    → IsWithin run p rows
    → IsWithin run p (rows ++ new_row d i q u now ∷ [])
new_row-IsWithin run d i p q u now rows same sums h =
    elim (Bool-cases (str_eq i.binding.run_id run)) [
      | inr other ↦ foreign-IsWithin run p rows (new_row d i q u now) other h
      | inl it ↦
          let mine = (str_eq_iff i.binding.run_id run).0 it in
          let (cost, count) = usage_of-eq run rows u (rw mine at sums) in
          rw (same mine)
            (row_for-IsWithin run d i p u now rows (refusal p u now) mine cost count refl h)
    ]
