-- ===== src/Asf/ProviderBudget/Bounds.antt =====
-- The cost and the invocations of a run stay within its policy (src/state/store.ts).
use runmill.Base.{
  ℕ, ◌≡◌, refl, sym, ◌∙◌, Bool, true, false, List, [], ◌∷◌, Option, some, String, Outcome, returned,
  thrown, ◌>>=◌, >>=-eq-returned, returned-inj, Outcome-cases, Bool-cases, Option-cases, inl, inr,
  arith, any, find, All, leb,
}
use runmill.Asf.ProviderBudget.{
  Reservation, Status, reserved, completed, denied, settled_unknown, Digests, BudgetError, Policy,
  RunRow, Admission, usage_of, Settlement,
}
use runmill.Asf.ProviderBudget.Request.{Intent, ReserveInput, Read, Reserved, has_effect, is_replay}
use runmill.Asf.ProviderBudget.Reserve.{
  replay, by_status, again, is_settled, ordinal, new_row, insert_row, clashes, reserve_new,
  check_request, reserve_checked, reserve_provider_budget,
}
use runmill.Asf.ProviderBudget.Updates.{CompleteInput, Completed}
use runmill.Asf.ProviderBudget.Complete.{complete_provider_budget, settle_unknown}
use runmill.Asf.ProviderBudget.Checks.{check_request-policy}
use runmill.Asf.ProviderBudget.Rows.{complete-IsNoWorse, settle-IsNoWorse}
use runmill.Asf.ProviderBudget.Fits.{IsWithin, IsNoWorse-IsWithin, new_row-IsWithin}

-- The calls, of any worker at any time, with what their transactions read; one that throws changes nothing.
pub data Call : Type 0 where
  reserves : ReserveInput → Read → ℕ → Call
  completes : CompleteInput → Option RunRow → Option Admission → ℕ → Call
  settles : String → Intent → Settlement → Call

abbrev pub rows_of : List Reservation → Outcome BudgetError Reserved → List Reservation
rows_of rows (returned x) = x.rows
rows_of rows (thrown e) = rows

abbrev pub completed_of : List Reservation → Outcome BudgetError Completed → List Reservation
completed_of rows (returned x) = x.rows
completed_of rows (thrown e) = rows

abbrev pub or_same : List Reservation → Outcome BudgetError (List Reservation) → List Reservation
or_same rows (returned after) = after
or_same rows (thrown e) = rows

module _ (d : Digests) (before : String → String → Bool) where
  abbrev pub after_call : Call → List Reservation → List Reservation
  after_call (reserves i read now) rows =
      rows_of rows (reserve_provider_budget d before i read now rows)
  after_call (completes i run admission now) rows =
      completed_of rows (complete_provider_budget d i run admission now rows)
  after_call (settles intent_id x s) rows = or_same rows (settle_unknown d intent_id x s rows)

  abbrev pub after_calls : List Call → List Reservation → List Reservation
  after_calls [] rows = rows
  after_calls (c ∷ cs) rows = after_calls cs (after_call c rows)

-- A reservation for this run reads this policy: an admission is never changed.
abbrev pub IsUnder : String → Policy → Call → Type 0
IsUnder run p (reserves i read now) =
    i.binding.run_id ≡ run → (a : Admission) → read.admission ≡ some a → a.policy ≡ p
IsUnder run p _ = Unit {0}

reserve_new-IsWithin :
    (run : String) (d : Digests) (i : ReserveInput) (p q : Policy) (plan : Bool) (now : ℕ)
    (rows : List Reservation) (x : Reserved)
    → (i.binding.run_id ≡ run → q ≡ p)
    → reserve_new d i q plan now rows ≡ returned x
    → IsWithin run p rows
    → IsWithin run p x.rows
unfolding reserve_new
reserve_new-IsWithin run d i p q true now rows x same done h = absurd (cc done)
reserve_new-IsWithin run d i p q false now rows x same done h =
    let (u, sums, written) =
      >>=-eq-returned (usage_of i.binding.run_id rows)
        (λ v. insert_row i q v now (new_row d i q v now) rows) done in
    elim (Bool-cases (any (clashes (new_row d i q u now)) rows)) [
      | inl clash ↦ absurd (cc (rw (insert_row, clash) at written))
      | inr free ↦
          let is_x = returned-inj (rw (insert_row, free) at written) in
          rw (← is_x) (new_row-IsWithin run d i p q u now rows same sums h)
    ]

-- A replay writes nothing.
again-rows :
    (run : String) (rows : List Reservation) (p : Policy) (now : ℕ)
    (before : String → String → Bool) (r : Reservation) (x : Reserved)
    → (usage_of run rows >>= again before p now rows r) ≡ returned x
    → x.rows ≡ rows
again-rows run rows p now before r x h =
    let (u, sums, given) = >>=-eq-returned (usage_of run rows) (again before p now rows r) h in
    elim (Bool-cases (leb 1 (ordinal before r.material rows))) [
      | inl valid ↦ rw (← returned-inj (rw (again, valid) at given)) refl
      | inr none_there ↦ absurd (cc (rw (again, none_there) at given))
    ]

by_status-rows :
    (d : Digests) (before : String → String → Bool) (i : ReserveInput) (p : Policy) (now : ℕ)
    (rows : List Reservation) (r : Reservation) (s : Status) (x : Reserved)
    → by_status d before i p now rows r s ≡ returned x
    → x.rows ≡ rows
by_status-rows d before i p now rows r (denied reason digest) x h = rw (← returned-inj h) refl
by_status-rows d before i p now rows r reserved x h =
    again-rows i.binding.run_id rows p now before r x h
by_status-rows d before i p now rows r (completed t g a) x h =
    again-rows i.binding.run_id rows p now before r x h
by_status-rows d before i p now rows r (settled_unknown actual s digest) x h =
    elim (Bool-cases (is_settled d r actual s digest)) [
      | inl whole ↦ rw (← returned-inj (rw whole at h)) refl
      | inr broken ↦ absurd (cc (rw broken at h))
    ]

checked-IsWithin :
    (run : String) (d : Digests) (before : String → String → Bool) (i : ReserveInput) (p q : Policy)
    (plan : Bool) (now : ℕ) (rows : List Reservation) (x : Reserved)
    → (i.binding.run_id ≡ run → q ≡ p)
    → reserve_checked d before i plan now rows q ≡ returned x
    → IsWithin run p rows
    → IsWithin run p x.rows
checked-IsWithin run d before i p q plan now rows x same done h =
    elim (Option-cases (find (has_effect i.effect_key) rows)) [
      | inl new ↦
          reserve_new-IsWithin run d i p q plan now rows x same (rw (reserve_checked, new) at done)
            h
      | inr (r, found) ↦ elim (Bool-cases (is_replay d i q r)) [
        | inl bound ↦
            let kept =
              by_status-rows d before i q now rows r r.status x
                (rw (reserve_checked, found, replay, bound) at done) in
            rw kept h
        | inr other ↦ absurd (cc (rw (reserve_checked, found, replay, other) at done))
      ]
    ]

reserve-IsWithin :
    (run : String) (d : Digests) (before : String → String → Bool) (i : ReserveInput) (read : Read)
    (now : ℕ) (p : Policy) (rows : List Reservation)
    → (i.binding.run_id ≡ run → (a : Admission) → read.admission ≡ some a → a.policy ≡ p)
    → IsWithin run p rows
    → IsWithin run p (rows_of rows (reserve_provider_budget d before i read now rows))
unfolding reserve_provider_budget
reserve-IsWithin run d before i read now p rows under h =
    elim (Outcome-cases (reserve_provider_budget d before i read now rows)) [
      | inr (e, refused) ↦ rw (refused, rows_of) h
      | inl (x, done) ↦
          let (q, checked, given) =
            >>=-eq-returned (check_request d i read rows)
              (reserve_checked d before i read.has_terminal_plan now rows) done in
          let (a, reads, is_q) = check_request-policy d i read rows q checked in
          rw (done, rows_of)
            (checked-IsWithin run d before i p q read.has_terminal_plan now rows x
              (λ mine. sym is_q ∙ under mine a reads) given h)
    ]

module _ (d : Digests) (before : String → String → Bool) (run : String) (p : Policy) where
  call-IsWithin :
      (c : Call) (rows : List Reservation)
      → IsUnder run p c
      → IsWithin run p rows
      → IsWithin run p (after_call d before c rows)
  call-IsWithin (reserves i read now) rows under h =
      reserve-IsWithin run d before i read now p rows under h
  call-IsWithin (completes i row admission now) rows under h =
      elim (Outcome-cases (complete_provider_budget d i row admission now rows)) [
        | inr (e, refused) ↦ rw (refused, completed_of) h
        | inl (x, done) ↦
            rw (done, completed_of)
              (IsNoWorse-IsWithin run p rows x.rows
                (complete-IsNoWorse run d i row admission now rows x done) h)
      ]
  call-IsWithin (settles intent_id x s) rows under h =
      elim (Outcome-cases (settle_unknown d intent_id x s rows)) [
        | inr (e, refused) ↦ rw (refused, or_same) h
        | inl (after, done) ↦
            rw (done, or_same)
              (IsNoWorse-IsWithin run p rows after
                (settle-IsNoWorse run d intent_id x s rows after done) h)
      ]

  calls-IsWithin :
      (cs : List Call) (rows : List Reservation)
      → All (IsUnder run p) cs
      → IsWithin run p rows
      → IsWithin run p (after_calls d before cs rows)
  calls-IsWithin [] rows under h = h
  calls-IsWithin (c ∷ cs) rows under h =
      calls-IsWithin cs (after_call d before c rows) under.1 (call-IsWithin c rows under.0 h)

-- From an empty ledger on, the budget of a run is kept by every sequence of reservations, completions
-- and settlements, accepted or refused, of any workers at any times: if the reservations for the run
-- read its one policy, then what the run is charged is at most the policy's cost and what providers have
-- reported above their reservations, and the run has made no more invocations than the policy allows.
pub after_calls-IsWithin :
    (d : Digests) (before : String → String → Bool) (run : String) (p : Policy) (cs : List Call)
    → All (IsUnder run p) cs
    → IsWithin run p (after_calls d before cs [])
after_calls-IsWithin d before run p cs under =
    calls-IsWithin d before run p cs [] under
      (record { cost_within = omega arith; count_within = omega arith })
