-- ===== src/Asf/ProviderBudget/Rows.antt =====
-- A completion and a settlement make no invocation, and charge above a reservation only what a provider
-- reports (src/state/store.ts).
use runmill.Base.{
  ℕ, ◌+◌, ◌≤◌, ◌≡◌, refl, ap, true, ◌&&◌, ◌==◌, ltb, List, Option, none, some, String, str_eq,
  returned, >>=-eq-returned, returned-inj, Bool-cases, Option-cases, inl, inr, arith, find,
}
use runmill.Asf.ProviderBudget.{
  Reservation, Status, Material, reserved, completed, denied, settled_unknown, Digests, Policy,
  RunRow, Admission, assert_current_binding, assert_limits, row_cost, row_count, cost_of, counts,
  usage_of, Settlement, phase_frozen,
}
use runmill.Asf.ProviderBudget.Request.{Intent, has_effect}
use runmill.Asf.ProviderBudget.Updates.{
  CompleteInput, Completed, complete_row, complete_bound, completed_rows, with_usage, result, binds,
  has_id, with_status, or_lost, report_eq, is_updatable, is_reserved,
}
use runmill.Asf.ProviderBudget.Complete.{
  complete_provider_budget, settle_unknown, settled_rows, is_of_intent, settlement_eq,
}
use runmill.Asf.ProviderBudget.Charges.{
  row_excess, excess_of, IsFair, IsNoWorse, IsNoWorse-refl, with_status-IsNoWorse,
}

reserved_row : (s : Status) → is_reserved s ≡ true → s ≡ reserved
reserved_row reserved h = refl
reserved_row (completed r g a) h = cc
reserved_row (denied r g) h = cc
reserved_row (settled_unknown a s g) h = cc

-- The status of a completion, and that of a settlement, on a row that is reserved.
updatable-IsFair :
    (id digest : String) (f : Reservation → Status) (r : Reservation)
    → row_cost (record r { status = f r })
      ≤ r.material.reserved_cost_micros + row_excess (record r { status = f r })
    → row_count (record r { status = f r }) ≤ 1
    → is_updatable id digest r ≡ true
    → IsFair f r
updatable-IsFair id digest f r cost count h =
    let same : r.status ≡ reserved = reserved_row r.status (ground (arith, h)) in
    let cost_now : row_cost r ≡ r.material.reserved_cost_micros =
      ap (λ x. cost_of x r.material.reserved_cost_micros) same in
    let excess_now : row_excess r ≡ 0 =
      ap (λ x. excess_of x r.material.reserved_cost_micros) same in
    let count_now : row_count r ≡ 1 = ap counts same in
    record {
      cost_fair = omega (arith, cost, cost_now, excess_now);
      count_fair = omega (arith, count, count_now);
    }

or_lost-IsNoWorse :
    (run id digest : String) (f : Reservation → Status) (rows after : List Reservation)
    → ((r : Reservation) → is_updatable id digest r ≡ true → IsFair f r)
    → or_lost (with_status (is_updatable id digest) f rows) ≡ returned after
    → IsNoWorse run rows after
or_lost-IsNoWorse run id digest f rows after fair h =
    elim (Option-cases (with_status (is_updatable id digest) f rows)) [
      | inl lost ↦ absurd (cc (rw (or_lost, lost) at h))
      | inr (x, found) ↦
          let same : x ≡ after = returned-inj (rw (or_lost, found) at h) in
          rw (← same) (with_status-IsNoWorse run (is_updatable id digest) f rows x fair found)
    ]

reported-IsNoWorse :
    (run : String) (i : CompleteInput) (now : ℕ) (rows after : List Reservation)
    → or_lost (
        with_status
          (is_updatable i.reservation_id i.reservation_digest)
          (λ x. completed i.report i.binding.fencing_generation now)
          rows)
      ≡ returned after
    → IsNoWorse run rows after
reported-IsNoWorse run i now rows after h =
    or_lost-IsNoWorse run i.reservation_id i.reservation_digest
      (λ x. completed i.report i.binding.fencing_generation now) rows after
      (λ x.
        updatable-IsFair i.reservation_id i.reservation_digest
          (λ y. completed i.report i.binding.fencing_generation now) x (omega arith) (omega arith))
      h

charged-IsNoWorse :
    (run id digest : String) (s : Settlement) (mark : String) (rows after : List Reservation)
    → or_lost (
        with_status
          (is_updatable id digest)
          (λ x. settled_unknown x.material.reserved_cost_micros s mark)
          rows)
      ≡ returned after
    → IsNoWorse run rows after
charged-IsNoWorse run id digest s mark rows after h =
    or_lost-IsNoWorse run id digest (λ x. settled_unknown x.material.reserved_cost_micros s mark)
      rows after
      (λ x.
        updatable-IsFair id digest (λ y. settled_unknown y.material.reserved_cost_micros s mark) x
          (omega arith) (omega arith))
      h

kept_or : (run : String) (rows after : List Reservation) → (rows ≡ after) → IsNoWorse run rows after
kept_or run rows after same = rw (← same) (IsNoWorse-refl run rows)

completed-IsNoWorse :
    (run : String) (i : CompleteInput) (now : ℕ) (m : Material) (digest : String) (s : Status)
    (rows after : List Reservation)
    → completed_rows i now (record { material = m; reservation_digest = digest; status = s }) rows
      ≡ returned after
    → IsNoWorse run rows after
completed-IsNoWorse run i now m digest reserved rows after h =
    reported-IsNoWorse run i now rows after h
completed-IsNoWorse run i now m digest (denied reason x) rows after h =
    reported-IsNoWorse run i now rows after h
completed-IsNoWorse run i now m digest (settled_unknown a x y) rows after h =
    reported-IsNoWorse run i now rows after h
completed-IsNoWorse run i now m digest (completed report g at) rows after h =
    elim (Bool-cases (report_eq report i.report)) [
      | inl same ↦ kept_or run rows after (returned-inj (rw same at h))
      | inr other ↦ absurd (cc (rw other at h))
    ]

settled-IsNoWorse :
    (run : String) (d : Digests) (s : Settlement) (m : Material) (digest : String) (t : Status)
    (rows after : List Reservation)
    → settled_rows d s (record { material = m; reservation_digest = digest; status = t }) rows
      ≡ returned after
    → IsNoWorse run rows after
settled-IsNoWorse run d s m digest (completed report g at) rows after h =
    kept_or run rows after (returned-inj h)
settled-IsNoWorse run d s m digest (denied reason x) rows after h =
    kept_or run rows after (returned-inj h)
settled-IsNoWorse run d s m digest (settled_unknown a x y) rows after h =
    let r : Reservation = record {
      material = m;
      reservation_digest = digest;
      status = settled_unknown a x y;
    } in
    elim (Bool-cases
      (a == m.reserved_cost_micros && settlement_eq x s && str_eq y (d.settlement_digest r x))) [
        | inl same ↦ kept_or run rows after (returned-inj (rw same at h))
        | inr other ↦ absurd (cc (rw other at h))
      ]
settled-IsNoWorse run d s m digest reserved rows after h =
    let r : Reservation = record { material = m; reservation_digest = digest; status = reserved } in
    elim (Bool-cases (m.reserved_cost_micros == 0)) [
      | inl free ↦ absurd (cc (rw free at h))
      | inr paid ↦
          charged-IsNoWorse run m.reservation_id digest s (d.settlement_digest r s) rows after
            (rw paid at h)
    ]

complete_row-IsNoWorse :
    (run : String) (d : Digests) (i : CompleteInput) (now : ℕ) (rows : List Reservation)
    (p : Policy) (o : Option Reservation) (x : Completed)
    → complete_row d i now rows p o ≡ returned x
    → IsNoWorse run rows x.rows
complete_row-IsNoWorse run d i now rows p none x h = absurd (cc h)
complete_row-IsNoWorse run d i now rows p (some r) x h = elim (Bool-cases (binds d i p r)) [
  | inr other ↦ absurd (cc (rw other at h))
  | inl bound ↦
      let (after, changed, later) =
        >>=-eq-returned (completed_rows i now r rows) (with_usage i now p r) (rw bound at h) in
      let (u, sums, last) =
        >>=-eq-returned (usage_of i.binding.run_id after) (result i now p r after) later in
      rw (← returned-inj last)
        (completed-IsNoWorse run i now r.material r.reservation_digest r.status rows after changed)
]

pub complete-IsNoWorse :
    (run : String) (d : Digests) (i : CompleteInput) (row : Option RunRow)
    (admission : Option Admission) (now : ℕ) (rows : List Reservation) (x : Completed)
    → complete_provider_budget d i row admission now rows ≡ returned x
    → IsNoWorse run rows x.rows
unfolding complete_provider_budget
complete-IsNoWorse run d i row admission now rows x h =
    let (p, bound, later) =
      >>=-eq-returned (assert_current_binding i.owner_id i.binding row admission)
        (complete_bound d i row now rows) h in
    elim (Bool-cases (phase_frozen row)) [
      | inl frozen ↦ absurd (cc (rw (complete_bound, frozen) at later))
      | inr live ↦
          let (q, limited, last) =
            >>=-eq-returned (assert_limits p i.limits)
              (λ l. complete_row d i now rows l (find (has_id i.reservation_id) rows))
              (rw (complete_bound, live) at later) in
          complete_row-IsNoWorse run d i now rows q (find (has_id i.reservation_id) rows) x last
    ]

pub settle-IsNoWorse :
    (run : String) (d : Digests) (intent_id : String) (x : Intent) (s : Settlement)
    (rows after : List Reservation)
    → settle_unknown d intent_id x s rows ≡ returned after
    → IsNoWorse run rows after
unfolding settle_unknown
settle-IsNoWorse run d intent_id x s rows after h =
    elim (Bool-cases (ltb s.generation x.fencing_generation)) [
      | inl stale ↦ absurd (cc (rw (settle_unknown, stale) at h))
      | inr fresh ↦ elim (Option-cases (find (has_effect x.effect_key) rows)) [
        | inl missing ↦
            kept_or run rows after (returned-inj (rw (settle_unknown, fresh, missing) at h))
        | inr (r, found) ↦ elim (Bool-cases (is_of_intent d intent_id x s r)) [
          | inr other ↦ absurd (cc (rw (settle_unknown, fresh, found, other) at h))
          | inl its ↦
              settled-IsNoWorse run d s r.material r.reservation_digest r.status rows after
                (rw (settle_unknown, fresh, found, its) at h)
        ]
      ]
    ]
