-- ===== src/Asf/ProviderBudget/Complete.antt =====
-- The transactions of `completeAsfProviderBudget`, of a settlement without a report, and of
-- `checkAsfRunBudget` (src/state/store.ts).
use runmill.Base.{
  ℕ, Bool, true, false, ◌&&◌, ◌==◌, ltb, leb, List, Option, none, some, String, str_eq, Outcome,
  returned, thrown, ◌>>=◌, find, if◌then◌else◌,
}
use runmill.Asf.ProviderBudget.Request.{Intent, has_effect}
use runmill.Asf.ProviderBudget.{
  Reason, wall_deadline, cost_limit, Settled, confirmed, not_applied, Settlement, reserved,
  completed, denied, settled_unknown, Reservation, Digests, BudgetError, contradictory_row,
  no_chargeable_reservation, Limits, Binding, RunRow, Admission, option_eq, assert_current_binding,
  assert_limits, usage_of,
}
use runmill.Asf.ProviderBudget.Updates.{
  CompleteInput, Completed, is_updatable, with_status, or_lost, complete_bound,
}

-- `completeAsfProviderBudget`
unfoldable pub complete_provider_budget :
    Digests
    → CompleteInput
    → Option RunRow
    → Option Admission
    → ℕ
    → List Reservation
    → Outcome BudgetError Completed
complete_provider_budget d i run admission now rows =
    assert_current_binding i.owner_id i.binding run admission >>= complete_bound d i run now rows

abbrev pub settled_eq : Settled → Settled → Bool
settled_eq confirmed confirmed = true
settled_eq not_applied not_applied = true
settled_eq _ _ = false

abbrev pub settlement_eq : Settlement → Settlement → Bool
settlement_eq a b =
    settled_eq a.outcome b.outcome
    && str_eq a.observation_digest b.observation_digest
    && a.generation == b.generation
    && a.at == b.at

-- Is the row the one of this intent?
abbrev pub is_of_intent : Digests → String → Intent → Settlement → Reservation → Bool
is_of_intent d intent_id x s r =
    str_eq r.material.reservation_id
      (d.reservation_id_of r.material.effect_key r.material.role r.material.invocation_id)
    && str_eq r.reservation_digest (d.material_digest r.material)
    && str_eq r.material.effect_key x.effect_key
    && str_eq r.material.intent_id intent_id
    && str_eq r.material.intent_digest x.intent_digest
    && str_eq r.material.run_id x.run_id
    && str_eq r.material.work_order_id x.work_order_id
    && str_eq r.material.attempt_id x.attempt_id
    && str_eq r.material.policy_digest x.policy_digest
    && option_eq r.material.lifecycle_candidate_sha x.candidate_sha
    && r.material.initial_generation == x.fencing_generation
    && leb r.material.initial_generation s.generation

abbrev pub settled_rows :
    Digests → Settlement → Reservation → List Reservation → Outcome BudgetError (List Reservation)
settled_rows d s r rows =
    let charged = or_lost (
      with_status (is_updatable r.material.reservation_id r.reservation_digest)
        (λ x. settled_unknown x.material.reserved_cost_micros s (d.settlement_digest r s)) rows) in
    elim r.status [
      | completed report generation at ↦ returned rows
      | denied reason digest ↦ returned rows
      | settled_unknown actual prior digest ↦
          if actual == r.material.reserved_cost_micros
            && settlement_eq prior s
            && str_eq digest (d.settlement_digest r prior)
          then returned rows
          else thrown contradictory_row
      | reserved ↦
          if r.material.reserved_cost_micros == 0 then thrown no_chargeable_reservation else charged
    ]

-- `#settleUnknownAsfProviderBudgetForIntent`: a call whose cost stayed unknown is charged in full.
unfoldable pub settle_unknown :
    Digests
    → String
    → Intent
    → Settlement
    → List Reservation
    → Outcome BudgetError (List Reservation)
settle_unknown d intent_id x s rows =
    if ltb s.generation x.fencing_generation
    then thrown contradictory_row
    else elim (find (has_effect x.effect_key) rows) [
      | none ↦ returned rows
      | some r ↦
          if is_of_intent d intent_id x s r
          then settled_rows d s r rows
          else thrown contradictory_row
    ]

pub data Check : Type 0 where
  available : Check
  run_exhausted : Reason → Check

-- `checkAsfRunBudget`
unfoldable pub check_run_budget :
    String
    → Binding
    → Limits
    → Option RunRow
    → Option Admission
    → ℕ
    → List Reservation
    → Outcome BudgetError Check
check_run_budget owner b l run admission now rows =
    assert_current_binding owner b run admission >>= λ authoritative.
    (assert_limits authoritative l >>= λ p.
    (usage_of b.run_id rows >>= λ u. returned (
      if leb p.deadline_at now
      then run_exhausted wall_deadline
      else if ltb p.max_cost_micros u.conservative_cost_micros
      then run_exhausted cost_limit
      else available)))
