-- ===== src/Asf/ProviderBudget/Updates.antt =====
-- The rows that a completion or a settlement writes (src/state/store.ts).
use runmill.Base.{
  ℕ, Bool, true, false, not, ◌&&◌, ◌==◌, ltb, leb, List, [], ◌∷◌, Option, none, some, String,
  str_eq, Outcome, returned, thrown, ◌>>=◌, find, if◌then◌else◌,
}
use runmill.Asf.ProviderBudget.{
  Role, Report, Status, reserved, completed, denied, settled_unknown, Reservation, Digests,
  BudgetError, frozen_phase, contradictory_row, conflicting_report, lost_reservation, Policy,
  Limits, Binding, RunRow, option_eq, role_eq, assert_limits, phase_frozen, Usage, usage_of,
}

pub record CompleteInput : Type 0 where
  pub owner_id : String
  pub binding : Binding
  pub reservation_id : String
  pub reservation_digest : String
  pub effect_key : String
  pub intent_id : String
  pub intent_digest : String
  pub role : Role
  pub invocation_id : String
  pub provider_candidate_sha : String
  pub report : Report
  pub limits : Limits

pub record Completed : Type 0 where
  pub usage : Usage
  pub exceeded_reserved_cost : Bool
  pub completed_after_deadline : Bool
  pub rows : List Reservation

abbrev pub has_id : String → Reservation → Bool
has_id id r = str_eq r.material.reservation_id id

abbrev pub is_denied : Status → Bool
is_denied (denied reason digest) = true
is_denied _ = false

-- Does the row bind this completion?
abbrev pub binds : Digests → CompleteInput → Policy → Reservation → Bool
binds d i p r =
    str_eq r.reservation_digest (d.material_digest r.material)
    && str_eq r.reservation_digest i.reservation_digest
    && str_eq r.material.effect_key i.effect_key
    && str_eq r.material.intent_id i.intent_id
    && str_eq r.material.intent_digest i.intent_digest
    && str_eq r.material.run_id i.binding.run_id
    && str_eq r.material.work_order_id i.binding.work_order_id
    && str_eq r.material.attempt_id i.binding.attempt_id
    && str_eq r.material.policy_digest i.binding.policy_digest
    && option_eq r.material.lifecycle_candidate_sha i.binding.candidate_sha
    && str_eq r.material.provider_candidate_sha i.provider_candidate_sha
    && role_eq r.material.role i.role
    && str_eq r.material.invocation_id i.invocation_id
    && leb r.material.initial_generation i.binding.fencing_generation
    && r.material.max_cost_micros == p.max_cost_micros
    && r.material.max_agent_invocations == p.max_agent_invocations
    && r.material.accepted_at == p.accepted_at
    && r.material.deadline_at == p.deadline_at
    && not (is_denied r.status)

abbrev pub report_eq : Report → Report → Bool
report_eq a b =
    a.actual_cost_micros == b.actual_cost_micros
    && str_eq a.provider_result_digest b.provider_result_digest
    && str_eq a.provider b.provider
    && str_eq a.model b.model
    && str_eq a.principal b.principal
    && str_eq a.profile b.profile

abbrev pub is_reserved : Status → Bool
is_reserved reserved = true
is_reserved _ = false

-- The conditions of the `UPDATE`: `WHERE reservation_id = ? AND reservation_digest = ? AND status = 'reserved'`.
abbrev pub is_updatable : String → String → Reservation → Bool
is_updatable id digest r = has_id id r && str_eq r.reservation_digest digest && is_reserved r.status

-- The row of a primary key, given a status; `none` is an update that changes no row.
unfoldable pub with_status :
    (Reservation → Bool) → (Reservation → Status) → List Reservation → Option (List Reservation)
with_status p f [] = none
with_status p f (r ∷ rs) =
    let rest = with_status p f rs in
    if p r
    then some (record r { status = f r } ∷ rs)
    else elim rest [ none ↦ none | some after ↦ some (r ∷ after) ]

abbrev pub or_lost : Option (List Reservation) → Outcome BudgetError (List Reservation)
or_lost none = thrown lost_reservation
or_lost (some rows) = returned rows

-- The rows after a completion of this row.
abbrev pub completed_rows :
    CompleteInput → ℕ → Reservation → List Reservation → Outcome BudgetError (List Reservation)
completed_rows i now r rows =
    let updated = or_lost (
      with_status (is_updatable i.reservation_id i.reservation_digest)
        (λ x. completed i.report i.binding.fencing_generation now) rows) in
    elim r.status [
      | completed report generation at ↦
          if report_eq report i.report then returned rows else thrown conflicting_report
      | reserved ↦ updated
      | denied reason digest ↦ updated
      | settled_unknown actual s digest ↦ updated
    ]

abbrev pub result :
    CompleteInput
    → ℕ
    → Policy
    → Reservation
    → List Reservation
    → Usage
    → Outcome BudgetError Completed
result i now p r after usage = returned (record {
  usage = usage;
  exceeded_reserved_cost = ltb r.material.reserved_cost_micros i.report.actual_cost_micros;
  completed_after_deadline = leb p.deadline_at now;
  rows = after;
})

abbrev pub with_usage :
    CompleteInput → ℕ → Policy → Reservation → List Reservation → Outcome BudgetError Completed
with_usage i now p r after = usage_of i.binding.run_id after >>= result i now p r after

abbrev pub complete_row :
    Digests
    → CompleteInput
    → ℕ
    → List Reservation
    → Policy
    → Option Reservation
    → Outcome BudgetError Completed
complete_row d i now rows p none = thrown contradictory_row
complete_row d i now rows p (some r) =
    if not (binds d i p r)
    then thrown contradictory_row
    else completed_rows i now r rows >>= with_usage i now p r

-- Once the binding is checked.
abbrev pub complete_bound :
    Digests
    → CompleteInput
    → Option RunRow
    → ℕ
    → List Reservation
    → Policy
    → Outcome BudgetError Completed
complete_bound d i run now rows authoritative =
    if phase_frozen run
    then thrown frozen_phase
    else assert_limits authoritative i.limits >>= λ p.
        complete_row d i now rows p (find (has_id i.reservation_id) rows)
