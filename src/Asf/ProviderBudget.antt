-- ===== src/Asf/ProviderBudget.antt =====
-- The ledger of provider budgets of ASF runs (src/state/store.ts): rows of
-- asf_provider_budget_reservations, their sums, and the bindings that every call checks. Texts are taken
-- well formed, instants are numbers, and digests and the identifiers made from them are parameters.
pub mod Request
pub mod Reserve
pub mod Updates
pub mod Complete
pub mod Checks
pub mod Charges
pub mod Rows
pub mod Fits
pub mod Bounds
use runmill.Base.{
  ℕ, ◌+◌, Bool, true, false, not, ◌&&◌, ◌||◌, ◌==◌, leb, List, [], ◌∷◌, Option, none, some, String,
  str_eq, Outcome, returned, thrown, if◌then◌else◌,
}
use runmill.Asf.Phase.{
  Phase, includes, cancel_requested, cancelling, waiting_approval, needs_spec, blocked_external,
  is_terminal_run_event_phase,
}
use runmill.State.Breakers.{max_safe_integer}

-- AsfProviderBudgetRole
pub data Role : Type 0 where
  implementer fixer local_reviewer pr_reviewer : Role

-- AsfProviderBudgetExhaustionReason
pub data Reason : Type 0 where
  wall_deadline cost_limit invocation_limit : Reason

-- The immutable part of a row, asfBudgetReservationMaterial.
pub record Material : Type 0 where
  pub reservation_id : String
  pub effect_key : String
  pub intent_id : String
  pub intent_digest : String
  pub run_id : String
  pub work_order_id : String
  pub attempt_id : String
  pub policy_digest : String
  pub initial_generation : ℕ
  pub lifecycle_candidate_sha : Option String
  pub provider_candidate_sha : String
  pub role : Role
  pub invocation_id : String
  pub reserved_cost_micros : ℕ
  pub max_cost_micros : ℕ
  pub max_agent_invocations : ℕ
  pub accepted_at : ℕ
  pub deadline_at : ℕ
  pub created_at : ℕ

-- What a provider reports.
pub record Report : Type 0 where
  pub actual_cost_micros : ℕ
  pub provider_result_digest : String
  pub provider : String
  pub model : String
  pub principal : String
  pub profile : String

pub data Settled : Type 0 where
  confirmed not_applied : Settled

pub record Settlement : Type 0 where
  pub outcome : Settled
  pub observation_digest : String
  pub generation : ℕ
  pub at : ℕ

-- The status of a row, with the columns that it fills: the schema's CHECK keeps the others empty.
pub data Status : Type 0 where
  reserved : Status
  completed : Report → ℕ → ℕ → Status
  denied : Reason → String → Status
  settled_unknown : ℕ → Settlement → String → Status

-- AsfProviderBudgetReservationRecord
pub record Reservation : Type 0 where
  pub material : Material
  pub reservation_digest : String
  pub status : Status

-- The digests of the source, and the identifiers that it makes from them.
pub record Digests : Type 0 where
  pub reservation_id_of : String → Role → String → String
  pub invocation_id_of : String → Role → String
  pub material_digest : Material → String
  pub denial_digest : String → Reason → ℕ → ℕ → ℕ → String
  pub settlement_digest : Reservation → Settlement → String

pub data BudgetError : Type 0 where
  stale_worker contradictory_binding malformed_limits other_limits : BudgetError
  other_intent frozen_phase contradictory_role contradictory_row incomplete_row : BudgetError
  cleanup_planned corrupt_ledger constraint_failed conflicting_report lost_reservation : BudgetError
  no_chargeable_reservation : BudgetError

-- EffectiveAsfBudgetPolicy
pub record Policy : Type 0 where
  pub wall_seconds : ℕ
  pub max_cost_micros : ℕ
  pub max_agent_invocations : ℕ
  pub accepted_at : ℕ
  pub deadline_at : ℕ

-- StateAsfBudgetLimits
pub record Limits : Type 0 where
  pub wall_seconds : ℕ
  pub max_cost_micros : ℕ
  pub max_agent_invocations : ℕ

-- StateAsfBudgetBinding
pub record Binding : Type 0 where
  pub run_id : String
  pub work_order_id : String
  pub attempt_id : String
  pub policy_digest : String
  pub fencing_generation : ℕ
  pub candidate_sha : Option String

-- The run's row, as far as the calls read it, and its admission with the policy read from it.
pub record RunRow : Type 0 where
  pub work_order_id : String
  pub attempt_id : String
  pub owner_id : Option String
  pub generation : ℕ
  pub state : Phase
  pub candidate_sha : Option String
  pub base_commit : Option String

pub record Admission : Type 0 where
  pub work_order_id : String
  pub attempt_id : String
  pub effective_policy_digest : String
  pub policy : Policy

abbrev pub option_eq : Option String → Option String → Bool
option_eq none none = true
option_eq (some a) (some b) = str_eq a b
option_eq _ _ = false

abbrev pub role_eq : Role → Role → Bool
role_eq implementer implementer = true
role_eq fixer fixer = true
role_eq local_reviewer local_reviewer = true
role_eq pr_reviewer pr_reviewer = true
role_eq _ _ = false

abbrev pub owned_by : String → RunRow → Bool
owned_by owner r = elim r.owner_id [ none ↦ false | some o ↦ str_eq o owner ]

-- `#assertCurrentAsfBudgetBinding`, on the rows that it reads.
unfoldable pub assert_current_binding :
    String → Binding → Option RunRow → Option Admission → Outcome BudgetError Policy
assert_current_binding owner b none admission = thrown stale_worker
assert_current_binding owner b (some r) none = thrown stale_worker
assert_current_binding owner b (some r) (some a) =
    if not (owned_by owner r) || not (r.generation == b.fencing_generation)
    then thrown stale_worker
    else if not (str_eq r.work_order_id b.work_order_id)
        || not (str_eq r.attempt_id b.attempt_id)
        || not (str_eq a.work_order_id b.work_order_id)
        || not (str_eq a.attempt_id b.attempt_id)
        || not (str_eq a.effective_policy_digest b.policy_digest)
        || not (option_eq r.candidate_sha b.candidate_sha)
    then thrown contradictory_binding
    else returned a.policy

-- `#assertAsfBudgetLimits`
unfoldable pub assert_limits : Policy → Limits → Outcome BudgetError Policy
assert_limits p l =
    if not (leb 1 l.wall_seconds && leb l.wall_seconds max_safe_integer)
      || not (leb l.max_cost_micros max_safe_integer)
      || not (leb 1 l.max_agent_invocations && leb l.max_agent_invocations max_safe_integer)
    then thrown malformed_limits
    else if not (l.wall_seconds == p.wall_seconds)
        || not (l.max_cost_micros == p.max_cost_micros)
        || not (l.max_agent_invocations == p.max_agent_invocations)
    then thrown other_limits
    else returned p

-- `asfPhaseFreezesExternalAuthority`
abbrev pub freezes : Phase → Bool
freezes p =
    includes (cancel_requested ∷ cancelling ∷ waiting_approval ∷ needs_spec ∷ blocked_external ∷ [])
      p
    || is_terminal_run_event_phase p

abbrev pub phase_frozen : Option RunRow → Bool
phase_frozen none = false
phase_frozen (some r) = freezes r.state

-- What a row is charged with, and whether it counts as an invocation.
abbrev pub cost_of : Status → ℕ → ℕ
cost_of reserved cap = cap
cost_of (completed report generation at) cap = report.actual_cost_micros
cost_of (denied reason digest) cap = 0
cost_of (settled_unknown actual settlement digest) cap = actual

abbrev pub counts : Status → ℕ
counts (denied reason digest) = 0
counts _ = 1

-- The sums of `#asfProviderBudgetUsage` over the rows of a run.
abbrev pub sum_of : (Reservation → ℕ) → String → List Reservation → ℕ
sum_of f run [] = 0
sum_of f run (r ∷ rs) =
    let rest = sum_of f run rs in if str_eq r.material.run_id run then f r + rest else rest

abbrev pub row_cost : Reservation → ℕ
row_cost r = cost_of r.status r.material.reserved_cost_micros

abbrev pub row_count : Reservation → ℕ
row_count r = counts r.status

abbrev pub conservative_cost : String → List Reservation → ℕ
conservative_cost run rows = sum_of row_cost run rows

abbrev pub invocation_count : String → List Reservation → ℕ
invocation_count run rows = sum_of row_count run rows

abbrev pub row_denied : Reservation → ℕ
row_denied r = elim r.status [
  | reserved ↦ 0
  | completed report generation at ↦ 0
  | denied reason digest ↦ 1
  | settled_unknown actual settlement digest ↦ 0
]

pub record Usage : Type 0 where
  pub conservative_cost_micros : ℕ
  pub invocations : ℕ

-- Sums above the safe integers are refused; those of one status are parts of the two first ones.
unfoldable pub usage_of : String → List Reservation → Outcome BudgetError Usage
usage_of run rows =
    if not (leb (conservative_cost run rows) max_safe_integer)
      || not (leb (invocation_count run rows) max_safe_integer)
      || not (leb (sum_of row_denied run rows) max_safe_integer)
    then thrown corrupt_ledger
    else returned (record {
      conservative_cost_micros = conservative_cost run rows;
      invocations = invocation_count run rows;
    })
