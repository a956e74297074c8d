-- ===== src/Asf/ProviderBudget/Request.antt =====
-- What `reserveAsfProviderBudget` is given and reads, and how its request is bound (src/state/store.ts).
use runmill.Base.{ℕ, Bool, true, false, ◌&&◌, ◌==◌, leb, List, Option, none, some, String, str_eq}
use runmill.Asf.ProviderBudget.{
  Role, implementer, fixer, local_reviewer, pr_reviewer, Reason, Reservation, Digests, Policy,
  Limits, Binding, RunRow, Admission, option_eq, role_eq,
}

pub data Stage : Type 0 where
  candidate local_review pull_request_review other_stage : Stage

-- The durable delivery intent.
pub record Intent : Type 0 where
  pub effect_key : String
  pub intent_digest : String
  pub run_id : String
  pub work_order_id : String
  pub attempt_id : String
  pub policy_digest : String
  pub candidate_sha : Option String
  pub fencing_generation : ℕ
  pub stage : Stage

pub record ReserveInput : Type 0 where
  pub owner_id : String
  pub binding : Binding
  pub effect_key : String
  pub intent_id : String
  pub intent_digest : String
  pub intent_generation : ℕ
  pub observes_before_apply : Bool
  pub role : Role
  pub invocation_id : String
  pub provider_candidate_sha : String
  pub limits : Limits

-- What the transaction reads beside the ledger.
pub record Read : Type 0 where
  pub run : Option RunRow
  pub admission : Option Admission
  pub intent : Option Intent
  pub has_terminal_plan : Bool

pub record Granted : Type 0 where
  pub reservation_id : String
  pub reservation_digest : String
  pub may_invoke : Bool
  pub accepted_at : ℕ
  pub deadline_at : ℕ
  pub remaining_wall_ms : ℕ
  pub reserved_cost_micros : ℕ
  pub invocation_ordinal : ℕ
  pub max_agent_invocations : ℕ

pub data Decision : Type 0 where
  grants : Granted → Decision
  exhausted : Reason → String → Decision

pub record Reserved : Type 0 where
  pub decision : Decision
  pub rows : List Reservation

abbrev pub matches_intent : ReserveInput → Intent → Bool
matches_intent i x =
    str_eq x.effect_key i.effect_key
    && str_eq x.intent_digest i.intent_digest
    && str_eq x.run_id i.binding.run_id
    && str_eq x.work_order_id i.binding.work_order_id
    && str_eq x.attempt_id i.binding.attempt_id
    && str_eq x.policy_digest i.binding.policy_digest
    && option_eq x.candidate_sha i.binding.candidate_sha
    && x.fencing_generation == i.intent_generation
    && leb x.fencing_generation i.binding.fencing_generation

abbrev pub expected_role : Stage → Option String → Option Role
expected_role candidate none = some implementer
expected_role candidate (some sha) = some fixer
expected_role local_review sha = some local_reviewer
expected_role pull_request_review sha = some pr_reviewer
expected_role other_stage sha = none

abbrev pub or_base : Option String → Option String → Option String
or_base none base = base
or_base (some sha) base = some sha

abbrev pub expected_candidate : Stage → RunRow → Option String
expected_candidate candidate r = or_base r.candidate_sha r.base_commit
expected_candidate _ r = r.candidate_sha

abbrev pub is_role : Role → Option Role → Bool
is_role a none = false
is_role a (some b) = role_eq a b

-- On the stage of a candidate the invocation is the one that its effect names.
abbrev pub is_named : Digests → ReserveInput → Stage → Bool
is_named d i candidate = str_eq i.invocation_id (d.invocation_id_of i.effect_key i.role)
is_named d i _ = true

abbrev pub is_expected : Digests → ReserveInput → RunRow → Stage → Bool
is_expected d i r stage =
    is_role i.role (expected_role stage r.candidate_sha)
    && option_eq (some i.provider_candidate_sha) (expected_candidate stage r)
    && is_named d i stage

abbrev pub has_effect : String → Reservation → Bool
has_effect key r = str_eq r.material.effect_key key

-- Does the row bind this request?
abbrev pub is_replay : Digests → ReserveInput → Policy → Reservation → Bool
is_replay d i p r =
    str_eq r.material.reservation_id (d.reservation_id_of i.effect_key i.role i.invocation_id)
    && str_eq r.reservation_digest (d.material_digest r.material)
    && str_eq r.material.intent_id i.intent_id
    && str_eq r.material.intent_digest i.intent_digest
    && str_eq r.material.run_id i.binding.run_id
    && str_eq r.material.work_order_id i.binding.work_order_id
    && str_eq r.material.attempt_id i.binding.attempt_id
    && str_eq r.material.policy_digest i.binding.policy_digest
    && option_eq r.material.lifecycle_candidate_sha i.binding.candidate_sha
    && str_eq r.material.provider_candidate_sha i.provider_candidate_sha
    && role_eq r.material.role i.role
    && str_eq r.material.invocation_id i.invocation_id
    && r.material.initial_generation == i.intent_generation
    && leb r.material.initial_generation i.binding.fencing_generation
    && r.material.max_cost_micros == p.max_cost_micros
    && r.material.max_agent_invocations == p.max_agent_invocations
    && r.material.accepted_at == p.accepted_at
    && r.material.deadline_at == p.deadline_at

-- The rows of the run up to this one that are not denied; `before` is the order of reservation ids.
