-- ===== src/Asf/ProviderBudget/Reserve.antt =====
-- The transaction of `reserveAsfProviderBudget`, and `checkAsfRunBudget` (src/state/store.ts).
use runmill.Base.{
  ℕ, ◌+◌, ◌-◌, Bool, false, not, ◌&&◌, ◌||◌, ◌==◌, ltb, leb, List, [], ◌∷◌, ◌++◌, Option, none,
  some, String, str_eq, Outcome, returned, thrown, ◌>>=◌, any, find, length, keep, if◌then◌else◌,
}
use runmill.Asf.ProviderBudget.{
  Reason, wall_deadline, cost_limit, invocation_limit, Material, Settlement, Status, reserved,
  completed, denied, settled_unknown, Reservation, Digests, BudgetError, other_intent, frozen_phase,
  contradictory_role, contradictory_row, incomplete_row, cleanup_planned, constraint_failed, Policy,
  RunRow, assert_current_binding, assert_limits, phase_frozen, counts, Usage, usage_of,
}
use runmill.Asf.ProviderBudget.Request.{
  Stage, ReserveInput, Read, Granted, Decision, Reserved, matches_intent, is_expected, has_effect,
  is_replay, grants, exhausted,
}

abbrev pub ordinal : (String → String → Bool) → Material → List Reservation → ℕ
ordinal before m rows = length (
    keep
      (λ r.
        str_eq r.material.run_id m.run_id
        && counts r.status == 1
        && (ltb r.material.created_at m.created_at
            || (r.material.created_at == m.created_at
                && before r.material.reservation_id m.reservation_id)))
      rows)

abbrev pub replayed :
    (String → String → Bool) → Policy → ℕ → Reservation → List Reservation → Usage → Granted
replayed before p now r rows usage = record {
  reservation_id = r.material.reservation_id;
  reservation_digest = r.reservation_digest;
  may_invoke = false;
  accepted_at = p.accepted_at;
  deadline_at = p.deadline_at;
  remaining_wall_ms = p.deadline_at - now;
  reserved_cost_micros = 0;
  invocation_ordinal = ordinal before r.material rows;
  max_agent_invocations = p.max_agent_invocations;
}

abbrev pub again :
    (String → String → Bool)
    → Policy
    → ℕ
    → List Reservation
    → Reservation
    → Usage
    → Outcome BudgetError Reserved
again before p now rows r usage =
    if leb 1 (ordinal before r.material rows)
    then returned (record { decision = grants (replayed before p now r rows usage); rows = rows })
    else thrown contradictory_row

-- A settlement is complete: the whole reservation is charged, under its own digest.
abbrev pub is_settled : Digests → Reservation → ℕ → Settlement → String → Bool
is_settled d r actual s digest =
    actual == r.material.reserved_cost_micros && str_eq digest (d.settlement_digest r s)

-- The decision of a row that binds the request, by its status.
abbrev pub by_status :
    Digests
    → (String → String → Bool)
    → ReserveInput
    → Policy
    → ℕ
    → List Reservation
    → Reservation
    → Status
    → Outcome BudgetError Reserved
by_status d before i p now rows r (denied reason digest) =
    returned (record { decision = exhausted reason digest; rows = rows })
by_status d before i p now rows r (settled_unknown actual s digest) =
    if is_settled d r actual s digest
    then returned (record { decision = exhausted cost_limit digest; rows = rows })
    else thrown incomplete_row
by_status d before i p now rows r _ = usage_of i.binding.run_id rows >>= again before p now rows r

-- A row of this effect is there: its decision is given again, and nothing is written.
abbrev pub replay :
    Digests
    → (String → String → Bool)
    → ReserveInput
    → Policy
    → ℕ
    → List Reservation
    → Reservation
    → Outcome BudgetError Reserved
replay d before i p now rows r =
    if is_replay d i p r
    then by_status d before i p now rows r r.status
    else thrown contradictory_row

-- Why a new reservation is refused.
abbrev pub refusal : Policy → Usage → ℕ → Option Reason
refusal p u now =
    if leb p.deadline_at now
    then some wall_deadline
    else if leb p.max_agent_invocations u.invocations
    then some invocation_limit
    else if leb p.max_cost_micros u.conservative_cost_micros
    then some cost_limit
    else none

abbrev pub reserved_cost : Policy → Usage → Option Reason → ℕ
reserved_cost p u none = p.max_cost_micros - u.conservative_cost_micros
reserved_cost p u (some reason) = 0

abbrev pub new_material : Digests → ReserveInput → Policy → ℕ → ℕ → Material
new_material d i p cost now = record {
  reservation_id = d.reservation_id_of i.effect_key i.role i.invocation_id;
  effect_key = i.effect_key;
  intent_id = i.intent_id;
  intent_digest = i.intent_digest;
  run_id = i.binding.run_id;
  work_order_id = i.binding.work_order_id;
  attempt_id = i.binding.attempt_id;
  policy_digest = i.binding.policy_digest;
  initial_generation = i.intent_generation;
  lifecycle_candidate_sha = i.binding.candidate_sha;
  provider_candidate_sha = i.provider_candidate_sha;
  role = i.role;
  invocation_id = i.invocation_id;
  reserved_cost_micros = cost;
  max_cost_micros = p.max_cost_micros;
  max_agent_invocations = p.max_agent_invocations;
  accepted_at = p.accepted_at;
  deadline_at = p.deadline_at;
  created_at = now;
}

abbrev pub new_status : Digests → Usage → ℕ → String → Option Reason → Status
new_status d u now digest none = reserved
new_status d u now digest (some reason) =
    denied reason (d.denial_digest digest reason u.conservative_cost_micros u.invocations now)

abbrev pub row_for : Digests → ReserveInput → Policy → Usage → ℕ → Option Reason → Reservation
row_for d i p u now reason =
    let m = new_material d i p (reserved_cost p u reason) now in
    record {
      material = m;
      reservation_digest = d.material_digest m;
      status = new_status d u now (d.material_digest m) reason;
    }

abbrev pub new_row : Digests → ReserveInput → Policy → Usage → ℕ → Reservation
new_row d i p u now = row_for d i p u now (refusal p u now)

abbrev pub granted : ReserveInput → Policy → Usage → ℕ → Reservation → Granted
granted i p u now r = record {
  reservation_id = r.material.reservation_id;
  reservation_digest = r.reservation_digest;
  may_invoke = i.observes_before_apply;
  accepted_at = p.accepted_at;
  deadline_at = p.deadline_at;
  remaining_wall_ms = p.deadline_at - now;
  reserved_cost_micros = r.material.reserved_cost_micros;
  invocation_ordinal = u.invocations + 1;
  max_agent_invocations = p.max_agent_invocations;
}

abbrev pub decided : ReserveInput → Policy → Usage → ℕ → Reservation → Decision
decided i p u now r = elim r.status [
  | reserved ↦ grants (granted i p u now r)
  | completed report generation at ↦ grants (granted i p u now r)
  | denied reason digest ↦ exhausted reason digest
  | settled_unknown actual s digest ↦ exhausted cost_limit digest
]

-- The unique columns of the table, beside the effect's key.
abbrev pub clashes : Reservation → Reservation → Bool
clashes r x =
    str_eq x.material.reservation_id r.material.reservation_id
    || str_eq x.reservation_digest r.reservation_digest
    || str_eq x.material.intent_id r.material.intent_id
    || (str_eq x.material.run_id r.material.run_id
        && str_eq x.material.invocation_id r.material.invocation_id)

abbrev pub insert_row :
    ReserveInput
    → Policy
    → Usage
    → ℕ
    → Reservation
    → List Reservation
    → Outcome BudgetError Reserved
insert_row i p u now r rows =
    if any (clashes r) rows
    then thrown constraint_failed
    else returned (record { decision = decided i p u now r; rows = rows ++ r ∷ [] })

unfoldable pub reserve_new :
    Digests → ReserveInput → Policy → Bool → ℕ → List Reservation → Outcome BudgetError Reserved
reserve_new d i p has_terminal_plan now rows =
    if has_terminal_plan
    then thrown cleanup_planned
    else usage_of i.binding.run_id rows >>= λ u. insert_row i p u now (new_row d i p u now) rows

-- The intent, the phase and the role of a request, once its binding and its limits are checked.
abbrev pub check_role :
    Digests → ReserveInput → Option RunRow → Stage → Policy → Outcome BudgetError Policy
check_role d i none stage p = thrown contradictory_role
check_role d i (some r) stage p =
    if is_expected d i r stage then returned p else thrown contradictory_role

abbrev pub check_intent :
    Digests → ReserveInput → Read → List Reservation → Policy → Outcome BudgetError Policy
check_intent d i read rows p = elim read.intent [
  | none ↦ thrown other_intent
  | some x ↦
      if not (matches_intent i x)
      then thrown other_intent
      else if phase_frozen read.run && not (any (has_effect i.effect_key) rows)
      then thrown frozen_phase
      else check_role d i read.run x.stage p
]

unfoldable pub check_request :
    Digests → ReserveInput → Read → List Reservation → Outcome BudgetError Policy
check_request d i read rows =
    assert_current_binding i.owner_id i.binding read.run read.admission >>= λ authoritative.
    (assert_limits authoritative i.limits >>= λ p. check_intent d i read rows p)

-- The row of the effect, or a new one; `before` is the order of texts of the database.
abbrev pub reserve_checked :
    Digests
    → (String → String → Bool)
    → ReserveInput
    → Bool
    → ℕ
    → List Reservation
    → Policy
    → Outcome BudgetError Reserved
reserve_checked d before i has_terminal_plan now rows p =
    elim (find (has_effect i.effect_key) rows) [
      | some r ↦ replay d before i p now rows r
      | none ↦ reserve_new d i p has_terminal_plan now rows
    ]

-- `reserveAsfProviderBudget`
unfoldable pub reserve_provider_budget :
    Digests
    → (String → String → Bool)
    → ReserveInput
    → Read
    → ℕ
    → List Reservation
    → Outcome BudgetError Reserved
reserve_provider_budget d before i read now rows = check_request d i read rows >>= λ p.
    reserve_checked d before i read.has_terminal_plan now rows p
