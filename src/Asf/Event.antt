-- ===== src/Asf/Event.antt =====
-- The public event vocabulary of a run and its two transition tables (src/asf/run-event.ts).
-- An event is taken after its JSON schema has accepted it: the fields below are those that the
-- code goes on to read. `some` in an optional field means that the payload has it.
use runmill.Base.{
  Bool, true, false, not, ◌&&◌, ◌||◌, List, [], ◌∷◌, Option, none, some, String, Outcome, returned,
  thrown, ◌>>=◌, if◌then◌else◌, str_eq,
}
use runmill.Asf.Phase.{
  Phase, PhaseError, phase_eq, includes, assert_run_phase_transition, received, admitted,
  repository_leased, identity_ready, workspace_ready, task_packet_ready, implementing,
  candidate_ready, local_verify, local_review, fixing, pushed, pr_open, ci_wait, pr_review,
  pr_delivered, merge_queue_wait, merged, completed, cancel_requested, cancelling, waiting_approval,
  needs_spec, blocked_external, refused, quarantined, cancelled, failed,
}

pub data EventType : Type 0 where
  work_order_admitted repository_lease_acquired identity_leases_acquired : EventType
  workspace_prepared task_packet_created implementation_started candidate_created : EventType
  verification_started verification_completed review_started review_completed : EventType
  fixing_started delivery_ready branch_pushed pull_request_opened ci_waiting : EventType
  ci_completed ci_recheck_completed pr_review_started pr_review_completed : EventType
  ci_revalidated pull_request_delivered merge_queue_entered merge_ready : EventType
  merge_completed evidence_finalized run_completed run_resumed : EventType
  cancellation_requested cancellation_escalated cancellation_started : EventType
  run_waiting_approval run_needs_spec run_blocked_external budget_exhausted : EventType
  run_refused run_quarantined run_cancelled run_failed : EventType

-- `reconciliation.action` of a `run.resumed` payload.
pub data Action : Type 0 where
  continue_confirmed replay_not_applied continue_cancellation : Action

pub record Payload : Type 0 where
  pub resume_phase : Option Phase
  pub interrupted_phase : Option Phase
  pub reconciliation : Option Action
  pub candidate_sha : Option String
  pub observed_remote_sha : Option String
  pub observed_head_sha : Option String

pub record RunEvent : Type 0 where
  pub type : EventType
  pub phase : Phase
  pub payload : Payload

-- RUN_EVENT_CONTRACTS: the phase of each event; `none` is "resume-phase-from-payload".
unfoldable pub contract_phase : EventType → Option Phase
contract_phase work_order_admitted = some admitted
contract_phase repository_lease_acquired = some repository_leased
contract_phase identity_leases_acquired = some identity_ready
contract_phase workspace_prepared = some workspace_ready
contract_phase task_packet_created = some task_packet_ready
contract_phase implementation_started = some implementing
contract_phase candidate_created = some candidate_ready
contract_phase verification_started = some local_verify
contract_phase verification_completed = some local_verify
contract_phase review_started = some local_review
contract_phase review_completed = some local_review
contract_phase fixing_started = some fixing
contract_phase delivery_ready = some Phase.delivery_ready
contract_phase branch_pushed = some pushed
contract_phase pull_request_opened = some pr_open
contract_phase ci_waiting = some ci_wait
contract_phase ci_completed = some ci_wait
contract_phase ci_recheck_completed = some ci_wait
contract_phase pr_review_started = some pr_review
contract_phase pr_review_completed = some pr_review
contract_phase ci_revalidated = some pr_review
contract_phase pull_request_delivered = some pr_delivered
contract_phase merge_queue_entered = some merge_queue_wait
contract_phase merge_ready = some Phase.merge_ready
contract_phase merge_completed = some merged
contract_phase evidence_finalized = some Phase.evidence_finalized
contract_phase run_completed = some completed
contract_phase run_resumed = none
contract_phase cancellation_requested = some cancel_requested
contract_phase cancellation_escalated = some cancel_requested
contract_phase cancellation_started = some cancelling
contract_phase run_waiting_approval = some waiting_approval
contract_phase run_needs_spec = some needs_spec
contract_phase run_blocked_external = some blocked_external
contract_phase budget_exhausted = some Phase.budget_exhausted
contract_phase run_refused = some refused
contract_phase run_quarantined = some quarantined
contract_phase run_cancelled = some cancelled
contract_phase run_failed = some failed

-- RUN_EVENT_FROM_PHASES; `none` is a missing key, which permits every source.
unfoldable pub run_event_from_phases : EventType → Option (List Phase)
run_event_from_phases work_order_admitted = some (received ∷ [])
run_event_from_phases repository_lease_acquired = some (admitted ∷ [])
run_event_from_phases identity_leases_acquired = some (repository_leased ∷ [])
run_event_from_phases workspace_prepared = some (identity_ready ∷ [])
run_event_from_phases task_packet_created = some (workspace_ready ∷ [])
run_event_from_phases implementation_started = some (task_packet_ready ∷ implementing ∷ [])
run_event_from_phases candidate_created = some (implementing ∷ fixing ∷ [])
run_event_from_phases verification_started = some (candidate_ready ∷ [])
run_event_from_phases verification_completed = some (local_verify ∷ [])
run_event_from_phases review_started = some (local_verify ∷ [])
run_event_from_phases review_completed = some (local_review ∷ [])
run_event_from_phases fixing_started = some (local_verify ∷ local_review ∷ ci_wait ∷ pr_review ∷ [])
run_event_from_phases delivery_ready = some (local_review ∷ [])
run_event_from_phases branch_pushed = some (Phase.delivery_ready ∷ [])
run_event_from_phases pull_request_opened = some (pushed ∷ [])
run_event_from_phases ci_waiting = some (pr_open ∷ [])
run_event_from_phases ci_completed = some (ci_wait ∷ [])
run_event_from_phases ci_recheck_completed = some (pr_review ∷ [])
run_event_from_phases pr_review_started = some (ci_wait ∷ [])
run_event_from_phases pr_review_completed = some (pr_review ∷ [])
run_event_from_phases ci_revalidated = some (pr_review ∷ [])
run_event_from_phases pull_request_delivered = some (pr_review ∷ [])
run_event_from_phases merge_queue_entered = some (pr_delivered ∷ [])
run_event_from_phases merge_ready = some (merge_queue_wait ∷ [])
run_event_from_phases merge_completed = some (Phase.merge_ready ∷ [])
run_event_from_phases evidence_finalized = some (pr_delivered ∷ merged ∷ [])
run_event_from_phases run_completed = some (Phase.evidence_finalized ∷ [])
run_event_from_phases run_resumed = some (waiting_approval ∷ needs_spec ∷ blocked_external ∷ [])
run_event_from_phases cancellation_requested = some (
    admitted ∷ repository_leased ∷ identity_ready ∷ workspace_ready ∷ task_packet_ready
    ∷ implementing ∷ candidate_ready ∷ local_verify ∷ local_review ∷ fixing ∷ Phase.delivery_ready
    ∷ pushed ∷ pr_open ∷ ci_wait ∷ pr_review ∷ pr_delivered ∷ merge_queue_wait ∷ Phase.merge_ready
    ∷ merged ∷ Phase.evidence_finalized ∷ waiting_approval ∷ needs_spec ∷ blocked_external ∷ [])
run_event_from_phases cancellation_escalated = some (cancel_requested ∷ cancelling ∷ [])
run_event_from_phases cancellation_started = some (cancel_requested ∷ [])
run_event_from_phases run_cancelled = some (cancelling ∷ [])
run_event_from_phases _ = none

-- What `parseRunEvent` and `assertRunEventTransition` throw.
pub data EventError : Type 0 where
  wrong_phase : EventType → Phase → EventError
  bad_payload : EventType → EventError
  resume_not_bound : EventType → EventError
  observation_mismatch : EventType → EventError
  wrong_source : EventType → Phase → EventError
  bad_transition : PhaseError → EventError

-- Two optional phases, by `===`.
abbrev pub same_phase : Option Phase → Phase → Bool
same_phase none q = false
same_phase (some p) q = phase_eq p q

-- The union of payload shapes for `run.resumed`, as far as the fields above show it: an approval
-- resumption has no reconciliation, and a reconciled one has it.
abbrev pub resumed_payload : Option Phase → Option Action → Bool
resumed_payload (some waiting_approval) none = true
resumed_payload (some blocked_external) (some a) = true
resumed_payload _ _ = false

-- An observed SHA, where both it and the candidate are there, equals the candidate.
abbrev pub observes : Option String → Option String → Bool
observes (some candidate) (some observed) = str_eq observed candidate
observes _ _ = true

-- The last loop of `parseRunEvent`: the two observations name the candidate.
observations : RunEvent → Outcome EventError RunEvent
observations e =
    if observes e.payload.candidate_sha e.payload.observed_remote_sha
      && observes e.payload.candidate_sha e.payload.observed_head_sha
    then returned e
    else thrown (observation_mismatch e.type)

-- A resumption has one of the two payload shapes, and its phase is the payload's resume phase and
-- not the interrupted one.
resumption : RunEvent → Outcome EventError RunEvent
unfolding observations
resumption e =
    if not (resumed_payload e.payload.interrupted_phase e.payload.reconciliation)
    then thrown (bad_payload e.type)
    else if not (same_phase e.payload.resume_phase e.phase)
        || same_phase e.payload.interrupted_phase e.phase
    then thrown (resume_not_bound e.type)
    else observations e

bind_phase : Option Phase → RunEvent → Outcome EventError RunEvent
unfolding observations resumption
bind_phase (some p) e =
    if phase_eq e.phase p then observations e else thrown (wrong_phase e.type e.phase)
bind_phase none e = resumption e

-- `parseRunEvent` from the lookup of the event's contract on.
unfoldable pub parse_run_event : RunEvent → Outcome EventError RunEvent
unfolding contract_phase bind_phase
parse_run_event e = bind_phase (contract_phase e.type) e

abbrev pub is_run_resumed : EventType → Bool
is_run_resumed run_resumed = true
is_run_resumed _ = false

abbrev pub is_continue_cancellation : Option Action → Bool
is_continue_cancellation (some continue_cancellation) = true
is_continue_cancellation _ = false

unfoldable pub protected_cancellation_continuation : Phase → RunEvent → Bool
protected_cancellation_continuation from e =
    phase_eq from blocked_external
    && is_run_resumed e.type
    && phase_eq e.phase cancelling
    && is_continue_cancellation e.payload.reconciliation

abbrev pub lift_phase_error : Outcome PhaseError (Unit {0}) → Outcome EventError (Unit {0})
lift_phase_error (returned u) = returned u
lift_phase_error (thrown e) = thrown (bad_transition e)

abbrev pub allowed_from : Option (List Phase) → Phase → Bool
allowed_from none from = true
allowed_from (some ps) from = includes ps from

unfoldable pub assert_run_event_transition : Phase → RunEvent → Outcome EventError (Unit {0})
assert_run_event_transition from e =
    let phases =
      if protected_cancellation_continuation from e
      then returned tt
      else lift_phase_error (assert_run_phase_transition from e.phase) in
    phases >>= λ _.
    if allowed_from (run_event_from_phases e.type) from
    then returned tt
    else thrown (wrong_source e.type from)

-- Both checks on one event, as a replay of the history makes them; the run is then in the event's
-- phase.
unfoldable pub advance : Phase → RunEvent → Outcome EventError Phase
advance from e = parse_run_event e >>= λ parsed.
    assert_run_event_transition from parsed >>= λ _. returned parsed.phase
