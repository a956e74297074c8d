-- ===== src/Asf/Edges.antt =====
-- The events that move a run, as a decidable table: what `advance` accepts is an edge of it.
use runmill.Base.{
  ℕ, ◌≡◌, refl, Bool, true, false, not, ◌&&◌, List, [], ◌∷◌, Option, none, some, returned, arith,
  ◌==◌, ==_iff, all, get_elem?, all-get_elem?, some-inj, Option-cases, inl, inr, >>=-eq-returned,
}
use runmill.Asf.Phase.{
  Phase, phase_eq→eq, accepts, is_terminal_run_event_phase, assert_run_phase_transition-returned,
  run_event_phases, every_phase,
}
use runmill.Asf.Event.{
  EventType, RunEvent, contract_phase, run_event_from_phases, allowed_from, is_run_resumed,
  parse_run_event, protected_cancellation_continuation, assert_run_event_transition, advance,
  work_order_admitted, repository_lease_acquired, identity_leases_acquired, workspace_prepared,
  task_packet_created, implementation_started, candidate_created, verification_started,
  verification_completed, review_started, review_completed, fixing_started, delivery_ready,
  branch_pushed, pull_request_opened, ci_waiting, ci_completed, ci_recheck_completed,
  pr_review_started, pr_review_completed, ci_revalidated, pull_request_delivered,
  merge_queue_entered, merge_ready, merge_completed, evidence_finalized, run_completed, run_resumed,
  cancellation_requested, cancellation_escalated, cancellation_started, run_waiting_approval,
  run_needs_spec, run_blocked_external, budget_exhausted, run_refused, run_quarantined,
  run_cancelled, run_failed,
}

abbrev pub event_types : List EventType
event_types =
    work_order_admitted ∷ repository_lease_acquired ∷ identity_leases_acquired ∷ workspace_prepared
    ∷ task_packet_created ∷ implementation_started ∷ candidate_created ∷ verification_started
    ∷ verification_completed ∷ review_started ∷ review_completed ∷ fixing_started ∷ delivery_ready
    ∷ branch_pushed ∷ pull_request_opened ∷ ci_waiting ∷ ci_completed ∷ ci_recheck_completed
    ∷ pr_review_started ∷ pr_review_completed ∷ ci_revalidated ∷ pull_request_delivered
    ∷ merge_queue_entered ∷ merge_ready ∷ merge_completed ∷ evidence_finalized ∷ run_completed
    ∷ run_resumed ∷ cancellation_requested ∷ cancellation_escalated ∷ cancellation_started
    ∷ run_waiting_approval ∷ run_needs_spec ∷ run_blocked_external ∷ budget_exhausted ∷ run_refused
    ∷ run_quarantined ∷ run_cancelled ∷ run_failed ∷ []

abbrev pub ordinal : EventType → ℕ
ordinal work_order_admitted = 0
ordinal repository_lease_acquired = 1
ordinal identity_leases_acquired = 2
ordinal workspace_prepared = 3
ordinal task_packet_created = 4
ordinal implementation_started = 5
ordinal candidate_created = 6
ordinal verification_started = 7
ordinal verification_completed = 8
ordinal review_started = 9
ordinal review_completed = 10
ordinal fixing_started = 11
ordinal delivery_ready = 12
ordinal branch_pushed = 13
ordinal pull_request_opened = 14
ordinal ci_waiting = 15
ordinal ci_completed = 16
ordinal ci_recheck_completed = 17
ordinal pr_review_started = 18
ordinal pr_review_completed = 19
ordinal ci_revalidated = 20
ordinal pull_request_delivered = 21
ordinal merge_queue_entered = 22
ordinal merge_ready = 23
ordinal merge_completed = 24
ordinal evidence_finalized = 25
ordinal run_completed = 26
ordinal run_resumed = 27
ordinal cancellation_requested = 28
ordinal cancellation_escalated = 29
ordinal cancellation_started = 30
ordinal run_waiting_approval = 31
ordinal run_needs_spec = 32
ordinal run_blocked_external = 33
ordinal budget_exhausted = 34
ordinal run_refused = 35
ordinal run_quarantined = 36
ordinal run_cancelled = 37
ordinal run_failed = 38

abbrev pub type_eq : EventType → EventType → Bool
type_eq s t = ordinal s == ordinal t

get_elem?-ordinal : (t : EventType) → get_elem? event_types (ordinal t) ≡ some t
get_elem?-ordinal work_order_admitted = refl
get_elem?-ordinal repository_lease_acquired = refl
get_elem?-ordinal identity_leases_acquired = refl
get_elem?-ordinal workspace_prepared = refl
get_elem?-ordinal task_packet_created = refl
get_elem?-ordinal implementation_started = refl
get_elem?-ordinal candidate_created = refl
get_elem?-ordinal verification_started = refl
get_elem?-ordinal verification_completed = refl
get_elem?-ordinal review_started = refl
get_elem?-ordinal review_completed = refl
get_elem?-ordinal fixing_started = refl
get_elem?-ordinal delivery_ready = refl
get_elem?-ordinal branch_pushed = refl
get_elem?-ordinal pull_request_opened = refl
get_elem?-ordinal ci_waiting = refl
get_elem?-ordinal ci_completed = refl
get_elem?-ordinal ci_recheck_completed = refl
get_elem?-ordinal pr_review_started = refl
get_elem?-ordinal pr_review_completed = refl
get_elem?-ordinal ci_revalidated = refl
get_elem?-ordinal pull_request_delivered = refl
get_elem?-ordinal merge_queue_entered = refl
get_elem?-ordinal merge_ready = refl
get_elem?-ordinal merge_completed = refl
get_elem?-ordinal evidence_finalized = refl
get_elem?-ordinal run_completed = refl
get_elem?-ordinal run_resumed = refl
get_elem?-ordinal cancellation_requested = refl
get_elem?-ordinal cancellation_escalated = refl
get_elem?-ordinal cancellation_started = refl
get_elem?-ordinal run_waiting_approval = refl
get_elem?-ordinal run_needs_spec = refl
get_elem?-ordinal run_blocked_external = refl
get_elem?-ordinal budget_exhausted = refl
get_elem?-ordinal run_refused = refl
get_elem?-ordinal run_quarantined = refl
get_elem?-ordinal run_cancelled = refl
get_elem?-ordinal run_failed = refl

pub type_eq→eq : (s t : EventType) → type_eq s t ≡ true → s ≡ t
type_eq→eq s t h =
    some-inj (cc (get_elem?-ordinal s, get_elem?-ordinal t, (==_iff (ordinal s) (ordinal t)).0 h))

pub every_event_type :
    (p : EventType → Bool) → all p event_types ≡ true → (t : EventType) → p t ≡ true
every_event_type p h t = all-get_elem? p event_types (ordinal t) t h (get_elem?-ordinal t)

-- A test of each phase with each event type.
pub every_pair :
    (p : Phase → EventType → Bool)
    → all (λ f. all (p f) event_types) run_event_phases ≡ true
    → (f : Phase) (t : EventType) → p f t ≡ true
every_pair p h f t = every_event_type (p f) (every_phase (λ q. all (p q) event_types) h f) t

-- Whether an event of this type, resumptions aside, may be recorded in this phase.
unfoldable pub edge_to : Phase → EventType → Option Phase → Bool
edge_to from t none = false
edge_to from t (some to) =
    not (is_terminal_run_event_phase from)
    && accepts from to
    && allowed_from (run_event_from_phases t) from

contract_phase-none : (t : EventType) → contract_phase t ≡ none → is_run_resumed t ≡ true
unfolding contract_phase
contract_phase-none run_resumed h = refl
contract_phase-none _ h = cc

parsed_contract :
    (e e' : RunEvent)
    → parse_run_event e ≡ returned e'
    → is_run_resumed e.type ≡ false
    → (e' ≡ e) × (contract_phase e.type ≡ some e.phase)
unfolding parse_run_event
parsed_contract e e' h n = elim (Option-cases (contract_phase e.type)) [
  | inl c ↦ cc (contract_phase-none e.type c)
  | inr (p, c) ↦ ground (arith, phase_eq→eq e.phase p)
]

transition_edge :
    (from : Phase) (e : RunEvent) (u : Unit {0})
    → assert_run_event_transition from e ≡ returned u
    → is_run_resumed e.type ≡ false
    → edge_to from e.type (some e.phase) ≡ true
unfolding assert_run_event_transition edge_to protected_cancellation_continuation
transition_edge from e u h n = ground (arith, assert_run_phase_transition-returned from e.phase tt)

-- An accepted event that is no resumption goes to its contract's phase, along an edge.
pub advance-edge :
    (from : Phase) (e : RunEvent) {to : Phase}
    → advance from e ≡ returned to
    → is_run_resumed e.type ≡ false
    → (contract_phase e.type ≡ some to) × (edge_to from e.type (some to) ≡ true)
unfolding advance
advance-edge from e {to} h n =
    let (parsed, p, rest) = >>=-eq-returned (parse_run_event e) _ h in
    let (u, t, done) = >>=-eq-returned (assert_run_event_transition from parsed) _ rest in
    let (same, c) = parsed_contract e parsed p n in ground (arith, transition_edge from e u)
