-- ===== src/Asf/History/Gates.antt =====
-- What every accepted history of a completed or cancelled run contains (src/asf/run-event.ts).
use runmill.Base.{
  ℕ, ◌≡◌, refl, inl, inr, Bool, true, false, ◌||◌, List, [], ◌∷◌, Option, none, some, returned,
  arith, ltb, leb, any, all, All, Bool-cases, Member, all-Member, not, ◌&&◌,
}
use runmill.Asf.Phase.{
  Phase, rank, phase_eq, includes, received, fixing, completed, cancel_requested, cancelling,
  cancelled, direct_stop_phases, run_event_phases, accepts, is_terminal_run_event_phase,
  normal_phase_successors, resume,
}
use runmill.Asf.Event.{
  EventType, RunEvent, contract_phase, run_event_from_phases, is_run_resumed, verification_started,
  review_started, delivery_ready, branch_pushed, pull_request_opened, ci_waiting, pr_review_started,
  pull_request_delivered, evidence_finalized, run_completed, run_waiting_approval, run_needs_spec,
  run_blocked_external,
}
use runmill.Asf.Edges.{event_types, type_eq, edge_to}
use runmill.Asf.History.{replay, keeps, IsClosed, Plain, replay-inside}

-- The gates of a delivery, in order.
abbrev pub gates : List EventType
gates =
    verification_started ∷ review_started ∷ delivery_ready ∷ branch_pushed ∷ pull_request_opened
    ∷ ci_waiting ∷ pr_review_started ∷ pull_request_delivered ∷ evidence_finalized ∷ run_completed
    ∷ []

abbrev phase_rank : Option Phase → ℕ
phase_rank none = 0
phase_rank (some p) = rank p

-- The phases that a run may be in before its first event of type `gate`.
before : EventType → Phase → Bool
unfolding contract_phase
before gate p =
    ltb (rank p) (phase_rank (contract_phase gate)) || leb 22 (rank p) || phase_eq p fixing

before_closed :
    all (λ g. all (λ f. all (keeps (before g) (type_eq g) f) event_types) run_event_phases) gates
    ≡ true
unfolding before edge_to contract_phase run_event_from_phases accepts normal_phase_successors
    is_terminal_run_event_phase resume
before_closed = refl

-- Without an event of type `gate`, and without a resumption, every event is plain.
Plain-without :
    (gate : EventType) (es : List RunEvent)
    → All (λ e. is_run_resumed e.type ≡ false) es
    → any (λ e. type_eq gate e.type) es ≡ false
    → All (Plain (type_eq gate)) es
Plain-without gate [] fresh missing = tt
Plain-without gate (e ∷ es) fresh missing =
    ((fresh.0, ground arith), Plain-without gate es fresh.1 (ground arith))

not-before : all (λ g. not (before g completed) && before g received) gates ≡ true
unfolding before
not-before = refl

-- A history that replays from RECEIVED to COMPLETED with no resumption has an event of each gate:
-- verification.started, review.started, delivery.ready, branch.pushed, pull_request.opened,
-- ci.waiting, pr_review.started, pull_request.delivered, evidence.finalized and run.completed.
pub completed-gate :
    (gate : EventType) (es : List RunEvent)
    → Member gate gates
    → All (λ e. is_run_resumed e.type ≡ false) es
    → replay received es ≡ returned completed
    → any (λ e. type_eq gate e.type) es ≡ true
completed-gate gate es listed fresh h = elim (Bool-cases (any (λ e. type_eq gate e.type) es)) [
  | inl seen ↦ seen
  | inr missing ↦
      let closed =
        all-Member
          (λ g. all (λ f. all (keeps (before g) (type_eq g) f) event_types) run_event_phases) gate
          gates before_closed listed in
      let ends =
        all-Member (λ g. not (before g completed) && before g received) gate gates not-before
          listed in
      let inside =
        replay-inside (before gate) (type_eq gate) closed es received completed
          (Plain-without gate es fresh missing) in
      ground (arith, inside, ends)
]

-- The stops that leave a cancellation for another interruption.
abbrev pub is_interrupting_stop : EventType → Bool
is_interrupting_stop run_waiting_approval = true
is_interrupting_stop run_needs_spec = true
is_interrupting_stop run_blocked_external = true
is_interrupting_stop _ = false

-- The phases of a cancellation, and how it may end.
abbrev pub cancellation_phases : List Phase
cancellation_phases = cancel_requested ∷ cancelling ∷ cancelled ∷ direct_stop_phases

cancellation-IsClosed : IsClosed (includes cancellation_phases) is_interrupting_stop
unfolding edge_to contract_phase run_event_from_phases accepts normal_phase_successors
    is_terminal_run_event_phase resume
cancellation-IsClosed = refl

-- From CANCEL_REQUESTED, events that are neither resumptions nor the three interrupting stops lead
-- only to CANCEL_REQUESTED, CANCELLING, CANCELLED or a direct stop: a cancelled run is not completed.
pub cancellation-stays :
    (es : List RunEvent) (to : Phase)
    → All (Plain is_interrupting_stop) es
    → replay cancel_requested es ≡ returned to
    → includes cancellation_phases to ≡ true
cancellation-stays es to plain h =
    replay-inside (includes cancellation_phases) is_interrupting_stop cancellation-IsClosed es
      cancel_requested to plain refl h
