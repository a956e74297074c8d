-- ===== src/Examples/Histories.antt =====
-- Histories of src/asf/run-event.ts.
use runmill.Base.{◌≡◌, ◌≢◌, refl, true, false, List, [], ◌∷◌, returned, any, inl, inr}
use runmill.Asf.Phase.{
  Phase, received, admitted, repository_leased, identity_ready, workspace_ready, task_packet_ready,
  implementing, candidate_ready, local_verify, local_review, pushed, pr_open, ci_wait, pr_review,
  pr_delivered, completed, failed, cancel_requested, cancelling, cancelled, waiting_approval,
  includes, is_terminal_run_event_phase, normal_phase_successors, accepts,
  assert_run_phase_transition, resume,
}
use runmill.Asf.Event.{
  RunEvent, work_order_admitted, repository_lease_acquired, identity_leases_acquired,
  workspace_prepared, task_packet_created, implementation_started, candidate_created,
  verification_started, review_started, branch_pushed, pull_request_opened, ci_waiting,
  pr_review_started, pull_request_delivered, run_completed, run_failed, run_waiting_approval,
  cancellation_started, run_cancelled, run_event_from_phases, advance, parse_run_event,
  assert_run_event_transition, protected_cancellation_continuation, EventType,
}
use runmill.Asf.Edges.{type_eq}
use runmill.Asf.History.{replay}
use runmill.Asf.History.Gates.{completed-gate, cancellation-stays, cancellation_phases}
use runmill.Asf.History.Control.{
  bare, resumed_at, cancellation, cancellation_reaches, cancellation_undone, terminal_absorbs,
}

abbrev delivery : List RunEvent
delivery =
    bare work_order_admitted admitted
    ∷ bare repository_lease_acquired repository_leased
    ∷ bare identity_leases_acquired identity_ready
    ∷ bare workspace_prepared workspace_ready
    ∷ bare task_packet_created task_packet_ready
    ∷ bare implementation_started implementing
    ∷ bare candidate_created candidate_ready
    ∷ bare verification_started local_verify
    ∷ bare review_started local_review
    ∷ bare EventType.delivery_ready Phase.delivery_ready
    ∷ bare branch_pushed pushed
    ∷ bare pull_request_opened pr_open
    ∷ bare ci_waiting ci_wait
    ∷ bare pr_review_started pr_review
    ∷ bare pull_request_delivered pr_delivered
    ∷ bare EventType.evidence_finalized Phase.evidence_finalized
    ∷ bare run_completed completed
    ∷ []

delivery-completes : replay received delivery ≡ returned completed
unfolding replay advance parse_run_event assert_run_event_transition
    protected_cancellation_continuation run_event_from_phases accepts normal_phase_successors
    is_terminal_run_event_phase assert_run_phase_transition
delivery-completes = refl

completed-gate_example : any (λ e. type_eq review_started e.type) delivery ≡ true
completed-gate_example =
    completed-gate review_started delivery (inr (inl refl))
      (
        refl,
        (
          refl,
          (
            refl,
            (
              refl,
              (
                refl,
                (
                  refl,
                  (
                    refl,
                    (
                      refl,
                      (refl, (refl, (refl, (refl, (refl, (refl, (refl, (refl, (refl, tt))))))))),
                    ),
                  ),
                ),
              ),
            ),
          ),
        ),
      )
      delivery-completes

abbrev cancelling_run : List RunEvent
cancelling_run = bare cancellation_started cancelling ∷ bare run_cancelled cancelled ∷ []

cancelling_run-ends : replay cancel_requested cancelling_run ≡ returned cancelled
unfolding replay advance parse_run_event assert_run_event_transition
    protected_cancellation_continuation run_event_from_phases accepts normal_phase_successors
    is_terminal_run_event_phase assert_run_phase_transition
cancelling_run-ends = refl

cancellation-stays_example : includes cancellation_phases cancelled ≡ true
cancellation-stays_example =
    cancellation-stays cancelling_run cancelled ((refl, refl), ((refl, refl), tt))
      cancelling_run-ends

not-terminal : is_terminal_run_event_phase implementing ≡ false
unfolding is_terminal_run_event_phase
not-terminal = refl

implementing-received : implementing ≢ received
implementing-received h = cc

cancellation_reaches_example : replay implementing (cancellation implementing) ≡ returned cancelled
cancellation_reaches_example = cancellation_reaches implementing not-terminal implementing-received

cancellation_undone_example :
    replay cancel_requested
      (bare run_waiting_approval waiting_approval ∷ resumed_at pr_delivered ∷ [])
    ≡ returned pr_delivered
unfolding resume is_terminal_run_event_phase
cancellation_undone_example = cancellation_undone pr_delivered refl

completed-terminal : is_terminal_run_event_phase completed ≡ true
unfolding is_terminal_run_event_phase
completed-terminal = refl

terminal_absorbs_example : replay completed (bare run_failed failed ∷ []) ≢ returned failed
terminal_absorbs_example =
    terminal_absorbs completed (bare run_failed failed) [] failed completed-terminal
