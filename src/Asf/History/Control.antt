-- ===== src/Asf/History/Control.antt =====
-- Cancelling, stopping and resuming a run, as its event checks allow them (src/asf/run-event.ts).
use runmill.Base.{
  ◌≡◌, ◌≢◌, refl, ap, Bool, true, false, not, ◌||◌, List, [], ◌∷◌, none, some, Outcome, returned,
  thrown, arith, >>=-eq-returned,
}
use runmill.Asf.Phase.{
  Phase, phase_eq, phase_eq→eq, every_phase, received, cancel_requested, cancelling, cancelled,
  waiting_approval, blocked_external, assert_run_phase_transition-returned, resume, accepts,
  normal_phase_successors, is_terminal_run_event_phase, assert_run_phase_transition,
}
use runmill.Asf.Event.{
  EventType, RunEvent, EventError, advance, parse_run_event, assert_run_event_transition,
  protected_cancellation_continuation, run_event_from_phases, run_resumed, run_waiting_approval,
  cancellation_requested, cancellation_started, run_cancelled,
}
use runmill.Asf.History.{replay}

-- An event whose payload has none of the fields that the checks read.
abbrev pub bare : EventType → Phase → RunEvent
bare t p = record {
  type = t;
  phase = p;
  payload = record {
    resume_phase = none;
    interrupted_phase = none;
    reconciliation = none;
    candidate_sha = none;
    observed_remote_sha = none;
    observed_head_sha = none;
  };
}

-- `run.resumed` out of WAITING_APPROVAL.
abbrev pub resumed_at : Phase → RunEvent
resumed_at p = record {
  type = run_resumed;
  phase = p;
  payload = record {
    resume_phase = some p;
    interrupted_phase = some waiting_approval;
    reconciliation = none;
    candidate_sha = none;
    observed_remote_sha = none;
    observed_head_sha = none;
  };
}

abbrev pub ends_in : Outcome EventError Phase → Phase → Bool
ends_in (returned p) q = phase_eq p q
ends_in (thrown e) q = false

pub ends_in→eq : (o : Outcome EventError Phase) (q : Phase) → ends_in o q ≡ true → o ≡ returned q
ends_in→eq (returned p) q h = ap returned (phase_eq→eq p q h)
ends_in→eq (thrown e) q h = cc

-- The events that cancel a run in a given phase.
abbrev pub cancellation : Phase → List RunEvent
cancellation cancel_requested =
    bare cancellation_started cancelling ∷ bare run_cancelled cancelled ∷ []
cancellation cancelling = bare run_cancelled cancelled ∷ []
cancellation _ =
    bare cancellation_requested cancel_requested
    ∷ bare cancellation_started cancelling
    ∷ bare run_cancelled cancelled
    ∷ []

abbrev cancels : Phase → Bool
cancels p =
    is_terminal_run_event_phase p
    || phase_eq p received
    || ends_in (replay p (cancellation p)) cancelled

cancels_all : (p : Phase) → cancels p ≡ true
unfolding replay advance parse_run_event assert_run_event_transition
    protected_cancellation_continuation run_event_from_phases accepts normal_phase_successors
    is_terminal_run_event_phase assert_run_phase_transition resume
cancels_all = every_phase cancels refl

-- A run that was admitted and has not ended can be cancelled from wherever it is, in at most three
-- events.
pub cancellation_reaches :
    (p : Phase)
    → is_terminal_run_event_phase p ≡ false
    → p ≢ received
    → replay p (cancellation p) ≡ returned cancelled
cancellation_reaches p live old =
    ends_in→eq (replay p (cancellation p)) cancelled
      (ground (arith, cancels_all p, phase_eq→eq p received))

abbrev resumes : Phase → Bool
resumes p =
    not (resume waiting_approval p)
    || ends_in
        (replay cancel_requested (bare run_waiting_approval waiting_approval ∷ resumed_at p ∷ [])) p

resumes_all : (p : Phase) → resumes p ≡ true
unfolding replay advance parse_run_event assert_run_event_transition
    protected_cancellation_continuation run_event_from_phases accepts normal_phase_successors
    is_terminal_run_event_phase assert_run_phase_transition resume
resumes_all = every_phase resumes refl

-- The two event checks alone do not hold a run in its cancellation: an approval stop and a
-- resumption lead from CANCEL_REQUESTED to every phase at which a run may resume.
pub cancellation_undone :
    (p : Phase)
    → resume waiting_approval p ≡ true
    → replay cancel_requested (bare run_waiting_approval waiting_approval ∷ resumed_at p ∷ [])
      ≡ returned p
cancellation_undone p h =
    ends_in→eq
      (replay cancel_requested (bare run_waiting_approval waiting_approval ∷ resumed_at p ∷ [])) p
      (ground (arith, resumes_all p))

live_source :
    (p : Phase) → phase_eq p blocked_external ≡ true → is_terminal_run_event_phase p ≡ false
unfolding is_terminal_run_event_phase
live_source p h = rw (phase_eq→eq p blocked_external h)

transition-terminal :
    (p : Phase) (e : RunEvent) (u : Unit {0})
    → is_terminal_run_event_phase p ≡ true
    → assert_run_event_transition p e ≢ returned u
unfolding assert_run_event_transition protected_cancellation_continuation
transition-terminal p e u h r =
    ground (arith, live_source p, assert_run_phase_transition-returned p e.phase tt)

advance-terminal :
    (p : Phase) (e : RunEvent) (q : Phase)
    → is_terminal_run_event_phase p ≡ true
    → advance p e ≢ returned q
unfolding advance
advance-terminal p e q h r =
    let (parsed, _, rest) = >>=-eq-returned (parse_run_event e) _ r in
    let (u, t, _) = >>=-eq-returned (assert_run_event_transition p parsed) _ rest in
    transition-terminal p parsed u h t

-- A run in a terminal phase accepts no event at all, a resumption included.
pub terminal_absorbs :
    (p : Phase) (e : RunEvent) (es : List RunEvent) (q : Phase)
    → is_terminal_run_event_phase p ≡ true
    → replay p (e ∷ es) ≢ returned q
unfolding replay
terminal_absorbs p e es q h r =
    let (next, step, rest) = >>=-eq-returned (advance p e) _ r in advance-terminal p e next h step
