-- ===== src/Asf/History/Tables.antt =====
-- The event tables of src/asf/run-event.ts agree with its table of phases.
use runmill.Base.{
  ◌≡◌, refl, Bool, true, not, ◌&&◌, ◌||◌, List, Option, none, some, returned, arith, any, all,
  any-exists,
}
use runmill.Asf.Phase.{
  Phase, every_phase, includes, accepts, normal_phase_successors, is_terminal_run_event_phase,
  assert_run_phase_transition, run_event_phases,
}
use runmill.Asf.Event.{
  EventType, advance, parse_run_event, assert_run_event_transition,
  protected_cancellation_continuation, contract_phase, run_event_from_phases,
}
use runmill.Asf.Edges.{event_types, every_pair}
use runmill.Asf.History.Control.{bare, ends_in, ends_in→eq}

abbrev sourced : Phase → Option (List Phase) → Option Phase → Bool
sourced f (some ps) (some p) =
    not (includes ps f) || (not (is_terminal_run_event_phase f) && accepts f p)
sourced f none p = true
sourced f (some ps) none = true

sources_agree :
    (f : Phase) (t : EventType) → sourced f (run_event_from_phases t) (contract_phase t) ≡ true
unfolding run_event_from_phases contract_phase accepts normal_phase_successors
    is_terminal_run_event_phase
sources_agree = every_pair (λ f t. sourced f (run_event_from_phases t) (contract_phase t)) refl

-- Each source that RUN_EVENT_FROM_PHASES lists for an event has a legal change to the phase of the
-- event's contract: no row of the table is dead.
listed_source-legal :
    (t : EventType) (f p : Phase) (ps : List Phase)
    → run_event_from_phases t ≡ some ps
    → includes ps f ≡ true
    → contract_phase t ≡ some p
    → assert_run_phase_transition f p ≡ returned tt
unfolding assert_run_phase_transition
listed_source-legal t f p ps hs hf hp = ground (arith, sources_agree f t)

abbrev moves : Phase → Phase → EventType → Bool
moves f p t = ends_in (advance f (bare t p)) p

abbrev covered : Phase → Phase → Bool
covered f p = not (includes (normal_phase_successors f) p) || any (moves f p) event_types

covered-all : (f : Phase) → all (covered f) run_event_phases ≡ true
unfolding advance parse_run_event assert_run_event_transition protected_cancellation_continuation
    run_event_from_phases accepts normal_phase_successors is_terminal_run_event_phase
    assert_run_phase_transition
covered-all = every_phase (λ f. all (covered f) run_event_phases) refl

-- Every normal successor of a phase is reached by some event of the vocabulary that the checks
-- accept: no edge of NORMAL_PHASE_SUCCESSORS lacks an event.
normal_successor-event :
    (f p : Phase)
    → includes (normal_phase_successors f) p ≡ true
    → (t : EventType) × (advance f (bare t p) ≡ returned p)
normal_successor-event f p h =
    let (t, e) =
      any-exists (moves f p) event_types
        (ground (arith, every_phase (covered f) (covered-all f) p)) in
    (t, ends_in→eq (advance f (bare t p)) p e)
