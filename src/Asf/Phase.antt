-- ===== src/Asf/Phase.antt =====
-- The lifecycle phases of an ASF run and the table of legal phase changes (src/asf/run-event.ts).
use runmill.Base.{
  ℕ, ◌≡◌, refl, Bool, true, false, not, ◌&&◌, ◌||◌, List, [], ◌∷◌, some, Outcome, returned, thrown,
  arith, if◌then◌else◌, ◌==◌, ==_iff, any, all, get_elem?, all-get_elem?, some-inj,
}

pub data Phase : Type 0 where
  received admitted repository_leased identity_ready workspace_ready task_packet_ready : Phase
  implementing candidate_ready local_verify local_review fixing delivery_ready pushed : Phase
  pr_open ci_wait pr_review pr_delivered merge_queue_wait merge_ready merged : Phase
  evidence_finalized completed cancel_requested cancelling waiting_approval : Phase
  needs_spec blocked_external budget_exhausted refused quarantined cancelled failed : Phase

-- RUN_EVENT_PHASES, in the order of the source.
abbrev pub run_event_phases : List Phase
run_event_phases =
    received ∷ admitted ∷ repository_leased ∷ identity_ready ∷ workspace_ready ∷ task_packet_ready
    ∷ implementing ∷ candidate_ready ∷ local_verify ∷ local_review ∷ fixing ∷ delivery_ready
    ∷ pushed ∷ pr_open ∷ ci_wait ∷ pr_review ∷ pr_delivered ∷ merge_queue_wait ∷ merge_ready
    ∷ merged ∷ evidence_finalized ∷ completed ∷ cancel_requested ∷ cancelling ∷ waiting_approval
    ∷ needs_spec ∷ blocked_external ∷ budget_exhausted ∷ refused ∷ quarantined ∷ cancelled ∷ failed
    ∷ []

-- The position of a phase in that list; phases are compared by it.
abbrev pub rank : Phase → ℕ
rank received = 0
rank admitted = 1
rank repository_leased = 2
rank identity_ready = 3
rank workspace_ready = 4
rank task_packet_ready = 5
rank implementing = 6
rank candidate_ready = 7
rank local_verify = 8
rank local_review = 9
rank fixing = 10
rank delivery_ready = 11
rank pushed = 12
rank pr_open = 13
rank ci_wait = 14
rank pr_review = 15
rank pr_delivered = 16
rank merge_queue_wait = 17
rank merge_ready = 18
rank merged = 19
rank evidence_finalized = 20
rank completed = 21
rank cancel_requested = 22
rank cancelling = 23
rank waiting_approval = 24
rank needs_spec = 25
rank blocked_external = 26
rank budget_exhausted = 27
rank refused = 28
rank quarantined = 29
rank cancelled = 30
rank failed = 31

abbrev pub phase_eq : Phase → Phase → Bool
phase_eq p q = rank p == rank q

get_elem?-rank : (p : Phase) → get_elem? run_event_phases (rank p) ≡ some p
get_elem?-rank received = refl
get_elem?-rank admitted = refl
get_elem?-rank repository_leased = refl
get_elem?-rank identity_ready = refl
get_elem?-rank workspace_ready = refl
get_elem?-rank task_packet_ready = refl
get_elem?-rank implementing = refl
get_elem?-rank candidate_ready = refl
get_elem?-rank local_verify = refl
get_elem?-rank local_review = refl
get_elem?-rank fixing = refl
get_elem?-rank delivery_ready = refl
get_elem?-rank pushed = refl
get_elem?-rank pr_open = refl
get_elem?-rank ci_wait = refl
get_elem?-rank pr_review = refl
get_elem?-rank pr_delivered = refl
get_elem?-rank merge_queue_wait = refl
get_elem?-rank merge_ready = refl
get_elem?-rank merged = refl
get_elem?-rank evidence_finalized = refl
get_elem?-rank completed = refl
get_elem?-rank cancel_requested = refl
get_elem?-rank cancelling = refl
get_elem?-rank waiting_approval = refl
get_elem?-rank needs_spec = refl
get_elem?-rank blocked_external = refl
get_elem?-rank budget_exhausted = refl
get_elem?-rank refused = refl
get_elem?-rank quarantined = refl
get_elem?-rank cancelled = refl
get_elem?-rank failed = refl

pub phase_eq→eq : (p q : Phase) → phase_eq p q ≡ true → p ≡ q
phase_eq→eq p q h =
    some-inj (cc (get_elem?-rank p, get_elem?-rank q, (==_iff (rank p) (rank q)).0 h))

-- What holds of each phase in the list holds of every phase.
pub every_phase : (t : Phase → Bool) → all t run_event_phases ≡ true → (p : Phase) → t p ≡ true
every_phase t h p = all-get_elem? t run_event_phases (rank p) p h (get_elem?-rank p)

-- `phases.includes(phase)` and `new Set(phases).has(phase)`.
abbrev pub includes : List Phase → Phase → Bool
includes ps p = any (phase_eq p) ps

-- TERMINAL_RUN_EVENT_PHASES
abbrev pub terminal_run_event_phases : List Phase
terminal_run_event_phases =
    completed ∷ cancelled ∷ failed ∷ refused ∷ quarantined ∷ budget_exhausted ∷ []

unfoldable pub is_terminal_run_event_phase : Phase → Bool
is_terminal_run_event_phase p = includes terminal_run_event_phases p

-- NORMAL_PHASE_SUCCESSORS; a missing key has no successors.
unfoldable pub normal_phase_successors : Phase → List Phase
normal_phase_successors received = admitted ∷ []
normal_phase_successors admitted = repository_leased ∷ []
normal_phase_successors repository_leased = identity_ready ∷ []
normal_phase_successors identity_ready = workspace_ready ∷ []
normal_phase_successors workspace_ready = task_packet_ready ∷ []
normal_phase_successors task_packet_ready = implementing ∷ []
normal_phase_successors implementing = candidate_ready ∷ []
normal_phase_successors candidate_ready = local_verify ∷ []
normal_phase_successors local_verify = local_review ∷ fixing ∷ []
normal_phase_successors local_review = fixing ∷ delivery_ready ∷ []
normal_phase_successors fixing = candidate_ready ∷ []
normal_phase_successors delivery_ready = pushed ∷ []
normal_phase_successors pushed = pr_open ∷ []
normal_phase_successors pr_open = ci_wait ∷ []
normal_phase_successors ci_wait = pr_review ∷ fixing ∷ []
normal_phase_successors pr_review = fixing ∷ ci_wait ∷ pr_delivered ∷ []
normal_phase_successors pr_delivered = merge_queue_wait ∷ evidence_finalized ∷ []
normal_phase_successors merge_queue_wait = merge_ready ∷ []
normal_phase_successors merge_ready = merged ∷ []
normal_phase_successors merged = evidence_finalized ∷ []
normal_phase_successors evidence_finalized = completed ∷ []
normal_phase_successors cancel_requested = cancelling ∷ []
normal_phase_successors cancelling = cancelled ∷ []
normal_phase_successors _ = []

abbrev pub checkpoint_self_transitions : List Phase
checkpoint_self_transitions =
    implementing ∷ local_verify ∷ local_review ∷ fixing ∷ ci_wait ∷ pr_review ∷ cancelling
    ∷ cancel_requested ∷ []

abbrev pub interrupting_phases : List Phase
interrupting_phases = cancel_requested ∷ waiting_approval ∷ needs_spec ∷ blocked_external ∷ []

abbrev pub direct_stop_phases : List Phase
direct_stop_phases = budget_exhausted ∷ refused ∷ quarantined ∷ failed ∷ []

-- The five ways in which `assertRunPhaseTransition` accepts a change.
abbrev pub normal : Phase → Phase → Bool
normal from to = includes (normal_phase_successors from) to

abbrev pub checkpoint : Phase → Phase → Bool
checkpoint from to = phase_eq from to && includes checkpoint_self_transitions from

abbrev pub interruption : Phase → Phase → Bool
interruption from to = includes interrupting_phases to && not (phase_eq to from)

abbrev pub direct_stop : Phase → Bool
direct_stop to = includes direct_stop_phases to

unfoldable pub resume : Phase → Phase → Bool
unfolding is_terminal_run_event_phase
resume from to =
    (phase_eq from waiting_approval || phase_eq from needs_spec || phase_eq from blocked_external)
    && not (is_terminal_run_event_phase to)
    && not (includes interrupting_phases to)
    && not (includes direct_stop_phases to)
    && not (phase_eq to cancelling)
    && not (phase_eq to cancel_requested)

-- The two errors that `assertRunPhaseTransition` throws.
pub data PhaseError : Type 0 where
  terminal_phase : Phase → Phase → PhaseError
  invalid_transition : Phase → Phase → PhaseError

-- The changes that `assertRunPhaseTransition` accepts from a phase that is not terminal.
unfoldable pub accepts : Phase → Phase → Bool
unfolding normal_phase_successors is_terminal_run_event_phase
accepts from to =
    normal from to || checkpoint from to || interruption from to || direct_stop to || resume from to

unfoldable pub assert_run_phase_transition : Phase → Phase → Outcome PhaseError (Unit {0})
assert_run_phase_transition from to =
    if is_terminal_run_event_phase from
    then thrown (terminal_phase from to)
    else if accepts from to
    then returned tt
    else thrown (invalid_transition from to)

pub assert_run_phase_transition-returned :
    (from to : Phase) (u : Unit {0})
    → assert_run_phase_transition from to ≡ returned u
    → (is_terminal_run_event_phase from ≡ false) × (accepts from to ≡ true)
unfolding assert_run_phase_transition
assert_run_phase_transition-returned from to u h = ground arith
