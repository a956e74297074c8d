-- ===== src/Asf/Ownership/FirstClaim.antt =====
-- The run that a first claim takes over from its admission (`claimAsfRun`, src/state/store.ts).
use runmill.Base.{refl, ℕ, ◌≡◌, ◌≤◌, true, Option, none, some, arith, str_eq_iff}
use runmill.Asf.Phase.{admitted, phase_eq, phase_eq→eq}
use runmill.Asf.Ownership.Table.{Run, FirstEvent, Admission}
use runmill.Asf.Ownership.{admits, is_none}

-- The event that the admission of a run has recorded, at most at the instant `at`.
pub record IsAdmission (at : ℕ) (a : Admission) (e : FirstEvent) : Type 0 where
  pub is_admitting : e.is_work_order_admitted ≡ true
  pub phase_eq : e.phase ≡ admitted
  pub policy_eq : e.policy_digest ≡ a.effective_policy_digest
  pub no_later : e.at ≤ at

-- A run as its admission has left it: admitted, at its first version, without a candidate commit, and
-- with the admission event of its policy.
pub record IsAdmitted (at : ℕ) (r : Run) : Type 0 where
  pub state_eq : r.state ≡ admitted
  pub version_eq : r.state_version ≡ 1
  pub no_candidate : r.candidate_sha ≡ none
  pub admission : Admission
  pub event : FirstEvent
  pub has_admission : r.admission ≡ some admission
  pub has_event : r.first_event ≡ some event
  pub agrees : IsAdmission at admission event

admits-IsAdmission :
    (at : ℕ) (a : Admission) (e : FirstEvent)
    → admits at (some a) (some e) ≡ true
    → IsAdmission at a e
admits-IsAdmission at a e h = record {
  is_admitting = ground arith;
  phase_eq = phase_eq→eq e.phase admitted (ground arith);
  policy_eq = (str_eq_iff e.policy_digest a.effective_policy_digest).0 (ground arith);
  no_later = ground arith;
}

admits-parts :
    (at : ℕ) (a : Option Admission) (e : Option FirstEvent)
    → admits at a e ≡ true
    → (x : Admission) × (y : FirstEvent) × (a ≡ some x) × (e ≡ some y) × IsAdmission at x y
admits-parts at none e h = cc
admits-parts at (some a) none h = cc
admits-parts at (some a) (some e) h = (a, e, refl, refl, admits-IsAdmission at a e h)

is_none-eq : {A : Type 0} (a : Option A) → is_none a ≡ true → a ≡ none
is_none-eq none h = refl
is_none-eq (some a) h = cc

pub admits-IsAdmitted :
    (at : ℕ) (r : Run)
    → phase_eq r.state admitted ≡ true
    → r.state_version ≡ 1
    → is_none r.candidate_sha ≡ true
    → admits at r.admission r.first_event ≡ true
    → IsAdmitted at r
admits-IsAdmitted at r state version bare admission =
    let (a, e, has_a, has_e, agrees) = admits-parts at r.admission r.first_event admission in
    record {
      state_eq = phase_eq→eq r.state admitted state;
      version_eq = version;
      no_candidate = is_none-eq r.candidate_sha bare;
      admission = a;
      event = e;
      has_admission = has_a;
      has_event = has_e;
      agrees = agrees;
    }
