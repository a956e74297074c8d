-- ===== src/Examples/Owners.antt =====
-- Two runs of one repository, and their owners (src/state/store.ts).
use runmill.Base.{
  ℕ, ◌≡◌, refl, true, false, List, [], ◌∷◌, Option, none, some, String, returned, thrown, arith,
}
use runmill.Asf.Phase.{admitted, implementing, is_terminal_run_event_phase}
use runmill.Asf.Ownership.Table.{Run, FirstEvent, get, put}
use runmill.Asf.Ownership.{
  Claim, Claimed, claim_asf_run, heartbeat_asf_run, no_admission_event, live_owners, is_live,
  same_repo,
}
use runmill.Asf.Ownership.Claims.{Granted, claim-Granted}
use runmill.Asf.Ownership.Fencing.{claim, heartbeat, run, IsShutOut, claim-IsShutOut}
use runmill.Asf.Ownership.Exclusive.{
  IsExclusive, claim-IsExclusive, stale_heartbeat-not-IsExclusive,
}

abbrev row : String → String → ℕ → Option String → Option ℕ → Run
row id repo generation owner beat = record {
  run_id = id;
  repo = repo;
  state = implementing;
  state_version = 4;
  candidate_sha = none;
  generation = generation;
  owner_id = owner;
  heartbeat_at = beat;
  checkpoint = some 1;
  admission = none;
  first_event = none;
}

-- A stale owner, and a run that nobody owns.
abbrev runs : List Run
runs =
    row "run-1" "acme/site" 1 (some "host-a") (some 10) ∷ row "run-2" "ACME/site" 0 none none ∷ []

abbrev takeover : Claim
takeover = record {
  run_id = "run-1";
  owner_id = "host-b";
  stale_before = 50;
  max_host_concurrency = 2;
}

abbrev taken : List Run
taken =
    row "run-1" "acme/site" 2 (some "host-b") (some 60) ∷ row "run-2" "ACME/site" 0 none none ∷ []

abbrev second : Claimed
second = record { generation = 2; takeover = true }

takeover-granted : claim_asf_run takeover 60 runs ≡ returned (some second, taken)
unfolding claim_asf_run get put live_owners is_live is_terminal_run_event_phase same_repo
takeover-granted = refl

claim-Granted_example : Granted takeover 60 runs second taken
claim-Granted_example = claim-Granted takeover 60 runs second taken takeover-granted

-- A run as its admission left it, its event, and a first claim.
abbrev work_admitted : FirstEvent
work_admitted = record {
  is_work_order_admitted = true;
  phase = admitted;
  policy_digest = "sha256:1f";
  at = 20;
}

abbrev fresh_run : Option FirstEvent → Run
fresh_run event = record {
  run_id = "run-1";
  repo = "acme/site";
  state = admitted;
  state_version = 1;
  candidate_sha = none;
  generation = 0;
  owner_id = none;
  heartbeat_at = none;
  checkpoint = none;
  admission = some (record { effective_policy_digest = "sha256:1f" });
  first_event = event;
}

first_claimed :
    claim_asf_run takeover 60 (fresh_run (some work_admitted) ∷ [])
    ≡ returned (
      some (record { generation = 1; takeover = false }),
      record (fresh_run (some work_admitted)) {
        owner_id = some "host-b";
        generation = 1;
        heartbeat_at = some 60;
        checkpoint = some 1;
      }
          ∷ [],
    )
unfolding claim_asf_run get put live_owners is_live is_terminal_run_event_phase same_repo
first_claimed = refl

-- Without its admission event, or recorded later than the claim, it throws.
no_event : claim_asf_run takeover 60 (fresh_run none ∷ []) ≡ thrown no_admission_event
unfolding claim_asf_run get live_owners is_live is_terminal_run_event_phase
no_event = refl

later_event :
    claim_asf_run takeover 10 (fresh_run (some work_admitted) ∷ []) ≡ thrown no_admission_event
unfolding claim_asf_run get live_owners is_live is_terminal_run_event_phase
later_event = refl

claim-IsShutOut_example :
    IsShutOut "run-1" "host-a" 1
      (run (heartbeat "run-1" "host-a" 1 70 ∷ claim takeover 200 ∷ []) taken)
claim-IsShutOut_example =
    claim-IsShutOut takeover 60 runs second taken "host-a" 1
      (heartbeat "run-1" "host-a" 1 70 ∷ claim takeover 200 ∷ []) takeover-granted (omega arith)

not-live : (i : String) (r : Run) → get i runs ≡ some r → is_live 50 r ≡ false
unfolding get is_live
not-live i r h = ground arith

none_live : IsExclusive 50 runs
none_live = record { apart = λ i j a b other fi fj li lj. cc (not-live i a fi) }

claim-IsExclusive_example : IsExclusive 50 taken
claim-IsExclusive_example =
    claim-IsExclusive takeover 60 runs second taken 50 takeover-granted (omega arith) none_live

-- The stale owner of run-1 beside a live owner of run-2.
abbrev contended : List Run
contended =
    row "run-1" "acme/site" 1 (some "host-a") (some 10)
    ∷ row "run-2" "ACME/site" 1 (some "host-b") (some 60)
    ∷ []

not-ended : is_terminal_run_event_phase implementing ≡ false
unfolding is_terminal_run_event_phase
not-ended = refl

first_found : get "run-1" contended ≡ some (row "run-1" "acme/site" 1 (some "host-a") (some 10))
unfolding get
first_found = refl

second_found : get "run-2" contended ≡ some (row "run-2" "ACME/site" 1 (some "host-b") (some 60))
unfolding get
second_found = refl

second_live : is_live 50 (row "run-2" "ACME/site" 1 (some "host-b") (some 60)) ≡ true
unfolding is_live is_terminal_run_event_phase
second_live = refl

one_repo : same_repo "acme/site" "ACME/site" ≡ true
unfolding same_repo
one_repo = refl

stale_heartbeat-not-IsExclusive_example :
    (after : List Run) × (heartbeat_asf_run "run-1" "host-a" 1 70 contended ≡ returned after)
    × ¬ (IsExclusive 50 after)
stale_heartbeat-not-IsExclusive_example =
    stale_heartbeat-not-IsExclusive "run-1" "host-a" 1 70 50 contended
      (row "run-1" "acme/site" 1 (some "host-a") (some 10)) "run-2"
      (row "run-2" "ACME/site" 1 (some "host-b") (some 60)) first_found refl not-ended refl
      second_found second_live one_repo (omega arith)
