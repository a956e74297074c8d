-- ===== src/Asf/Ownership/Fencing.antt =====
-- A worker whose run was claimed again is fenced out of it for good (src/state/store.ts).
use runmill.Base.{
  texts, ℕ, ◌≡◌, ◌<◌, refl, true, List, [], ◌∷◌, Option, none, some, String, Outcome, returned,
  thrown, arith, inl, inr, ◌∙◌, Option-cases, Outcome-cases, Bool-cases, str_eq, str_eq_iff,
  str_eq_refl,
}
use runmill.Asf.Phase.{Phase}
use runmill.Asf.Ownership.Table.{Run, get, put, get-put_self, get-put_ne, run_id-get}
use runmill.Asf.Ownership.{
  OwnershipError, Claim, Claimed, claim_asf_run, heartbeat_asf_run, release_asf_run_ownership,
  guard_transition, holds, lease_lost,
}
use runmill.Asf.Ownership.Claims.{owned_by, claim-Granted, get-claim, claim-refused}

-- The calls of the workers and of the host, in the order in which they reach the store.
pub data Call : Type 0 where
  claim : Claim → ℕ → Call
  heartbeat : String → String → ℕ → ℕ → Call
  release : String → String → ℕ → Call

abbrev committed : Outcome OwnershipError (List Run) → List Run → List Run
committed (returned after) runs = after
committed (thrown e) runs = runs

abbrev claimed : Outcome OwnershipError (Option Claimed × List Run) → List Run → List Run
claimed (returned (g, after)) runs = after
claimed (thrown e) runs = runs

-- A call that throws is rolled back.
pub step : Call → List Run → List Run
step (claim c at) runs = claimed (claim_asf_run c at runs) runs
step (heartbeat id owner g at) runs = committed (heartbeat_asf_run id owner g at runs) runs
step (release id owner g) runs = committed (release_asf_run_ownership id owner g runs) runs

pub run : List Call → List Run → List Run
run [] runs = runs
run (c ∷ cs) runs = run cs (step c runs)

-- The run is there, and its fence is beyond `g`.
pub record IsFenced (id : String) (g : ℕ) (runs : List Run) : Type 0 where
  pub row : Run
  pub found : get id runs ≡ some row
  pub beyond : g < row.generation

-- The fence of the claimed row is one more than it was, and that of another row is its own.
claim-IsFenced :
    (id : String) (g : ℕ) (c : Claim) (at : ℕ) (runs : List Run) (n : Claimed) (after : List Run)
    → IsFenced id g runs
    → claim_asf_run c at runs ≡ returned (some n, after)
    → IsFenced id g after
claim-IsFenced id g c at runs n after f h =
    let k = claim-Granted c at runs n after h in
    let there = get-claim c at runs n after k id in
    elim (Bool-cases (str_eq c.run_id id)) [
      | inl same ↦ record {
        row = owned_by c at k.fence k.row;
        found = ground (arith, there);
        beyond = grind (texts, k.found, f.found);
      }
      | inr other ↦ record { row = f.row; found = ground (arith, there); beyond = f.beyond }
    ]

-- Rewriting a row without its generation keeps every fence.
put-IsFenced :
    (id : String) (g : ℕ) (r w : Run) (key : String) (runs : List Run)
    → IsFenced id g runs
    → get key runs ≡ some r
    → w.run_id ≡ key
    → w.generation ≡ r.generation
    → IsFenced id g (put w runs)
put-IsFenced id g r w key runs f found named same = elim (Bool-cases (str_eq w.run_id id)) [
  | inl e ↦ record {
    row = w;
    found = get-put_self w id runs f.row f.found ((str_eq_iff w.run_id id).0 e);
    beyond = ground (arith, f.found, (str_eq_iff w.run_id id).0 e);
  }
  | inr e ↦ record { row = f.row; found = get-put_ne w id runs e ∙ f.found; beyond = f.beyond }
]

-- The row that a heartbeat or a release finds, and what it writes.
pub heartbeat-put :
    (id owner : String) (g at : ℕ) (runs after : List Run)
    → heartbeat_asf_run id owner g at runs ≡ returned after
    → (r : Run) × (get id runs ≡ some r)
      × (holds owner g r ≡ true)
      × (after ≡ put (record r { heartbeat_at = some at }) runs)
unfolding heartbeat_asf_run
heartbeat-put id owner g at runs after h = elim (Option-cases (get id runs)) [
  | inl e ↦ absurd (ground arith)
  | inr (r, e) ↦ (r, e, ground arith, ground arith)
]

release-put :
    (id owner : String) (g : ℕ) (runs after : List Run)
    → release_asf_run_ownership id owner g runs ≡ returned after
    → (r : Run) × (get id runs ≡ some r)
      × (after ≡ put (record r { owner_id = none; heartbeat_at = none }) runs)
unfolding release_asf_run_ownership
release-put id owner g runs after h = elim (Option-cases (get id runs)) [
  | inl e ↦ absurd (ground arith)
  | inr (r, e) ↦ (r, e, ground arith)
]

step-IsFenced :
    (id : String) (g : ℕ) (k : Call) (runs : List Run)
    → IsFenced id g runs
    → IsFenced id g (step k runs)
unfolding step
step-IsFenced id g (claim c at) runs f = elim (Outcome-cases (claim_asf_run c at runs)) [
  | inl ((none, after), h) ↦ rw h (rw (claim-refused c at runs after h) f)
  | inl ((some n, after), h) ↦ rw h (claim-IsFenced id g c at runs n after f h)
  | inr (e, h) ↦ rw h f
]
step-IsFenced id g (heartbeat key owner k at) runs f =
    elim (Outcome-cases (heartbeat_asf_run key owner k at runs)) [
      | inl (after, h) ↦
          let (r, found, _, written) = heartbeat-put key owner k at runs after h in
          rw h
            (rw written (put-IsFenced id g r _ key runs f found (run_id-get key runs r found) refl))
      | inr (e, h) ↦ rw h f
    ]
step-IsFenced id g (release key owner k) runs f =
    elim (Outcome-cases (release_asf_run_ownership key owner k runs)) [
      | inl (after, h) ↦
          let (r, found, written) = release-put key owner k runs after h in
          rw h
            (rw written (put-IsFenced id g r _ key runs f found (run_id-get key runs r found) refl))
      | inr (e, h) ↦ rw h f
    ]

run-IsFenced :
    (id : String) (g : ℕ) (ks : List Call) (runs : List Run)
    → IsFenced id g runs
    → IsFenced id g (run ks runs)
unfolding run
run-IsFenced id g [] runs f = f
run-IsFenced id g (k ∷ ks) runs f = run-IsFenced id g ks (step k runs) (step-IsFenced id g k runs f)

-- A fenced generation can neither refresh, nor release, nor advance the run.
pub record IsShutOut (id owner : String) (g : ℕ) (runs : List Run) : Type 0 where
  pub no_heartbeat : (at : ℕ) → heartbeat_asf_run id owner g at runs ≡ thrown lease_lost
  pub no_release : release_asf_run_ownership id owner g runs ≡ thrown lease_lost
  pub no_transition :
      (from : Phase) (version : ℕ)
      → guard_transition id owner g from version runs ≡ thrown lease_lost

IsFenced-IsShutOut :
    (id owner : String) (g : ℕ) (runs : List Run) → IsFenced id g runs → IsShutOut id owner g runs
unfolding heartbeat_asf_run release_asf_run_ownership guard_transition
IsFenced-IsShutOut id owner g runs f = record {
  no_heartbeat = λ at. rw f.found (ground arith);
  no_release = rw f.found (ground arith);
  no_transition = λ from version. rw f.found (ground arith);
}

-- Once a claim of a run is granted, a worker that holds an earlier generation is shut out of the run
-- after every later sequence of claims, heartbeats and releases, under whatever owner name, its own
-- included: it can neither refresh, nor release, nor advance the run.
pub claim-IsShutOut :
    (c : Claim) (at : ℕ) (runs : List Run) (n : Claimed) (after : List Run) (owner : String) (g : ℕ)
    (ks : List Call)
    → claim_asf_run c at runs ≡ returned (some n, after)
    → g < n.generation
    → IsShutOut c.run_id owner g (run ks after)
claim-IsShutOut c at runs n after owner g ks h older =
    let k = claim-Granted c at runs n after h in
    let there = get-claim c at runs n after k c.run_id in
    IsFenced-IsShutOut c.run_id owner g (run ks after) (
      run-IsFenced c.run_id g ks after (record {
        row = owned_by c at k.fence k.row;
        found = ground (arith, there, str_eq_refl c.run_id);
        beyond = ground arith;
      }))
