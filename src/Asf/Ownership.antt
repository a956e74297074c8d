-- ===== src/Asf/Ownership.antt =====
-- Ownership of ASF runs: `claimAsfRun`, `heartbeatAsfRun`, `releaseAsfRunOwnership` and the guard of
-- `transitionAsfRun` (src/state/store.ts). The table of runs holds the rows of mode asf-worker; its
-- key is the run id. Instants are numbers of milliseconds; the source compares their ISO texts.
pub mod Table
pub mod FirstClaim
pub mod Claims
pub mod Fencing
pub mod Exclusive
use Prim.Native.Char.{code}
use runmill.Base.{
  ℕ, ◌+◌, ◌-◌, ◌*◌, ◌≡◌, Bool, true, false, not, ◌&&◌, ◌||◌, List, [], ◌∷◌, map, Option, none, some,
  String, Outcome, returned, thrown, ltb, leb, ◌==◌, if◌then◌else◌, any, keep, length, str_eq,
}
use runmill.Asf.Phase.{Phase, phase_eq, admitted, is_terminal_run_event_phase}
use Table.{Run, FirstEvent, Admission, get, put}

-- The code points of a text, in lower case: `toLowerCase` on the ASCII names of repositories.
abbrev codes : String → List ℕ
codes String.[] = []
codes (String.◌∷◌ c s) = code c ∷ codes s

abbrev lower : ℕ → ℕ
lower c = if leb b'A' c && leb c b'Z' then c + 32 else c

abbrev same_codes : List ℕ → List ℕ → Bool
same_codes [] [] = true
same_codes (a ∷ xs) (b ∷ ys) = a == b && same_codes xs ys
same_codes _ _ = false

unfoldable pub same_repo : String → String → Bool
same_repo a b = same_codes (map lower (codes a)) (map lower (codes b))

-- What the calls throw.
pub data OwnershipError : Type 0 where
  bad_concurrency future_checkpoint no_checkpoint no_admission_event : OwnershipError
  lease_lost transition_rejected : OwnershipError

pub record Claim : Type 0 where
  pub run_id : String
  pub owner_id : String
  pub stale_before : ℕ
  pub max_host_concurrency : ℕ

pub record Claimed : Type 0 where
  pub generation : ℕ
  pub takeover : Bool

-- `ownerId !== null && heartbeatAt !== null && heartbeatAt >= staleBefore`
abbrev pub is_fresh : ℕ → Option String → Option ℕ → Bool
is_fresh stale none beat = false
is_fresh stale (some owner) none = false
is_fresh stale (some owner) (some beat) = leb stale beat

unfoldable pub is_live : ℕ → Run → Bool
is_live stale r =
    is_fresh stale r.owner_id r.heartbeat_at && not (is_terminal_run_event_phase r.state)

-- The live owners of the other runs.
unfoldable pub live_owners : Claim → List Run → List Run
live_owners c runs = keep (λ r. not (str_eq r.run_id c.run_id) && is_live c.stale_before r) runs

-- A checkpoint from a generation that the run has not reached.
abbrev is_future : Option ℕ → ℕ → Bool
is_future none g = false
is_future (some fence) g = ltb g fence

-- `latestCheckpoint !== undefined && latestCheckpoint.fencing_generation < generation`
abbrev is_takeover : Option ℕ → ℕ → Bool
is_takeover none g = false
is_takeover (some fence) g = ltb fence g

abbrev is_none {ℓ} : {A : Type ℓ} → Option A → Bool
is_none none = true
is_none (some a) = false

-- The exact admission event that a first claim recovers from.
abbrev admits : ℕ → Option Admission → Option FirstEvent → Bool
admits at none e = false
admits at (some a) none = false
admits at (some a) (some e) =
    e.is_work_order_admitted
    && phase_eq e.phase admitted
    && str_eq e.policy_digest a.effective_policy_digest
    && leb e.at at

-- A first claim writes the admission checkpoint under the new generation; a later one leaves the
-- checkpoints alone.
checkpointed : ℕ → ℕ → Run → Option ℕ → Outcome OwnershipError (Option ℕ)
checkpointed at generation r (some fence) = returned (some fence)
checkpointed at generation r none =
    if not (phase_eq r.state admitted)
      || not (r.state_version == 1)
      || not (is_none r.candidate_sha)
    then thrown no_checkpoint
    else if not (admits at r.admission r.first_event)
    then thrown no_admission_event
    else returned (some generation)

granted :
    Claim
    → ℕ
    → List Run
    → Run
    → Outcome OwnershipError (Option ℕ)
    → Outcome OwnershipError (Option Claimed × List Run)
granted c at runs r (thrown e) = thrown e
granted c at runs r (returned fence) = returned (
  some (record {
    generation = r.generation + 1;
    takeover = is_takeover r.checkpoint (r.generation + 1);
  }),
  put
      (record r {
        owner_id = some c.owner_id;
        generation = r.generation + 1;
        heartbeat_at = some at;
        checkpoint = fence;
      })
      runs,
)

-- The transaction of `claimAsfRun` once its row is read.
claim_row : Claim → ℕ → List Run → Option Run → Outcome OwnershipError (Option Claimed × List Run)
unfolding granted checkpointed
claim_row c at runs none = returned (none, runs)
claim_row c at runs (some r) =
    if is_terminal_run_event_phase r.state
    then returned (none, runs)
    else if is_fresh c.stale_before r.owner_id r.heartbeat_at
    then returned (none, runs)
    else if any (λ o. same_repo o.repo r.repo) (live_owners c runs)
    then returned (none, runs)
    else if leb c.max_host_concurrency (length (live_owners c runs))
    then returned (none, runs)
    else if is_future r.checkpoint r.generation
    then thrown future_checkpoint
    else granted c at runs r (checkpointed at (r.generation + 1) r r.checkpoint)

-- The update of the source names the owner and the generation that it has just read in the same
-- immediate transaction, so it changes the one row.
unfoldable pub claim_asf_run :
    Claim → ℕ → List Run → Outcome OwnershipError (Option Claimed × List Run)
unfolding claim_row
claim_asf_run c at runs =
    if ltb c.max_host_concurrency 1
    then thrown bad_concurrency
    else claim_row c at runs (get c.run_id runs)

-- `owner_id = ? AND generation = ?`
abbrev pub holds : String → ℕ → Run → Bool
holds owner generation r =
    elim r.owner_id [ none ↦ false | some o ↦ str_eq o owner ] && r.generation == generation

heartbeat_row : String → ℕ → ℕ → List Run → Option Run → Outcome OwnershipError (List Run)
heartbeat_row owner generation at runs none = thrown lease_lost
heartbeat_row owner generation at runs (some r) =
    if holds owner generation r
    then returned (put (record r { heartbeat_at = some at }) runs)
    else thrown lease_lost

unfoldable pub heartbeat_asf_run :
    String → String → ℕ → ℕ → List Run → Outcome OwnershipError (List Run)
unfolding heartbeat_row
heartbeat_asf_run id owner generation at runs = heartbeat_row owner generation at runs (get id runs)

release_row : String → ℕ → List Run → Option Run → Outcome OwnershipError (List Run)
release_row owner generation runs none = thrown lease_lost
release_row owner generation runs (some r) =
    if holds owner generation r
    then returned (put (record r { owner_id = none; heartbeat_at = none }) runs)
    else thrown lease_lost

unfoldable pub release_asf_run_ownership :
    String → String → ℕ → List Run → Outcome OwnershipError (List Run)
unfolding release_row
release_asf_run_ownership id owner generation runs = release_row owner generation runs (get id runs)

guard_row : String → ℕ → Phase → ℕ → Option Run → Outcome OwnershipError Run
guard_row owner generation from version none = thrown transition_rejected
guard_row owner generation from version (some r) =
    if not (holds owner generation r)
    then thrown lease_lost
    else if not (phase_eq r.state from) || not (r.state_version == version)
    then thrown transition_rejected
    else returned r

-- The guard at the head of `transitionAsfRun`: the owner's fence, then the compare-and-swap on the
-- phase and the version.
unfoldable pub guard_transition :
    String → String → ℕ → Phase → ℕ → List Run → Outcome OwnershipError Run
unfolding guard_row
guard_transition id owner generation from version runs =
    guard_row owner generation from version (get id runs)
