-- ===== src/Asf/Ownership/Claims.antt =====
-- What a claim that is granted has checked, and what it leaves (`claimAsfRun`, src/state/store.ts).
use runmill.Base.{
  refl, not, ◌&&◌, Member, Member-keep, false-any, some-inj, ℕ, ◌+◌, ◌≡◌, ◌<◌, ◌≤◌, true, false,
  List, Option, none, some, String, returned, arith, any, length, ◌≢◌, inl, inr, Bool-cases,
  Option-cases, str_eq, str_eq_iff, if◌then◌else◌,
}
use runmill.Asf.Phase.{is_terminal_run_event_phase}
use runmill.Asf.Ownership.Table.{Run, get, put, get-put_self, get-put_ne, run_id-get}
use runmill.Asf.Ownership.FirstClaim.{IsAdmitted, admits-IsAdmitted}
use runmill.Asf.Ownership.{Claim, Claimed, claim_asf_run, is_fresh, live_owners, same_repo, is_live}

-- The row as a claim leaves it.
abbrev pub owned_by : Claim → ℕ → Option ℕ → Run → Run
owned_by c at fence r = record r {
  owner_id = some c.owner_id;
  generation = r.generation + 1;
  heartbeat_at = some at;
  checkpoint = fence;
}

-- A run of the repository of `row`, other than the claimed one and not ended, has no owner with a
-- heartbeat, or one that was last heard of before the claim's limit.
abbrev pub HasNoLiveOwner : Claim → Run → Run → Type 0
HasNoLiveOwner c row x =
    x.run_id ≢ c.run_id
    → is_terminal_run_event_phase x.state ≡ false
    → same_repo x.repo row.repo ≡ true
    → (o : String) (beat : ℕ) → x.owner_id ≡ some o
    → x.heartbeat_at ≡ some beat
    → beat < c.stale_before

-- What a granted claim found and left: an open run that nobody is at work on, no live owner of another
-- run of its repository, and room on the host. Without a checkpoint the run is as its admission left it,
-- and the claim writes the first checkpoint; with one, from no later generation than the run has reached,
-- the claim is a takeover and leaves the checkpoint alone.
pub record Granted (c : Claim) (at : ℕ) (runs : List Run) (g : Claimed) (after : List Run)
    : Type 0 where
  pub row : Run
  pub fence : Option ℕ
  pub found : get c.run_id runs ≡ some row
  pub open_phase : is_terminal_run_event_phase row.state ≡ false
  pub stale : is_fresh c.stale_before row.owner_id row.heartbeat_at ≡ false
  pub unheard :
      (o : String) (beat : ℕ)
      → row.owner_id ≡ some o
      → row.heartbeat_at ≡ some beat
      → beat < c.stale_before
  pub others : (x : Run) → Member x runs → HasNoLiveOwner c row x
  pub alone : any (λ o. same_repo o.repo row.repo) (live_owners c runs) ≡ false
  pub room : length (live_owners c runs) < c.max_host_concurrency
  pub first :
      row.checkpoint ≡ none → IsAdmitted at row × (fence ≡ some g.generation) × (g.takeover ≡ false)
  pub again :
      (f : ℕ)
      → row.checkpoint ≡ some f
      → (f ≤ row.generation) × (fence ≡ some f) × (g.takeover ≡ true)
  pub next : g.generation ≡ row.generation + 1
  pub written : after ≡ put (owned_by c at fence row) runs

heard-late :
    (stale : ℕ) (owner : Option String) (heard : Option ℕ) (o : String) (beat : ℕ)
    → is_fresh stale owner heard ≡ false
    → owner ≡ some o
    → heard ≡ some beat
    → beat < stale
heard-late stale none heard o beat h e k = cc
heard-late stale (some x) none o beat h e k = cc
heard-late stale (some x) (some y) o beat h e k = let same = some-inj k in ground arith

not_other : (x : Run) (c : Claim) → x.run_id ≢ c.run_id → str_eq x.run_id c.run_id ≡ false
not_other x c other = elim (Bool-cases (str_eq x.run_id c.run_id)) [
  | inl same ↦ absurd (other ((str_eq_iff x.run_id c.run_id).0 same))
  | inr apart ↦ apart
]

elsewhere :
    (c : Claim) (runs : List Run) (row x : Run)
    → any (λ o. same_repo o.repo row.repo) (live_owners c runs) ≡ false
    → Member x runs
    → HasNoLiveOwner c row x
unfolding live_owners is_live
elsewhere c runs row x alone m other open_phase same o beat owner heard =
    elim (Bool-cases (is_fresh c.stale_before x.owner_id x.heartbeat_at)) [
      | inr late ↦ heard-late c.stale_before x.owner_id x.heartbeat_at o beat late owner heard
      | inl fresh ↦
          let live =
            Member-keep (λ r. not (str_eq r.run_id c.run_id) && is_live c.stale_before r) x runs m
              (rw (not_other x c other, fresh, open_phase) refl) in
          absurd (
            cc (false-any (λ r. same_repo r.repo row.repo) x (live_owners c runs) alone live, same))
    ]

claim-Granted_row :
    (c : Claim) (at : ℕ) (runs : List Run) (g : Claimed) (after : List Run) (r : Run)
    → get c.run_id runs ≡ some r
    → claim_asf_run c at runs ≡ returned (some g, after)
    → Granted c at runs g after
unfolding claim_asf_run
claim-Granted_row c at runs g after r e h = elim (Option-cases r.checkpoint) [
  | inl none_yet ↦ record {
    row = r;
    fence = some (r.generation + 1);
    found = e;
    first = λ n. (
      admits-IsAdmitted at r (ground arith) (ground arith) (ground arith) (ground arith),
      ground arith,
      ground arith,
    );
    again = λ f some_f. cc;
    open_phase = ground arith;
    stale = ground arith;
    unheard = λ o beat owner heard.
        heard-late c.stale_before r.owner_id r.heartbeat_at o beat (ground arith) owner heard;
    others = λ x m. elsewhere c runs r x (ground arith) m;
    alone = ground arith;
    room = ground arith;
    next = ground arith;
    written = ground arith;
  }
  | inr (f, known) ↦ record {
    row = r;
    fence = some f;
    found = e;
    first = λ n. cc;
    again = λ f' known'. (ground arith, ground arith, ground arith);
    open_phase = ground arith;
    stale = ground arith;
    unheard = λ o beat owner heard.
        heard-late c.stale_before r.owner_id r.heartbeat_at o beat (ground arith) owner heard;
    others = λ x m. elsewhere c runs r x (ground arith) m;
    alone = ground arith;
    room = ground arith;
    next = ground arith;
    written = ground arith;
  }
]

-- A claim of a run that is not there grants nothing.
claim-missing :
    (c : Claim) (at : ℕ) (runs : List Run) (g : Claimed) (after : List Run)
    → get c.run_id runs ≡ none
    → claim_asf_run c at runs ≢ returned (some g, after)
unfolding claim_asf_run
claim-missing c at runs g after e h = ground arith

-- A claim is granted only on a run that is there and not ended, whose owner, if it has one with a
-- heartbeat, was last heard of before the claim's limit; so was every such owner of another open run of
-- the same repository, and the live owners of other runs leave room on the host. A run without a
-- checkpoint is admitted, at version 1 and without a candidate, and has the admission event of its
-- policy, recorded no later than now; a checkpoint comes from no later generation than the run's. The claim moves the
-- generation by one, is a takeover exactly when there was a checkpoint, and writes only its own row.
pub claim-Granted :
    (c : Claim) (at : ℕ) (runs : List Run) (g : Claimed) (after : List Run)
    → claim_asf_run c at runs ≡ returned (some g, after)
    → Granted c at runs g after
claim-Granted c at runs g after h = elim (Option-cases (get c.run_id runs)) [
  | inl e ↦ absurd (claim-missing c at runs g after e h)
  | inr (r, e) ↦ claim-Granted_row c at runs g after r e h
]

-- The claimed row belongs to the claimant at the new generation, and the other rows are as before.
pub get-claim :
    (c : Claim) (at : ℕ) (runs : List Run) (g : Claimed) (after : List Run)
    (k : Granted c at runs g after) (id : String)
    → get id after
      ≡ (if str_eq c.run_id id then some (owned_by c at k.fence k.row) else get id runs)
get-claim c at runs g after k id = elim (Bool-cases (str_eq c.run_id id)) [
  | inl same ↦ rw same (
      rw k.written (
        get-put_self _ id runs k.row (cc (k.found, (str_eq_iff c.run_id id).0 same))
          (cc (run_id-get c.run_id runs k.row k.found, (str_eq_iff c.run_id id).0 same))))
  | inr other ↦
      rw other
        (rw k.written (get-put_ne _ id runs (cc (run_id-get c.run_id runs k.row k.found, other))))
]

-- A claim that grants nothing writes nothing.
pub claim-refused :
    (c : Claim) (at : ℕ) (runs after : List Run)
    → claim_asf_run c at runs ≡ returned (none, after)
    → after ≡ runs
unfolding claim_asf_run
claim-refused c at runs after h = elim (Option-cases (get c.run_id runs)) [
  | inl e ↦ ground arith
  | inr (r, e) ↦ ground arith
]
