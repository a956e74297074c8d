-- ===== src/Queue/GitLease.antt =====
-- The distributed lease on a git ref (src/queue/git-lease.ts). Git is a parameter, `Remote`, with what
-- the lease relies on. Other workers act between two calls of an operation: each call of the remote
-- takes the state that the remote is in then. Instants are numbers of milliseconds, and the JSON text of
-- a record is taken decoded.
pub mod Swaps
pub mod Fence
pub mod Own
use Prim.Native.String.{◌++◌ as str_append}
use runmill.Base.{
  ℕ, ◌+◌, ◌*◌, ◌≡◌, ◌⊎◌, Bool, true, false, not, ◌&&◌, Option, none, some, String, str_eq, Outcome,
  returned, thrown, ◌>>=◌, ltb, ◌==◌, if◌then◌else◌,
}

pub record LeaseRecord : Type 0 where
  pub issue_id : String
  pub run_id : String
  pub repo : String
  pub generation : ℕ
  pub acquired_at : ℕ
  pub expires_at : ℕ
  pub heartbeat_at : ℕ
  pub host_id : String
  pub pid : ℕ
  pub boot_id : Option String
  pub prior_state_id : Option String
  pub prior_assignee_id : Option String

-- `object_id` is the token of the compare-and-swap.
pub record HeldLease : Type 0 where
  pub lease : LeaseRecord
  pub ref_name : String
  pub object_id : String

-- A command of git that fails.
pub data GitError : Type 0 where
  git_failed : GitError

-- The commands of git that the lease calls. `ref` is what the server holds under a name, and `message`
-- the record in the commit of an object id, which the id determines.
pub record Remote : Type 1 where
  pub State : Type 0
  pub ref : State → String → Option String
  pub message : String → Option LeaseRecord
  pub commit_tree : LeaseRecord → Outcome GitError String
  pub ls_remote : State → String → Outcome GitError (Option String)
  pub fetch : State → String → Outcome GitError LeaseRecord
  pub push : State → String → String → Outcome GitError (Unit {0}) × State
  pub push_with_lease :
      State → String → String → Option String → Outcome GitError (Unit {0}) × State
  pub commit_tree_lem :
      {r : LeaseRecord} {o : String} → commit_tree r ≡ returned o → message o ≡ some r
  pub ls_remote_lem :
      {s : State} {name : String} {o : Option String}
      → ls_remote s name ≡ returned o
      → ref s name ≡ o
  pub fetch_lem :
      {s : State} {o : String} {r : LeaseRecord} → fetch s o ≡ returned r → message o ≡ some r
  -- An orphan commit fast-forwards nothing: a plain push only creates a ref, or finds it up to date. One
  -- whose answer is lost may have been made all the same.
  pub push_lem :
      (s : State) (name o : String)
      → ((ref s name ≡ none) ⊎ (ref s name ≡ some o)) × (ref (push s name o).1 name ≡ some o)
        ⊎ (ref (push s name o).1 name ≡ ref s name) × ((push s name o).0 ≡ thrown git_failed)
  -- `--force-with-lease` moves the ref only from the expected object, or finds it up to date.
  pub push_with_lease_lem :
      (s : State) (name expected : String) (o : Option String)
      → ((ref s name ≡ some expected) ⊎ (ref s name ≡ o))
          × (ref (push_with_lease s name expected o).1 name ≡ o)
        ⊎ (ref (push_with_lease s name expected o).1 name ≡ ref s name)
          × ((push_with_lease s name expected o).0 ≡ thrown git_failed)

-- GitRefLeaseOptions
pub record Worker : Type 0 where
  pub run_id : String
  pub ttl_minutes : ℕ
  pub host_id : String
  pub pid : ℕ
  pub boot_id : Option String
  pub remote : Option String
  pub takeover_grace_minutes : Option ℕ

-- What is restored when the lease ends.
pub record Extra : Type 0 where
  pub prior_state_id : Option String
  pub prior_assignee_id : Option String

pub data LeaseError : Type 0 where
  conflict : Option String → Option ℕ → LeaseError
  not_claimed failed : GitError → LeaseError
  still_live : LeaseError

abbrev pub lease_ref_name : String → String
lease_ref_name issue_id = str_append "refs/runmill/leases/" issue_id

abbrev or_else {ℓ} : {A : Type ℓ} → Option A → A → A
or_else none d = d
or_else (some a) d = a

-- `#buildRecord`
abbrev pub build_record : Worker → ℕ → String → ℕ → Extra → Option ℕ → LeaseRecord
build_record w now issue_id generation extra acquired_at = record {
  issue_id = issue_id;
  run_id = w.run_id;
  repo = or_else w.remote "origin";
  generation = generation;
  acquired_at = or_else acquired_at now;
  expires_at = now + w.ttl_minutes * 60000;
  heartbeat_at = now;
  host_id = w.host_id;
  pid = w.pid;
  boot_id = w.boot_id;
  prior_state_id = extra.prior_state_id;
  prior_assignee_id = extra.prior_assignee_id;
}

-- The records that a heartbeat and a takeover of `r` write.
abbrev pub renewed : Worker → ℕ → LeaseRecord → LeaseRecord
renewed w now r =
    build_record w now r.issue_id r.generation
      (record { prior_state_id = r.prior_state_id; prior_assignee_id = r.prior_assignee_id })
      (some r.acquired_at)

abbrev pub taken : Worker → ℕ → String → LeaseRecord → LeaseRecord
taken w now issue_id r =
    build_record w now issue_id (r.generation + 1)
      (record { prior_state_id = r.prior_state_id; prior_assignee_id = r.prior_assignee_id }) none

abbrev pub nothing_prior : Extra
nothing_prior = record { prior_state_id = none; prior_assignee_id = none }

-- `#isStale`
abbrev pub is_stale : Worker → ℕ → LeaseRecord → Bool
is_stale w now r = ltb (r.expires_at + or_else w.takeover_grace_minutes 10 * 60000) now

abbrev pub or_failed {ℓ} : {A : Type ℓ} → Outcome GitError A → Outcome LeaseError A
or_failed (returned a) = returned a
or_failed (thrown e) = thrown (failed e)

-- The error of a compare-and-swap, from what is read after it failed.
abbrev pub moved_away : Outcome LeaseError (Option HeldLease) → LeaseError
moved_away (returned none) = conflict none none
moved_away (returned (some h)) = conflict (some h.lease.run_id) (some h.lease.generation)
moved_away (thrown e) = e

-- The error of a claim: contention only where a lease is there.
abbrev pub not_acquired : GitError → Outcome LeaseError (Option HeldLease) → LeaseError
not_acquired e (returned (some h)) = conflict (some h.lease.run_id) (some h.lease.generation)
not_acquired e (returned none) = not_claimed e
not_acquired e (thrown _) = not_claimed e

-- What `assertHeld` says of the lease that it reads.
abbrev pub held_verdict : HeldLease → Option HeldLease → Outcome LeaseError (Unit {0})
held_verdict held none = thrown (conflict none none)
held_verdict held (some current) =
    if str_eq current.lease.run_id held.lease.run_id
      && current.lease.generation == held.lease.generation
    then returned tt
    else thrown (conflict (some current.lease.run_id) (some current.lease.generation))

module _ (remote : Remote) where
  open remote use {State, commit_tree, ls_remote, fetch, push, push_with_lease}

  abbrev pub Call : Type 0 → Type 0
  Call A = Outcome LeaseError A × State

  -- `read`
  unfoldable pub read : String → State → Outcome LeaseError (Option HeldLease)
  read issue_id s = or_failed (ls_remote s (lease_ref_name issue_id)) >>= λ found. elim found [
    | none ↦ returned none
    | some o ↦ or_failed (fetch s o) >>= λ r.
        returned (some (record { lease = r; ref_name = lease_ref_name issue_id; object_id = o }))
  ]

  -- `acquire`: the push is made in `s`, and a failure is looked into in `later`.
  unfoldable pub acquire : Worker → ℕ → String → Extra → State → State → Call HeldLease
  acquire w now issue_id extra s later =
      let r = build_record w now issue_id 1 extra none in
      elim (commit_tree r) [
        | thrown e ↦ (thrown (failed e), s)
        | returned o ↦
            let (answer, after) = push s (lease_ref_name issue_id) o in
            elim answer [
              | returned _ ↦ (
                returned (record { lease = r; ref_name = lease_ref_name issue_id; object_id = o }),
                after,
              )
              | thrown e ↦ (thrown (not_acquired e (read issue_id later)), after)
            ]
      ]

  -- `#compareAndSwap`
  unfoldable pub compare_and_swap : HeldLease → LeaseRecord → State → State → Call HeldLease
  compare_and_swap held next s later = elim (commit_tree next) [
    | thrown e ↦ (thrown (failed e), s)
    | returned o ↦
        let name = lease_ref_name next.issue_id in
        let (answer, after) = push_with_lease s name held.object_id (some o) in
        elim answer [
          | returned _ ↦ (returned (record { lease = next; ref_name = name; object_id = o }), after)
          | thrown e ↦ (thrown (moved_away (read next.issue_id later)), after)
        ]
  ]

  unfoldable pub heartbeat : Worker → ℕ → HeldLease → State → State → Call HeldLease
  heartbeat w now held s later = compare_and_swap held (renewed w now held.lease) s later

  unfoldable pub assert_held : HeldLease → State → Outcome LeaseError (Unit {0})
  assert_held held s = read held.lease.issue_id s >>= held_verdict held

  -- `takeover`: the lease is read in `seen`.
  unfoldable pub takeover : Worker → ℕ → String → State → State → State → Call HeldLease
  takeover w now issue_id seen s later = elim (read issue_id seen) [
    | thrown e ↦ (thrown e, s)
    | returned none ↦ acquire w now issue_id nothing_prior s later
    | returned (some current) ↦
        if not (is_stale w now current.lease)
        then (thrown still_live, s)
        else compare_and_swap current (taken w now issue_id current.lease) s later
  ]

  -- `release`: the check is made in `seen`.
  unfoldable pub release : HeldLease → State → State → Call (Unit {0})
  release held seen s = elim (assert_held held seen) [
    | thrown e ↦ (thrown e, s)
    | returned _ ↦
        let (answer, after) =
          push_with_lease s (lease_ref_name held.lease.issue_id) held.object_id none in
        (or_failed answer, after)
  ]
