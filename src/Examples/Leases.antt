-- ===== src/Examples/Leases.antt =====
-- Workers on a git ref (src/queue/git-lease.ts), with a remote that is a function.
use runmill.Base.{
  ℕ, ◌≡◌, ◌≢◌, ◌⊎◌, inl, inr, refl, Bool, true, false, ◌&&◌, ◌==◌, Option, none, some, String,
  str_eq, Outcome, returned, thrown, if◌then◌else◌, arith, str_eq_iff, Bool-cases, returned-inj,
}
use runmill.Queue.GitLease.{
  LeaseRecord, HeldLease, GitError, git_failed, Remote, Worker, conflict, build_record, taken,
  nothing_prior, read, acquire, compare_and_swap, assert_held, takeover, release,
}
use runmill.Queue.GitLease.Swaps.{IsMinted}
use runmill.Queue.GitLease.Fence.{here, takeover-fences}
use runmill.Queue.GitLease.Own.{acquire-Claims, release_own}

abbrev opt_eq : Option String → Option String → Bool
opt_eq none none = true
opt_eq (some a) (some b) = str_eq a b
opt_eq _ _ = false

opt_eq-eq : (a b : Option String) → opt_eq a b ≡ true → a ≡ b
opt_eq-eq none none h = refl
opt_eq-eq (some a) (some b) h = ground (arith, str_eq_iff a b)
opt_eq-eq none (some b) h = cc
opt_eq-eq (some a) none h = cc

abbrev lease_eq : LeaseRecord → LeaseRecord → Bool
lease_eq a b =
    str_eq a.issue_id b.issue_id
    && str_eq a.run_id b.run_id
    && str_eq a.repo b.repo
    && a.generation == b.generation
    && a.acquired_at == b.acquired_at
    && a.expires_at == b.expires_at
    && a.heartbeat_at == b.heartbeat_at
    && str_eq a.host_id b.host_id
    && a.pid == b.pid
    && opt_eq a.boot_id b.boot_id
    && opt_eq a.prior_state_id b.prior_state_id
    && opt_eq a.prior_assignee_id b.prior_assignee_id

lease_eq-eq : (a b : LeaseRecord) → lease_eq a b ≡ true → a ≡ b
lease_eq-eq a b h = ground (
  arith,
  str_eq_iff a.issue_id b.issue_id,
  str_eq_iff a.run_id b.run_id,
  str_eq_iff a.repo b.repo,
  str_eq_iff a.host_id b.host_id,
  opt_eq-eq a.boot_id b.boot_id,
  opt_eq-eq a.prior_state_id b.prior_state_id,
  opt_eq-eq a.prior_assignee_id b.prior_assignee_id,
)

abbrev alpha : Worker
alpha = record {
  run_id = "run-a";
  ttl_minutes = 1;
  host_id = "h1";
  pid = 7;
  boot_id = none;
  remote = none;
  takeover_grace_minutes = none;
}

abbrev beta : Worker
beta = record alpha { run_id = "run-b"; pid = 9 }

-- The claim of `alpha`, and the record with which `beta` takes it over.
abbrev first_lease : LeaseRecord
first_lease = build_record alpha 0 "ENG-1" 1 nothing_prior none

abbrev second_lease : LeaseRecord
second_lease = taken beta 700000 "ENG-1" first_lease

abbrev recorded : String → Option LeaseRecord
recorded o =
    if str_eq o "a1" then some first_lease else if str_eq o "b2" then some second_lease else none

abbrev committed : LeaseRecord → Outcome GitError String
committed r =
    if lease_eq r first_lease
    then returned "a1"
    else if lease_eq r second_lease
    then returned "b2"
    else thrown git_failed

committed-recorded : {r : LeaseRecord} {o : String} → committed r ≡ returned o → recorded o ≡ some r
committed-recorded {r} {o} h = elim (Bool-cases (lease_eq r first_lease)) [
  | inl same ↦ rw (← returned-inj (rw same at h)) (rw (lease_eq-eq r first_lease same) refl)
  | inr other ↦ elim (Bool-cases (lease_eq r second_lease)) [
    | inl same ↦
        rw (← returned-inj (rw (other, same) at h)) (rw (lease_eq-eq r second_lease same) refl)
    | inr neither ↦ absurd (cc (rw (other, neither) at h))
  ]
]

abbrev fetched : Option LeaseRecord → Outcome GitError LeaseRecord
fetched none = thrown git_failed
fetched (some r) = returned r

fetched-recorded :
    (found : Option LeaseRecord) (r : LeaseRecord) → fetched found ≡ returned r → found ≡ some r
fetched-recorded none r h = cc
fetched-recorded (some q) r h = cc

abbrev Ref : Type 0
Ref = Option String

abbrev pushed : Ref → String → String → Outcome GitError (Unit {0}) × Ref
pushed none name o = (returned tt, some o)
pushed (some p) name o = if str_eq p o then (returned tt, some p) else (thrown git_failed, some p)

pushed_lem :
    (s : Ref) (name o : String)
    → ((s ≡ none) ⊎ (s ≡ some o)) × ((pushed s name o).1 ≡ some o)
      ⊎ ((pushed s name o).1 ≡ s) × ((pushed s name o).0 ≡ thrown git_failed)
pushed_lem none name o = inl (inl refl, refl)
pushed_lem (some p) name o = elim (Bool-cases (str_eq p o)) [
  | inl same ↦ let e = (str_eq_iff p o).0 same in rw same (inl (inr (cc), cc))
  | inr other ↦ rw other (inr (refl, refl))
]

abbrev swapped : Ref → String → String → Ref → Outcome GitError (Unit {0}) × Ref
swapped none name expected o = (thrown git_failed, none)
swapped (some p) name expected o =
    if str_eq p expected then (returned tt, o) else (thrown git_failed, some p)

swapped_lem :
    (s : Ref) (name expected : String) (o : Ref)
    → ((s ≡ some expected) ⊎ (s ≡ o)) × ((swapped s name expected o).1 ≡ o)
      ⊎ ((swapped s name expected o).1 ≡ s) × ((swapped s name expected o).0 ≡ thrown git_failed)
swapped_lem none name expected o = inr (refl, refl)
swapped_lem (some p) name expected o = elim (Bool-cases (str_eq p expected)) [
  | inl same ↦ let e = (str_eq_iff p expected).0 same in rw same (inl (inl (cc), refl))
  | inr other ↦ rw other (inr (refl, refl))
]

abbrev one_ref : Remote
one_ref = record {
  State = Ref;
  ref = λ s name. s;
  message = recorded;
  commit_tree = committed;
  ls_remote = λ s name. returned s;
  fetch = λ s o. fetched (recorded o);
  push = pushed;
  push_with_lease = swapped;
  commit_tree_lem = committed-recorded;
  ls_remote_lem = returned-inj;
  fetch_lem = λ h. fetched-recorded _ _ h;
  push_lem = pushed_lem;
  push_with_lease_lem = swapped_lem;
}

abbrev held_by_alpha : HeldLease
held_by_alpha = record {
  lease = first_lease;
  ref_name = "refs/runmill/leases/ENG-1";
  object_id = "a1";
}

abbrev held_by_beta : HeldLease
held_by_beta = record {
  lease = second_lease;
  ref_name = "refs/runmill/leases/ENG-1";
  object_id = "b2";
}

claimed :
    acquire one_ref alpha 0 "ENG-1" nothing_prior none none ≡ (returned held_by_alpha, some "a1")
unfolding acquire
claimed = refl

read_by_beta : read one_ref "ENG-1" (some "a1") ≡ returned (some held_by_alpha)
unfolding read
read_by_beta = refl

taken_over :
    (takeover one_ref beta 700000 "ENG-1" (some "a1") (some "a1") none).0 ≡ returned held_by_beta
unfolding takeover compare_and_swap read
taken_over = refl

takeover-fences_example :
    assert_held one_ref held_by_alpha
      (takeover one_ref beta 700000 "ENG-1" (some "a1") (some "a1") none).1
    ≢ returned tt
takeover-fences_example =
    takeover-fences one_ref beta 700000 (some "a1") (some "a1") none
      (takeover one_ref beta 700000 "ENG-1" (some "a1") (some "a1") none).1 held_by_alpha
      held_by_alpha held_by_beta read_by_beta (omega arith) taken_over here

release_own_example :
    ((release one_ref held_by_alpha (some "a1") (some "b2")).1 ≡ some "b2")
    ⊎ (◌≡◌ {A = Ref} (some "b2") (some "a1"))
      × ((release one_ref held_by_alpha (some "a1") (some "b2")).1 ≡ none)
      × (assert_held one_ref held_by_alpha (some "a1") ≡ returned tt)
release_own_example = release_own one_ref held_by_alpha (some "a1") (some "b2")

acquire-Claims_example :
    ((new : HeldLease)
      → (acquire one_ref alpha 0 "ENG-1" nothing_prior none none).0 ≡ returned new
      → ((◌≡◌ {A = Ref} none none) ⊎ (none ≡ some new.object_id))
        × ((acquire one_ref alpha 0 "ENG-1" nothing_prior none none).1 ≡ some new.object_id)
        × IsMinted one_ref new
        × (new.lease ≡ build_record alpha 0 "ENG-1" 1 nothing_prior none))
    × ((by : Option String) (g : Option ℕ)
        → (acquire one_ref alpha 0 "ENG-1" nothing_prior none none).0 ≡ thrown (conflict by g)
        → (o : String) × (r : LeaseRecord) × (◌≡◌ {A = Ref} none (some o))
          × (recorded o ≡ some r)
          × (by ≡ some r.run_id)
          × (g ≡ some r.generation))
acquire-Claims_example = acquire-Claims one_ref alpha 0 "ENG-1" nothing_prior none none
