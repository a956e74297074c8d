-- ===== src/Queue/GitLease/Own.antt =====
-- Claims and releases leave the leases of other workers alone (src/queue/git-lease.ts).
use runmill.Base.{
  ℕ, ◌≡◌, ◌⊎◌, refl, sym, ◌∙◌, Option, none, some, String, Outcome, returned, thrown, Outcome-cases,
  returned-inj, Option-cases, inl, inr,
}
use runmill.Queue.GitLease.{
  LeaseRecord, HeldLease, GitError, Remote, Worker, Extra, conflict, lease_ref_name, build_record,
  not_acquired, read, acquire, assert_held, release,
}
use runmill.Queue.GitLease.Swaps.{IsMinted, read-held}

thrown-inj : {E A : Type 0} {a b : E} → ◌≡◌ {A = Outcome E A} (thrown a) (thrown b) → a ≡ b
thrown-inj h = cc

module _ (remote : Remote) where
  open remote use {State, ref, message, commit_tree, ls_remote, fetch, push, push_with_lease}

  not_acquired-conflict :
      (issue_id : String) (later : State) (e : GitError) (by : Option String) (g : Option ℕ)
      → not_acquired e (read remote issue_id later) ≡ conflict by g
      → (o : String) × (r : LeaseRecord) × (ref later (lease_ref_name issue_id) ≡ some o)
        × (message o ≡ some r)
        × (by ≡ some r.run_id)
        × (g ≡ some r.generation)
  not_acquired-conflict issue_id later e by g h =
      elim (Outcome-cases (read remote issue_id later)) [
        | inr (e', unread) ↦ absurd (cc (rw unread at h))
        | inl (found, known) ↦ elim (Option-cases found) [
          | inl free ↦ absurd (cc (rw (known, free) at h))
          | inr (x, leased) ↦
              let (recorded, there) = read-held remote issue_id later x (rw leased at known) in
              let this = rw (known, leased) at h in (x.object_id, x.lease, there, recorded, cc, cc)
        ]
      ]

  -- A claim that returns has found the issue free, unless its own record stood there already, and its lease
  -- is on the remote with the first generation. One that reports a conflict has read a lease that is there.
  pub acquire-Claims :
      (w : Worker) (now : ℕ) (issue_id : String) (extra : Extra) (s later : State)
      → ((new : HeldLease)
          → (acquire remote w now issue_id extra s later).0 ≡ returned new
          → ((ref s (lease_ref_name issue_id) ≡ none)
              ⊎ (ref s (lease_ref_name issue_id) ≡ some new.object_id))
            × (ref (acquire remote w now issue_id extra s later).1 (lease_ref_name issue_id)
                ≡ some new.object_id)
            × IsMinted remote new
            × (new.lease ≡ build_record w now issue_id 1 extra none))
        × ((by : Option String) (g : Option ℕ)
            → (acquire remote w now issue_id extra s later).0 ≡ thrown (conflict by g)
            → (o : String) × (r : LeaseRecord) × (ref later (lease_ref_name issue_id) ≡ some o)
              × (message o ≡ some r)
              × (by ≡ some r.run_id)
              × (g ≡ some r.generation))
  unfolding acquire
  acquire-Claims w now issue_id extra s later =
      let r = build_record w now issue_id 1 extra none in
      let name = lease_ref_name issue_id in
      elim (Outcome-cases (commit_tree r)) [
        | inr (e, failed) ↦ rw (failed, acquire) (λ new h. cc, λ by g h. cc)
        | inl (o, made) ↦ elim (Outcome-cases (push s name o).0) [
          | inl (u, done) ↦ elim (remote.push_lem s name o) [
            | inr (same, failed) ↦ absurd (cc (sym done ∙ failed))
            | inl (before, there) ↦
                rw (made, done, acquire)
                  (
                    λ new h.
                        rw (← returned-inj h) (before, there, remote.commit_tree_lem made, refl),
                    λ by g h. cc,
                  )
          ]
          | inr (e, failed) ↦
              rw (made, failed, acquire)
                (λ new h. cc, λ by g h. not_acquired-conflict issue_id later e by g (thrown-inj h))
        ]
      ]

  -- A release, even one that fails, leaves the ref of its issue as it is or removes the very lease that its
  -- handle holds: never one that another worker has put there since the check.
  pub release_own :
      (held : HeldLease) (seen s : State)
      → (ref (release remote held seen s).1 (lease_ref_name held.lease.issue_id)
          ≡ ref s (lease_ref_name held.lease.issue_id))
        ⊎ (ref s (lease_ref_name held.lease.issue_id) ≡ some held.object_id)
          × (ref (release remote held seen s).1 (lease_ref_name held.lease.issue_id) ≡ none)
          × (assert_held remote held seen ≡ returned tt)
  unfolding release
  release_own held seen s = elim (Outcome-cases (assert_held remote held seen)) [
    | inr (e, fenced) ↦ inl (rw (fenced, release) refl)
    | inl (u, passed) ↦
        let name = lease_ref_name held.lease.issue_id in
        elim (remote.push_with_lease_lem s name held.object_id none) [
          | inr (same, failed) ↦ inl (rw (passed, release) same)
          | inl (inl expected, gone) ↦ inr (expected, rw (passed, release) gone, passed)
          | inl (inr free, gone) ↦ inl (rw (passed, release) (gone ∙ sym free))
        ]
  ]
