-- ===== src/Queue/GitLease/Swaps.antt =====
-- What the calls on a git ref have read and replaced when they return (src/queue/git-lease.ts).
use runmill.Base.{
  ℕ, ◌≡◌, ◌⊎◌, refl, sym, ◌∙◌, true, Option, none, some, some-inj, String, Outcome, returned,
  thrown, ◌>>=◌, >>=-eq-returned, Outcome-cases, returned-inj, Bool-cases, inl, inr,
}
use runmill.Queue.GitLease.{
  LeaseRecord, HeldLease, GitError, Remote, Worker, LeaseError, lease_ref_name, taken, is_stale,
  or_failed, read, compare_and_swap, takeover,
}

or_failed-eq :
    {A : Type 0} (m : Outcome GitError A) (a : A) → or_failed m ≡ returned a → m ≡ returned a
or_failed-eq (returned b) a h = let same = returned-inj h in rw same refl
or_failed-eq (thrown e) a h = cc

module _ (remote : Remote) where
  open remote use {State, ref, message, commit_tree, ls_remote, fetch, push, push_with_lease}

  -- A handle whose token is the commit of its record.
  abbrev pub IsMinted : HeldLease → Type 0
  IsMinted h = message h.object_id ≡ some h.lease

  abbrev fetched : String → String → LeaseRecord → Option HeldLease
  fetched issue_id o r =
      some (record { lease = r; ref_name = lease_ref_name issue_id; object_id = o })

  fetched-held :
      (issue_id : String) (s : State) (h : HeldLease) (found : Option String)
      → ref s (lease_ref_name issue_id) ≡ found
      → (elim found as (λ _. Outcome LeaseError (Option HeldLease)) [
        | none ↦ returned none
        | some o ↦ or_failed (fetch s o) >>= λ r. returned (fetched issue_id o r)
      ])
        ≡ returned (some h)
      → IsMinted h × (ref s (lease_ref_name issue_id) ≡ some h.object_id)
  fetched-held issue_id s h none there e = cc
  fetched-held issue_id s h (some o) there e =
      let (r, read, same) =
        >>=-eq-returned (or_failed (fetch s o)) (λ r. returned (fetched issue_id o r)) e in
      let recorded = remote.fetch_lem (or_failed-eq (fetch s o) r read) in
      let this = some-inj (returned-inj same) in rw (← this) (recorded, there)

  -- What is read is what the server holds.
  pub read-held :
      (issue_id : String) (s : State) (h : HeldLease)
      → read remote issue_id s ≡ returned (some h)
      → IsMinted h × (ref s (lease_ref_name issue_id) ≡ some h.object_id)
  unfolding read
  read-held issue_id s h e =
      let (found, listed, rest) =
        >>=-eq-returned (or_failed (ls_remote s (lease_ref_name issue_id))) _ e in
      fetched-held issue_id s h found (remote.ls_remote_lem (or_failed-eq _ found listed)) rest

  -- What a compare-and-swap that returns has done.
  record Swapped (held : HeldLease) (next : LeaseRecord) (s after : State) (new : HeldLease)
      : Type 0 where
    lease_eq : new.lease ≡ next
    minted : IsMinted new
    there : ref after (lease_ref_name next.issue_id) ≡ some new.object_id
    before :
        (ref s (lease_ref_name next.issue_id) ≡ some held.object_id)
        ⊎ (ref s (lease_ref_name next.issue_id) ≡ some new.object_id)

  swap-Swapped :
      (held : HeldLease) (next : LeaseRecord) (s later : State) (new : HeldLease)
      → (compare_and_swap remote held next s later).0 ≡ returned new
      → Swapped held next s (compare_and_swap remote held next s later).1 new
  unfolding compare_and_swap
  swap-Swapped held next s later new h = elim (Outcome-cases (commit_tree next)) [
    | inr (e, failed) ↦ absurd (cc (rw (failed, compare_and_swap) at h))
    | inl (o, made) ↦
        let name = lease_ref_name next.issue_id in
        elim (Outcome-cases (push_with_lease s name held.object_id (some o)).0) [
          | inr (e, failed) ↦ absurd (cc (rw (made, failed, compare_and_swap) at h))
          | inl (u, done) ↦ elim (remote.push_with_lease_lem s name held.object_id (some o)) [
            | inr (same, failed) ↦ absurd (cc (sym done ∙ failed))
            | inl (before, there) ↦
                let this = returned-inj (rw (made, done, compare_and_swap) at h) in
                rw (made, done, compare_and_swap)
                  (rw (← this) (record {
                    lease_eq = refl;
                    minted = remote.commit_tree_lem made;
                    there = there;
                    before = before;
                  }))
          ]
        ]
  ]

  -- What a takeover that returns has done, where it had read a lease.
  pub record IsTakenOver (w : Worker) (now : ℕ) (issue_id : String) (current new : HeldLease)
      (s after : State) : Type 0 where
    pub stale : is_stale w now current.lease ≡ true
    pub lease_eq : new.lease ≡ taken w now issue_id current.lease
    pub minted : IsMinted new
    pub there : ref after (lease_ref_name issue_id) ≡ some new.object_id
    pub before :
        (ref s (lease_ref_name issue_id) ≡ some current.object_id)
        ⊎ (ref s (lease_ref_name issue_id) ≡ some new.object_id)

  pub takeover-IsTakenOver :
      (w : Worker) (now : ℕ) (issue_id : String) (seen s later : State) (current new : HeldLease)
      → read remote issue_id seen ≡ returned (some current)
      → (takeover remote w now issue_id seen s later).0 ≡ returned new
      → IsTakenOver w now issue_id current new s (takeover remote w now issue_id seen s later).1
  unfolding takeover
  takeover-IsTakenOver w now issue_id seen s later current new known done =
      elim (Bool-cases (is_stale w now current.lease)) [
        | inr live ↦ absurd (cc (rw (known, live, takeover) at done))
        | inl stale ↦
            let x =
              swap-Swapped current (taken w now issue_id current.lease) s later new
                (rw (known, stale, takeover) at done) in
            rw (known, stale, takeover)
              (record {
                stale = stale;
                lease_eq = x.lease_eq;
                minted = x.minted;
                there = x.there;
                before = x.before;
              })
      ]
