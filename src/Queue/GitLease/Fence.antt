-- ===== src/Queue/GitLease/Fence.antt =====
-- The generations on a git ref shut out the holders of earlier ones (src/queue/git-lease.ts).
use mathlib.Core.Path.{subst}
use runmill.Base.{
  ℕ, ◌+◌, ◌≡◌, ◌≢◌, ◌≤◌, ◌<◌, ◌⊎◌, refl, sym, ap, ◌∙◌, ◌&&◌, none, some, some-inj, String, str_eq,
  returned, >>=-eq-returned, Outcome-cases, Bool-cases, Option-cases, inl, inr, ◌==◌, arith,
}
use runmill.Queue.GitLease.{
  LeaseRecord, HeldLease, Remote, Worker, Extra, lease_ref_name, build_record, renewed, taken,
  nothing_prior, is_stale, held_verdict, read, acquire, compare_and_swap, heartbeat, assert_held,
  takeover,
}
use runmill.Queue.GitLease.Swaps.{IsMinted, read-held, takeover-IsTakenOver}

module _ (remote : Remote) where
  open remote use {State, ref, message, commit_tree, ls_remote, fetch, push, push_with_lease}

  -- The issue is leased, with a generation of at least `g`.
  pub record AtLeast (issue_id : String) (g : ℕ) (s : State) : Type 0 where
    pub object_id : String
    pub lease : LeaseRecord
    pub there : ref s (lease_ref_name issue_id) ≡ some object_id
    pub recorded : message object_id ≡ some lease
    pub generation_le : g ≤ lease.generation

  -- Where a compare-and-swap leaves the remote.
  swap-after :
      (held : HeldLease) (next : LeaseRecord) (s later : State)
      → ((compare_and_swap remote held next s later).1 ≡ s)
        ⊎ ((o : String) × (commit_tree next ≡ returned o)
            × ((compare_and_swap remote held next s later).1
                ≡ (push_with_lease s (lease_ref_name next.issue_id) held.object_id (some o)).1))
  unfolding compare_and_swap
  swap-after held next s later = elim (Outcome-cases (commit_tree next)) [
    | inr (e, failed) ↦ inl (rw (failed, compare_and_swap) refl)
    | inl (o, made) ↦
        elim (Outcome-cases
          (push_with_lease s (lease_ref_name next.issue_id) held.object_id (some o)).0) [
            | inl (u, done) ↦ inr (o, made, rw (made, done, compare_and_swap) refl)
            | inr (e, failed) ↦ inr (o, made, rw (made, failed, compare_and_swap) refl)
          ]
  ]

  acquire-after :
      (w : Worker) (now : ℕ) (issue_id : String) (extra : Extra) (s later : State)
      → ((acquire remote w now issue_id extra s later).1 ≡ s)
        ⊎ ((o : String) × (commit_tree (build_record w now issue_id 1 extra none) ≡ returned o)
            × ((acquire remote w now issue_id extra s later).1
                ≡ (push s (lease_ref_name issue_id) o).1))
  unfolding acquire
  acquire-after w now issue_id extra s later =
      elim (Outcome-cases (commit_tree (build_record w now issue_id 1 extra none))) [
        | inr (e, failed) ↦ inl (rw (failed, acquire) refl)
        | inl (o, made) ↦ elim (Outcome-cases (push s (lease_ref_name issue_id) o).0) [
          | inl (u, done) ↦ inr (o, made, rw (made, done, acquire) refl)
          | inr (e, failed) ↦ inr (o, made, rw (made, failed, acquire) refl)
        ]
      ]

  -- The lease that is there is the one in the commit that the ref is known to hold.
  same-lease :
      {issue_id : String} {g : ℕ} {s : State} (a : AtLeast issue_id g s) (o : String)
      (r : LeaseRecord)
      → ref s (lease_ref_name issue_id) ≡ some o
      → message o ≡ some r
      → g ≤ r.generation
  same-lease a o r there recorded =
      let same_object = some-inj (sym a.there ∙ there) in
      let same : a.lease ≡ r = some-inj (sym a.recorded ∙ (ap message same_object ∙ recorded)) in
      rw (← same) a.generation_le

  swap-AtLeast :
      (g : ℕ) (held : HeldLease) (next : LeaseRecord) (s later : State)
      → IsMinted remote held
      → held.lease.generation ≤ next.generation
      → AtLeast next.issue_id g s
      → AtLeast next.issue_id g (compare_and_swap remote held next s later).1
  swap-AtLeast g held next s later minted grows a = elim (swap-after held next s later) [
    | inl same ↦ rw same a
    | inr (o, made, after) ↦
        let recorded = remote.commit_tree_lem made in
        elim (remote.push_with_lease_lem s (lease_ref_name next.issue_id) held.object_id (some o)) [
          | inr (same, failed) ↦ record {
            object_id = a.object_id;
            lease = a.lease;
            there = rw after (same ∙ a.there);
            recorded = a.recorded;
            generation_le = a.generation_le;
          }
          | inl (before, there) ↦ record {
            object_id = o;
            lease = next;
            there = rw after there;
            recorded = recorded;
            generation_le = elim before [
              | inl expected ↦ omega (arith, same-lease a held.object_id held.lease expected minted)
              | inr already ↦ same-lease a o next already recorded
            ];
          }
        ]
  ]

  acquire-AtLeast :
      (g : ℕ) (w : Worker) (now : ℕ) (issue_id : String) (extra : Extra) (s later : State)
      → AtLeast issue_id g s
      → AtLeast issue_id g (acquire remote w now issue_id extra s later).1
  acquire-AtLeast g w now issue_id extra s later a =
      elim (acquire-after w now issue_id extra s later) [
        | inl same ↦ rw same a
        | inr (o, made, after) ↦
            let recorded = remote.commit_tree_lem made in
            elim (remote.push_lem s (lease_ref_name issue_id) o) [
              | inr (same, failed) ↦ record {
                object_id = a.object_id;
                lease = a.lease;
                there = rw after (same ∙ a.there);
                recorded = a.recorded;
                generation_le = a.generation_le;
              }
              | inl (before, there) ↦ record {
                object_id = o;
                lease = build_record w now issue_id 1 extra none;
                there = rw after there;
                recorded = recorded;
                generation_le = elim before [
                  | inl free ↦ let contradiction = a.there in cc
                  | inr already ↦
                      same-lease a o (build_record w now issue_id 1 extra none) already recorded
                ];
              }
            ]
      ]

  takeover-AtLeast :
      (g : ℕ) (w : Worker) (now : ℕ) (issue_id : String) (seen s later : State)
      → AtLeast issue_id g s
      → AtLeast issue_id g (takeover remote w now issue_id seen s later).1
  unfolding takeover
  takeover-AtLeast g w now issue_id seen s later a =
      elim (Outcome-cases (read remote issue_id seen)) [
        | inr (e, unread) ↦ rw (unread, takeover) a
        | inl (found, known) ↦ elim (Option-cases found) [
          | inl free ↦
              rw (known, free, takeover) (acquire-AtLeast g w now issue_id nothing_prior s later a)
          | inr (current, leased) ↦
              let minted = (read-held remote issue_id seen current (rw leased at known)).0 in
              elim (Bool-cases (is_stale w now current.lease)) [
                | inl stale ↦
                    rw (known, leased, stale, takeover)
                      (swap-AtLeast g current (taken w now issue_id current.lease) s later minted
                        (omega arith) a)
                | inr live ↦ rw (known, leased, live, takeover) a
              ]
        ]
      ]

  -- One call on the lease of an issue that is not a release, by any worker, whatever it answers.
  pub data Step (issue_id : String) : State → State → Type 0 where
    acquires :
        {s t : State} (w : Worker) (now : ℕ) (extra : Extra) (later : State)
        → t ≡ (acquire remote w now issue_id extra s later).1
        → Step issue_id s t
    beats :
        {s t : State} (w : Worker) (now : ℕ) (held : HeldLease) (later : State)
        → IsMinted remote held
        → held.lease.issue_id ≡ issue_id
        → t ≡ (heartbeat remote w now held s later).1
        → Step issue_id s t
    takes_over :
        {s t : State} (w : Worker) (now : ℕ) (seen later : State)
        → t ≡ (takeover remote w now issue_id seen s later).1
        → Step issue_id s t

  pub data Steps (issue_id : String) (s : State) : State → Type 0 where
    here : Steps issue_id s s
    further : {t u : State} → Steps issue_id s t → Step issue_id t u → Steps issue_id s u

  Step-AtLeast :
      {issue_id : String} {s t : State} (g : ℕ)
      → Step issue_id s t
      → AtLeast issue_id g s
      → AtLeast issue_id g t
  unfolding heartbeat
  Step-AtLeast g (acquires w now extra later e) a = rw e (acquire-AtLeast g w now _ extra _ later a)
  Step-AtLeast {s = s} {t = t} g (beats w now held later minted at e) a =
      let own = subst (λ i. AtLeast i g s) (sym at) a in
      let kept = swap-AtLeast g held (renewed w now held.lease) s later minted (omega arith) own in
      subst (λ i. AtLeast i g t) at (rw e kept)
  Step-AtLeast g (takes_over w now seen later e) a =
      rw e (takeover-AtLeast g w now _ seen _ later a)

  Steps-AtLeast :
      {issue_id : String} {s t : State} (g : ℕ)
      → Steps issue_id s t
      → AtLeast issue_id g s
      → AtLeast issue_id g t
  Steps-AtLeast g here a = a
  Steps-AtLeast g (further r st) a = Step-AtLeast g st (Steps-AtLeast g r a)

  verdict-generation :
      (held c : HeldLease)
      → held_verdict held (some c) ≡ returned tt
      → c.lease.generation ≡ held.lease.generation
  verdict-generation held c h =
      elim (Bool-cases
        (str_eq c.lease.run_id held.lease.run_id && c.lease.generation == held.lease.generation)) [
          | inl same ↦ ground arith
          | inr other ↦ absurd (cc (rw other at h))
        ]

  -- A lease that still passes the fence is there with its own generation.
  assert_held-lt :
      (held : HeldLease) (g : ℕ) (s : State)
      → AtLeast held.lease.issue_id g s
      → held.lease.generation < g
      → assert_held remote held s ≢ returned tt
  unfolding assert_held
  assert_held-lt held g s a older h =
      let (found, known, verdict) =
        >>=-eq-returned (read remote held.lease.issue_id s) (held_verdict held) h in
      elim (Option-cases found) [
        | inl free ↦ absurd (cc (rw free at verdict))
        | inr (c, leased) ↦
            let (recorded, there) = read-held remote held.lease.issue_id s c (rw leased at known) in
            let enough = same-lease a c.object_id c.lease there recorded in
            let same = verdict-generation held c (rw leased at verdict) in absurd (omega arith)
      ]

  -- Once a stale lease has been taken over, its old holder is shut out: after every later sequence of
  -- claims, heartbeats and takeovers by any workers, answered or not, the fence of the old lease refuses.
  pub takeover-fences :
      (w : Worker) (now : ℕ) (seen s later t : State) (old current new : HeldLease)
      → read remote old.lease.issue_id seen ≡ returned (some current)
      → old.lease.generation ≤ current.lease.generation
      → (takeover remote w now old.lease.issue_id seen s later).0 ≡ returned new
      → Steps old.lease.issue_id (takeover remote w now old.lease.issue_id seen s later).1 t
      → assert_held remote old t ≢ returned tt
  takeover-fences w now seen s later t old current new known behind done steps =
      let x =
        takeover-IsTakenOver remote w now old.lease.issue_id seen s later current new known done in
      let next_generation = ap (λ (r : LeaseRecord). r.generation) x.lease_eq in
      let a : AtLeast old.lease.issue_id (current.lease.generation + 1)
          (takeover remote w now old.lease.issue_id seen s later).1 =
        record {
          object_id = new.object_id;
          lease = new.lease;
          there = x.there;
          recorded = x.minted;
          generation_le = omega (arith, next_generation);
        } in
      assert_held-lt old (current.lease.generation + 1) t
        (Steps-AtLeast (current.lease.generation + 1) steps a) (omega arith)
