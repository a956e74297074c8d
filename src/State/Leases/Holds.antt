-- ===== src/State/Leases/Holds.antt =====
-- One holder of an issue at a time (src/state/store.ts).
use runmill.Base.{
  ℕ, ◌≡◌, refl, sym, Bool, false, ◌&&◌, List, [], ◌∷◌, ◌++◌, String, str_eq, returned, thrown,
  returned-inj, Bool-cases, Outcome-cases, Option-cases, inl, inr, any,
}
use runmill.State.Runs.{Run, row, is_asf}
use runmill.State.Leases.{
  Lease, NewLease, LeaseError, asf_run, already_leased, is_active_on, new_lease, record_lease, Call,
  records, beats, releases, or_same, after_call, after_calls,
}
use runmill.State.Leases.Rows.{Holds, append-get, new-get, get-any, beat-Holds, release-Holds}

-- Does the call give up the lease of this run on this issue?
abbrev pub gives_up : String → String → Call → Bool
gives_up issue run (releases i r now) = str_eq i issue && str_eq r run
gives_up issue run _ = false

module _ (runs : List Run) (input : NewLease) (now : ℕ) (leases after : List Lease) where
  appended :
      record_lease runs input now leases ≡ returned after
      → (after ≡ leases ++ new_lease input now ∷ [])
        × (any (is_active_on input.issue_id) leases ≡ false)
  unfolding record_lease
  appended done = elim (Bool-cases (is_asf (row input.run_id runs))) [
    | inl asf ↦ absurd (cc (rw (record_lease, asf) at done))
    | inr ours ↦ elim (Bool-cases (any (is_active_on input.issue_id) leases)) [
      | inl there ↦ absurd (cc (rw (record_lease, ours, there) at done))
      | inr free ↦ elim (Option-cases (row input.run_id runs)) [
        | inl missing ↦ absurd (cc (rw (record_lease, ours, free, missing) at done))
        | inr (r, found) ↦ (sym (returned-inj (rw (record_lease, ours, free, found) at done)), free)
      ]
    ]
  ]

  recorded-Holds :
      record_lease runs input now leases ≡ returned after
      → Holds input.issue_id input.run_id input.generation after
  recorded-Holds done =
      let (same, free) = appended done in
      record {
        lease = new_lease input now;
        is_got = rw same (new-get input now leases free);
        of_run = refl;
        of_generation = refl;
      }

record-Holds :
    (runs : List Run) (input : NewLease) (now : ℕ) (k own : String) (g : ℕ) (leases : List Lease)
    → Holds k own g leases
    → Holds k own g (or_same leases (record_lease runs input now leases))
unfolding record_lease
record-Holds runs input now k own g leases h =
    elim (Outcome-cases (record_lease runs input now leases)) [
      | inr (e, refused) ↦ rw (refused, or_same) h
      | inl (after, done) ↦
          rw (done, or_same, (appended runs input now leases after done).0)
            record {
              lease = h.lease;
              is_got = append-get k leases (new_lease input now ∷ []) h.lease h.is_got;
              of_run = h.of_run;
              of_generation = h.of_generation;
            }
    ]

call-Holds :
    (c : Call) (k own : String) (g : ℕ) (leases : List Lease)
    → gives_up k own c ≡ false
    → Holds k own g leases
    → Holds k own g (after_call c leases)
call-Holds (records runs input now) k own g leases foreign h =
    record-Holds runs input now k own g leases h
call-Holds (beats issue run expires_at now) k own g leases foreign h =
    beat-Holds issue run k own g expires_at now leases h
call-Holds (releases issue run now) k own g leases foreign h =
    release-Holds issue run k own g now leases foreign h

calls-Hold :
    (cs : List Call) (k own : String) (g : ℕ) (leases : List Lease)
    → any (gives_up k own) cs ≡ false
    → Holds k own g leases
    → Holds k own g (after_calls cs leases)
calls-Hold [] k own g leases foreign h = h
calls-Hold (c ∷ cs) k own g leases foreign h = elim (Bool-cases (gives_up k own c)) [
  | inl up ↦ absurd (cc (rw up at foreign))
  | inr other ↦
      calls-Hold cs k own g (after_call c leases) (rw other at foreign)
        (call-Holds c k own g leases other h)
]

held-refused :
    (runs : List Run) (input : NewLease) (now : ℕ) (own : String) (g : ℕ) (leases : List Lease)
    → Holds input.issue_id own g leases
    → (e : LeaseError) × (record_lease runs input now leases ≡ thrown e)
unfolding record_lease
held-refused runs input now own g leases h =
    let there = get-any input.issue_id leases h.lease h.is_got in
    elim (Bool-cases (is_asf (row input.run_id runs))) [
      | inl asf ↦ (asf_run, (rw (record_lease, asf) refl))
      | inr ours ↦ (already_leased, (rw (record_lease, ours, there) refl))
    ]

-- A recorded lease is exclusive: after any calls of any runs, as long as none of them is the release of
-- this issue by this run, the active lease of the issue is still the one of this run and its generation, and
-- a record of another lease of the issue is refused.
pub record_lease-Holds :
    (runs : List Run) (input : NewLease) (now : ℕ) (leases after : List Lease) (cs : List Call)
    → record_lease runs input now leases ≡ returned after
    → any (gives_up input.issue_id input.run_id) cs ≡ false
    → Holds input.issue_id input.run_id input.generation (after_calls cs after)
      × ((others : List Run) (next : NewLease) (later : ℕ)
          → next.issue_id ≡ input.issue_id
          → (e : LeaseError) × (record_lease others next later (after_calls cs after) ≡ thrown e))
record_lease-Holds runs input now leases after cs done foreign =
    let held =
      calls-Hold cs input.issue_id input.run_id input.generation after foreign
        (recorded-Holds runs input now leases after done) in
    (
      held,
      (λ others next later same.
          held-refused others next later input.run_id input.generation (after_calls cs after)
            (rw same held)),
    )
