-- ===== src/State/Leases/Rows.antt =====
-- What the changes of the rows do to the active lease of an issue (src/state/store.ts).
use runmill.Base.{
  ℕ, ◌≡◌, refl, Bool, true, false, ◌&&◌, List, [], ◌∷◌, ◌++◌, some, String, str_eq, str_eq_refl,
  str_eq_iff, some-inj, Bool-cases, inl, inr, any, find-Member, arith, if◌then◌else◌, &&-eq-true,
}
use runmill.State.Leases.{
  Lease, NewLease, is_active, is_active_on, new_lease, get_lease, is_held, renewed, released,
  update, heartbeat_lease, release_lease,
}

-- The active lease of an issue is the one of this run and this generation.
pub record Holds (issue run : String) (generation : ℕ) (leases : List Lease) : Type 0 where
  pub lease : Lease
  pub is_got : get_lease issue leases ≡ some lease
  pub of_run : lease.run_id ≡ run
  pub of_generation : lease.generation ≡ generation

pub append-get :
    (issue : String) (leases more : List Lease) (l : Lease)
    → get_lease issue leases ≡ some l
    → get_lease issue (leases ++ more) ≡ some l
append-get issue [] more l h = absurd (cc h)
append-get issue (x ∷ xs) more l h = elim (Bool-cases (is_active_on issue x)) [
  | inl e ↦ rw e (rw e at h)
  | inr e ↦ rw e (append-get issue xs more l (rw e at h))
]

get-active :
    (issue : String) (leases : List Lease) (l : Lease)
    → get_lease issue leases ≡ some l
    → is_active_on issue l ≡ true
get-active issue leases l h = (find-Member (is_active_on issue) l leases h).1

pub get-any :
    (issue : String) (leases : List Lease) (l : Lease)
    → get_lease issue leases ≡ some l
    → any (is_active_on issue) leases ≡ true
get-any issue [] l h = absurd (cc h)
get-any issue (x ∷ xs) l h = elim (Bool-cases (is_active_on issue x)) [
  | inl e ↦ rw e refl
  | inr e ↦ rw e (get-any issue xs l (rw e at h))
]

pub new-get :
    (input : NewLease) (now : ℕ) (leases : List Lease)
    → any (is_active_on input.issue_id) leases ≡ false
    → get_lease input.issue_id (leases ++ new_lease input now ∷ []) ≡ some (new_lease input now)
new-get input now [] h = rw (str_eq_refl input.issue_id) refl
new-get input now (x ∷ xs) h = elim (Bool-cases (is_active_on input.issue_id x)) [
  | inl e ↦ absurd (cc (rw e at h))
  | inr e ↦ rw e (new-get input now xs (rw e at h))
]

module _ (k : String) (p : Lease → Bool) (f : Lease → Lease) where
  update-get :
      (leases : List Lease) (l : Lease)
      → ((x : Lease) → is_active_on k x ≡ false → is_active_on k (f x) ≡ false)
      → is_active_on k (if p l then f l else l) ≡ true
      → get_lease k leases ≡ some l
      → get_lease k (update p f leases) ≡ some (if p l then f l else l)
  update-get [] l idle kept h = absurd (cc h)
  update-get (x ∷ xs) l idle kept h = elim (Bool-cases (is_active_on k x)) [
    | inl e ↦ let same : x ≡ l = some-inj (rw e at h) in rw (same, kept) refl
    | inr e ↦
        let rest = update-get xs l idle kept (rw e at h) in
        elim (Bool-cases (p x)) [ inl it ↦ rw (it, idle x e) rest | inr other ↦ rw (other, e) rest ]
  ]

pub beat-Holds :
    (issue run k own : String) (g expires_at now : ℕ) (leases : List Lease)
    → Holds k own g leases
    → Holds k own g (heartbeat_lease issue run expires_at now leases)
beat-Holds issue run k own g expires_at now leases h =
    elim (Bool-cases (is_held issue run h.lease)) [
      | inl it ↦ record {
        lease = renewed expires_at now h.lease;
        is_got = rw it at (
            update-get k (is_held issue run) (renewed expires_at now) leases h.lease (λ x e. e)
              (rw it (get-active k leases h.lease h.is_got)) h.is_got);
        of_run = h.of_run;
        of_generation = h.of_generation;
      }
      | inr other ↦ record {
        lease = h.lease;
        is_got = rw other at (
            update-get k (is_held issue run) (renewed expires_at now) leases h.lease (λ x e. e)
              (rw other (get-active k leases h.lease h.is_got)) h.is_got);
        of_run = h.of_run;
        of_generation = h.of_generation;
      }
    ]

&&-false : (b : Bool) → (b && false) ≡ false
&&-false true = refl
&&-false false = refl

foreign-held :
    (issue run k own : String) (l : Lease)
    → is_active_on k l ≡ true
    → l.run_id ≡ own
    → (str_eq issue k && str_eq run own) ≡ false
    → is_held issue run l ≡ false
foreign-held issue run k own l active mine foreign =
    let on_k : l.issue_id ≡ k =
      (str_eq_iff l.issue_id k).0 (&&-eq-true (str_eq l.issue_id k) (is_active l) active).0 in
    ground (
      arith,
      str_eq_iff l.issue_id issue,
      str_eq_iff l.run_id run,
      str_eq_iff issue k,
      str_eq_iff run own,
    )

pub release-Holds :
    (issue run k own : String) (g now : ℕ) (leases : List Lease)
    → (str_eq issue k && str_eq run own) ≡ false
    → Holds k own g leases
    → Holds k own g (release_lease issue run now leases)
release-Holds issue run k own g now leases foreign h =
    let active = get-active k leases h.lease h.is_got in
    let off = foreign-held issue run k own h.lease active h.of_run foreign in
    record {
      lease = h.lease;
      is_got = rw off at (
          update-get k (is_held issue run) (released now) leases h.lease
            (λ x e. &&-false (str_eq x.issue_id k)) (rw off active) h.is_got);
      of_run = h.of_run;
      of_generation = h.of_generation;
    }
