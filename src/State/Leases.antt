-- ===== src/State/Leases.antt =====
-- The rows of issue leases (src/state/store.ts): table leases, whose rows stay after a release, and its
-- unique index on the issues of the rows that are not released.
pub mod Rows
pub mod Holds
use runmill.Base.{
  ℕ, Bool, true, false, ◌&&◌, List, [], ◌∷◌, ◌++◌, Option, none, some, String, str_eq, Outcome,
  returned, thrown, any, find, keep, map, if◌then◌else◌,
}
use runmill.State.Runs.{Run, row, is_not_asf, is_asf}

-- A row of leases.
pub record Lease : Type 0 where
  pub issue_id : String
  pub run_id : String
  pub repo : String
  pub generation : ℕ
  pub ref_name : Option String
  pub acquired_at : ℕ
  pub expires_at : ℕ
  pub heartbeat_at : ℕ
  pub host_id : Option String
  pub pid : Option ℕ
  pub boot_id : Option String
  pub prior_state_id : Option String
  pub prior_assignee_id : Option String
  pub released_at : Option ℕ

-- The input of `recordLease`.
pub record NewLease : Type 0 where
  pub issue_id : String
  pub run_id : String
  pub repo : String
  pub generation : ℕ
  pub expires_at : ℕ
  pub ref_name : Option String
  pub host_id : Option String
  pub pid : Option ℕ
  pub boot_id : Option String
  pub prior_state_id : Option String
  pub prior_assignee_id : Option String

-- An ASF run, no run of this key, or an active lease of the issue.
pub data LeaseError : Type 0 where
  asf_run missing_run already_leased : LeaseError

abbrev pub is_active : Lease → Bool
is_active l = elim l.released_at [ none ↦ true | some at ↦ false ]

abbrev pub is_active_on : String → Lease → Bool
is_active_on issue l = str_eq l.issue_id issue && is_active l

abbrev pub new_lease : NewLease → ℕ → Lease
new_lease input now = record {
  issue_id = input.issue_id;
  run_id = input.run_id;
  repo = input.repo;
  generation = input.generation;
  ref_name = input.ref_name;
  acquired_at = now;
  expires_at = input.expires_at;
  heartbeat_at = now;
  host_id = input.host_id;
  pid = input.pid;
  boot_id = input.boot_id;
  prior_state_id = input.prior_state_id;
  prior_assignee_id = input.prior_assignee_id;
  released_at = none;
}

-- The `INSERT`: the unique index and the reference to the run are checked.
abbrev pub insert_lease : List Run → NewLease → ℕ → List Lease → Outcome LeaseError (List Lease)
insert_lease runs input now leases =
    if any (is_active_on input.issue_id) leases
    then thrown already_leased
    else elim (row input.run_id runs) [
      | none ↦ thrown missing_run
      | some r ↦ returned (leases ++ new_lease input now ∷ [])
    ]

unfoldable pub record_lease : List Run → NewLease → ℕ → List Lease → Outcome LeaseError (List Lease)
record_lease runs input now leases =
    if is_asf (row input.run_id runs) then thrown asf_run else insert_lease runs input now leases

abbrev pub get_lease : String → List Lease → Option Lease
get_lease issue leases = find (is_active_on issue) leases

-- `WHERE issue_id = ? AND run_id = ? AND released_at IS NULL`
abbrev pub is_held : String → String → Lease → Bool
is_held issue run l = is_active_on issue l && str_eq l.run_id run

abbrev pub renewed : ℕ → ℕ → Lease → Lease
renewed expires_at now l = record l { heartbeat_at = now; expires_at = expires_at }

abbrev pub released : ℕ → Lease → Lease
released now l = record l { released_at = some now }

-- The rows of an `UPDATE`.
abbrev pub update : (Lease → Bool) → (Lease → Lease) → List Lease → List Lease
update p f [] = []
update p f (l ∷ ls) = (if p l then f l else l) ∷ update p f ls

abbrev pub heartbeat_lease : String → String → ℕ → ℕ → List Lease → List Lease
heartbeat_lease issue run expires_at now leases =
    update (is_held issue run) (renewed expires_at now) leases

abbrev pub release_lease : String → String → ℕ → List Lease → List Lease
release_lease issue run now leases = update (is_held issue run) (released now) leases

abbrev pub is_ours : Option Run → Bool
is_ours none = false
is_ours (some r) = is_not_asf r

-- `activeLeaseIssueIds`, a set in the source.
abbrev pub active_lease_issue_ids : List Run → List Lease → List String
active_lease_issue_ids runs leases =
    map (λ l. l.issue_id) (keep (λ l. is_active l && is_ours (row l.run_id runs)) leases)

-- The calls, of any process on the same database; one that throws changes nothing.
pub data Call : Type 0 where
  records : List Run → NewLease → ℕ → Call
  beats : String → String → ℕ → ℕ → Call
  releases : String → String → ℕ → Call

abbrev pub or_same : List Lease → Outcome LeaseError (List Lease) → List Lease
or_same leases (returned after) = after
or_same leases (thrown e) = leases

abbrev pub after_call : Call → List Lease → List Lease
after_call (records runs input now) leases = or_same leases (record_lease runs input now leases)
after_call (beats issue run expires_at now) leases = heartbeat_lease issue run expires_at now leases
after_call (releases issue run now) leases = release_lease issue run now leases

abbrev pub after_calls : List Call → List Lease → List Lease
after_calls [] leases = leases
after_calls (c ∷ cs) leases = after_calls cs (after_call c leases)
