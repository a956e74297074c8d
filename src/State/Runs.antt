-- ===== src/State/Runs.antt =====
-- The runs of the store and the log of their transitions (src/state/store.ts), tables runs and
-- state_transitions. A row is looked up by its primary key. Instants are numbers.
pub mod Traced
pub mod Swaps
use runmill.Base.{
  ℕ, suc, max, Bool, true, false, ◌&&◌, ◌==◌, List, [], ◌∷◌, ◌++◌, Option, none, some, String,
  str_eq, Outcome, returned, thrown, length, find, keep, if◌then◌else◌,
}

pub data Mode : Type 0 where
  standalone asf_worker development : Mode

-- A row of runs.
pub record Run : Type 0 where
  pub run_id : String
  pub issue_id : String
  pub repo : String
  pub provider : String
  pub state : String
  pub state_version : ℕ
  pub attempt : ℕ
  pub base_commit : Option String
  pub candidate_sha : Option String
  pub branch : Option String
  pub created_at : ℕ
  pub updated_at : ℕ
  pub mode : Mode

-- A row of state_transitions.
pub record Transition : Type 0 where
  pub run_id : String
  pub seq : ℕ
  pub from_state : String
  pub to_state : String
  pub reason : Option String
  pub actor : String
  pub at : ℕ

-- The input of `createRun`.
pub record NewRun : Type 0 where
  pub run_id : String
  pub issue_id : String
  pub repo : String
  pub provider : String
  pub attempt : Option ℕ
  pub base_commit : Option String
  pub branch : Option String

-- The options of `transitionRun`.
pub record Swap : Type 0 where
  pub from_state : String
  pub to_state : String
  pub expected_version : ℕ
  pub reason : Option String
  pub actor : Option String

pub record Tables : Type 0 where
  pub runs : List Run
  pub transitions : List Transition

-- A key that is there already, or the run that a refused transition has found.
pub data RunError : Type 0 where
  run_exists : RunError
  transition_rejected : Option Run → RunError

abbrev pub has_id : String → Run → Bool
has_id id r = str_eq r.run_id id

abbrev pub row : String → List Run → Option Run
row id runs = find (has_id id) runs

-- `mode <> 'asf-worker'`
abbrev pub is_not_asf : Run → Bool
is_not_asf r = elim r.mode [ standalone ↦ true | asf_worker ↦ false | development ↦ true ]

abbrev pub or_number : Option ℕ → ℕ → ℕ
or_number none n = n
or_number (some m) n = m

abbrev pub or_text : Option String → String → String
or_text none s = s
or_text (some t) s = t

abbrev pub new_run : NewRun → ℕ → Run
new_run input now = record {
  run_id = input.run_id;
  issue_id = input.issue_id;
  repo = input.repo;
  provider = input.provider;
  state = "DISCOVERED";
  state_version = 1;
  attempt = or_number input.attempt 1;
  base_commit = input.base_commit;
  candidate_sha = none;
  branch = input.branch;
  created_at = now;
  updated_at = now;
  mode = standalone;
}

unfoldable pub create_run : NewRun → ℕ → Tables → Outcome RunError Tables
create_run input now t = elim (row input.run_id t.runs) [
  | none ↦ returned (record t { runs = t.runs ++ new_run input now ∷ [] })
  | some r ↦ thrown run_exists
]

abbrev pub unless_asf : Option Run → Option Run
unless_asf none = none
unless_asf (some r) = if is_not_asf r then some r else none

abbrev pub get_run : String → List Run → Option Run
get_run id runs = unless_asf (row id runs)

-- The row of a key, changed.
abbrev pub set_run : String → (Run → Run) → List Run → List Run
set_run id f [] = []
set_run id f (r ∷ rs) = let rest = set_run id f rs in if has_id id r then f r ∷ rs else r ∷ rest

-- The conditions of the `UPDATE`.
abbrev pub is_due : Swap → Run → Bool
is_due o r = str_eq r.state o.from_state && r.state_version == o.expected_version && is_not_asf r

abbrev pub moved : Swap → ℕ → Run → Run
moved o now r = record r {
  state = o.to_state;
  state_version = suc r.state_version;
  updated_at = now;
}

abbrev pub is_of : String → Transition → Bool
is_of id x = str_eq x.run_id id

-- `transitionHistory`, in the order of the log.
abbrev pub history : String → List Transition → List Transition
history id transitions = keep (is_of id) transitions

-- `COALESCE(MAX(seq), 0)`
abbrev pub max_seq : List Transition → ℕ
max_seq [] = 0
max_seq (x ∷ xs) = max x.seq (max_seq xs)

abbrev pub logged : String → Swap → ℕ → List Transition → Transition
logged id o now transitions = record {
  run_id = id;
  seq = suc (max_seq (history id transitions));
  from_state = o.from_state;
  to_state = o.to_state;
  reason = o.reason;
  actor = or_text o.actor "orchestrator";
  at = now;
}

abbrev pub advanced : String → Swap → ℕ → Tables → Tables
advanced id o now t = record {
  runs = set_run id (moved o now) t.runs;
  transitions = t.transitions ++ logged id o now t.transitions ∷ [];
}

-- `transitionRun`: one transaction, so a refusal changes nothing.
unfoldable pub transition_run : String → Swap → ℕ → Tables → Outcome RunError Tables
transition_run id o now t = elim (row id t.runs) [
  | none ↦ thrown (transition_rejected none)
  | some r ↦
      if is_due o r
      then returned (advanced id o now t)
      else thrown (transition_rejected (get_run id t.runs))
]

-- `attemptsFor`
abbrev pub attempts_for : String → List Run → ℕ
attempts_for issue runs = length (keep (λ r. str_eq r.issue_id issue && is_not_asf r) runs)

-- `#assertNotAsfRun` refuses a run of this mode.
abbrev pub is_asf : Option Run → Bool
is_asf none = false
is_asf (some r) = elim r.mode [ standalone ↦ false | asf_worker ↦ true | development ↦ false ]

-- The calls, of any process on the same database.
pub data Call : Type 0 where
  creates : NewRun → ℕ → Call
  transits : String → Swap → ℕ → Call

abbrev pub or_same : Tables → Outcome RunError Tables → Tables
or_same t (returned after) = after
or_same t (thrown e) = t

abbrev pub after_call : Call → Tables → Tables
after_call (creates input now) t = or_same t (create_run input now t)
after_call (transits id o now) t = or_same t (transition_run id o now t)

abbrev pub after_calls : List Call → Tables → Tables
after_calls [] t = t
after_calls (c ∷ cs) t = after_calls cs (after_call c t)
