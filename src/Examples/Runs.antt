-- ===== src/Examples/Runs.antt =====
-- Runs, their outbox and their leases on a small database (src/state/store.ts).
use runmill.Base.{ℕ, ◌≡◌, refl, true, false, List, [], ◌∷◌, none, String, length, returned, thrown}
use runmill.State.Runs.{
  Run, NewRun, Swap, Tables, new_run, create_run, transition_run, advanced, attempts_for, creates,
  transits, after_calls, history,
}
use runmill.State.Runs.Traced.{no_tables, IsTraced, after_calls-IsTraced}
use runmill.State.Outbox.{
  after_calls as effects_after, intends, marks, confirms, fails, SideEffect, Intent, Intended,
  intended_row, intend_side_effect, resolve_side_effect,
}
use runmill.State.Outbox.Blocks.{intend-blocks}
use runmill.Orchestrator.Effects.{ActResult, failed, with_outbox, call_failed}
use runmill.Orchestrator.Effects.Guarded.{IsGuarded, with_outbox-IsGuarded}
use runmill.State.Leases.{
  after_calls as leases_after, releases, records, beats, LeaseError, Lease, NewLease, new_lease,
  record_lease, Call as LeaseCall,
}
use runmill.State.Outbox.Waits.{is_pending_key}
use runmill.State.Leases.Rows.{Holds}
use runmill.State.Leases.Holds.{record_lease-Holds}

abbrev first_run : NewRun
first_run = record {
  run_id = "r1";
  issue_id = "i1";
  repo = "a/b";
  provider = "claude";
  attempt = none;
  base_commit = none;
  branch = none;
}

abbrev to_claimed : Swap
to_claimed = record {
  from_state = "DISCOVERED";
  to_state = "CLAIMED";
  expected_version = 1;
  reason = none;
  actor = none;
}

abbrev runs : List Run
runs = new_run first_run 10 ∷ []

abbrev tables : Tables
tables = record { runs = runs; transitions = [] }

created : create_run first_run 10 no_tables ≡ returned tables
unfolding create_run
created = refl

claimed : transition_run "r1" to_claimed 11 tables ≡ returned (advanced "r1" to_claimed 11 tables)
unfolding transition_run
claimed = refl

counted : attempts_for "i1" runs ≡ 1
counted = refl

-- The second transition is refused: the log has one entry.
replayed :
    length (
      history "r1"
        (after_calls
          (creates first_run 10 ∷ transits "r1" to_claimed 11 ∷ transits "r1" to_claimed 12 ∷ [])
          no_tables).transitions)
    ≡ 1
unfolding create_run transition_run
replayed = refl

after_calls-IsTraced_example : IsTraced (
    after_calls
      (creates first_run 10 ∷ transits "r1" to_claimed 11 ∷ transits "r1" to_claimed 12 ∷ [])
      no_tables)
after_calls-IsTraced_example =
    after_calls-IsTraced
      (creates first_run 10 ∷ transits "r1" to_claimed 11 ∷ transits "r1" to_claimed 12 ∷ [])

abbrev to_push : Intent
to_push = record { run_id = "r1"; system = "forge"; operation = "push"; target = "main" }

abbrev to_comment : Intent
to_comment = record { run_id = "r1"; system = "backlog"; operation = "comment"; target = "i1" }

-- A digest that keeps its text.
abbrev same_text : String → String
same_text s = s

abbrev pushed : Intended
pushed = record { key = "r1 push main"; rows = intended_row "r1 push main" to_push 20 ∷ [] }

intended : intend_side_effect same_text runs to_push 20 [] ≡ returned pushed
unfolding intend_side_effect
intended = refl

intend-blocks_example :
    is_pending_key "r1 push main" (
      effects_after same_text
        (intends runs to_comment 21
          ∷ marks "r1 push main"
          ∷ fails "r1 push main" "timeout"
          ∷ confirms "r1 comment i1" none
          ∷ [])
        pushed.rows)
    ≡ true
intend-blocks_example =
    intend-blocks same_text runs to_push 20 [] pushed
      (intends runs to_comment 21
        ∷ marks "r1 push main"
        ∷ fails "r1 push main" "timeout"
        ∷ confirms "r1 comment i1" none
        ∷ [])
      intended refl refl

-- A push whose connection breaks.
abbrev broken_push : List SideEffect → ActResult
broken_push rows = failed "timeout"

broken_ending :
    (with_outbox same_text runs to_push 20 true broken_push []).ending ≡ call_failed "timeout"
unfolding with_outbox intend_side_effect
broken_ending = refl

-- Without the lease the push does not start.
unleased_push : (with_outbox same_text runs to_push 20 false broken_push []).started_with ≡ []
unfolding with_outbox intend_side_effect resolve_side_effect
unleased_push = refl

with_outbox-IsGuarded_example :
    IsGuarded "r1 push main" (with_outbox same_text runs to_push 20 true broken_push [])
with_outbox-IsGuarded_example =
    with_outbox-IsGuarded same_text runs to_push 20 true broken_push [] pushed intended refl

abbrev to_hold : NewLease
to_hold = record {
  issue_id = "i1";
  run_id = "r1";
  repo = "a/b";
  generation = 3;
  expires_at = 90;
  ref_name = none;
  host_id = none;
  pid = none;
  boot_id = none;
  prior_state_id = none;
  prior_assignee_id = none;
}

abbrev held : List Lease
held = new_lease to_hold 30 ∷ []

recorded : record_lease runs to_hold 30 [] ≡ returned held
unfolding record_lease
recorded = refl

-- A heartbeat of its own, a release by another run, and a second record.
abbrev lease_calls : List LeaseCall
lease_calls = beats "i1" "r1" 120 40 ∷ releases "i1" "r2" 41 ∷ records runs to_hold 42 ∷ []

record_lease-Holds_example :
    Holds "i1" "r1" 3 (leases_after lease_calls held)
    × ((others : List Run) (next : NewLease) (later : ℕ)
        → next.issue_id ≡ "i1"
        → (e : LeaseError) × (record_lease others next later (leases_after lease_calls held)
            ≡ thrown e))
record_lease-Holds_example = record_lease-Holds runs to_hold 30 [] held lease_calls recorded refl
