-- ===== src/Examples/Checks.antt =====
-- Checks of one pull request (src/pr/reconcile.ts).
use runmill.Base.{ℕ, ◌≡◌, ◌≢◌, ◌⊎◌, ◌↔◌, refl, List, [], ◌∷◌, Option, none, some, false, arith}
use runmill.Pr.Reconcile.{
  CheckConclusion, success, pending, RemoteCheck, CheckMapping, satisfied, waiting, ReconcileInput,
  latest, verdict, never_scheduled,
}
use runmill.Pr.Reconcile.Unscheduled.{IsUnscheduled}
use runmill.Pr.Reconcile.Verdicts.{IsDecider, verdict-satisfied, verdict-waiting}
use runmill.Pr.Reconcile.Reruns.{verdict-rerun}

abbrev check : CheckConclusion → Option ℕ → RemoteCheck
check conclusion completed_at = record {
  name = "build";
  conclusion = conclusion;
  head_sha = "c0ffee";
  app_id = none;
  completed_at = completed_at;
}

abbrev build : CheckMapping
build = record {
  local_id = "unit";
  context_name = "build";
  merge_group_context_name = none;
  expected_app_id = none;
}

abbrev input : List RemoteCheck → ReconcileInput
input observed = record {
  required_contexts = "build" ∷ "lint" ∷ [];
  mappings = build ∷ [];
  observed = observed;
  head_sha = "c0ffee";
  waited_ms = 900;
  schedule_deadline_ms = 600;
  is_merge_group = false;
}

abbrev passed : RemoteCheck
passed = check success (some 7)

abbrev still_going : RemoteCheck
still_going = check pending none

passed-satisfied : verdict (input (passed ∷ [])) "build" ≡ satisfied
unfolding verdict latest
passed-satisfied = refl

verdict-satisfied_example :
    (c : RemoteCheck) × IsDecider (input (passed ∷ [])) "build" c × (c.conclusion ≡ success)
verdict-satisfied_example = verdict-satisfied (input (passed ∷ [])) "build" passed-satisfied

running-waits : verdict (input (still_going ∷ [])) "build" ≡ waiting
unfolding verdict latest
running-waits = refl

unscheduled : verdict (input []) "build" ≡ never_scheduled
unfolding verdict latest
unscheduled = refl

verdict-waiting_example :
    ((verdict (input (still_going ∷ [])) "build" ≢ waiting)
      ⊎ ((c : RemoteCheck) × IsDecider (input (still_going ∷ [])) "build" c
          × (c.conclusion ≡ pending)))
    × ((verdict (input (still_going ∷ [])) "build" ≡ never_scheduled)
        ↔ IsUnscheduled (input (still_going ∷ [])) "build")
verdict-waiting_example = verdict-waiting (input (still_going ∷ [])) "build" (omega arith)

verdict-rerun_example :
    verdict (input (passed ∷ still_going ∷ [])) "build" ≡ verdict (input (passed ∷ [])) "build"
unfolding latest
verdict-rerun_example =
    verdict-rerun (input (passed ∷ [])) "build" build still_going passed 7 refl refl refl refl
