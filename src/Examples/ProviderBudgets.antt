-- ===== src/Examples/ProviderBudgets.antt =====
-- Two provider calls of one run on its ledger (src/state/store.ts).
use runmill.Base.{
  ◌≡◌, refl, sym, ap, Bool, true, false, List, [], ◌∷◌, none, some, some-inj, String, All,
}
use runmill.Asf.Phase.{implementing, is_terminal_run_event_phase}
use runmill.Asf.ProviderBudget.{
  assert_current_binding, assert_limits, usage_of, implementer, Digests, Policy, Binding, Admission,
  Settlement, confirmed, conservative_cost, invocation_count,
}
use runmill.Asf.ProviderBudget.Request.{Intent, ReserveInput, Read, candidate}
use runmill.Asf.ProviderBudget.Reserve.{reserve_provider_budget, reserve_new, check_request}
use runmill.Asf.ProviderBudget.Complete.{settle_unknown}
use runmill.Asf.ProviderBudget.Updates.{with_status}
use runmill.Asf.ProviderBudget.Bounds.{
  Call, reserves, settles, after_calls, IsUnder, after_calls-IsWithin,
}
use runmill.Asf.ProviderBudget.Fits.{IsWithin}

-- Digests that keep one part of what they are made of.
abbrev digests : Digests
digests = record {
  reservation_id_of = λ key role invocation. key;
  invocation_id_of = λ key role. key;
  material_digest = λ m. m.effect_key;
  denial_digest = λ digest reason cost count at. digest;
  settlement_digest = λ r s. s.observation_digest;
}

abbrev before : String → String → Bool
before a b = true

abbrev policy : Policy
policy = record {
  wall_seconds = 60;
  max_cost_micros = 500;
  max_agent_invocations = 3;
  accepted_at = 0;
  deadline_at = 60000;
}

abbrev binding : Binding
binding = record {
  run_id = "r1";
  work_order_id = "w1";
  attempt_id = "a1";
  policy_digest = "p1";
  fencing_generation = 2;
  candidate_sha = none;
}

abbrev admission : Admission
admission = record {
  work_order_id = "w1";
  attempt_id = "a1";
  effective_policy_digest = "p1";
  policy = policy;
}

abbrev intent : String → Intent
intent key = record {
  effect_key = key;
  intent_digest = key;
  run_id = "r1";
  work_order_id = "w1";
  attempt_id = "a1";
  policy_digest = "p1";
  candidate_sha = none;
  fencing_generation = 2;
  stage = candidate;
}

abbrev request : String → ReserveInput
request key = record {
  owner_id = "o1";
  binding = binding;
  effect_key = key;
  intent_id = key;
  intent_digest = key;
  intent_generation = 2;
  observes_before_apply = true;
  role = implementer;
  invocation_id = key;
  provider_candidate_sha = "base";
  limits = record { wall_seconds = 60; max_cost_micros = 500; max_agent_invocations = 3 };
}

abbrev read : String → Read
read key = record {
  run = some (record {
    work_order_id = "w1";
    attempt_id = "a1";
    owner_id = some "o1";
    generation = 2;
    state = implementing;
    candidate_sha = none;
    base_commit = some "base";
  });
  admission = some admission;
  intent = some (intent key);
  has_terminal_plan = false;
}

abbrev settlement : Settlement
settlement = record { outcome = confirmed; observation_digest = "seen"; generation = 2; at = 900 }

-- The first call reserves the whole cost and is settled without a report, so the second is refused.
abbrev budget_calls : List Call
budget_calls =
    reserves (request "e1") (read "e1") 100
    ∷ settles "e1" (intent "e1") settlement
    ∷ reserves (request "e2") (read "e2") 1000
    ∷ []

charged : conservative_cost "r1" (after_calls digests before budget_calls []) ≡ 500
unfolding reserve_provider_budget reserve_new check_request assert_current_binding assert_limits
    usage_of settle_unknown with_status is_terminal_run_event_phase
charged = refl

one_invocation : invocation_count "r1" (after_calls digests before budget_calls []) ≡ 1
unfolding reserve_provider_budget reserve_new check_request assert_current_binding assert_limits
    usage_of settle_unknown with_status is_terminal_run_event_phase
one_invocation = refl

under : All (IsUnder "r1" policy) budget_calls
under = (
  (λ mine a reads. ap (λ x. x.policy) (sym (some-inj reads))),
  (tt, ((λ mine a reads. ap (λ x. x.policy) (sym (some-inj reads))), tt)),
)

after_calls-IsWithin_example : IsWithin "r1" policy (after_calls digests before budget_calls [])
after_calls-IsWithin_example = after_calls-IsWithin digests before "r1" policy budget_calls under
