-- ===== src/Asf/ProviderBudget/Checks.antt =====
-- What a request has passed (src/state/store.ts).
use runmill.Base.{
  ◌≡◌, refl, ◌∙◌, not, ◌&&◌, ◌||◌, ◌==◌, leb, List, Option, none, some, String, str_eq, returned,
  ◌>>=◌, >>=-eq-returned, returned-inj, Bool-cases, Option-cases, inl, inr, any,
}
use runmill.State.Breakers.{max_safe_integer}
use runmill.Asf.ProviderBudget.{
  Reservation, Digests, Policy, Limits, Binding, RunRow, Admission, owned_by, option_eq,
  assert_current_binding, assert_limits, phase_frozen,
}
use runmill.Asf.ProviderBudget.Request.{
  ReserveInput, Read, Stage, has_effect, matches_intent, is_expected,
}
use runmill.Asf.ProviderBudget.Reserve.{check_role, check_intent, check_request}

binding-policy :
    (owner : String) (b : Binding) (run : Option RunRow) (admission : Option Admission) (q : Policy)
    → assert_current_binding owner b run admission ≡ returned q
    → (a : Admission) × (admission ≡ some a) × (a.policy ≡ q)
unfolding assert_current_binding
binding-policy owner b none admission q h = absurd (cc h)
binding-policy owner b (some r) none q h = absurd (cc h)
binding-policy owner b (some r) (some a) q h =
    let stale = not (owned_by owner r) || not (r.generation == b.fencing_generation) in
    let other =
      not (str_eq r.work_order_id b.work_order_id)
      || not (str_eq r.attempt_id b.attempt_id)
      || not (str_eq a.work_order_id b.work_order_id)
      || not (str_eq a.attempt_id b.attempt_id)
      || not (str_eq a.effective_policy_digest b.policy_digest)
      || not (option_eq r.candidate_sha b.candidate_sha) in
    elim (Bool-cases stale) [
      | inl bad ↦ absurd (cc (rw (assert_current_binding, bad) at h))
      | inr current ↦ elim (Bool-cases other) [
        | inl bad ↦ absurd (cc (rw (assert_current_binding, current, bad) at h))
        | inr same ↦ (a, refl, returned-inj (rw (assert_current_binding, current, same) at h))
      ]
    ]

limits-policy : (p : Policy) (l : Limits) (q : Policy) → assert_limits p l ≡ returned q → p ≡ q
unfolding assert_limits
limits-policy p l q h =
    let malformed =
      not (leb 1 l.wall_seconds && leb l.wall_seconds max_safe_integer)
      || not (leb l.max_cost_micros max_safe_integer)
      || not (leb 1 l.max_agent_invocations && leb l.max_agent_invocations max_safe_integer) in
    let other =
      not (l.wall_seconds == p.wall_seconds)
      || not (l.max_cost_micros == p.max_cost_micros)
      || not (l.max_agent_invocations == p.max_agent_invocations) in
    elim (Bool-cases malformed) [
      | inl bad ↦ absurd (cc (rw (assert_limits, bad) at h))
      | inr fine ↦ elim (Bool-cases other) [
        | inl bad ↦ absurd (cc (rw (assert_limits, fine, bad) at h))
        | inr same ↦ returned-inj (rw (assert_limits, fine, same) at h)
      ]
    ]

role-policy :
    (d : Digests) (i : ReserveInput) (run : Option RunRow) (stage : Stage) (p q : Policy)
    → check_role d i run stage p ≡ returned q
    → p ≡ q
role-policy d i none stage p q h = absurd (cc h)
role-policy d i (some r) stage p q h = elim (Bool-cases (is_expected d i r stage)) [
  | inl fine ↦ returned-inj (rw fine at h)
  | inr bad ↦ absurd (cc (rw bad at h))
]

intent-policy :
    (d : Digests) (i : ReserveInput) (read : Read) (rows : List Reservation) (p q : Policy)
    → check_intent d i read rows p ≡ returned q
    → p ≡ q
intent-policy d i read rows p q h = elim (Option-cases read.intent) [
  | inl missing ↦ absurd (cc (rw (check_intent, missing) at h))
  | inr (x, found) ↦ elim (Bool-cases (matches_intent i x)) [
    | inr other ↦ absurd (cc (rw (check_intent, found, other) at h))
    | inl matched ↦
        let frozen = phase_frozen read.run && not (any (has_effect i.effect_key) rows) in
        elim (Bool-cases frozen) [
          | inl bad ↦ absurd (cc (rw (check_intent, found, matched, bad) at h))
          | inr fine ↦
              role-policy d i read.run x.stage p q (rw (check_intent, found, matched, fine) at h)
        ]
  ]
]

-- The policy of a call is the one of the admission that it reads.
pub check_request-policy :
    (d : Digests) (i : ReserveInput) (read : Read) (rows : List Reservation) (q : Policy)
    → check_request d i read rows ≡ returned q
    → (a : Admission) × (read.admission ≡ some a) × (a.policy ≡ q)
unfolding check_request
check_request-policy d i read rows q h =
    let (p, bound, later) =
      >>=-eq-returned (assert_current_binding i.owner_id i.binding read.run read.admission)
        (λ authoritative.
          assert_limits authoritative i.limits >>= λ l. check_intent d i read rows l)
        h in
    let (l, limited, last) =
      >>=-eq-returned (assert_limits p i.limits) (check_intent d i read rows) later in
    let (a, reads, is_p) = binding-policy i.owner_id i.binding read.run read.admission p bound in
    (a, reads, is_p ∙ limits-policy p i.limits l limited ∙ intent-policy d i read rows l q last)
