-- ===== src/Pr/Reconcile/Verdicts.antt =====
-- What a verdict says of the observed checks (src/pr/reconcile.ts).
use runmill.Base.{
  ◌≡◌, ◌≢◌, ◌≤◌, ◌↔◌, refl, sym, ◌∙◌, true, false, List, [], ◌∷◌, some, String, str_eq, str_eq_iff,
  str_eq_refl, leb, keep, find, inl, inr, Bool-cases, Option-cases, arith, Member, if◌then◌else◌,
  ◌⊎◌,
}
use runmill.Pr.Reconcile.{
  expected_name, CheckConclusion, success, pending, RemoteCheck, CheckMapping, ReconcileVerdict,
  satisfied, waiting, never_scheduled, unmapped, ReconcileInput, no_earlier, latest, mapping_for,
  is_matching, concluded, observed_verdict, mapped_verdict, verdict, set, reconcile_from,
  reconcile_checks, get,
}
use runmill.Pr.Reconcile.Unscheduled.{IsUnscheduled, is_matching_iff, never_scheduled_iff}
use runmill.Pr.Reconcile.Newest.{latest-IsNewest, keep-Member}

-- The check that decides the verdict of a context.
pub record IsDecider (i : ReconcileInput) (context : String) (c : RemoteCheck) : Type 0 where
  pub mapping : CheckMapping
  pub mapped : find (mapping_for context) i.mappings ≡ some mapping
  pub observed : Member c i.observed
  pub named : c.name ≡ expected_name i.is_merge_group mapping
  pub at_head : c.head_sha ≡ i.head_sha
  pub from_app : (e : String) → mapping.expected_app_id ≡ some e → c.app_id ≡ some e
  pub newest :
      (d : RemoteCheck) → Member d (keep (is_matching i mapping) i.observed) → no_earlier d c ≡ true

-- Where a verdict comes from.
verdict-cases :
    (i : ReconcileInput) (context : String)
    → (verdict i context ≡ unmapped)
      ⊎ ((verdict i context
            ≡ (if leb i.schedule_deadline_ms i.waited_ms then never_scheduled else waiting))
          ⊎ ((c : RemoteCheck) × IsDecider i context c
              × (verdict i context ≡ concluded c.conclusion)))
unfolding verdict mapped_verdict observed_verdict
verdict-cases i context = elim (Option-cases (find (mapping_for context) i.mappings)) [
  | inl none_of ↦ inl (rw none_of refl)
  | inr (m, found) ↦ elim (Option-cases (latest (keep (is_matching i m) i.observed))) [
    | inl nothing ↦ inr (inl (rw (found, nothing) refl))
    | inr (c, last) ↦
        let n = latest-IsNewest (keep (is_matching i m) i.observed) c last in
        let (seen, matches) = keep-Member (is_matching i m) c i.observed n.observed in
        let accepted = (is_matching_iff i m c).0 matches in
        inr (
          inr (
            c,
            record {
              mapping = m;
              mapped = found;
              observed = seen;
              named = accepted.named;
              at_head = accepted.at_head;
              from_app = accepted.from_app;
              newest = n.newest;
            },
            rw (found, last) refl,
          ))
  ]
]

succeeded : (c : CheckConclusion) → concluded c ≡ satisfied → c ≡ success
succeeded success h = refl
succeeded _ h = cc

pending-cases : (c : CheckConclusion) → (c ≡ pending) ⊎ (concluded c ≢ waiting)
pending-cases pending = inl refl
pending-cases _ = inr (λ h. cc)

-- A required context is satisfied only by an observed check of the expected name, head and app that
-- concluded in success, none of the matching checks having completed after it.
pub verdict-satisfied :
    (i : ReconcileInput) (context : String)
    → verdict i context ≡ satisfied
    → (c : RemoteCheck) × IsDecider i context c × (c.conclusion ≡ success)
verdict-satisfied i context h = elim (verdict-cases i context) [
  | inl none_of ↦ cc
  | inr (inl late) ↦ absurd (ground arith)
  | inr (inr (c, d, e)) ↦ (c, d, succeeded c.conclusion (sym e ∙ h))
]

-- From the schedule deadline on, a context waits only for an observed check of the expected
-- name, head and app that is pending, none of the matching checks having completed after it; and the
-- context is reported as never scheduled exactly when it is mapped and no observed check has the
-- expected name, head and app.
pub verdict-waiting :
    (i : ReconcileInput) (context : String)
    → i.schedule_deadline_ms ≤ i.waited_ms
    → ((verdict i context ≢ waiting)
        ⊎ ((c : RemoteCheck) × IsDecider i context c × (c.conclusion ≡ pending)))
      × ((verdict i context ≡ never_scheduled) ↔ IsUnscheduled i context)
verdict-waiting i context past = (
  elim (verdict-cases i context) [
    | inl none_of ↦ inl (λ h. cc)
    | inr (inl late) ↦ inl (λ h. absurd (ground arith))
    | inr (inr (c, d, e)) ↦ elim (pending-cases c.conclusion) [
      | inl runs ↦ inr (c, d, runs)
      | inr ended ↦ inl (λ h. ended (sym e ∙ h))
    ]
  ],
  never_scheduled_iff i context (ground arith),
)

get-set_self :
    (k : String) (v : ReconcileVerdict) (vs : List (String × ReconcileVerdict))
    → get k (set k v vs) ≡ some v
unfolding get set
get-set_self k v [] = rw (str_eq_refl k) refl
get-set_self k v ((k', v') ∷ vs) = elim (Bool-cases (str_eq k' k)) [
  | inl same ↦ rw same (rw same refl)
  | inr other ↦ rw other (rw other (get-set_self k v vs))
]

get-set_ne :
    (k j : String) (v : ReconcileVerdict) (vs : List (String × ReconcileVerdict))
    → str_eq j k ≡ false
    → get k (set j v vs) ≡ get k vs
unfolding get set
get-set_ne k j v [] h = rw h refl
get-set_ne k j v ((k', v') ∷ vs) h = elim (Bool-cases (str_eq k' j)) [
  | inl same ↦
      let e = (str_eq_iff k' j).0 same in
      let not_k : str_eq k' k ≡ false = rw e h in rw same (rw not_k refl)
  | inr other ↦ let rest = get-set_ne k j v vs h in rw other (ground (arith, rest))
]

reconcile_from-keeps :
    (i : ReconcileInput) (k : String) (cs : List String) (vs : List (String × ReconcileVerdict))
    → get k vs ≡ some (verdict i k)
    → get k (reconcile_from i cs vs) ≡ some (verdict i k)
unfolding reconcile_from
reconcile_from-keeps i k [] vs h = h
reconcile_from-keeps i k (c ∷ cs) vs h =
    reconcile_from-keeps i k cs (set c (verdict i c) vs) (elim (Bool-cases (str_eq c k)) [
      | inl same ↦ rw ((str_eq_iff c k).0 same) (get-set_self k (verdict i k) vs)
      | inr other ↦ get-set_ne k c (verdict i c) vs other ∙ h
    ])

reconcile_from-get :
    (i : ReconcileInput) (k : String) (cs : List String) (vs : List (String × ReconcileVerdict))
    → Member k cs
    → get k (reconcile_from i cs vs) ≡ some (verdict i k)
unfolding reconcile_from
reconcile_from-get i k [] vs m = absurd m
reconcile_from-get i k (c ∷ cs) vs (inl e) =
    reconcile_from-keeps i k cs (set c (verdict i c) vs) (rw e (get-set_self c (verdict i c) vs))
reconcile_from-get i k (c ∷ cs) vs (inr m) = reconcile_from-get i k cs (set c (verdict i c) vs) m

-- Every required context has its verdict in the result, however often it is listed.
get-reconcile_checks :
    (i : ReconcileInput) (context : String)
    → Member context i.required_contexts
    → get context (reconcile_checks i) ≡ some (verdict i context)
unfolding reconcile_checks
get-reconcile_checks i context m = reconcile_from-get i context i.required_contexts [] m
