-- ===== src/Pr/Reconcile/Unscheduled.antt =====
-- The checks that a mapping accepts, and contexts without any (src/pr/reconcile.ts).
use runmill.Base.{
  ◌&&◌, &&-eq-true, ◌≡◌, ◌↔◌, refl, true, false, List, [], ◌∷◌, Option, none, some, String, Bool,
  str_eq, str_eq_iff, leb, keep, keep-nil, nil-keep, find, Bool-cases, Option-cases, inl, inr,
  Member,
}
use runmill.Pr.Reconcile.{
  expected_name, expected_app, CheckConclusion, pending, RemoteCheck, CheckMapping, never_scheduled,
  ReconcileInput, latest, mapping_for, is_matching, concluded, verdict, mapped_verdict,
  observed_verdict,
}

-- A check of the mapped name, on the head commit, from the mapped app where one is given.
pub record IsCheckFor (i : ReconcileInput) (m : CheckMapping) (c : RemoteCheck) : Type 0 where
  pub named : c.name ≡ expected_name i.is_merge_group m
  pub at_head : c.head_sha ≡ i.head_sha
  pub from_app : (e : String) → m.expected_app_id ≡ some e → c.app_id ≡ some e

-- The context is mapped, and no observed check is one of its mapping.
pub record IsUnscheduled (i : ReconcileInput) (context : String) : Type 0 where
  pub mapping : CheckMapping
  pub mapped : find (mapping_for context) i.mappings ≡ some mapping
  pub unseen : (c : RemoteCheck) → Member c i.observed → ¬ IsCheckFor i mapping c

app_of : (e a : Option String) (x : String) → expected_app e a ≡ true → e ≡ some x → a ≡ some x
app_of none a x h g = cc
app_of (some e) none x h g = cc
app_of (some e) (some a) x h g = let same = (str_eq_iff a e).0 h in cc

app_from :
    (e a : Option String) → ((x : String) → e ≡ some x → a ≡ some x) → expected_app e a ≡ true
app_from none a h = refl
app_from (some e) none h = let none_of : none ≡ some e = h e refl in cc
app_from (some e) (some a) h = let same : some a ≡ some e = h e refl in (str_eq_iff a e).1 cc

pub is_matching_iff :
    (i : ReconcileInput) (m : CheckMapping) (c : RemoteCheck)
    → (is_matching i m c ≡ true) ↔ IsCheckFor i m c
is_matching_iff i m c =
    let app = expected_app m.expected_app_id c.app_id in
    let same_name = str_eq c.name (expected_name i.is_merge_group m) in
    let same_head = str_eq c.head_sha i.head_sha in
    (
      λ h.
          let (both, by_app) = &&-eq-true (same_name && same_head) app h in
          let (by_name, by_head) = &&-eq-true same_name same_head both in
          record {
            named = (str_eq_iff c.name (expected_name i.is_merge_group m)).0 by_name;
            at_head = (str_eq_iff c.head_sha i.head_sha).0 by_head;
            from_app = λ e given. app_of m.expected_app_id c.app_id e by_app given;
          },
      λ k.
          rw
            (
              (str_eq_iff c.name (expected_name i.is_merge_group m)).1 k.named,
              (str_eq_iff c.head_sha i.head_sha).1 k.at_head,
              app_from m.expected_app_id c.app_id k.from_app,
            )
            refl,
    )

latest-none : (cs : List RemoteCheck) → latest cs ≡ none → cs ≡ []
unfolding latest
latest-none [] h = refl
latest-none (c ∷ cs) h = cc

concluded-scheduled : (c : CheckConclusion) → ¬ (concluded c ≡ never_scheduled)
concluded-scheduled pending h = cc
concluded-scheduled _ h = cc

not-true : (b : Bool) → b ≡ false → ¬ (b ≡ true)
not-true b h g = cc

unseen-none :
    (i : ReconcileInput) (context : String) (k : IsUnscheduled i context)
    → keep (is_matching i k.mapping) i.observed ≡ []
unseen-none i context k = nil-keep (is_matching i k.mapping) i.observed (λ c m.
    elim (Bool-cases (is_matching i k.mapping c)) [
      | inl fits ↦ absurd (k.unseen c m ((is_matching_iff i k.mapping c).0 fits))
      | inr not_it ↦ not_it
    ])

module _ (i : ReconcileInput) (context : String)
    (past : leb i.schedule_deadline_ms i.waited_ms ≡ true) where
  never_scheduled-IsUnscheduled : verdict i context ≡ never_scheduled → IsUnscheduled i context
  unfolding verdict mapped_verdict observed_verdict
  never_scheduled-IsUnscheduled h = elim (Option-cases (find (mapping_for context) i.mappings)) [
    | inl none_of ↦ absurd (cc (rw none_of at h))
    | inr (m, found) ↦ elim (Option-cases (latest (keep (is_matching i m) i.observed))) [
      | inr (c, last) ↦ absurd (concluded-scheduled c.conclusion (rw (found, last) at h))
      | inl nothing ↦
          let unmatched = latest-none (keep (is_matching i m) i.observed) nothing in
          record {
            mapping = m;
            mapped = found;
            unseen = λ c seen k.
                not-true (is_matching i m c)
                  (keep-nil (is_matching i m) c i.observed unmatched seen)
                  ((is_matching_iff i m c).1 k);
          }
    ]
  ]

  IsUnscheduled-never_scheduled : IsUnscheduled i context → verdict i context ≡ never_scheduled
  unfolding verdict mapped_verdict observed_verdict latest
  IsUnscheduled-never_scheduled k = rw (k.mapped, unseen-none i context k, past) refl

  pub never_scheduled_iff : (verdict i context ≡ never_scheduled) ↔ IsUnscheduled i context
  never_scheduled_iff = (never_scheduled-IsUnscheduled, IsUnscheduled-never_scheduled)
