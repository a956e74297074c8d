-- ===== src/Pr/Reconcile.antt =====
-- The verdict of each required check (src/pr/reconcile.ts). A completion time is a number, and a check
-- without one comes before all others, as the empty text does. The sentence of a verdict is left out.
pub mod Newest
pub mod Unscheduled
pub mod Verdicts
pub mod Reruns
use runmill.Base.{
  ℕ, Bool, true, false, ◌&&◌, ◌||◌, List, [], ◌∷◌, Option, none, some, String, str_eq, leb, keep,
  find, if◌then◌else◌,
}

-- CheckConclusion, of src/pr/adapter.ts.
pub data CheckConclusion : Type 0 where
  success failure neutral skipped cancelled timed_out pending not_scheduled : CheckConclusion

-- The fields of RemoteCheck that are read.
pub record RemoteCheck : Type 0 where
  pub name : String
  pub conclusion : CheckConclusion
  pub head_sha : String
  pub app_id : Option String
  pub completed_at : Option ℕ

pub record CheckMapping : Type 0 where
  pub local_id : String
  pub context_name : String
  pub merge_group_context_name : Option String
  pub expected_app_id : Option String

pub data ReconcileVerdict : Type 0 where
  satisfied waiting failed never_scheduled unmapped : ReconcileVerdict

-- `event` is true for "merge_group".
pub record ReconcileInput : Type 0 where
  pub required_contexts : List String
  pub mappings : List CheckMapping
  pub observed : List RemoteCheck
  pub head_sha : String
  pub waited_ms : ℕ
  pub schedule_deadline_ms : ℕ
  pub is_merge_group : Bool

abbrev given_eq : Option String → String → Bool
given_eq none x = false
given_eq (some y) x = str_eq y x

-- NOT_COVERAGE
abbrev pub not_coverage : CheckConclusion → Bool
not_coverage neutral = true
not_coverage skipped = true
not_coverage _ = false

-- Whether `b` completed no earlier than `a`.
abbrev pub no_earlier : RemoteCheck → RemoteCheck → Bool
no_earlier a b = elim a.completed_at [
  | none ↦ true
  | some x ↦ elim b.completed_at [ none ↦ false | some y ↦ leb x y ]
]

-- The last of the newest checks: what a stable sort by completion leaves at the end.
latest_from : RemoteCheck → List RemoteCheck → RemoteCheck
latest_from best [] = best
latest_from best (c ∷ cs) = latest_from (if no_earlier best c then c else best) cs

-- `latest`
unfoldable pub latest : List RemoteCheck → Option RemoteCheck
unfolding latest_from
latest [] = none
latest (c ∷ cs) = some (latest_from c cs)

abbrev pub mapping_for : String → CheckMapping → Bool
mapping_for context m =
    str_eq m.context_name context
    || given_eq m.merge_group_context_name context
    || str_eq m.local_id context

abbrev pub expected_name : Bool → CheckMapping → String
expected_name true m = elim m.merge_group_context_name [ none ↦ m.context_name | some n ↦ n ]
expected_name false m = m.context_name

abbrev pub expected_app : Option String → Option String → Bool
expected_app none app = true
expected_app (some e) none = false
expected_app (some e) (some a) = str_eq a e

-- The test of the `filter` on the observed checks.
abbrev pub is_matching : ReconcileInput → CheckMapping → RemoteCheck → Bool
is_matching i m c =
    str_eq c.name (expected_name i.is_merge_group m)
    && str_eq c.head_sha i.head_sha
    && expected_app m.expected_app_id c.app_id

abbrev is_pending : CheckConclusion → Bool
is_pending pending = true
is_pending _ = false

abbrev is_success : CheckConclusion → Bool
is_success success = true
is_success _ = false

-- The verdict of the newest matching check.
abbrev pub concluded : CheckConclusion → ReconcileVerdict
concluded c =
    if is_pending c
    then waiting
    else if not_coverage c
    then failed
    else if is_success c
    then satisfied
    else failed

observed_verdict : ReconcileInput → Option RemoteCheck → ReconcileVerdict
observed_verdict i none =
    if leb i.schedule_deadline_ms i.waited_ms then never_scheduled else waiting
observed_verdict i (some c) = concluded c.conclusion

mapped_verdict : ReconcileInput → Option CheckMapping → ReconcileVerdict
unfolding observed_verdict
mapped_verdict i none = unmapped
mapped_verdict i (some m) = observed_verdict i (latest (keep (is_matching i m) i.observed))

-- One turn of the loop of `reconcileChecks`.
unfoldable pub verdict : ReconcileInput → String → ReconcileVerdict
unfolding mapped_verdict
verdict i context = mapped_verdict i (find (mapping_for context) i.mappings)

-- `verdicts.set(context, verdict)`
set :
    String → ReconcileVerdict → List (String × ReconcileVerdict) → List (String × ReconcileVerdict)
set k v [] = (k, v) ∷ []
set k v ((k', v') ∷ rest) =
    let more = set k v rest in if str_eq k' k then (k', v) ∷ rest else (k', v') ∷ more

reconcile_from :
    ReconcileInput
    → List String
    → List (String × ReconcileVerdict)
    → List (String × ReconcileVerdict)
unfolding set
reconcile_from i [] verdicts = verdicts
reconcile_from i (c ∷ cs) verdicts = reconcile_from i cs (set c (verdict i c) verdicts)

-- `reconcileChecks`
unfoldable pub reconcile_checks : ReconcileInput → List (String × ReconcileVerdict)
unfolding reconcile_from
reconcile_checks i = reconcile_from i i.required_contexts []

-- `verdicts.get(context)`
unfoldable pub get : String → List (String × ReconcileVerdict) → Option ReconcileVerdict
get k [] = none
get k ((k', v) ∷ rest) = if str_eq k' k then some v else get k rest
