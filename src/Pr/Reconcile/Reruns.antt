-- ===== src/Pr/Reconcile/Reruns.antt =====
-- A run of a check that is still going on (src/pr/reconcile.ts).
use runmill.Base.{
  ℕ, ◌≡◌, refl, ap, Bool, false, List, [], ◌∷◌, ◌++◌, none, some, String, keep, find, inl, inr,
  Bool-cases, arith, if◌then◌else◌, some-inj,
}
use runmill.Pr.Reconcile.{
  RemoteCheck, CheckMapping, ReconcileInput, no_earlier, latest, latest_from, mapping_for,
  is_matching, mapped_verdict, observed_verdict, verdict,
}

keep-append_one :
    {A : Type 0} (p : A → Bool) (xs : List A) (r : A)
    → keep p (xs ++ (r ∷ [])) ≡ keep p xs ++ (if p r then r ∷ [] else [])
keep-append_one p [] r = ground arith
keep-append_one p (x ∷ xs) r = elim (Bool-cases (p x)) [
  | inl kept ↦ rw (kept, keep-append_one p xs r) refl
  | inr out ↦ rw (out, keep-append_one p xs r) refl
]

-- A check without a completion time does not come after one with it.
not_later :
    (c r : RemoteCheck) (t : ℕ)
    → c.completed_at ≡ some t
    → r.completed_at ≡ none
    → no_earlier c r ≡ false
not_later c r t h g = rw (h, g) refl

latest_from-running :
    (best r c : RemoteCheck) (cs : List RemoteCheck) (t : ℕ)
    → latest_from best cs ≡ c
    → c.completed_at ≡ some t
    → r.completed_at ≡ none
    → latest_from best (cs ++ (r ∷ [])) ≡ c
unfolding latest_from
latest_from-running best r c [] t h g n =
    let same : no_earlier best r ≡ false = not_later best r t (rw h g) n in rw same h
latest_from-running best r c (x ∷ xs) t h g n =
    latest_from-running (if no_earlier best x then x else best) r c xs t h g n

latest-running :
    (cs : List RemoteCheck) (r c : RemoteCheck) (t : ℕ)
    → latest cs ≡ some c
    → c.completed_at ≡ some t
    → r.completed_at ≡ none
    → latest (cs ++ (r ∷ [])) ≡ some c
unfolding latest
latest-running [] r c t h g n = cc
latest-running (x ∷ xs) r c t h g n = ap some (latest_from-running x r c xs t (some-inj h) g n)

append_nil : {A : Type 0} (xs : List A) → xs ++ [] ≡ xs
append_nil [] = refl
append_nil (x ∷ xs) = ap (◌∷◌ x) (append_nil xs)

latest-rerun :
    (p : RemoteCheck → Bool) (cs : List RemoteCheck) (r c : RemoteCheck) (t : ℕ)
    → latest (keep p cs) ≡ some c
    → c.completed_at ≡ some t
    → r.completed_at ≡ none
    → latest (keep p (cs ++ (r ∷ []))) ≡ some c
latest-rerun p cs r c t h g n = elim (Bool-cases (p r)) [
  | inl kept ↦ rw (keep-append_one p cs r, kept) (latest-running (keep p cs) r c t h g n)
  | inr out ↦ rw (keep-append_one p cs r, out, append_nil (keep p cs)) h
]

-- A run of a required check that has not completed changes no verdict while an earlier run of it has:
-- the verdict stays that of the run that completed last.
pub verdict-rerun :
    (i : ReconcileInput) (context : String) (m : CheckMapping) (r c : RemoteCheck) (t : ℕ)
    → find (mapping_for context) i.mappings ≡ some m
    → latest (keep (is_matching i m) i.observed) ≡ some c
    → c.completed_at ≡ some t
    → r.completed_at ≡ none
    → verdict (record i { observed = i.observed ++ (r ∷ []) }) context ≡ verdict i context
unfolding verdict mapped_verdict observed_verdict
verdict-rerun i context m r c t mapped last done running =
    rw (mapped, last, latest-rerun (is_matching i m) i.observed r c t last done running) refl
