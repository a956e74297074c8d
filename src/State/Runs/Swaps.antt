-- ===== src/State/Runs/Swaps.antt =====
-- One transition for one version of a run (src/state/store.ts).
use runmill.Base.{
  ℕ, ◌≡◌, refl, ap, true, false, ==_iff, List, [], ◌∷◌, none, some, String, str_eq, str_eq_iff,
  thrown, Bool-cases, inl, inr, arith,
}
use runmill.State.Runs.{
  Run, Swap, Tables, RunError, has_id, row, get_run, set_run, is_due, moved, transition_run,
}

pub set_run-row :
    (id : String) (f : Run → Run) (runs : List Run) (r : Run)
    → ((x : Run) → has_id id x ≡ true → has_id id (f x) ≡ true)
    → row id runs ≡ some r
    → row id (set_run id f runs) ≡ some (f r)
set_run-row id f [] r keeps h = absurd (cc h)
set_run-row id f (x ∷ xs) r keeps h = elim (Bool-cases (has_id id x)) [
  | inl it ↦
      let same : some x ≡ some r = rw it at h in
      rw (it, keeps x it) (ap (λ o. elim o [ none ↦ none | some y ↦ some (f y) ]) same)
  | inr other ↦
      let rest = set_run-row id f xs r keeps (rw other at h) in rw (other, other, rest) refl
]

pub set_run-other :
    (id k : String) (f : Run → Run) (runs : List Run)
    → str_eq id k ≡ false
    → ((x : Run) → (f x).run_id ≡ x.run_id)
    → row k (set_run id f runs) ≡ row k runs
set_run-other id k f [] other keeps = refl
set_run-other id k f (x ∷ xs) other keeps = elim (Bool-cases (has_id id x)) [
  | inl it ↦
      let foreign : has_id k x ≡ false =
        ground (arith, str_eq_iff x.run_id id, str_eq_iff x.run_id k, str_eq_iff id k) in
      let still : has_id k (f x) ≡ false = rw (keeps x) foreign in rw (it, still, foreign) refl
  | inr not_it ↦ let rest = set_run-other id k f xs other keeps in rw (not_it, rest) refl
]

-- What a transition by compare-and-swap does, under the options `o`, to a run that is there.
pub record IsSwap (id : String) (o : Swap) (now : ℕ) (t after : Tables) (r : Run) : Type 0 where
  pub was_due : (r.state ≡ o.from_state) × (r.state_version ≡ o.expected_version)
  pub is_moved : get_run id after.runs ≡ some (moved o now r)
  pub others : (k : String) → str_eq id k ≡ false → get_run k after.runs ≡ get_run k t.runs
  pub once :
      (other : Swap) (later : ℕ)
      → other.expected_version ≡ o.expected_version
      → (e : RunError) × (transition_run id other later after ≡ thrown e)

pub is_due-state :
    (o : Swap) (r : Run)
    → is_due o r ≡ true
    → (r.state ≡ o.from_state) × (r.state_version ≡ o.expected_version)
is_due-state o r h =
    ground (arith, str_eq_iff r.state o.from_state, ==_iff r.state_version o.expected_version)
