-- ===== src/State/Runs/Traced.antt =====
-- The log of a run's transitions tells its state (src/state/store.ts).
use runmill.Base.{
  ℕ, suc, max, ◌≡◌, refl, sym, true, false, List, [], ◌∷◌, ◌++◌, Option, none, some, String, str_eq,
  str_eq_refl, str_eq_iff, Bool-cases, Option-cases, inl, inr, arith, if◌then◌else◌,
}
use runmill.State.Runs.{
  Run, Transition, NewRun, Swap, Tables, has_id, row, new_run, create_run, is_due, moved, is_of,
  history, max_seq, logged, advanced, transition_run, Call, creates, transits, or_same, after_call,
  after_calls,
}
use runmill.State.Runs.Swaps.{set_run-row, set_run-other, is_due-state}

-- The log leads from a state at a version to another state at another version.
pub data Leads : String → ℕ → List Transition → String → ℕ → Type 0 where
  none_left : {s : String} {n : ℕ} → Leads s n [] s n
  next :
      {s e : String} {n m : ℕ} {x : Transition} {xs : List Transition}
      → x.from_state ≡ s
      → x.seq ≡ n
      → Leads x.to_state (suc n) xs e m
      → Leads s n (x ∷ xs) e m

-- What the log tells of a run: there is none of a run that is not there, and the one of a run that is
-- leads from `DISCOVERED` at version 1 to the state and the version of its row.
abbrev pub Told : Option Run → List Transition → Type 0
Told none log = log ≡ []
Told (some r) log = Leads "DISCOVERED" 1 log r.state r.state_version

abbrev pub IsTraced : Tables → Type 0
IsTraced t = (id : String) → Told (row id t.runs) (history id t.transitions)

Leads-version :
    {s e : String} (k : ℕ) {m : ℕ} (log : List Transition)
    → Leads s (suc k) log e m
    → m ≡ suc (max k (max_seq log))
Leads-version k [] none_left = omega arith
Leads-version k (x ∷ xs) (next from seq rest) =
    let later = Leads-version (suc k) xs rest in omega (arith, later, seq)

Leads-append :
    {s e : String} {n m : ℕ} (log : List Transition) (x : Transition)
    → Leads s n log e m
    → x.from_state ≡ e
    → x.seq ≡ m
    → Leads s n (log ++ x ∷ []) x.to_state (suc m)
Leads-append [] x none_left from seq = next from seq none_left
Leads-append (y ∷ ys) x (next f q rest) from seq = next f q (Leads-append ys x rest from seq)

history-append :
    (id : String) (log : List Transition) (x : Transition)
    → is_of id x ≡ true
    → history id (log ++ x ∷ []) ≡ history id log ++ x ∷ []
history-append id [] x it = rw it refl
history-append id (y ∷ ys) x it = elim (Bool-cases (is_of id y)) [
  | inl e ↦ rw (e, history-append id ys x it) refl
  | inr e ↦ rw e (history-append id ys x it)
]

history-other :
    (id : String) (log : List Transition) (x : Transition)
    → is_of id x ≡ false
    → history id (log ++ x ∷ []) ≡ history id log
history-other id [] x it = rw it refl
history-other id (y ∷ ys) x it = elim (Bool-cases (is_of id y)) [
  | inl e ↦ rw (e, history-other id ys x it) refl
  | inr e ↦ rw e (history-other id ys x it)
]

row-append :
    (id : String) (runs : List Run) (r : Run)
    → row id runs ≡ none
    → row id (runs ++ r ∷ []) ≡ (if has_id id r then some r else none)
row-append id [] r missing = refl
row-append id (x ∷ xs) r missing = elim (Bool-cases (has_id id x)) [
  | inl e ↦ absurd (cc (rw e at missing))
  | inr e ↦ rw e (row-append id xs r (rw e at missing))
]

row-kept :
    (id : String) (runs : List Run) (r x : Run)
    → row id runs ≡ some x
    → row id (runs ++ r ∷ []) ≡ some x
row-kept id [] r x h = absurd (cc h)
row-kept id (y ∷ ys) r x h = elim (Bool-cases (has_id id y)) [
  | inl e ↦ rw e (rw e at h)
  | inr e ↦ rw e (row-kept id ys r x (rw e at h))
]

fresh-Told :
    (id : String) (runs : List Run) (r : Run) (log : List Transition)
    → row id runs ≡ none
    → Told (row id runs) log
    → Leads "DISCOVERED" 1 [] r.state r.state_version
    → Told (row id (runs ++ r ∷ [])) log
fresh-Told id runs r log missing told begins =
    let silent : log ≡ [] = rw missing at told in
    rw (row-append id runs r missing, silent)
      (elim (Bool-cases (has_id id r)) [ inl it ↦ rw it begins | inr other ↦ rw other refl ])

create-Told :
    (input : NewRun) (now : ℕ) (t : Tables)
    → IsTraced t
    → IsTraced (or_same t (create_run input now t))
unfolding create_run
create-Told input now t traced id = elim (Option-cases (row input.run_id t.runs)) [
  | inr (r, there) ↦ rw (create_run, there, or_same) (traced id)
  | inl new ↦
      rw (create_run, new, or_same)
        (elim (Option-cases (row id t.runs)) [
          | inl missing ↦
              fresh-Told id t.runs (new_run input now) (history id t.transitions) missing
                (traced id) none_left
          | inr (x, found) ↦
              let told : Told (some x) (history id t.transitions) = rw found at (traced id) in
              rw (row-kept id t.runs (new_run input now) x found) told
        ])
]

swapped-Told :
    (id : String) (o : Swap) (now : ℕ) (t : Tables) (r : Run)
    → IsTraced t
    → row id t.runs ≡ some r
    → is_due o r ≡ true
    → Told (row id (advanced id o now t).runs) (history id (advanced id o now t).transitions)
swapped-Told id o now t r traced found due =
    let log = history id t.transitions in
    let x = logged id o now t.transitions in
    let told : Leads "DISCOVERED" 1 log r.state r.state_version = rw found at (traced id) in
    let version = Leads-version 0 log told in
    rw
      (
        set_run-row id (moved o now) t.runs r (λ y it. it) found,
        history-append id t.transitions x (str_eq_refl id),
      )
      (Leads-append log x told (sym (is_due-state o r due).0) (omega (arith, version)))

swap-Told :
    (id k : String) (o : Swap) (now : ℕ) (t : Tables) (r : Run)
    → IsTraced t
    → row id t.runs ≡ some r
    → is_due o r ≡ true
    → Told (row k (advanced id o now t).runs) (history k (advanced id o now t).transitions)
swap-Told id k o now t r traced found due = elim (Bool-cases (str_eq id k)) [
  | inl same ↦ rw (← (str_eq_iff id k).0 same) (swapped-Told id o now t r traced found due)
  | inr other ↦
      rw
        (
          set_run-other id k (moved o now) t.runs other (λ x. refl),
          history-other k t.transitions (logged id o now t.transitions) other,
        )
        (traced k)
]

transition-Told :
    (id : String) (o : Swap) (now : ℕ) (t : Tables)
    → IsTraced t
    → IsTraced (or_same t (transition_run id o now t))
unfolding transition_run
transition-Told id o now t traced k = elim (Option-cases (row id t.runs)) [
  | inl missing ↦ rw (transition_run, missing, or_same) (traced k)
  | inr (r, found) ↦ elim (Bool-cases (is_due o r)) [
    | inr idle ↦ rw (transition_run, found, idle, or_same) (traced k)
    | inl due ↦ rw (transition_run, found, due, or_same) (swap-Told id k o now t r traced found due)
  ]
]

call-IsTraced : (c : Call) (t : Tables) → IsTraced t → IsTraced (after_call c t)
call-IsTraced (creates input now) t h = create-Told input now t h
call-IsTraced (transits id o now) t h = transition-Told id o now t h

abbrev pub no_tables : Tables
no_tables = record { runs = []; transitions = [] }

IsTraced-from : (cs : List Call) (t : Tables) → IsTraced t → IsTraced (after_calls cs t)
IsTraced-from [] t h = h
IsTraced-from (c ∷ cs) t h = IsTraced-from cs (after_call c t) (call-IsTraced c t h)

-- In a database that only these calls have written, whichever of them were refused, the log of a run
-- that is not there is empty, and the log of a run that is there is unbroken: it begins at `DISCOVERED` and
-- version 1, each entry starts from the state where the one before has ended, the numbers of its entries are
-- the versions they were made at, and it ends in the state and the version of the row.
pub after_calls-IsTraced : (cs : List Call) → IsTraced (after_calls cs no_tables)
after_calls-IsTraced cs = IsTraced-from cs no_tables (λ id. refl)
