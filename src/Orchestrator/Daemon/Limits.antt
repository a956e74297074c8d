-- ===== src/Orchestrator/Daemon/Limits.antt =====
-- What bounds the runs of one session of the daemon (src/orchestrator/daemon.ts).
use runmill.Base.{
  ℕ, ◌+◌, ◌≡◌, ◌≤◌, ◌<◌, refl, ◌∙◌, false, List, [], ◌∷◌, ◌++◌, Option, none, some, String,
  returned, length, arith, inl, inr, ◌⊎◌, Bool-cases, if◌then◌else◌, >>=-eq-returned, returned-inj,
  length-append,
}
use runmill.Orchestrator.Breakers.{
  CircuitBreakerConfig, RunOutcome, BreakerState, evaluate, record_outcome, counted_run, RunState,
  quarantined, is_quarantined,
}
use runmill.State.Ledger.{budget_usage}
use runmill.Orchestrator.Breakers.Counts.{
  set_daily_spend-IsSameCount, IsSameCount, evaluate-cases, record-cases,
}
use runmill.Orchestrator.Daemon.{
  DaemonOptions, Turn, Loop, Progress, running, stopped, finish, proceed, turn, loop,
  quarantined_runs, quarantines_of, kept, reached, refresh_daily_budget, refreshed,
}

-- A turn that makes no run.
record IsQuiet (s s' : Loop) : Type 0 where
  pub outcomes_eq : s'.outcomes ≡ s.outcomes
  pub same : IsSameCount s.breakers s'.breakers

-- A turn that makes the run `r`.
record IsRun (o : DaemonOptions) (r : RunOutcome) (s s' : Loop) : Type 0 where
  pub outcomes_eq : s'.outcomes ≡ s.outcomes ++ (r ∷ [])
  pub room : reached o.max_runs (length s.outcomes) ≡ false
  pub same : IsSameCount (counted_run r s.breakers) s'.breakers
  pub few_quarantines : s.breakers.quarantines < s.breakers.config.max_quarantines

quiet : (s : Loop) → IsQuiet s s
quiet s = record { outcomes_eq = refl; same = record { config_eq = refl; quarantines_eq = refl } }

refreshed-IsQuiet :
    (ledger : Option String) (day : String) (s : Loop) → IsQuiet s (refreshed ledger day s)
refreshed-IsQuiet none day s = quiet s
refreshed-IsQuiet (some repo) day s = record {
  outcomes_eq = refl;
  same = set_daily_spend-IsSameCount day (budget_usage day repo s.budget).cost_usd s.breakers;
}

finish-cases :
    (o : DaemonOptions) (t : Turn) (r : Option RunOutcome) (s : Loop) (p : Progress)
    → reached o.max_runs (length s.outcomes) ≡ false
    → s.breakers.quarantines < s.breakers.config.max_quarantines
    → finish o t r s ≡ returned p
    → IsQuiet s (kept p) ⊎ ((x : RunOutcome) × IsRun o x s (kept p))
unfolding finish
finish-cases o t none s p room few h = inl (elim (Bool-cases o.stop_when_idle) [
  | inl stops ↦ rw⁻¹ (returned-inj (rw stops at h)) (quiet s)
  | inr waits ↦ rw⁻¹ (returned-inj (rw waits at h)) (quiet s)
])
finish-cases o t (some x) s p room few h =
    let (b, e, f) = >>=-eq-returned (record_outcome x s.breakers) _ h in
    let same = record-cases x s.breakers b e in
    inr (
      x,
      rw⁻¹ (returned-inj f)
          (record { outcomes_eq = refl; room = room; same = same; few_quarantines = few }),
    )

proceed-cases :
    (o : DaemonOptions) (t : Turn) (e : Option BreakerState) (s : Loop) (p : Progress)
    → ((e ≡ none) → s.breakers.quarantines < s.breakers.config.max_quarantines)
    → proceed o t e s ≡ returned p
    → IsQuiet s (kept p) ⊎ ((x : RunOutcome) × IsRun o x s (kept p))
unfolding proceed
proceed-cases o t (some b) s p few h = inl (rw⁻¹ (returned-inj h) (quiet s))
proceed-cases o t none s p few h = elim (Bool-cases (reached o.max_runs (length s.outcomes))) [
  | inl full ↦ inl (rw⁻¹ (returned-inj (rw full at h)) (quiet s))
  | inr room ↦ finish-cases o t t.run_once s p room (few refl) (rw room at h)
]

IsQuiet-trans : (a b c : Loop) → IsQuiet a b → IsQuiet b c → IsQuiet a c
IsQuiet-trans a b c x y = record {
  outcomes_eq = y.outcomes_eq ∙ x.outcomes_eq;
  same = record {
    config_eq = y.same.config_eq ∙ x.same.config_eq;
    quarantines_eq = y.same.quarantines_eq ∙ x.same.quarantines_eq;
  };
}

quiet-IsRun :
    (o : DaemonOptions) (r : RunOutcome) (a b c : Loop)
    → IsQuiet a b
    → IsRun o r b c
    → IsRun o r a c
quiet-IsRun o r a b c x y = record {
  outcomes_eq = rw⁻¹ x.outcomes_eq y.outcomes_eq;
  room = rw⁻¹ x.outcomes_eq y.room;
  same = record {
    config_eq = y.same.config_eq ∙ x.same.config_eq;
    quarantines_eq = y.same.quarantines_eq ∙ rw x.same.quarantines_eq refl;
  };
  few_quarantines = rw⁻¹ (x.same.quarantines_eq, x.same.config_eq) y.few_quarantines;
}

turn-cases :
    (o : DaemonOptions) (t : Turn) (s : Loop) (p : Progress)
    → turn o t s ≡ returned p
    → IsQuiet s (kept p) ⊎ ((x : RunOutcome) × IsRun o x s (kept p))
unfolding turn proceed finish
turn-cases o t s p h = elim (Bool-cases t.stop_requested) [
  | inl asked ↦ inl (rw⁻¹ (returned-inj (rw asked at h)) (quiet s))
  | inr goes ↦
      let s₁ = refresh_daily_budget o t s in
      let q₁ = refreshed-IsQuiet o.ledger t.bucket s in
      let (e, found, h₂) = >>=-eq-returned (evaluate t.now s₁.breakers) _ (rw goes at h) in
      let (same, clear) = evaluate-cases t.now s₁.breakers e.1 e.0 found in
      let s₂ = record s₁ { breakers = e.1 } in
      let q₂ = IsQuiet-trans s s₁ s₂ q₁ (record { outcomes_eq = refl; same = same }) in
      elim (proceed-cases o t e.0 s₂ p (λ n. rw (clear n).0.unchanged (clear n).0.few_quarantines)
        h₂) [
          | inl q ↦ inl (IsQuiet-trans s s₂ (kept p) q₂ q)
          | inr (x, r) ↦ inr (x, quiet-IsRun o x s s₂ (kept p) q₂ r)
        ]
]

-- What every turn that returns keeps, a sequence of turns keeps.
pub loop-invariant :
    (I : Loop → Type 0) (o : DaemonOptions)
    → ((t : Turn) (s : Loop) (p : Progress) → I s → turn o t s ≡ returned p → I (kept p))
    → (ts : List Turn) (p q : Progress) → I (kept p)
    → loop o ts p ≡ returned q
    → I (kept q)
unfolding loop
loop-invariant I o keeps [] p q i h = rw⁻¹ (returned-inj h) i
loop-invariant I o keeps (t ∷ ts) (stopped why s) q i h = rw⁻¹ (returned-inj h) i
loop-invariant I o keeps (t ∷ ts) (running s) q i h =
    let (p, e, more) = >>=-eq-returned (turn o t s) _ h in
    loop-invariant I o keeps ts p q (keeps t s p i e) more

reached-room : (ceiling : Option ℕ) (m n : ℕ) → ceiling ≡ some m → reached ceiling n ≡ false → n < m
reached-room none m n h r = cc
reached-room (some k) m n h r = ground arith

quarantined_runs-append :
    (xs : List RunOutcome) (r : RunOutcome)
    → quarantined_runs (xs ++ (r ∷ [])) ≡ quarantined_runs xs + quarantined_runs (r ∷ [])
quarantined_runs-append [] r = omega arith
quarantined_runs-append (x ∷ xs) r = omega (arith, quarantined_runs-append xs r)

counted_quarantines :
    (s : RunState) (n : ℕ) → (if is_quarantined s then n + 1 else n) ≡ n + quarantines_of s
counted_quarantines quarantined n = refl
counted_quarantines _ n = omega arith

-- The runs of a session never exceed its ceiling.
pub loop-max_runs :
    (o : DaemonOptions) (m : ℕ) (ts : List Turn) (s : Loop) (p : Progress)
    → o.max_runs ≡ some m
    → s.outcomes ≡ []
    → loop o ts (running s) ≡ returned p
    → length (kept p).outcomes ≤ m
loop-max_runs o m ts s p ceiling fresh h =
    loop-invariant (λ l. length l.outcomes ≤ m) o
      (λ t l q i e. elim (turn-cases o t l q e) [
        | inl quiet ↦ rw quiet.outcomes_eq i
        | inr (x, r) ↦ rw r.outcomes_eq (
            omega (
              arith,
              length-append l.outcomes (x ∷ []),
              reached-room o.max_runs m (length l.outcomes) ceiling r.room,
            ))
      ])
      ts (running s) p (rw fresh (omega arith)) h

-- What the breakers and the outcomes say of the quarantined runs, `q` of them before the session.
record IsCounted (c : CircuitBreakerConfig) (q : ℕ) (l : Loop) : Type 0 where
  pub config_eq : l.breakers.config ≡ c
  pub counted_eq : l.breakers.quarantines ≡ q + quarantined_runs l.outcomes
  pub low : l.breakers.quarantines ≤ c.max_quarantines

turn-IsCounted :
    (o : DaemonOptions) (c : CircuitBreakerConfig) (q : ℕ) (t : Turn) (s : Loop) (p : Progress)
    → IsCounted c q s
    → turn o t s ≡ returned p
    → IsCounted c q (kept p)
turn-IsCounted o c q t s p i e = elim (turn-cases o t s p e) [
  | inl quiet ↦ record {
    config_eq = quiet.same.config_eq ∙ i.config_eq;
    counted_eq = quiet.same.quarantines_eq ∙ (i.counted_eq ∙ rw quiet.outcomes_eq refl);
    low = rw quiet.same.quarantines_eq i.low;
  }
  | inr (x, r) ↦
      let few : s.breakers.quarantines < c.max_quarantines = rw⁻¹ i.config_eq r.few_quarantines in
      let appended = quarantined_runs-append s.outcomes x in
      let more = counted_quarantines x.final_state s.breakers.quarantines in
      record {
        config_eq = r.same.config_eq ∙ i.config_eq;
        counted_eq =
            r.same.quarantines_eq ∙ rw r.outcomes_eq omega (arith, appended, more, i.counted_eq);
        low = rw r.same.quarantines_eq ground (arith, few);
      }
]

-- From breakers whose count of quarantined runs is not above the threshold, and no outcome yet, every
-- sequence of turns that returns leaves breakers that count exactly the quarantined runs of the session
-- on top of the earlier ones, and no more of them in all than the threshold.
pub loop-max_quarantines :
    (o : DaemonOptions) (ts : List Turn) (s : Loop) (p : Progress)
    → s.outcomes ≡ []
    → s.breakers.quarantines ≤ s.breakers.config.max_quarantines
    → loop o ts (running s) ≡ returned p
    → ((kept p).breakers.quarantines ≡ s.breakers.quarantines + quarantined_runs (kept p).outcomes)
      × ((kept p).breakers.quarantines ≤ s.breakers.config.max_quarantines)
loop-max_quarantines o ts s p fresh low h =
    let start : IsCounted s.breakers.config s.breakers.quarantines s = record {
      config_eq = refl;
      counted_eq = rw fresh (omega arith);
      low = low;
    } in
    let i =
      loop-invariant (IsCounted s.breakers.config s.breakers.quarantines) o
        (turn-IsCounted o s.breakers.config s.breakers.quarantines) ts (running s) p start h in
    (i.counted_eq, i.low)
