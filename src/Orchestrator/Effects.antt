-- ===== src/Orchestrator/Effects.antt =====
-- `#withOutbox` (src/orchestrator/orchestrator.ts): intent, fence, mark, act, and the outcome. The fence and
-- the external call are parameters; the call is given the rows that the store holds when it starts, so that
-- what is durable then can be told.
pub mod Guarded
use runmill.Base.{
  ℕ, Bool, true, false, List, [], ◌∷◌, Option, none, some, String, Outcome, returned, thrown,
}
use runmill.State.Runs.{Run}
use runmill.State.Outbox.{
  SideEffect, Intent, Intended, EffectError, not_applied, orchestrator, intend_side_effect,
  mark_side_effect_in_flight, confirm_side_effect, fail_side_effect, resolve_side_effect,
}

-- What the external call may do: end, throw a BacklogMutationNotStartedError, or throw another error.
pub data ActResult : Type 0 where
  ended not_started : ActResult
  failed : String → ActResult

pub data Ending : Type 0 where
  succeeded lease_refused call_not_started : Ending
  call_failed : String → Ending
  store_refused : EffectError → Ending

-- The states of the store, one for each write that has been made, the rows that the external call has
-- started with, and how it all ends.
pub record Turn : Type 0 where
  pub durable : List (List SideEffect)
  pub started_with : List (List SideEffect)
  pub ending : Ending

abbrev pub earlier : List SideEffect → Turn → Turn
earlier rows t = record t { durable = rows ∷ t.durable }

-- `resolveSideEffect(key, "not-applied", "orchestrator")`, and the error that is thrown after it.
abbrev pub closed : String → Ending → List (List SideEffect) → List SideEffect → Turn
closed key ending started rows = elim (resolve_side_effect key not_applied orchestrator rows) [
  | returned after ↦ record { durable = after ∷ []; started_with = started; ending = ending }
  | thrown e ↦ record { durable = []; started_with = started; ending = store_refused e }
]

-- The outcome of the external call, which has started with these rows.
abbrev pub settled : String → List SideEffect → ActResult → Turn
settled key rows ended = record {
  durable = confirm_side_effect key none rows ∷ [];
  started_with = rows ∷ [];
  ending = succeeded;
}
settled key rows not_started = closed key call_not_started (rows ∷ []) rows
settled key rows (failed message) = record {
  durable = fail_side_effect key message rows ∷ [];
  started_with = rows ∷ [];
  ending = call_failed message;
}

-- From the mark on.
abbrev pub marked : String → (List SideEffect → ActResult) → List SideEffect → Turn
marked key act rows =
    let in_flight = mark_side_effect_in_flight key rows in
    earlier in_flight (settled key in_flight (act in_flight))

-- From the intent on: does the lease hold?
abbrev pub fenced : String → Bool → (List SideEffect → ActResult) → List SideEffect → Turn
fenced key true act rows = marked key act rows
fenced key false act rows = closed key lease_refused [] rows

unfoldable pub with_outbox :
    (String → String)
    → List Run
    → Intent
    → ℕ
    → Bool
    → (List SideEffect → ActResult)
    → List SideEffect
    → Turn
with_outbox digest runs i now lease_holds act rows =
    elim (intend_side_effect digest runs i now rows) [
      | returned x ↦ earlier x.rows (fenced x.key lease_holds act x.rows)
      | thrown e ↦ record { durable = []; started_with = []; ending = store_refused e }
    ]
