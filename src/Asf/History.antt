-- ===== src/Asf/History.antt =====
-- The replay of a run's event history, as src/asf/evidence-finalizer.ts makes it from RECEIVED:
-- each event is checked against the phase that the one before it left.
pub mod Gates
pub mod Control
pub mod Tables
use runmill.Base.{
  all, All, arith, >>=-eq-returned, ◌≡◌, Bool, true, false, not, ◌||◌, List, [], ◌∷◌, Option, none,
  some, Outcome, returned, ◌>>=◌,
}
use runmill.Asf.Phase.{Phase, run_event_phases}
use runmill.Asf.Event.{EventType, RunEvent, EventError, contract_phase, is_run_resumed, advance}
use runmill.Asf.Edges.{event_types, every_pair, edge_to, advance-edge}

unfoldable pub replay : Phase → List RunEvent → Outcome EventError Phase
replay from [] = returned from
replay from (e ∷ es) = advance from e >>= λ to. replay to es

-- A set of phases that no event outside `skip` leaves.
abbrev pub stays : (Phase → Bool) → (EventType → Bool) → Phase → EventType → Option Phase → Bool
stays inside skip from t none = true
stays inside skip from t (some to) = not (edge_to from t (some to)) || inside to

abbrev pub keeps : (Phase → Bool) → (EventType → Bool) → Phase → EventType → Bool
keeps inside skip from t =
    not (inside from) || is_run_resumed t || skip t || stays inside skip from t (contract_phase t)

abbrev pub IsClosed : (Phase → Bool) → (EventType → Bool) → Type 0
IsClosed inside skip = all (λ f. all (keeps inside skip f) event_types) run_event_phases ≡ true

-- Neither a resumption nor an event of `skip`.
abbrev pub Plain : (EventType → Bool) → RunEvent → Type 0
Plain skip e = (is_run_resumed e.type ≡ false) × (skip e.type ≡ false)

module _ (inside : Phase → Bool) (skip : EventType → Bool) (closed : IsClosed inside skip) where
  advance-inside :
      (from : Phase) (e : RunEvent) (to : Phase)
      → Plain skip e
      → inside from ≡ true
      → advance from e ≡ returned to
      → inside to ≡ true
  advance-inside from e to plain start h =
      let (c, edge) = advance-edge from e h plain.0 in
      let pair = every_pair (keeps inside skip) closed from e.type in ground (arith, pair)

  -- A replay of plain events that starts inside a closed set ends inside it.
  pub replay-inside :
      (es : List RunEvent) (from to : Phase)
      → All (Plain skip) es
      → inside from ≡ true
      → replay from es ≡ returned to
      → inside to ≡ true
  unfolding replay
  replay-inside [] from to plain start h = ground arith
  replay-inside (e ∷ es) from to plain start h =
      let (next, step, rest) = >>=-eq-returned (advance from e) _ h in
      replay-inside es next to plain.1 (advance-inside from e next plain.0 start step) rest
