-- ===== src/State/Breakers.antt =====
-- The durable circuit-breaker snapshot of src/state/store.ts: its validation, its three rows, and the
-- guarded update. A row's state is taken decoded: the JSON text is canonical by construction. The
-- text of a trip's reason is kept as the numbers that its template prints, and instants as numbers.
pub mod Save
use runmill.Base.{
  ℕ, ◌+◌, ◌≡◌, Bool, true, false, not, ◌&&◌, ◌||◌, List, [], ◌∷◌, Option, none, some, Outcome,
  returned, thrown, ◌>>=◌, ltb, leb, ◌==◌, if◌then◌else◌, length,
}

-- DurableCircuitBreakerName
pub data DurableName : Type 0 where
  consecutive_failures quarantine escalation_rate : DurableName

abbrev pub name_eq : DurableName → DurableName → Bool
name_eq consecutive_failures consecutive_failures = true
name_eq quarantine quarantine = true
name_eq escalation_rate escalation_rate = true
name_eq _ _ = false

-- The numbers in the texts of the non-daily trips.
pub data Reason : Type 0 where
  counted : ℕ → Reason
  rated : ℕ → ℕ → Reason

abbrev pub reason_eq : Reason → Reason → Bool
reason_eq (counted a) (counted b) = a == b
reason_eq (rated a b) (rated c d) = a == c && b == d
reason_eq _ _ = false

pub record Trip : Type 0 where
  pub name : DurableName
  pub opened_at : ℕ
  pub reason : Reason

-- Equality of the canonical JSON of two trips.
abbrev pub trip_eq : Option Trip → Option Trip → Bool
trip_eq none none = true
trip_eq (some s) (some t) =
    name_eq s.name t.name && s.opened_at == t.opened_at && reason_eq s.reason t.reason
trip_eq _ _ = false

-- DurableCircuitBreakerState
pub record Durable : Type 0 where
  pub failures : ℕ
  pub quarantines : ℕ
  pub escalations : ℕ
  pub completed : ℕ
  pub tripped : Option Trip

pub data StateError : Type 0 where
  bad_count contradicting_counters contradicting_trip : StateError
  missing_rows malformed_row incomplete_snapshot : StateError
  cannot_reset no_completed_run stale_update : StateError

-- Number.MAX_SAFE_INTEGER
abbrev pub max_safe_integer : ℕ
max_safe_integer = 9007199254740991

abbrev pub is_count : ℕ → Bool
is_count n = leb n max_safe_integer

-- A trip that its counters cannot have caused.
abbrev pub contradicts : Durable → Option Trip → Bool
contradicts d none = false
contradicts d (some t) = elim t.name [
  | consecutive_failures ↦ d.failures == 0
  | quarantine ↦ d.quarantines == 0
  | escalation_rate ↦ d.completed == 0 || d.escalations == 0
]

-- `assertValidDurableCircuitBreakerState`
unfoldable pub assert_valid : Durable → Outcome StateError (Unit {0})
assert_valid d =
    if not (
      is_count d.completed
      && is_count d.failures
      && is_count d.escalations
      && is_count d.quarantines)
    then thrown bad_count
    else if ltb d.completed d.failures
        || ltb d.completed d.escalations
        || ltb d.completed d.quarantines
    then thrown contradicting_counters
    else if contradicts d d.tripped
    then thrown contradicting_trip
    else returned tt

-- The decoded state of a row: {schema, count} or {schema, completed, escalations}.
pub data RowState : Type 0 where
  counter : ℕ → RowState
  rate : ℕ → ℕ → RowState

pub record Row : Type 0 where
  pub name : DurableName
  pub state : RowState
  pub opened_at : Option ℕ
  pub reason : Option Reason

-- What the loop of `getCircuitBreakerState` has read so far; `trips` newest first.
pub record Reading : Type 0 where
  pub failures : Option ℕ
  pub quarantines : Option ℕ
  pub escalations : Option ℕ
  pub completed : Option ℕ
  pub trips : List Trip

abbrev nothing_read : Reading
nothing_read = record {
  failures = none;
  quarantines = none;
  escalations = none;
  completed = none;
  trips = [];
}

-- The state of a row under its name.
read_state : DurableName → RowState → Reading → Outcome StateError Reading
read_state escalation_rate (rate c e) r =
    if is_count c && is_count e
    then returned (record r { completed = some c; escalations = some e })
    else thrown bad_count
read_state consecutive_failures (counter n) r =
    if is_count n then returned (record r { failures = some n }) else thrown bad_count
read_state quarantine (counter n) r =
    if is_count n then returned (record r { quarantines = some n }) else thrown bad_count
read_state _ _ r = thrown malformed_row

read_trip : DurableName → Option ℕ → Option Reason → Reading → Outcome StateError Reading
read_trip n none none r = returned r
read_trip n (some at) (some why) r =
    returned (record r { trips = record { name = n; opened_at = at; reason = why } ∷ r.trips })
read_trip n _ _ r = thrown malformed_row

read_row : Row → Reading → Outcome StateError Reading
unfolding read_state read_trip
read_row w r = read_state w.name w.state r >>= λ s. read_trip w.name w.opened_at w.reason s

read_rows : List Row → Reading → Outcome StateError Reading
unfolding read_row
read_rows [] r = returned r
read_rows (w ∷ ws) r = read_row w r >>= λ s. read_rows ws s

abbrev first_trip : List Trip → Option Trip
first_trip [] = none
first_trip (t ∷ ts) = some t

snapshot : Option ℕ → Option ℕ → Option ℕ → Option ℕ → List Trip → Outcome StateError Durable
snapshot (some f) (some q) (some e) (some c) ts =
    if ltb 1 (length ts)
    then thrown incomplete_snapshot
    else let d : Durable = record {
      failures = f;
      quarantines = q;
      escalations = e;
      completed = c;
      tripped = first_trip ts;
    } in
      assert_valid d >>= λ _. returned d
snapshot _ _ _ _ ts = thrown incomplete_snapshot

-- `getCircuitBreakerState`
unfoldable pub get_circuit_breaker_state : List Row → Outcome StateError Durable
unfolding read_rows snapshot
get_circuit_breaker_state rows =
    if not (length rows == 3)
    then thrown missing_rows
    else read_rows rows nothing_read >>= λ r.
        snapshot r.failures r.quarantines r.escalations r.completed r.trips

-- A counter that has grown by one, or not at all: a delta of 1 or 0.
abbrev pub grew : ℕ → ℕ → Bool
grew prior next = next == prior + 1

abbrev pub kept : ℕ → ℕ → Bool
kept prior next = next == prior

-- The counters of one completed run.
unfoldable pub valid_outcome_counters : Durable → Durable → Bool
valid_outcome_counters prior input =
    (kept prior.quarantines input.quarantines || grew prior.quarantines input.quarantines)
    && (kept prior.escalations input.escalations || grew prior.escalations input.escalations)
    && not (grew prior.quarantines input.quarantines && grew prior.escalations input.escalations)
    && input.failures == (
        if grew prior.quarantines input.quarantines || grew prior.escalations input.escalations
        then prior.failures + 1
        else 0)

abbrev pub same_counters : Durable → Durable → Bool
same_counters prior input =
    input.completed == prior.completed
    && input.failures == prior.failures
    && input.escalations == prior.escalations
    && input.quarantines == prior.quarantines

abbrev pub is_tripped : Option Trip → Bool
is_tripped none = false
is_tripped (some t) = true

-- The checks of `saveCircuitBreakerState` against the committed snapshot.
unfoldable pub check_update : Durable → Durable → Outcome StateError (Unit {0})
check_update prior input =
    if is_tripped prior.tripped && not (trip_eq prior.tripped input.tripped)
    then thrown cannot_reset
    else if input.completed == prior.completed
    then (if not (same_counters prior input) then thrown no_completed_run else returned tt)
    else if not (grew prior.completed input.completed) || not (valid_outcome_counters prior input)
    then thrown stale_update
    else returned tt

abbrev opened_here : DurableName → Option Trip → Option ℕ
opened_here n none = none
opened_here n (some t) = if name_eq t.name n then some t.opened_at else none

abbrev reason_here : DurableName → Option Trip → Option Reason
reason_here n none = none
reason_here n (some t) = if name_eq t.name n then some t.reason else none

abbrev state_by_name : Durable → DurableName → RowState
state_by_name d consecutive_failures = counter d.failures
state_by_name d quarantine = counter d.quarantines
state_by_name d escalation_rate = rate d.completed d.escalations

abbrev row_of : Durable → DurableName → Row
row_of d n = record {
  name = n;
  state = state_by_name d n;
  opened_at = opened_here n d.tripped;
  reason = reason_here n d.tripped;
}

-- INSERT ... ON CONFLICT(name) DO UPDATE
upsert : Row → List Row → List Row
upsert w [] = w ∷ []
upsert w (x ∷ xs) = if name_eq x.name w.name then w ∷ xs else x ∷ upsert w xs

write_rows : Durable → List Row → List Row
unfolding upsert
write_rows d rows =
    upsert (row_of d quarantine)
      (upsert (row_of d escalation_rate) (upsert (row_of d consecutive_failures) rows))

-- `saveCircuitBreakerState`; a transaction that throws leaves the rows.
unfoldable pub save_circuit_breaker_state : Durable → List Row → Outcome StateError (List Row)
unfolding write_rows
save_circuit_breaker_state input rows = assert_valid input >>= λ _.
    get_circuit_breaker_state rows >>= λ prior.
    check_update prior input >>= λ _. returned (write_rows input rows)
