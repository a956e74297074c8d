-- ===== src/State/Breakers/Save.antt =====
-- What an accepted update of the circuit-breaker snapshot leaves (src/state/store.ts).
use runmill.Base.{
  ◌≡◌, ◌≤◌, refl, sym, ◌∙◌, true, false, List, [], ◌∷◌, Option, none, some, returned, thrown, arith,
  inl, inr, Outcome-cases, Bool-cases, ◌==◌, >>=-eq-returned, length, ℕ,
}
use runmill.State.Breakers.{
  DurableName, name_eq, Trip, trip_eq, Durable, assert_valid, Row, Reading, nothing_read, read_rows,
  snapshot, get_circuit_breaker_state, check_update, row_of, write_rows, save_circuit_breaker_state,
  valid_outcome_counters, is_tripped,
}

abbrev Distinct : DurableName → DurableName → DurableName → Type 0
Distinct a b c = (name_eq a b ≡ false) × (name_eq a c ≡ false) × (name_eq b c ≡ false)

-- A complete snapshot has a row of each name.
get-Distinct :
    (a b c : Row) (d : Durable)
    → get_circuit_breaker_state (a ∷ b ∷ c ∷ []) ≡ returned d
    → Distinct a.name b.name c.name
unfolding get_circuit_breaker_state
get-Distinct a b c d h = ground arith

write_rows-Distinct :
    (d : Durable) (a b c : Row)
    → Distinct a.name b.name c.name
    → write_rows d (a ∷ b ∷ c ∷ []) ≡ row_of d a.name ∷ row_of d b.name ∷ row_of d c.name ∷ []
unfolding write_rows
write_rows-Distinct d a b c h = ground arith

-- The rows of a valid snapshot, in any order, read back as that snapshot.
get-row_of :
    (d : Durable) (a b c : DurableName)
    → Distinct a b c
    → assert_valid d ≡ returned tt
    → get_circuit_breaker_state (row_of d a ∷ row_of d b ∷ row_of d c ∷ []) ≡ returned d
unfolding get_circuit_breaker_state assert_valid
get-row_of d a b c h v = ground arith

-- The snapshot that was there, the checks that it met, and the rows that it became.
save-parts :
    (input : Durable) (rows after : List Row)
    → save_circuit_breaker_state input rows ≡ returned after
    → (prior : Durable) × (get_circuit_breaker_state rows ≡ returned prior)
      × (assert_valid input ≡ returned tt)
      × (check_update prior input ≡ returned tt)
      × (after ≡ write_rows input rows)
unfolding save_circuit_breaker_state
save-parts input rows after h =
    let (_, v, h₁) = >>=-eq-returned (assert_valid input) _ h in
    let (prior, g, h₂) = >>=-eq-returned (get_circuit_breaker_state rows) _ h₁ in
    let (_, k, h₃) = >>=-eq-returned (check_update prior input) _ h₂ in
    (prior, g, v, k, ground arith)

get-length :
    (rows : List Row) (d : Durable) → get_circuit_breaker_state rows ≡ returned d → length rows ≡ 3
unfolding get_circuit_breaker_state
get-length rows d h = ground arith

get-write :
    (input prior : Durable) (rows : List Row)
    → get_circuit_breaker_state rows ≡ returned prior
    → length rows ≡ 3
    → assert_valid input ≡ returned tt
    → get_circuit_breaker_state (write_rows input rows) ≡ returned input
get-write input prior [] g n v = absurd (omega arith)
get-write input prior (a ∷ []) g n v = absurd (omega arith)
get-write input prior (a ∷ b ∷ []) g n v = absurd (omega arith)
get-write input prior (a ∷ b ∷ c ∷ []) g n v =
    let apart = get-Distinct a b c prior g in
    rw (write_rows-Distinct input a b c apart) (get-row_of input a.name b.name c.name apart v)
get-write input prior (a ∷ b ∷ c ∷ x ∷ xs) g n v = absurd (omega arith)

-- What an accepted update writes is what the next read returns.
pub get-save :
    (input : Durable) (rows after : List Row)
    → save_circuit_breaker_state input rows ≡ returned after
    → get_circuit_breaker_state after ≡ returned input
get-save input rows after h =
    let (prior, g, v, _, written) = save-parts input rows after h in
    rw written (get-write input prior rows g (get-length rows prior g) v)

trip_eq→eq : (s t : Option Trip) → trip_eq s t ≡ true → s ≡ t
trip_eq→eq none none h = refl
trip_eq→eq none (some t) h = cc
trip_eq→eq (some s) none h = cc
trip_eq→eq (some s) (some t) h = ground arith

-- What an update may change.
pub record Advances (prior next : Durable) : Type 0 where
  pub completed_le : prior.completed ≤ next.completed
  pub quarantines_le : prior.quarantines ≤ next.quarantines
  pub escalations_le : prior.escalations ≤ next.escalations
  pub trip_stays : is_tripped prior.tripped ≡ true → next.tripped ≡ prior.tripped

check_update-Advances :
    (prior next : Durable) → check_update prior next ≡ returned tt → Advances prior next
unfolding check_update valid_outcome_counters
check_update-Advances prior next h = record {
  completed_le = ground arith;
  quarantines_le = ground arith;
  escalations_le = ground arith;
  trip_stays = λ tripped. sym (trip_eq→eq prior.tripped next.tripped (ground arith));
}

-- Updates in the order in which they reach the store; one that throws leaves the rows.
pub save_all : List Durable → List Row → List Row
save_all [] rows = rows
save_all (d ∷ ds) rows =
    save_all ds
      (elim (save_circuit_breaker_state d rows) [ returned after ↦ after | thrown e ↦ rows ])

Advances-refl : (d : Durable) → Advances d d
Advances-refl d = record {
  completed_le = omega arith;
  quarantines_le = omega arith;
  escalations_le = omega arith;
  trip_stays = λ _. refl;
}

Advances-trans : (a b c : Durable) → Advances a b → Advances b c → Advances a c
Advances-trans a b c x y = record {
  completed_le = omega arith;
  quarantines_le = omega arith;
  escalations_le = omega arith;
  trip_stays = λ t. y.trip_stays (rw (x.trip_stays t) t) ∙ x.trip_stays t;
}

same_snapshot :
    (d e : Durable) (rows : List Row)
    → get_circuit_breaker_state rows ≡ returned d
    → get_circuit_breaker_state rows ≡ returned e
    → d ≡ e
same_snapshot d e rows g h = cc

-- After any sequence of updates, accepted or refused, the snapshot still reads, its completed,
-- quarantine and escalation counts have not decreased, and a trip that was open is still the same.
pub save_all-Advances :
    (ds : List Durable) (rows : List Row) (d : Durable)
    → get_circuit_breaker_state rows ≡ returned d
    → (last : Durable) × (get_circuit_breaker_state (save_all ds rows) ≡ returned last)
      × Advances d last
unfolding save_all
save_all-Advances [] rows d g = (d, g, Advances-refl d)
save_all-Advances (x ∷ ds) rows d g = elim (Outcome-cases (save_circuit_breaker_state x rows)) [
  | inl (after, h) ↦
      let (prior, g', _, k, _) = save-parts x rows after h in
      let (last, reads, more) = save_all-Advances ds after x (get-save x rows after h) in
      rw h (
        last,
        reads,
        Advances-trans d x last
            (rw (same_snapshot d prior rows g g') (check_update-Advances prior x k)) more,
      )
  | inr (e, h) ↦ rw h (save_all-Advances ds rows d g)
]

-- An update that meets the checks is accepted, and is what the next read returns.
pub save-accepts :
    (input prior : Durable) (rows : List Row)
    → get_circuit_breaker_state rows ≡ returned prior
    → assert_valid input ≡ returned tt
    → check_update prior input ≡ returned tt
    → (after : List Row) × (save_circuit_breaker_state input rows ≡ returned after)
      × (get_circuit_breaker_state after ≡ returned input)
unfolding save_circuit_breaker_state
save-accepts input prior rows g v k =
    (write_rows input rows, rw (v, g, k), get-write input prior rows g (get-length rows prior g) v)

snapshot-valid :
    (f q e c : Option ℕ) (ts : List Trip) (d : Durable)
    → snapshot f q e c ts ≡ returned d
    → assert_valid d ≡ returned tt
unfolding snapshot
snapshot-valid none q e c ts d h = cc
snapshot-valid (some f) none e c ts d h = cc
snapshot-valid (some f) (some q) none c ts d h = cc
snapshot-valid (some f) (some q) (some e) none ts d h = cc
snapshot-valid (some f) (some q) (some e) (some c) ts d h = ground arith

get-snapshot :
    (rows : List Row) (d : Durable)
    → get_circuit_breaker_state rows ≡ returned d
    → (r : Reading) × (snapshot r.failures r.quarantines r.escalations r.completed r.trips
        ≡ returned d)
unfolding get_circuit_breaker_state
get-snapshot rows d h = elim (Bool-cases (length rows == 3)) [
  | inl three ↦
      let (r, _, s) = >>=-eq-returned (read_rows rows nothing_read) _ (rw three at h) in (r, s)
  | inr other ↦ absurd (ground arith)
]

-- What is read is valid.
pub assert_valid-get :
    (rows : List Row) (d : Durable)
    → get_circuit_breaker_state rows ≡ returned d
    → assert_valid d ≡ returned tt
assert_valid-get rows d h =
    let (r, s) = get-snapshot rows d h in
    snapshot-valid r.failures r.quarantines r.escalations r.completed r.trips d s
