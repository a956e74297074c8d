-- ===== src/State/Outbox/Waits.antt =====
-- Pending effects in one pass, and what a change of status does to them (src/state/store.ts).
use runmill.Base.{
  ℕ, ◌≡◌, refl, sym, ap, Bool, true, false, ◌&&◌, ◌||◌, List, [], ◌∷◌, ◌++◌, Option, some, String,
  str_eq, str_eq_iff, str_eq_refl, any, Bool-cases, inl, inr, arith,
}
use runmill.State.Outbox.{
  SideEffectStatus, confirmed, SideEffect, Intent, has_key, is_pending_status, is_pending,
  intended_row, patched, set_side_effect_status, get_side_effect, pending_side_effects,
}

-- Is an effect of this key pending?
abbrev pub is_pending_key : String → List SideEffect → Bool
is_pending_key key rows = any (has_key key) (pending_side_effects rows)

-- The same in one pass.
abbrev pub waits_in : String → List SideEffect → Bool
waits_in key rows = any (λ e. has_key key e && is_pending e) rows

&&-true : (b : Bool) → (b && true) ≡ b
&&-true true = refl
&&-true false = refl

&&-false : (b : Bool) → (b && false) ≡ false
&&-false true = refl
&&-false false = refl

pub is_pending_key-eq :
    (key : String) (rows : List SideEffect) → is_pending_key key rows ≡ waits_in key rows
is_pending_key-eq key [] = refl
is_pending_key-eq key (e ∷ rows) = elim (Bool-cases (is_pending e)) [
  | inl waiting ↦
      rw (waiting, is_pending_key-eq key rows)
        (ap (λ b. b || waits_in key rows) (sym (&&-true (has_key key e))))
  | inr settled ↦
      rw (settled, is_pending_key-eq key rows)
        (ap (λ b. b || waits_in key rows) (sym (&&-false (has_key key e))))
]

module _ (status : SideEffectStatus) (remote_id last_error : Option String) where
  -- A change of status is one of its own key.
  pub set-other :
      (k key : String) (rows : List SideEffect)
      → str_eq k key ≡ false
      → waits_in key (set_side_effect_status k status remote_id last_error rows) ≡ waits_in key rows
  unfolding set_side_effect_status
  set-other k key [] other = refl
  set-other k key (e ∷ rows) other =
      let rest = set-other k key rows other in
      elim (Bool-cases (has_key k e)) [
        | inr not_it ↦ rw (not_it, rest) refl
        | inl it ↦
            let foreign : has_key key e ≡ false =
              ground (arith, str_eq_iff e.key k, str_eq_iff e.key key, str_eq_iff k key) in
            rw (it, foreign, rest) refl
      ]

  pub set-pending :
      (key : String) (rows : List SideEffect)
      → is_pending_status status ≡ true
      → waits_in key rows ≡ true
      → waits_in key (set_side_effect_status key status remote_id last_error rows) ≡ true
  unfolding set_side_effect_status
  set-pending key [] waits h = h
  set-pending key (e ∷ rows) waits h = elim (Bool-cases (has_key key e)) [
    | inl it ↦
        let still : has_key key (patched status remote_id last_error e) ≡ true = it in
        rw (it, still, waits) refl
    | inr other ↦
        let rest = set-pending key rows waits (rw other at h) in rw (other, other, rest) refl
  ]

pub set-confirmed :
    (key : String) (remote_id last_error : Option String) (rows : List SideEffect)
    → waits_in key (set_side_effect_status key confirmed remote_id last_error rows) ≡ false
unfolding set_side_effect_status
set-confirmed key remote_id last_error [] = refl
set-confirmed key remote_id last_error (e ∷ rows) = elim (Bool-cases (has_key key e)) [
  | inl it ↦ rw (it, &&-false (has_key key e)) (set-confirmed key remote_id last_error rows)
  | inr other ↦
      let rest = set-confirmed key remote_id last_error rows in rw (other, other, rest) refl
]

pub append-waits :
    (key : String) (rows more : List SideEffect)
    → waits_in key rows ≡ true
    → waits_in key (rows ++ more) ≡ true
append-waits key [] more h = cc
append-waits key (e ∷ rows) more h = elim (Bool-cases (has_key key e && is_pending e)) [
  | inl here ↦ rw here refl
  | inr later ↦ rw later (append-waits key rows more (rw later at h))
]

pub append_last :
    (key : String) (i : Intent) (now : ℕ) (rows : List SideEffect)
    → waits_in key (rows ++ intended_row key i now ∷ []) ≡ true
append_last key i now [] = rw (str_eq_refl key) refl
append_last key i now (e ∷ rows) = elim (Bool-cases (has_key key e && is_pending e)) [
  | inl here ↦ rw here refl
  | inr later ↦ rw later (append_last key i now rows)
]

pub pending-found :
    (key : String) (rows : List SideEffect)
    → waits_in key rows ≡ true
    → (e : SideEffect) × (get_side_effect key rows ≡ some e)
pending-found key [] h = absurd (cc h)
pending-found key (e ∷ rows) h = elim (Bool-cases (has_key key e)) [
  | inl it ↦ (e, (rw it refl))
  | inr other ↦ let rest = pending-found key rows (rw other at h) in (rest.0, (rw other rest.1))
]
