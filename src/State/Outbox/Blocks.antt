-- ===== src/State/Outbox/Blocks.antt =====
-- An effect whose outcome is not settled stays in the outbox (src/state/store.ts).
use runmill.Base.{
  ℕ, ◌≡◌, refl, sym, ◌∙◌, Bool, true, false, List, [], ◌∷◌, Option, none, some, String, str_eq,
  str_eq_iff, returned, thrown, returned-inj, any, Bool-cases, Option-cases, inl, inr,
}
use runmill.State.Runs.{Run, row, is_asf}
use runmill.State.Outbox.{
  Intended, or_unchanged, side_effect_key, SideEffectStatus, confirmed, in_flight, failed,
  SideEffect, Intent, Applied, Resolver, EffectError, missing_effect, already_resolved, has_key,
  is_pending_status, intended_row, intend_side_effect, set_side_effect_status, get_side_effect,
  pending_side_effects, resolution, resolution_note, resolve_side_effect, Call, intends, marks,
  confirms, fails, resolves, or_same, after_call, after_calls,
}
use runmill.State.Outbox.Waits.{
  is_pending_key, waits_in, is_pending_key-eq, set-other, set-pending, set-confirmed, append-waits,
  append_last, pending-found,
}

intend-pending :
    (digest : String → String) (runs : List Run) (key : String) (i : Intent) (now : ℕ)
    (rows : List SideEffect)
    → waits_in key rows ≡ true
    → waits_in key (or_unchanged rows (intend_side_effect digest runs i now rows)) ≡ true
unfolding intend_side_effect
intend-pending digest runs key i now rows h = elim (Bool-cases (is_asf (row i.run_id runs))) [
  | inl asf ↦ rw (intend_side_effect, asf, or_unchanged) h
  | inr ours ↦ elim (Bool-cases (any (has_key (side_effect_key digest i)) rows)) [
    | inl there ↦ rw (intend_side_effect, ours, there, or_unchanged) h
    | inr new ↦ elim (Option-cases (row i.run_id runs)) [
      | inl missing ↦ rw (intend_side_effect, ours, new, missing, or_unchanged) h
      | inr (r, found) ↦
          rw (intend_side_effect, ours, new, found, or_unchanged)
            (append-waits key rows (intended_row (side_effect_key digest i) i now ∷ []) h)
    ]
  ]
]

-- Does the call settle the outcome of the effect of this key?
abbrev pub settles : String → Call → Bool
settles key (confirms k remote_id) = str_eq k key
settles key (resolves k outcome resolver) = str_eq k key
settles key _ = false

-- A change of status to a pending one, of any key.
set-waits :
    (status : SideEffectStatus) (remote_id last_error : Option String) (k key : String)
    (rows : List SideEffect)
    → is_pending_status status ≡ true
    → waits_in key rows ≡ true
    → waits_in key (set_side_effect_status k status remote_id last_error rows) ≡ true
set-waits status remote_id last_error k key rows pending h = elim (Bool-cases (str_eq k key)) [
  | inr other ↦ set-other status remote_id last_error k key rows other ∙ h
  | inl same ↦
      let e : k ≡ key = (str_eq_iff k key).0 same in
      rw e (set-pending status remote_id last_error key rows pending h)
]

resolve-other :
    (k key : String) (outcome : Applied) (resolver : Resolver) (rows : List SideEffect)
    → str_eq k key ≡ false
    → waits_in key (or_same rows (resolve_side_effect k outcome resolver rows)) ≡ waits_in key rows
unfolding resolve_side_effect
resolve-other k key outcome resolver rows other = elim (Option-cases (get_side_effect k rows)) [
  | inl missing ↦ rw (missing, resolve_side_effect, or_same) refl
  | inr (e, found) ↦ elim (Bool-cases (any (has_key k) (pending_side_effects rows))) [
    | inr done ↦ rw (found, done, resolve_side_effect, or_same) refl
    | inl waits ↦
        rw (found, waits, resolve_side_effect, or_same) (set-other confirmed _ _ k key rows other)
  ]
]

call-waits :
    (digest : String → String) (key : String) (c : Call) (rows : List SideEffect)
    → settles key c ≡ false
    → waits_in key rows ≡ true
    → waits_in key (after_call digest c rows) ≡ true
call-waits digest key (intends runs i now) rows other h =
    intend-pending digest runs key i now rows h
call-waits digest key (marks k) rows other h = set-waits in_flight none none k key rows refl h
call-waits digest key (confirms k remote_id) rows other h =
    set-other confirmed remote_id none k key rows other ∙ h
call-waits digest key (fails k e) rows other h = set-waits failed none (some e) k key rows refl h
call-waits digest key (resolves k outcome resolver) rows other h =
    resolve-other k key outcome resolver rows other ∙ h

calls-wait :
    (digest : String → String) (key : String) (cs : List Call) (rows : List SideEffect)
    → any (settles key) cs ≡ false
    → waits_in key rows ≡ true
    → waits_in key (after_calls digest cs rows) ≡ true
calls-wait digest key [] rows unsettled h = h
calls-wait digest key (c ∷ cs) rows unsettled h = elim (Bool-cases (settles key c)) [
  | inl settled ↦ absurd (cc (rw settled at unsettled))
  | inr other ↦
      calls-wait digest key cs (after_call digest c rows) (rw other at unsettled)
        (call-waits digest key c rows other h)
]

pub fresh-waits :
    (digest : String → String) (runs : List Run) (i : Intent) (now : ℕ) (rows : List SideEffect)
    (x : Intended)
    → intend_side_effect digest runs i now rows ≡ returned x
    → any (has_key x.key) rows ≡ false
    → waits_in x.key x.rows ≡ true
unfolding intend_side_effect
fresh-waits digest runs i now rows x done fresh = elim (Bool-cases (is_asf (row i.run_id runs))) [
  | inl asf ↦ absurd (cc (rw (intend_side_effect, asf) at done))
  | inr ours ↦ elim (Bool-cases (any (has_key (side_effect_key digest i)) rows)) [
    | inl there ↦
        let same = returned-inj (rw (intend_side_effect, ours, there) at done) in
        absurd (cc (rw (← same, there) at fresh))
    | inr new ↦ elim (Option-cases (row i.run_id runs)) [
      | inl missing ↦ absurd (cc (rw (intend_side_effect, ours, new, missing) at done))
      | inr (r, found) ↦
          let same = returned-inj (rw (intend_side_effect, ours, new, found) at done) in
          rw (← same) (append_last (side_effect_key digest i) i now rows)
    ]
  ]
]

-- From its intent on an effect blocks new runs: when the intent is accepted under a key that is not there
-- yet, the effect stays among the pending ones after every sequence of calls, whether intents, marks,
-- failures or calls about other effects, until one of them confirms or resolves it.
pub intend-blocks :
    (digest : String → String) (runs : List Run) (i : Intent) (now : ℕ) (rows : List SideEffect)
    (x : Intended) (cs : List Call)
    → intend_side_effect digest runs i now rows ≡ returned x
    → any (has_key x.key) rows ≡ false
    → any (settles x.key) cs ≡ false
    → is_pending_key x.key (after_calls digest cs x.rows) ≡ true
intend-blocks digest runs i now rows x cs done fresh unsettled =
    is_pending_key-eq x.key (after_calls digest cs x.rows)
    ∙ calls-wait digest x.key cs x.rows unsettled (fresh-waits digest runs i now rows x done fresh)

-- A resolution is accepted exactly while its effect is pending; then the effect is pending no longer, a
-- second resolution is refused, and the effects of other keys wait as before.
pub resolve-settles :
    (key : String) (outcome : Applied) (resolver : Resolver) (rows : List SideEffect)
    → ((is_pending_key key rows ≡ true)
        → (after : List SideEffect) × (resolve_side_effect key outcome resolver rows
            ≡ returned after)
          × (is_pending_key key after ≡ false)
          × ((k : String) → str_eq key k ≡ false → is_pending_key k after ≡ is_pending_key k rows))
      × ((is_pending_key key rows ≡ false)
          → (e : EffectError) × (resolve_side_effect key outcome resolver rows ≡ thrown e))
unfolding resolve_side_effect
resolve-settles key outcome resolver rows = (
  (λ waits.
      let found = pending-found key rows (sym (is_pending_key-eq key rows) ∙ waits) in
      let answer = some (resolution resolver outcome) in
      let note = some (resolution_note resolver outcome) in
      let after = set_side_effect_status key confirmed answer note rows in
      (
        after,
        (rw (found.1, waits, resolve_side_effect) refl),
        (is_pending_key-eq key after ∙ set-confirmed key answer note rows),
        (λ k other.
            is_pending_key-eq k after
            ∙ set-other confirmed answer note key k rows other
            ∙ sym (is_pending_key-eq k rows)),
      )),
  (λ done. elim (Option-cases (get_side_effect key rows)) [
    | inl missing ↦ (missing_effect, (rw (missing, resolve_side_effect) refl))
    | inr (e, found) ↦ (already_resolved e.status, (rw (found, done, resolve_side_effect) refl))
  ]),
)
