-- ===== src/Orchestrator/Effects/Guarded.antt =====
-- An external call is never made without its pending row (src/orchestrator/orchestrator.ts).
use runmill.Base.{
  ℕ, ◌≡◌, refl, sym, ◌∙◌, Bool, true, false, List, [], ◌∷◌, none, some, String, returned, All, any,
}
use runmill.State.Runs.{Run}
use runmill.State.Outbox.{
  SideEffect, Intent, Intended, has_key, not_applied, orchestrator, in_flight, failed as has_failed,
  intend_side_effect, mark_side_effect_in_flight, confirm_side_effect, fail_side_effect,
}
use runmill.State.Outbox.Waits.{is_pending_key, is_pending_key-eq, set-pending, set-confirmed}
use runmill.State.Outbox.Blocks.{fresh-waits, resolve-settles}
use runmill.Orchestrator.Effects.{
  ActResult, ended, not_started, failed, Ending, lease_refused, call_not_started, call_failed, Turn,
  earlier, closed, settled, fenced, with_outbox,
}

abbrev pub IsPending : String → List SideEffect → Type 0
IsPending key rows = is_pending_key key rows ≡ true

-- Is it open after this ending whether the effect has landed?
abbrev pub is_ambiguous : Ending → Bool
is_ambiguous (call_failed message) = true
is_ambiguous _ = false

-- The states before the last one have the effect pending, and the last one has it as told.
abbrev pub EndsAs : String → Bool → List (List SideEffect) → Type 0
EndsAs key unclear [] = ⊥
EndsAs key unclear (rows ∷ []) = is_pending_key key rows ≡ unclear
EndsAs key unclear (rows ∷ next ∷ more) = IsPending key rows × EndsAs key unclear (next ∷ more)

-- A turn that is guarded by the row of its effect.
pub record IsGuarded (key : String) (t : Turn) : Type 0 where
  pub pending_at_start : All (IsPending key) t.started_with
  pub pending_until_end : EndsAs key (is_ambiguous t.ending) t.durable

ends_later :
    (key : String) (unclear : Bool) (rows : List SideEffect) (durable : List (List SideEffect))
    → IsPending key rows
    → EndsAs key unclear durable
    → EndsAs key unclear (rows ∷ durable)
ends_later key unclear rows [] waits h = absurd h
ends_later key unclear rows (next ∷ more) waits h = (waits, h)

earlier-IsGuarded :
    (key : String) (rows : List SideEffect) (t : Turn)
    → IsPending key rows
    → IsGuarded key t
    → IsGuarded key (earlier rows t)
earlier-IsGuarded key rows t waits g = record {
  pending_at_start = g.pending_at_start;
  pending_until_end =
      ends_later key (is_ambiguous t.ending) rows t.durable waits g.pending_until_end;
}

closed-IsGuarded :
    (key : String) (ending : Ending) (started : List (List SideEffect)) (rows : List SideEffect)
    → is_ambiguous ending ≡ false
    → All (IsPending key) started
    → IsPending key rows
    → IsGuarded key (closed key ending started rows)
closed-IsGuarded key ending started rows plain asked waits =
    let (after, done, over, others) = (resolve-settles key not_applied orchestrator rows).0 waits in
    rw (done, closed) record { pending_at_start = asked; pending_until_end = over ∙ sym plain }

marked-IsPending :
    (key : String) (rows : List SideEffect)
    → IsPending key rows
    → IsPending key (mark_side_effect_in_flight key rows)
marked-IsPending key rows waits =
    is_pending_key-eq key (mark_side_effect_in_flight key rows)
    ∙ set-pending in_flight none none key rows refl (sym (is_pending_key-eq key rows) ∙ waits)

settled-IsGuarded :
    (key : String) (rows : List SideEffect) (a : ActResult)
    → IsPending key rows
    → IsGuarded key (settled key rows a)
settled-IsGuarded key rows ended waits = record {
  pending_at_start = (waits, tt);
  pending_until_end =
      is_pending_key-eq key (confirm_side_effect key none rows) ∙ set-confirmed key none none rows;
}
settled-IsGuarded key rows not_started waits =
    closed-IsGuarded key call_not_started (rows ∷ []) rows refl (waits, tt) waits
settled-IsGuarded key rows (failed message) waits = record {
  pending_at_start = (waits, tt);
  pending_until_end =
      is_pending_key-eq key (fail_side_effect key message rows)
      ∙ set-pending has_failed none (some message) key rows refl
          (sym (is_pending_key-eq key rows) ∙ waits);
}

fenced-IsGuarded :
    (key : String) (lease_holds : Bool) (act : List SideEffect → ActResult) (rows : List SideEffect)
    → IsPending key rows
    → IsGuarded key (fenced key lease_holds act rows)
fenced-IsGuarded key false act rows waits = closed-IsGuarded key lease_refused [] rows refl tt waits
fenced-IsGuarded key true act rows waits =
    let rows' = mark_side_effect_in_flight key rows in
    let waits' = marked-IsPending key rows waits in
    earlier-IsGuarded key rows' (settled key rows' (act rows')) waits'
      (settled-IsGuarded key rows' (act rows') waits')

-- Never act first: when the intent of an effect is accepted under a new key, the external call starts only
-- with the effect pending in the store, and the effect is pending in every state of the store before the
-- last, so that a crash leaves it pending. In the last it is pending exactly when the call failed without
-- proof that it never started. The outcome of the fence and of the call are arbitrary.
pub with_outbox-IsGuarded :
    (digest : String → String) (runs : List Run) (i : Intent) (now : ℕ) (lease_holds : Bool)
    (act : List SideEffect → ActResult) (rows : List SideEffect) (x : Intended)
    → intend_side_effect digest runs i now rows ≡ returned x
    → any (has_key x.key) rows ≡ false
    → IsGuarded x.key (with_outbox digest runs i now lease_holds act rows)
unfolding with_outbox
with_outbox-IsGuarded digest runs i now lease_holds act rows x done fresh =
    let waits = is_pending_key-eq x.key x.rows ∙ fresh-waits digest runs i now rows x done fresh in
    rw (with_outbox, done)
      (earlier-IsGuarded x.key x.rows (fenced x.key lease_holds act x.rows) waits
        (fenced-IsGuarded x.key lease_holds act x.rows waits))
