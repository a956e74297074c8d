-- ===== src/State/Outbox.antt =====
-- The outbox of external effects (src/state/store.ts): the rows of side_effects. The key of a row is the
-- digest of a text (32 hexadecimal digits of its SHA-256), a parameter here.
pub mod Waits
pub mod Blocks
use runmill.Base.{
  ℕ, Bool, true, false, not, ◌&&◌, List, [], ◌∷◌, ◌++◌, Option, none, some, String, str_eq, Outcome,
  returned, thrown, any, keep, find, if◌then◌else◌,
}
use Prim.Native.String.{◌++◌ as str_append}
use runmill.State.Runs.{Run, row, is_asf}

pub data SideEffectStatus : Type 0 where
  intended in_flight confirmed failed : SideEffectStatus

-- A row of side_effects.
pub record SideEffect : Type 0 where
  pub key : String
  pub run_id : String
  pub system : String
  pub operation : String
  pub target : String
  pub status : SideEffectStatus
  pub remote_id : Option String
  pub last_error : Option String
  pub intended_at : ℕ

-- The input of `intendSideEffect`.
pub record Intent : Type 0 where
  pub run_id : String
  pub system : String
  pub operation : String
  pub target : String

pub data Applied : Type 0 where
  applied not_applied : Applied

pub data Resolver : Type 0 where
  operator orchestrator : Resolver

pub data EffectError : Type 0 where
  missing_effect asf_run missing_run : EffectError
  already_resolved : SideEffectStatus → EffectError

abbrev pub has_key : String → SideEffect → Bool
has_key k e = str_eq e.key k

abbrev pub is_pending_status : SideEffectStatus → Bool
is_pending_status confirmed = false
is_pending_status _ = true

abbrev pub is_pending : SideEffect → Bool
is_pending e = is_pending_status e.status

-- `COALESCE(new, old)`
abbrev pub coalesce : Option String → Option String → Option String
coalesce none old = old
coalesce (some new) old = some new

-- The row that `INSERT` writes.
abbrev pub intended_row : String → Intent → ℕ → SideEffect
intended_row key i now = record {
  key = key;
  run_id = i.run_id;
  system = i.system;
  operation = i.operation;
  target = i.target;
  status = intended;
  remote_id = none;
  last_error = none;
  intended_at = now;
}

-- The text whose digest is the key of an effect.
abbrev pub key_text : Intent → String
key_text i = str_append i.run_id (str_append " " (str_append i.operation (str_append " " i.target)))

-- `sideEffectKey`
abbrev pub side_effect_key : (String → String) → Intent → String
side_effect_key digest i = digest (key_text i)

-- What `intendSideEffect` gives back, with the rows after it.
pub record Intended : Type 0 where
  pub key : String
  pub rows : List SideEffect

-- The `INSERT`: a key that is there already is left alone, and a row is of a run that is there.
abbrev pub insert_intent :
    String → List Run → Intent → ℕ → List SideEffect → Outcome EffectError Intended
insert_intent key runs i now rows =
    if any (has_key key) rows
    then returned (record { key = key; rows = rows })
    else elim (row i.run_id runs) [
      | none ↦ thrown missing_run
      | some r ↦ returned (record { key = key; rows = rows ++ intended_row key i now ∷ [] })
    ]

unfoldable pub intend_side_effect :
    (String → String) → List Run → Intent → ℕ → List SideEffect → Outcome EffectError Intended
intend_side_effect digest runs i now rows =
    if is_asf (row i.run_id runs)
    then thrown asf_run
    else insert_intent (side_effect_key digest i) runs i now rows

abbrev pub patched : SideEffectStatus → Option String → Option String → SideEffect → SideEffect
patched status remote_id last_error e = record e {
  status = status;
  remote_id = coalesce remote_id e.remote_id;
  last_error = coalesce last_error e.last_error;
}

-- `#setSideEffectStatus`
unfoldable pub set_side_effect_status :
    String → SideEffectStatus → Option String → Option String → List SideEffect → List SideEffect
set_side_effect_status key status remote_id last_error [] = []
set_side_effect_status key status remote_id last_error (e ∷ rows) =
    let rest = set_side_effect_status key status remote_id last_error rows in
    if has_key key e then patched status remote_id last_error e ∷ rest else e ∷ rest

abbrev pub mark_side_effect_in_flight : String → List SideEffect → List SideEffect
mark_side_effect_in_flight key rows = set_side_effect_status key in_flight none none rows

abbrev pub confirm_side_effect : String → Option String → List SideEffect → List SideEffect
confirm_side_effect key remote_id rows = set_side_effect_status key confirmed remote_id none rows

abbrev pub fail_side_effect : String → String → List SideEffect → List SideEffect
fail_side_effect key last_error rows = set_side_effect_status key failed none (some last_error) rows

abbrev pub get_side_effect : String → List SideEffect → Option SideEffect
get_side_effect key rows = find (has_key key) rows

-- `pendingSideEffects`, before they are put into the order of their instants.
abbrev pub pending_side_effects : List SideEffect → List SideEffect
pending_side_effects rows = keep is_pending rows

abbrev pub resolution : Resolver → Applied → String
resolution operator applied = "operator:applied"
resolution operator not_applied = "operator:not-applied"
resolution orchestrator applied = "orchestrator:applied"
resolution orchestrator not_applied = "orchestrator:not-applied"

abbrev pub resolution_note : Resolver → Applied → String
resolution_note operator applied = "operator resolved outcome as applied"
resolution_note operator not_applied = "operator resolved outcome as not-applied"
resolution_note orchestrator applied = "orchestrator resolved outcome as applied"
resolution_note orchestrator not_applied = "orchestrator resolved outcome as not-applied"

unfoldable pub resolve_side_effect :
    String → Applied → Resolver → List SideEffect → Outcome EffectError (List SideEffect)
resolve_side_effect key outcome resolver rows = elim (get_side_effect key rows) [
  | none ↦ thrown missing_effect
  | some existing ↦
      if not (any (has_key key) (pending_side_effects rows))
      then thrown (already_resolved existing.status)
      else returned (
          set_side_effect_status key confirmed (some (resolution resolver outcome))
            (some (resolution_note resolver outcome)) rows)
]

-- The calls on the outbox, an intent with the runs that are there; a call that throws changes nothing.
pub data Call : Type 0 where
  intends : List Run → Intent → ℕ → Call
  marks : String → Call
  confirms : String → Option String → Call
  fails : String → String → Call
  resolves : String → Applied → Resolver → Call

abbrev pub or_same : List SideEffect → Outcome EffectError (List SideEffect) → List SideEffect
or_same rows (returned after) = after
or_same rows (thrown e) = rows

abbrev pub or_unchanged : List SideEffect → Outcome EffectError Intended → List SideEffect
or_unchanged rows (returned x) = x.rows
or_unchanged rows (thrown e) = rows

abbrev pub after_call : (String → String) → Call → List SideEffect → List SideEffect
after_call digest (intends runs i now) rows =
    or_unchanged rows (intend_side_effect digest runs i now rows)
after_call digest (marks key) rows = mark_side_effect_in_flight key rows
after_call digest (confirms key remote_id) rows = confirm_side_effect key remote_id rows
after_call digest (fails key e) rows = fail_side_effect key e rows
after_call digest (resolves key outcome resolver) rows =
    or_same rows (resolve_side_effect key outcome resolver rows)

abbrev pub after_calls : (String → String) → List Call → List SideEffect → List SideEffect
after_calls digest [] rows = rows
after_calls digest (c ∷ cs) rows = after_calls digest cs (after_call digest c rows)
