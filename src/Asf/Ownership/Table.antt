-- ===== src/Asf/Ownership/Table.antt =====
-- The rows of the table `runs` that ownership reads and writes, by run id (src/state/store.ts).
use runmill.Base.{
  texts, ℕ, ◌≡◌, refl, Bool, false, List, [], ◌∷◌, Option, none, some, String, if◌then◌else◌,
  str_eq,
}
use runmill.Asf.Phase.{Phase}

-- The first event of a run.
pub record FirstEvent : Type 0 where
  pub is_work_order_admitted : Bool
  pub phase : Phase
  pub policy_digest : String
  pub at : ℕ

pub record Admission : Type 0 where
  pub effective_policy_digest : String

-- `checkpoint` is the fencing generation of the latest checkpoint.
pub record Run : Type 0 where
  pub run_id : String
  pub repo : String
  pub state : Phase
  pub state_version : ℕ
  pub candidate_sha : Option String
  pub generation : ℕ
  pub owner_id : Option String
  pub heartbeat_at : Option ℕ
  pub checkpoint : Option ℕ
  pub admission : Option Admission
  pub first_event : Option FirstEvent

unfoldable pub get : String → List Run → Option Run
get id [] = none
get id (r ∷ rs) = if str_eq r.run_id id then some r else get id rs

-- UPDATE ... WHERE run_id = ?
unfoldable pub put : Run → List Run → List Run
put r [] = []
put r (x ∷ xs) = (if str_eq x.run_id r.run_id then r else x) ∷ put r xs

-- The row that is there after an update.
pub get-put_self :
    (r : Run) (id : String) (rs : List Run) (old : Run)
    → get id rs ≡ some old
    → r.run_id ≡ id
    → get id (put r rs) ≡ some r
unfolding get put
get-put_self r id [] old h e = cc
get-put_self r id (x ∷ xs) old h e = grind (texts, get-put_self r id xs old)

pub get-put_ne :
    (r : Run) (id : String) (rs : List Run)
    → str_eq r.run_id id ≡ false
    → get id (put r rs) ≡ get id rs
unfolding get put
get-put_ne r id [] h = refl
get-put_ne r id (x ∷ xs) h = grind (texts, get-put_ne r id xs)

pub run_id-get : (id : String) (rs : List Run) (r : Run) → get id rs ≡ some r → r.run_id ≡ id
unfolding get
run_id-get id [] r h = cc
run_id-get id (x ∷ xs) r h = grind (texts, run_id-get id xs r)
