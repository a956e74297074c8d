-- ===== src/Queue/Issue.antt =====
-- Backlog issues (src/domain/types.ts). The identifier and the description are the UTF-16 code units
-- that comparison and `length` read; dates are taken parsed, none for a missing one or for NaN.
use runmill.Base.{ℕ, Bool, List, Option, String}

pub record BacklogIssue : Type 0 where
  pub identifier : List ℕ
  pub title : String
  pub description : List ℕ
  pub priority : ℕ
  pub labels : List String
  pub state : String
  pub team_key : String
  pub project_name : Option String
  pub estimate : Option ℕ
  pub assignee_id : Option String
  pub assignee_is_human : Option Bool
  pub due_date : Option ℕ
  pub manual_rank : Option ℕ
  pub created_at : Option ℕ
  pub canceled : Bool
  pub completed : Bool
  pub blocked_by : List (List ℕ)

pub record RepositoryTarget : Type 0 where
  pub repo : String
  pub base_branch : String
