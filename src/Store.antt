-- ===== src/Store.antt =====
-- The database session that a request works in, and the repositories over it
-- (backend/app/repositories: crud.py, workflows.py, workflow_events.py, audit_logs.py).
-- What the backend takes from SQLAlchemy, pydantic, uuid and datetime is a `Platform`.
pub mod Actions
pub mod Rows
pub mod Query
use graduation_project.Prelude.{
  ℕ, suc, String, Bool, true, Option, none, some, List, [], ◌∷◌, ◌++◌, map, nat_eq, if◌then◌else◌,
}
use graduation_project.Json.{Json, Dict}
use graduation_project.Lifecycle.{WorkflowStatus, InvalidTransition}
use graduation_project.Stage.{RuntimeStage}
use graduation_project.Schema.{
  Uuid, Time, WorkflowState, WorkflowEventCreate, WorkflowEvent, Workflow, AuditLog,
}
use graduation_project.Schema.Approval.{ApprovalRecord}
use graduation_project.Llm.Contracts.{LlmProviderError}

-- `uuid4` and `now` are the n-th draw and the n-th reading of the clock. `stamp` is the
-- `updated_at` that the n-th flush leaves in a row. The two pairs of functions are `model_dump`
-- and `model_validate` of pydantic, which answers `none` where it raises.
pub record Platform : Type 0 where
  pub uuid_str : Uuid → String
  pub uuid4 : ℕ → Uuid
  pub now : ℕ → Time
  pub stamp : ℕ → Uuid → Time → Time
  pub isoformat : Time → String
  pub lower : String → String
  pub dump_state : WorkflowState → Dict
  pub validate_state : Dict → Option WorkflowState
  pub dump_record : ApprovalRecord → Json
  pub validate_record : Json → Option ApprovalRecord

-- The rows that the session sees, the numbers of draws, readings and flushes so far, and the
-- stream messages handed to the publisher.
pub record Session : Type 0 where
  pub workflows : List Workflow
  pub events : List WorkflowEvent
  pub audit_logs : List AuditLog
  pub drawn : ℕ
  pub readings : ℕ
  pub flushes : ℕ
  pub published : List WorkflowEvent

-- The exceptions that the services raise. `raised` and `raised_from` are others, by the name of
-- their type, the second with the provider error that the exception is or that caused it.
pub data Error : Type 0 where
  workflow_not_found event_not_found : Uuid → Error
  state_mismatch validation_failed : Error
  invalid_transition : InvalidTransition → Error
  permission_denied duplicate_final_decision : Error
  terminal_state invalid_state resume_not_allowed : WorkflowStatus → Error
  precondition_failed : Error
  unknown_stage : Error
  node_failed : RuntimeStage → Error → Error
  llm_error : LlmProviderError → Error
  raised_from : String → LlmProviderError → Error
  raised : String → Error

pub data Result (A : Type 0) : Type 0 where
  ok : A → Result A
  err : Error → Result A

-- The next step of code that keeps no session.
abbrev pub and_then : {A B : Type 0} → Result A → (A → Result B) → Result B
and_then (ok a) f = f a
and_then (err e) f = err e

-- A call: the session comes back after a raise too, since what was written stays written until the
-- transaction is rolled back.
abbrev pub Action : Type 0 → Type 0
Action A = Session → Result A × Session

module _ {A : Type 0} where
  unfoldable pub pure : A → Action A
  pure a s = (ok a, s)

  unfoldable pub raise : Error → Action A
  raise e s = (err e, s)

  unfoldable pub gets : (Session → A) → Action A
  gets f s = (ok (f s), s)

  unfoldable pub or_raise : Error → Option A → Action A
  or_raise e none s = (err e, s)
  or_raise e (some a) s = (ok a, s)

unfoldable pub modify : (Session → Session) → Action Unit
modify f s = (ok tt, f s)

-- `if problem: raise problem`
unfoldable pub check : Option Error → Action Unit
check none s = (ok tt, s)
check (some e) s = (err e, s)

-- `try: … except Exception as exc`: what the call raised is handed on as a value.
unfoldable pub attempt : {A : Type 0} → Action A → Action (Result A)
attempt m s = let (r, s') = m s in (ok r, s')

-- Code that keeps no session, as an action.
unfoldable pub lift : {A : Type 0} → Result A → Action A
lift r s = (r, s)

module _ {A B : Type 0} where
  abbrev pub continue : Result A → (A → Action B) → Action B
  continue (ok a) f s = f a s
  continue (err e) f s = (err e, s)

  infixl 5 ◌>>=◌ ◌>>◌
  unfoldable pub ◌>>=◌ : Action A → (A → Action B) → Action B
  ◌>>=◌ m f s = let (r, s') = m s in continue r f s'

  abbrev pub ◌>>◌ : Action A → Action B → Action B
  m >> k = m >>= λ _. k

-- `session.get(Workflow, id)`: soft-deleted rows are not filtered out.
abbrev pub find_workflow : Uuid → List Workflow → Option Workflow
find_workflow i [] = none
find_workflow i (w ∷ ws) = if nat_eq w.id i then some w else find_workflow i ws

abbrev pub set_workflow : Workflow → List Workflow → List Workflow
set_workflow w [] = []
set_workflow w (v ∷ ws) = if nat_eq v.id w.id then w ∷ ws else v ∷ set_workflow w ws

abbrev pub find_event : Uuid → List WorkflowEvent → Option WorkflowEvent
find_event i [] = none
find_event i (e ∷ es) = if nat_eq e.event_id i then some e else find_event i es
