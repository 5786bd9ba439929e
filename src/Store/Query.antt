-- ===== src/Store/Query.antt =====
-- The queries of the repositories: rows by creation time and key, a page at a time.
use graduation_project.Prelude.{
  ℕ, Bool, true, false, not, ◌&&◌, ◌||◌, String, Option, none, some, List, [], ◌∷◌, take, drop, ltb,
  leb, nat_eq, ◌==◌, if◌then◌else◌,
}
use graduation_project.Lifecycle.{WorkflowStatus, same_status}
use graduation_project.Schema.{Uuid, Time, Workflow, WorkflowEvent}

-- `order_by(created_at, id)` on the two columns of a row.
abbrev pub comes_before : Time → Uuid → Time → Uuid → Bool
comes_before t i u j = ltb t u || (nat_eq t u && leb i j)

module _ {A : Type 0} where
  abbrev pub insert_row : (A → A → Bool) → A → List A → List A
  insert_row before x [] = x ∷ []
  insert_row before x (y ∷ ys) =
      let rest = insert_row before x ys in if before x y then x ∷ y ∷ ys else y ∷ rest

  unfoldable pub order_by : (A → A → Bool) → List A → List A
  order_by before [] = []
  order_by before (x ∷ xs) = insert_row before x (order_by before xs)

  -- `limit(limit).offset(offset)`
  abbrev pub page : ℕ → ℕ → List A → List A
  page limit offset rows = take limit (drop offset rows)

abbrev pub event_before : WorkflowEvent → WorkflowEvent → Bool
event_before e f = comes_before e.created_at e.event_id f.created_at f.event_id

abbrev pub workflow_before : Workflow → Workflow → Bool
workflow_before v w = comes_before v.created_at v.id w.created_at w.id

abbrev pub events_of : Uuid → List WorkflowEvent → List WorkflowEvent
events_of i [] = []
events_of i (e ∷ es) = if nat_eq e.content.workflow_id i then e ∷ events_of i es else events_of i es

-- `WorkflowEventRepository.list_by_workflow_id`
unfoldable pub list_by_workflow_id : Uuid → ℕ → ℕ → List WorkflowEvent → List WorkflowEvent
list_by_workflow_id i limit offset events =
    page limit offset (order_by event_before (events_of i events))

abbrev status_matches : Option WorkflowStatus → Workflow → Bool
status_matches none w = true
status_matches (some st) w = same_status w.status st

abbrev domain_is : String → Option String → Bool
domain_is d none = false
domain_is d (some e) = e == d

abbrev domain_matches : Option String → Workflow → Bool
domain_matches none w = true
domain_matches (some d) w = domain_is d w.domain

abbrev is_deleted : Option Time → Bool
is_deleted none = false
is_deleted (some t) = true

abbrev pub is_listed : Option WorkflowStatus → Option String → Workflow → Bool
is_listed status domain w =
    not (is_deleted w.deleted_at) && status_matches status w && domain_matches domain w

abbrev pub listed : (Workflow → Bool) → List Workflow → List Workflow
listed p [] = []
listed p (w ∷ ws) = if p w then w ∷ listed p ws else listed p ws

-- `WorkflowRepository.list_workflows`
unfoldable pub query_workflows :
    Option WorkflowStatus → Option String → ℕ → ℕ → List Workflow → List Workflow
query_workflows status domain limit offset rows =
    page limit offset (order_by workflow_before (listed (is_listed status domain) rows))
