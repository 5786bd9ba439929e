-- ===== src/Runtime/Run.antt =====
-- The whole of `RuntimeService.run_workflow` with the deterministic handlers
-- (backend/app/runtime/service.py).
use graduation_project.Prelude.{
  ℕ, ◌≡◌, refl, sym, ap, ◌∙◌, String, Bool, true, false, ◌&&◌, Option, none, some, List, [], ◌∷◌,
  arith, leb,
}
use Prim.Native.String
use mathlib.Core.Option
use graduation_project.Json.{Json, Dict, get, text}
use graduation_project.Lifecycle.{WorkflowStatus}
use graduation_project.Stage.{RuntimeStage, planner, stage_value}
use graduation_project.Schema.{
  Uuid, Workflow, WorkflowState, bounded_text, bounded_error, within_bounds,
}
use graduation_project.Store.{Platform, Session, Result, Action, ok, err, and_then, lift, ◌>>=◌}
use graduation_project.Workflows.Service.{Actor}
use graduation_project.Workflows.Events.{Publisher}
use graduation_project.Workflows.Contract.{ReadsBack, IsStored, with_columns}
use graduation_project.Runtime.{RuntimeWorkflowState, RuntimeWorkflowResult}
use graduation_project.Runtime.Adapter.{
  stage_or_none, stages_from_values, stage_outputs_from_workflow_state,
}
use graduation_project.Runtime.Convert.{
  workflow_state_to_runtime_state, runtime_state_to_workflow_state, written,
}
use graduation_project.Runtime.Nodes.{complete_stage}
use graduation_project.Runtime.Graph.{Engine, NodeHandlers}
use graduation_project.Runtime.Outputs.{without_sections, without-set_sections}
use graduation_project.Runtime.Stages.{Progress, parsed}
use graduation_project.Runtime.Service.{finish_run}
use graduation_project.Runtime.Ready.{Ready, Step, Step-pure, Step-bind}
use graduation_project.Runtime.Steps.{Step-runtime_event, Step-update}
use graduation_project.Runtime.Loop.{is_valid_runtime, ReadsRuntime, node, nodes}
use graduation_project.Runtime.Waits.{Reached}

-- The answer of a run that waits for approval.
abbrev pub waiting_result : RuntimeWorkflowState → RuntimeWorkflowResult
waiting_result r = record {
  state = r;
  completed = false;
  failed = false;
  message = some "Workflow is waiting for approval.";
}

bounded-stage : (o : Option RuntimeStage) → bounded_text 1 100 (Option.map stage_value o) ≡ true
bounded-stage none = refl
bounded-stage (some planner) = refl
bounded-stage (some s) = refl

id-node : (s : RuntimeStage) (r : RuntimeWorkflowState) → (node s r).workflow_id ≡ r.workflow_id
unfolding complete_stage
id-node s r = refl

pub id-nodes :
    (ss : List RuntimeStage) (r : RuntimeWorkflowState) → (nodes ss r).workflow_id ≡ r.workflow_id
id-nodes [] r = refl
id-nodes (s ∷ ss) r = id-nodes ss (node s r) ∙ id-node s r

abbrev pub from_ok : {A : Type 0} → A → Result A → A
from_ok a (ok b) = b
from_ok a (err e) = a

-- What holds of every result of a computation.
abbrev pub Holds : {A : Type 0} → (A → Type 0) → Result A → Type 0
Holds {A} Q m = (a : A) → m ≡ ok a → Q a

Holds-then :
    {A B : Type 0} (m : Result A) (f : A → Result B) (Q : B → Type 0)
    → ((a : A) → Holds Q (f a))
    → Holds Q (and_then m f)
Holds-then (ok a) f Q k b h = k a b h
Holds-then (err e) f Q k b h = cc h

pub bind-lift : {A B : Type 0} (a : A) (f : A → Action B) → (lift (ok a) >>= f) ≡ f a
unfolding lift ◌>>=◌
bind-lift a f = refl

pub converted-id :
    (lower : String → String) (w : WorkflowState)
    → Holds (λ r. r.workflow_id ≡ w.workflow_id) (workflow_state_to_runtime_state lower w)
unfolding workflow_state_to_runtime_state
converted-id lower w = Holds-then (stage_or_none lower (Option.map text w.current_step)) _ _ λ a.
    Holds-then (stages_from_values lower (get "completed_stages" w.runtime_context)) _ _ λ b.
      Holds-then (stage_or_none lower (get "failed_stage" w.runtime_context)) _ _ λ c.
        Holds-then (stage_outputs_from_workflow_state lower w) _ _
          λ d. λ r h. sym (ap (λ x. (from_ok r x).workflow_id) h)

-- The fields of a written state other than its sections.
unsectioned :
    (f : RuntimeWorkflowState) (c : WorkflowState)
    → without_sections (runtime_state_to_workflow_state f c) ≡ without_sections (written f c)
unfolding runtime_state_to_workflow_state
unsectioned f c = without-set_sections f.stage_outputs (written f c)

module _ (P : Platform) where
  bounds-written :
      (w : Workflow) (state : WorkflowState) (f : RuntimeWorkflowState) (c : WorkflowState)
      → IsStored P w state
      → is_valid_runtime f ≡ true
      → within_bounds (with_columns P w (runtime_state_to_workflow_state f c)) ≡ true
  bounds-written w state f c stored valid =
      rw
        (
          ap (λ v. v.current_step) (unsectioned f c),
          ap (λ v. v.error) (unsectioned f c),
          bounded-stage f.current_stage,
        )
        (within (bounded_text 1 100 w.domain) (leb 1 (String.count (P.uuid_str w.id)))
          (bounded_text 1 100 state.current_step) (bounded_error state.error)
          (leb 1 (String.count f.workflow_id)) (bounded_text 1 100 f.domain) (bounded_error f.error)
          _ stored.bounded valid)
    where
      within :
          (a b c d k l e m : Bool)
          → a && b && c && d ≡ true
          → k && (l && (e && m)) ≡ true
          → a && b && true && e ≡ true
      within a b c d k l e m h v = ground arith

module _ (P : Platform) (law : ReadsBack P) (publisher : Publisher) (actor : Actor) (i : Uuid)
    (E : Engine) (engine : ReadsRuntime E) where
  pub step_finish :
      (st : WorkflowStatus) (k : ℕ) (r : RuntimeWorkflowState) (p : Progress) (s : Session)
      (handlers : NodeHandlers) (all : List RuntimeStage) (graph : Dict → ℕ → Result Json)
      → r.workflow_id ≡ P.uuid_str i
      → Ready P i st s
      → Reached P law publisher actor i E engine handlers all graph st k r p
      → Step P i
          (finish_run E P publisher i actor p)
          s
          st
          ("workflow.runtime.waiting_for_approval" ∷ [])
          (λ v. v ≡ waiting_result (record r { status = st }))
  unfolding finish_run parsed
  step_finish st k r p s handlers all graph named ready at =
      let event : List String = "workflow.runtime.waiting_for_approval" ∷ [] in
      let final : RuntimeWorkflowState = record r { status = p.current.status } in
      let u : WorkflowState = runtime_state_to_workflow_state final p.current in
      rw (at.reads, bind-lift)
        (Step-bind P i s st st [] event _ _ _ _
          (Step-update P law publisher actor i s st ready u _
            (ap (λ v. v.workflow_id) (unsectioned final p.current) ∙ named)
            (ap (λ v. v.status) (unsectioned final p.current) ∙ at.status)
            (bounds-written P ready.row ready.state final p.current ready.stored at.valid))
          λ v ev t1 ready1.
            Step-bind P i t1 st st event [] _ _ _ _
              (Step-runtime_event P law publisher actor i t1 st ready1 _ _ _ _)
              λ x ex t2 ready2.
                Step-pure P i t2 st _ _
                  (ap (λ y. waiting_result (record r { status = y })) at.status) ready2)
