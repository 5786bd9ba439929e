-- ===== src/Runtime/Reported.antt =====
-- What the reports of backend/app/runtime/service.py leave, where the workflow is known.
use graduation_project.Prelude.{◌≡◌, refl, String, Option, some}
use graduation_project.Json.{Dict}
use graduation_project.Lifecycle.{WorkflowStatus}
use graduation_project.Stage.{RuntimeStage}
use graduation_project.Schema.{Workflow, EventStatus}
use graduation_project.Store.{Platform, Session, ok, find_workflow, pure, ◌>>=◌}
use graduation_project.Workflows.Service.{Actor}
use graduation_project.Workflows.Events.{Publisher, append_event}
use graduation_project.Workflows.Delivery.{append_event_lem}
use graduation_project.Runtime.Report.{
  runtime_event, node_event, append_runtime_event, append_node_event,
}

module _ (P : Platform) (publisher : Publisher) (w : Workflow) (actor : Actor) where
  pub append_runtime_event_lem :
      (t : String) (st : EventStatus) (m : String) (d : Dict) (s : Session)
      → find_workflow w.id s.workflows ≡ some w
      → append_runtime_event P publisher w.id actor t st m d s
        ≡ (ok tt, (append_event P publisher (runtime_event P publisher w.id actor t st m d) s).1)
  unfolding append_runtime_event pure ◌>>=◌
  append_runtime_event_lem t st m d s here =
      rw (append_event_lem P (runtime_event P publisher w.id actor t st m d) s publisher w here).0
        refl

  pub append_node_event_lem :
      (stage : RuntimeStage) (t : String) (e : EventStatus) (st : WorkflowStatus) (m : String)
      (o : Option Dict) (d : Dict) (s : Session)
      → find_workflow w.id s.workflows ≡ some w
      → append_node_event P publisher w.id actor stage t e st m o d s ≡ (
        ok tt,
        (append_event P publisher (node_event P publisher w.id actor stage t e st m o d) s).1,
      )
  unfolding append_node_event pure ◌>>=◌
  append_node_event_lem stage t e st m o d s here =
      rw
        (append_event_lem P (node_event P publisher w.id actor stage t e st m o d) s publisher w
          here).0
        refl
