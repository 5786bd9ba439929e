-- ===== src/Runtime/Steps.antt =====
-- The writes that the runtime makes, each as a run that succeeds on a stored workflow
-- (backend/app/runtime/service.py over the workflow and event services).
use graduation_project.Prelude.{◌≡◌, refl, sym, ap, ◌∙◌, String, true, Option, some, [], ◌∷◌}
use mathlib.Core.Path.{subst}
use mathlib.Core.List.{append-nil, map-append}
use graduation_project.Json.{Dict}
use graduation_project.Lifecycle.{WorkflowStatus, can_transition}
use graduation_project.Stage.{RuntimeStage}
use graduation_project.Schema.{Uuid, Workflow, WorkflowState, EventStatus, within_bounds}
use graduation_project.Store.{Platform, Session, find_workflow}
use graduation_project.Workflows.Service.{Actor, transition_workflow_status, update_workflow_state}
use graduation_project.Workflows.Events.{Publisher}
use graduation_project.Workflows.Contract.{
  ReadsBack, IsStored, with_columns, transition_workflow_status-succeeds,
}
use graduation_project.Workflows.Contract.Writes.{update_workflow_state-succeeds}
use graduation_project.Workflows.Delivery.{append_event_lem, append_event-row}
use graduation_project.Runtime.Report.{
  append_runtime_event, append_node_event, runtime_event, node_event,
}
use graduation_project.Runtime.Reported.{append_runtime_event_lem, append_node_event_lem}
use graduation_project.Runtime.Ready.{types, Ready, Step}

module _ (P : Platform) (law : ReadsBack P) (publisher : Publisher) (actor : Actor) where
  module _ (s : Session) (st : WorkflowStatus) where
    own_runtime_event :
        (w : Workflow) (state : WorkflowState) (t : String) (e : EventStatus) (m : String)
        (d : Dict)
        → find_workflow w.id s.workflows ≡ some w
        → w.status ≡ st
        → IsStored P w state
        → Step P w.id
            (append_runtime_event P publisher w.id actor t e m d)
            s
            st
            (t ∷ [])
            (λ u. Unit)
    own_runtime_event w state t e m d here same stored = record {
      value = tt;
      after = _;
      runs = append_runtime_event_lem P publisher w actor t e m d s here;
      good = tt;
      ready = record {
        row = _;
        state = state;
        same_id = refl;
        here = append_event-row P (runtime_event P publisher w.id actor t e m d) s publisher w here;
        in_status = same;
        stored = record { dumped = stored.dumped; typed = stored.typed; bounded = stored.bounded };
      };
      grown =
          ap types
            (append_event_lem P (runtime_event P publisher w.id actor t e m d) s publisher w here).1
          ∙ map-append _ s.events _;
    }

    own_node_event :
        (w : Workflow) (state : WorkflowState) (stage : RuntimeStage) (t : String) (e : EventStatus)
        (x : WorkflowStatus) (m : String) (o : Option Dict) (d : Dict)
        → find_workflow w.id s.workflows ≡ some w
        → w.status ≡ st
        → IsStored P w state
        → Step P w.id
            (append_node_event P publisher w.id actor stage t e x m o d)
            s
            st
            (t ∷ [])
            (λ u. Unit)
    own_node_event w state stage t e x m o d here same stored = record {
      value = tt;
      after = _;
      runs = append_node_event_lem P publisher w actor stage t e x m o d s here;
      good = tt;
      ready = record {
        row = _;
        state = state;
        same_id = refl;
        here =
            append_event-row P (node_event P publisher w.id actor stage t e x m o d) s publisher w
              here;
        in_status = same;
        stored = record { dumped = stored.dumped; typed = stored.typed; bounded = stored.bounded };
      };
      grown =
          ap types
            (append_event_lem P (node_event P publisher w.id actor stage t e x m o d) s publisher w
              here).1
          ∙ map-append _ s.events _;
    }

    own_transition :
        (w : Workflow) (state : WorkflowState) (next : WorkflowStatus) (reason : Option String)
        → find_workflow w.id s.workflows ≡ some w
        → w.status ≡ st
        → can_transition st next ≡ true
        → IsStored P w state
        → Step P w.id
            (transition_workflow_status P w.id next actor reason)
            s
            next
            []
            (λ v. v.status ≡ next)
    own_transition w state next reason here same allowed stored =
        let (returns, found, logged, quiet, drawn, read) =
          transition_workflow_status-succeeds P law w state next actor reason s here stored
            (ap (λ x. can_transition x next) same ∙ allowed) in
        record {
          value = _;
          after = (transition_workflow_status P w.id next actor reason s).1;
          runs = ap (λ r. (r, (transition_workflow_status P w.id next actor reason s).1)) returns;
          good = refl;
          ready = record {
            row = _;
            state = _;
            same_id = refl;
            here = found;
            in_status = refl;
            stored = record { dumped = refl; typed = stored.typed; bounded = stored.bounded };
          };
          grown = ap types quiet ∙ sym (append-nil (types s.events));
        }

    own_update :
        (w : Workflow) (state u : WorkflowState) (reason : Option String)
        → find_workflow w.id s.workflows ≡ some w
        → w.status ≡ st
        → IsStored P w state
        → u.workflow_id ≡ P.uuid_str w.id
        → u.status ≡ st
        → within_bounds (with_columns P w u) ≡ true
        → Step P w.id (update_workflow_state P w.id u actor reason) s st [] (λ v. Unit)
    own_update w state u reason here same stored named matches bounded =
        let (returns, found, quiet) =
          update_workflow_state-succeeds P law w u actor reason s here named (matches ∙ sym same)
            (record { dumped = refl; typed = stored.typed; bounded = bounded }) in
        record {
          value = _;
          after = (update_workflow_state P w.id u actor reason s).1;
          runs = ap (λ r. (r, (update_workflow_state P w.id u actor reason s).1)) returns;
          good = tt;
          ready = record {
            row = _;
            state = u;
            same_id = refl;
            here = found;
            in_status = same;
            stored = record { dumped = refl; typed = stored.typed; bounded = bounded };
          };
          grown = ap types quiet ∙ sym (append-nil (types s.events));
        }

  module _ (i : Uuid) (s : Session) (st : WorkflowStatus) (h : Ready P i st s) where
    pub Step-runtime_event :
        (t : String) (e : EventStatus) (m : String) (d : Dict)
        → Step P i (append_runtime_event P publisher i actor t e m d) s st (t ∷ []) (λ u. Unit)
    Step-runtime_event t e m d =
        subst
          (λ j.
            find_workflow j s.workflows ≡ some h.row
            → Step P j (append_runtime_event P publisher j actor t e m d) s st (t ∷ []) (λ u. Unit))
          h.same_id (λ here. own_runtime_event s st h.row h.state t e m d here h.in_status h.stored)
          h.here

    pub Step-node_event :
        (stage : RuntimeStage) (t : String) (e : EventStatus) (x : WorkflowStatus) (m : String)
        (o : Option Dict) (d : Dict)
        → Step P i
            (append_node_event P publisher i actor stage t e x m o d)
            s
            st
            (t ∷ [])
            (λ u. Unit)
    Step-node_event stage t e x m o d =
        subst
          (λ j.
            find_workflow j s.workflows ≡ some h.row
            → Step P j (append_node_event P publisher j actor stage t e x m o d) s st (t ∷ [])
                (λ u. Unit))
          h.same_id
          (λ here. own_node_event s st h.row h.state stage t e x m o d here h.in_status h.stored)
          h.here

    pub Step-transition :
        (next : WorkflowStatus) (reason : Option String)
        → can_transition st next ≡ true
        → Step P i
            (transition_workflow_status P i next actor reason)
            s
            next
            []
            (λ v. v.status ≡ next)
    Step-transition next reason allowed =
        subst
          (λ j.
            find_workflow j s.workflows ≡ some h.row
            → Step P j (transition_workflow_status P j next actor reason) s next []
                (λ v. v.status ≡ next))
          h.same_id
          (λ here. own_transition s st h.row h.state next reason here h.in_status allowed h.stored)
          h.here

    pub Step-update :
        (u : WorkflowState) (reason : Option String)
        → u.workflow_id ≡ P.uuid_str i
        → u.status ≡ st
        → within_bounds (with_columns P h.row u) ≡ true
        → Step P i (update_workflow_state P i u actor reason) s st [] (λ v. Unit)
    Step-update u reason named matches bounded =
        subst
          (λ j.
            find_workflow j s.workflows ≡ some h.row
            → u.workflow_id ≡ P.uuid_str j
            → Step P j (update_workflow_state P j u actor reason) s st [] (λ v. Unit))
          h.same_id
          (λ here own.
            own_update s st h.row h.state u reason here h.in_status h.stored own matches bounded)
          h.here named
