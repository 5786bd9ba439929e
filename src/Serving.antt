-- ===== src/Serving.antt =====
-- The services of backend/app together: a sequence of calls to the workflow, event, approval and
-- runtime services on one session, whatever each returns or raises.
mod Examples
use graduation_project.Prelude.{
  ◌≡◌, refl, sym, ap, ◌∙◌, String, Bool, true, false, ◌||◌, Option, none, some, List, [], ◌∷◌, ◌++◌,
  any, arith, Bool-cases, inl, inr,
}
use mathlib.Core.Path.{subst}
use graduation_project.Lifecycle
use graduation_project.Lifecycle.{WorkflowStatus, created}
use graduation_project.Lifecycle.Paths.{Follows, last_status}
use graduation_project.Lifecycle.Gate.{is_past_approval, visits, approval_gate}
use graduation_project.Schema.{
  Uuid, Workflow, WorkflowState, WorkflowStateCreate, WorkflowEventCreate, AuditLog,
}
use graduation_project.Schema.Approval.{ApprovalDecisionRequest, WorkflowResumeRequest}
use graduation_project.Store.{Platform, Session, find_workflow}
use graduation_project.Workflows.Service.{
  Actor, create_workflow, transition_workflow_status, update_workflow_state,
}
use graduation_project.Workflows.Events.{Publisher, append_event}
use graduation_project.Store.Rows.{find_id}
use graduation_project.Workflows.Trail.{trail, moves}
use graduation_project.Workflows.Evolution.{Evolves, Evolves-refl, Evolves-trans}
use graduation_project.Workflows.Keeps.{Evolving-append_event}
use graduation_project.Workflows.Keeps.Writes.{
  Evolving-transition_workflow_status, Evolving-update_workflow_state, IsFresh,
  create_workflow-Evolves,
}
use graduation_project.Approval.Service.{User, submit_approval_decision}
use graduation_project.Approval.Keeps.{submit_approval_decision-Evolves}
use graduation_project.Runtime.Graph.{Engine}
use graduation_project.Runtime.Stages.{RuntimeService}
use graduation_project.Runtime.Service.{run_workflow}
use graduation_project.Runtime.Resume.{resume_workflow_after_approval}
use graduation_project.Runtime.Keeps.Runs.{
  run_workflow-Evolves, resume_workflow_after_approval-Evolves,
}

-- A call of a service method that writes.
pub data Call : Type 0 where
  create : WorkflowStateCreate → Option Uuid → Call
  transition : Uuid → WorkflowStatus → Actor → Option String → Call
  update : Uuid → WorkflowState → Actor → Option String → Call
  append : WorkflowEventCreate → Call
  decide : Uuid → ApprovalDecisionRequest → User → Call
  run : RuntimeService → Uuid → Actor → Call
  resume : RuntimeService → Uuid → Option WorkflowResumeRequest → Actor → Call

module _ (P : Platform) (publisher : Publisher) (E : Engine) where
  -- The session after a call.
  unfoldable pub perform : Call → Session → Session
  perform (create state creator) s = (create_workflow P state creator s).1
  perform (transition i st actor reason) s = (transition_workflow_status P i st actor reason s).1
  perform (update i state actor reason) s = (update_workflow_state P i state actor reason s).1
  perform (append event) s = (append_event P publisher event s).1
  perform (decide i request user) s = (submit_approval_decision P publisher i request user s).1
  perform (run R i actor) s = (run_workflow E P publisher i actor R s).1
  perform (resume R i request actor) s =
      (resume_workflow_after_approval E P publisher R i request actor s).1

  unfoldable pub serve : List Call → Session → Session
  serve [] s = s
  serve (c ∷ cs) s = serve cs (perform c s)

  -- The keys that the creations of workflows draw are not taken: what `uuid4` is for.
  unfoldable pub IsFreshFor : Call → Session → Type 0
  IsFreshFor (create state creator) s = IsFresh P s
  IsFreshFor c s = Unit

  unfoldable pub AllFresh : List Call → Session → Type 0
  AllFresh [] s = Unit
  AllFresh (c ∷ cs) s = IsFreshFor c s × AllFresh cs (perform c s)

  perform-Evolves : (c : Call) (s : Session) → IsFreshFor c s → Evolves s (perform c s)
  unfolding perform IsFreshFor
  perform-Evolves (create state creator) s fresh = create_workflow-Evolves P state creator s fresh
  perform-Evolves (transition i st actor reason) s fresh =
      (Evolving-transition_workflow_status P i st actor reason).from s
  perform-Evolves (update i state actor reason) s fresh =
      (Evolving-update_workflow_state P i state actor reason).from s
  perform-Evolves (append event) s fresh = (Evolving-append_event P publisher event).from s
  perform-Evolves (decide i request user) s fresh =
      submit_approval_decision-Evolves P publisher i request user s
  perform-Evolves (run R i actor) s fresh = run_workflow-Evolves P publisher i actor E R s
  perform-Evolves (resume R i request actor) s fresh =
      resume_workflow_after_approval-Evolves E P publisher R i request actor s

  -- Where the keys of new workflows are not taken, whatever calls are made in whatever order, and
  -- whatever each returns or raises, events and audit records are only added, every workflow that
  -- was there keeps its identity, and the audit records of status writes that were added for it
  -- are, in order and with old and new status, the moves along one route of allowed transitions
  -- from its status before to its status after.
  pub serve-Evolves : (cs : List Call) (s : Session) → AllFresh cs s → Evolves s (serve cs s)
  unfolding serve AllFresh
  serve-Evolves [] s fresh = Evolves-refl s
  serve-Evolves (c ∷ cs) s fresh =
      Evolves-trans s (perform c s) (serve cs (perform c s)) (perform-Evolves c s fresh.0)
        (serve-Evolves cs (perform c s) fresh.1)

-- A status with a property that the first one does not have has been entered.
last_entered :
    (p : WorkflowStatus → Bool) (s : WorkflowStatus) (ts : List WorkflowStatus)
    → p s ≡ false
    → p (last_status s ts) ≡ true
    → any p ts ≡ true
last_entered p s [] start end = cc (start, end)
last_entered p s (t ∷ ts) start end = elim (Bool-cases (p t)) [
  | inl now ↦ ground (arith, now)
  | inr later ↦ ground (arith, last_entered p t ts later end)
]

abbrev or_first : Workflow → Option Workflow → Workflow
or_first v none = v
or_first v (some w) = w

some-injective : {v w : Workflow} → some v ≡ some w → v ≡ w
some-injective {v} h = ap (or_first v) h

module _ (P : Platform) (publisher : Publisher) (E : Engine) where
  -- Where the keys of new workflows are not taken, whatever calls are made in whatever order, a
  -- workflow that was in CREATED before them and is in GENERATING_EMAIL or COMPLETED after them has
  -- been written to along a route of allowed transitions over WAITING_APPROVAL and APPROVED: the
  -- audit records that were added for it tell of exactly the moves along this route.
  pub serve-gate :
      (cs : List Call) (i : Uuid) (v w : Workflow) (s : Session)
      → AllFresh P publisher E cs s
      → find_workflow i s.workflows ≡ some v
      → v.status ≡ created
      → find_workflow i (serve P publisher E cs s).workflows ≡ some w
      → is_past_approval w.status ≡ true
      → (route : List WorkflowStatus) × (logs : List AuditLog) × ((serve P publisher E cs
            s).audit_logs
          ≡ s.audit_logs ++ logs)
        × (trail i logs ≡ moves created route)
        × Follows created route
        × (last_status created route ≡ w.status)
        × (visits Lifecycle.waiting_approval route ≡ true)
        × (visits Lifecycle.approved route ≡ true)
  serve-gate cs i v w s fresh here new there past =
      let evolved = serve-Evolves P publisher E cs s fresh in
      let (x, found, adv) = evolved.rows i v here in
      let follows : Follows created adv.route =
        subst (λ st. Follows st adv.route) new adv.follows in
      let same : x ≡ w = some-injective (sym found ∙ there) in
      let arrives : last_status created adv.route ≡ w.status =
        ap (λ st. last_status st adv.route) (sym new) ∙ adv.arrives ∙ ap (λ y. y.status) same in
      let told : trail i evolved.new_logs ≡ moves created adv.route =
        ap (λ j. trail j evolved.new_logs) (sym (find_id i v s.workflows here))
        ∙ adv.recorded
        ∙ ap (λ st. moves st adv.route) new in
      let (waited, was_approved) = approval_gate adv.route follows (
        last_entered is_past_approval created adv.route refl
          (ap is_past_approval arrives ∙ past)) in
      (adv.route, evolved.new_logs, evolved.logs_grow, told, follows, arrives, waited, was_approved)
