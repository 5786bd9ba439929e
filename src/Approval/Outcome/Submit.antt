-- ===== src/Approval/Outcome/Submit.antt =====
-- An accepted decision, from the stored workflow that waits for it to the history that is read
-- afterwards.
use graduation_project.Prelude.{
  ◌≡◌, ◌⊎◌, String, refl, sym, ap, ◌∙◌, true, false, ◌&&◌, Option, none, some, List, [], ◌∷◌, ◌++◌,
  inl, inr, arith, ◌+◌,
}
use mathlib.Core.Path.{subst, ap₂}
use graduation_project.Lifecycle.{
  WorkflowStatus, created, waiting_approval, same_status, can_transition,
}
use graduation_project.Schema.{WorkflowState, Workflow}
use graduation_project.Schema.Approval.{
  ApprovalDecisionType, approve, reject, request_changes, ApprovalDecisionRequest, ApprovalRecord,
  ApprovalDecisionResponse,
}
use graduation_project.Store.{
  Platform, Session, Action, ok, or_raise, check, pure, ◌>>=◌, find_workflow,
}
use graduation_project.Store.Actions.{draw_uuid, read_clock}
use graduation_project.Workflows.Service.{Actor, transition_workflow_status}
use graduation_project.Workflows.Events.{Publisher}
use graduation_project.Workflows.Contract.{
  ReadsBack, IsStored, with_columns, transitioned_row, transition_workflow_status-succeeds,
}
use graduation_project.Approval.Rules.{
  get_resume_allowed_after_decision, is_final_approval_decision, has_final_approval_decision,
  validate_approval_decision_allowed, get_next_status_for_decision, decision_allowed_iff,
}
use graduation_project.Approval.Roles.{can_submit_approval_decision}
use graduation_project.Approval.Payload.{approval_records_from_payload, decision_reason}
use graduation_project.Approval.Service.{
  User, actor_role_names, is_valid_record, decision_record, decide_status, record_decision,
  status_or, submit_approval_decision, get_approval_history,
}
use graduation_project.Approval.Contract.{recorded}
use graduation_project.Approval.Contract.History.{ReadsRecords, approval_records-build}
use graduation_project.Approval.Outcome.{
  IsDone, carried, history, next_status, made, get_workflow-stored, get_approval_history-stored,
}

next_cases :
    (decision : ApprovalDecisionType)
    → let next = status_or (get_next_status_for_decision decision) waiting_approval in
      (next ≡ waiting_approval) ⊎ (can_transition waiting_approval next ≡ true)
unfolding get_next_status_for_decision can_transition
next_cases approve = inr refl
next_cases reject = inr refl
next_cases request_changes = inl refl

transition_changes :
    (next : WorkflowStatus)
    → can_transition waiting_approval next ≡ true
    → same_status next waiting_approval ≡ false
unfolding can_transition
transition_changes created h = ground arith
transition_changes next h = ground arith

module _ (P : Platform) (publisher : Publisher) (law : ReadsBack P) (records_law : ReadsRecords P)
    (w : Workflow) (state : WorkflowState) (request : ApprovalDecisionRequest) (actor : User)
    (existing : List ApprovalRecord) where
  -- What is done once the status is written.
  abbrev finish : WorkflowState → WorkflowStatus → Action ApprovalDecisionResponse
  finish persisted next = do
    decision_id ← draw_uuid P
    decided_at ← read_clock P
    record_decision P publisher w.id (made P w request actor next decision_id decided_at) existing
        actor persisted waiting_approval next

  finished :
      (v : Workflow) (next : WorkflowStatus) (s : Session)
      → find_workflow w.id s.workflows ≡ some (record v { id = w.id })
      → v.status ≡ next
      → IsStored P (record v { id = w.id; state_payload = P.dump_state state }) state
      → approval_records_from_payload P state.approval ≡ some existing
      → is_valid_record (made P w request actor next (P.uuid4 s.drawn) (P.now s.readings)) ≡ true
      → let (res, t) = finish (with_columns P (record v { id = w.id }) state) next s in
        IsDone P w.id
          (made P w request actor next (P.uuid4 s.drawn) (P.now s.readings))
          existing
          actor
          waiting_approval
          next
          s.events
          res
          t
  unfolding draw_uuid read_clock ◌>>=◌
  finished v next s here arrived h reads valid =
      let r : ApprovalRecord = made P w request actor next (P.uuid4 s.drawn) (P.now s.readings) in
      let u : Session = record s { drawn = s.drawn + 1; readings = s.readings + 1 } in
      let can_resume = get_resume_allowed_after_decision next (existing ++ r ∷ []) in
      let row' : Workflow = record v { id = w.id } in
      let persisted : WorkflowState = with_columns P row' state in
      let t : Session =
        (record_decision P publisher w.id r existing actor persisted waiting_approval next u).1 in
      let (res, (row, found, status, stored), (event, told, grown)) =
        recorded P publisher law row' persisted r existing actor waiting_approval next u here refl
          refl h.typed h.bounded valid in
      record {
        answered = res;
        read_back =
            subst
              (λ st. get_approval_history P w.id t ≡ (ok (history w.id st (existing ++ r ∷ [])), t))
              (status ∙ arrived)
              (get_approval_history-stored P law w.id row _ (existing ++ r ∷ []) t found stored (
                approval_records-build P records_law state.approval existing r can_resume reads
                  valid));
        row = row;
        found = found;
        moved = status ∙ arrived;
        event = event;
        told = told;
        announced = grown;
      }

  abbrev user : Actor
  user = record { actor_type = some "user"; actor_id = some actor.id }

  -- The status write, if there is one, and then the rest.
  abbrev decide : WorkflowStatus → Option String → Action ApprovalDecisionResponse
  decide next reason =
      decide_status P w.id next (with_columns P w state) user reason >>= λ persisted.
      finish persisted next

  staying :
      (reason : Option String) (s : Session)
      → find_workflow w.id s.workflows ≡ some w
      → IsStored P w state
      → w.status ≡ waiting_approval
      → approval_records_from_payload P state.approval ≡ some existing
      → is_valid_record
          (made P w request actor waiting_approval (P.uuid4 s.drawn) (P.now s.readings))
        ≡ true
      → let (res, t) = decide waiting_approval reason s in
        IsDone P w.id
          (made P w request actor waiting_approval (P.uuid4 s.drawn) (P.now s.readings))
          existing
          actor
          waiting_approval
          waiting_approval
          s.events
          res
          t
  unfolding decide_status ◌>>=◌ pure
  staying reason s here h waiting reads valid = rw (ap (same_status waiting_approval) waiting) (
      finished w waiting_approval s here waiting
        (record { dumped = refl; typed = h.typed; bounded = h.bounded }) reads valid)

  moving :
      (next : WorkflowStatus) (reason : Option String) (s : Session)
      → can_transition waiting_approval next ≡ true
      → find_workflow w.id s.workflows ≡ some w
      → IsStored P w state
      → w.status ≡ waiting_approval
      → approval_records_from_payload P state.approval ≡ some existing
      → is_valid_record (made P w request actor next (P.uuid4 s.drawn) (P.now s.readings)) ≡ true
      → let (res, t) = decide next reason s in
        IsDone P w.id
          (made P w request actor next (P.uuid4 s.drawn) (P.now s.readings))
          existing
          actor
          waiting_approval
          next
          s.events
          res
          t
  unfolding decide_status ◌>>=◌ is_valid_record
  moving next reason s moves here h waiting reads valid =
      let e : same_status next w.status ≡ false =
        ap (same_status next) waiting ∙ transition_changes next moves in
      let t : Session = (transition_workflow_status P w.id next user reason s).1 in
      let (res, found, logs, events, drawn, readings) =
        transition_workflow_status-succeeds P law w state next user reason s here h
          (ap (λ st. can_transition st next) waiting ∙ moves) in
      rw (e, res)
        (carried P w.id _ _ existing actor waiting_approval next _ _ _ _
          (ap₂ (made P w request actor next) (ap P.uuid4 drawn) (ap P.now readings)) events
          (finished (transitioned_row P s w state next) next t found refl
            (record { dumped = refl; typed = h.typed; bounded = h.bounded }) reads valid))

  decided :
      (next : WorkflowStatus) (reason : Option String) (s : Session)
      → (next ≡ waiting_approval) ⊎ (can_transition waiting_approval next ≡ true)
      → find_workflow w.id s.workflows ≡ some w
      → IsStored P w state
      → w.status ≡ waiting_approval
      → approval_records_from_payload P state.approval ≡ some existing
      → is_valid_record (made P w request actor next (P.uuid4 s.drawn) (P.now s.readings)) ≡ true
      → let (res, t) = decide next reason s in
        IsDone P w.id
          (made P w request actor next (P.uuid4 s.drawn) (P.now s.readings))
          existing
          actor
          waiting_approval
          next
          s.events
          res
          t
  decided next reason s c here h waiting reads valid = elim c [
    | inl e ↦
        subst
          (λ n.
            is_valid_record (made P w request actor n (P.uuid4 s.drawn) (P.now s.readings)) ≡ true
            → IsDone P w.id (made P w request actor n (P.uuid4 s.drawn) (P.now s.readings)) existing
                actor waiting_approval n s.events (decide n reason s).0 (decide n reason s).1)
          (sym e) (staying reason s here h waiting reads) valid
    | inr moves ↦ moving next reason s moves here h waiting reads valid
  ]

  -- What follows the checks, for a workflow in the given status.
  abbrev accepted : WorkflowStatus → Action ApprovalDecisionResponse
  accepted st =
      let next = status_or (get_next_status_for_decision request.decision) st in
      decide_status P w.id next (with_columns P w state) user
        (some (decision_reason request.decision))
      >>= λ persisted. do
        decision_id ← draw_uuid P
        decided_at ← read_clock P
        record_decision P publisher w.id
            (decision_record P w.id request actor (actor_role_names actor) st next decision_id
              decided_at)
            existing actor persisted st next

  passes :
      w.status ≡ waiting_approval
      → is_final_approval_decision request.decision && has_final_approval_decision existing ≡ false
      → validate_approval_decision_allowed w.status request.decision existing ≡ none
  passes waiting single =
      (decision_allowed_iff w.status request.decision existing).1 (waiting, ground arith)

  -- Where dumps read back, a permitted decision on a stored workflow that waits for approval and
  -- has a readable history, which is not a second final decision and whose record satisfies its
  -- schema, is carried out: it is answered with the record, the row gets the next status, one
  -- event tells of it, and the history that is read afterwards is the earlier one with this
  -- record at its end.
  pub submit_approval_decision-succeeds :
      (s : Session)
      → find_workflow w.id s.workflows ≡ some w
      → IsStored P w state
      → w.status ≡ waiting_approval
      → approval_records_from_payload P state.approval ≡ some existing
      → can_submit_approval_decision (actor_role_names actor) request.decision ≡ true
      → is_final_approval_decision request.decision && has_final_approval_decision existing ≡ false
      → is_valid_record
          (made P w request actor (next_status request) (P.uuid4 s.drawn) (P.now s.readings))
        ≡ true
      → let (res, t) = submit_approval_decision P publisher w.id request actor s in
        IsDone P w.id
          (made P w request actor (next_status request) (P.uuid4 s.drawn) (P.now s.readings))
          existing
          actor
          waiting_approval
          (next_status request)
          s.events
          res
          t
  unfolding submit_approval_decision or_raise check ◌>>=◌
  submit_approval_decision-succeeds s here h waiting reads role single valid =
      rw
        (
          get_workflow-stored P law w.id w state s here h,
          reads,
          role,
          single,
          passes waiting single,
        )
        (subst
          (λ st.
            IsDone P w.id
              (made P w request actor (next_status request) (P.uuid4 s.drawn) (P.now s.readings))
              existing actor waiting_approval (next_status request) s.events (accepted st s).0
              (accepted st s).1)
          (sym waiting)
          (decided (next_status request) (some (decision_reason request.decision)) s
            (next_cases request.decision) here h waiting reads valid))
