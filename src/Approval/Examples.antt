-- ===== src/Approval/Examples.antt =====
-- The approval theorems at a waiting workflow, a manager and a clerk.
use graduation_project.Prelude.{
  ◌≡◌, ◌⊎◌, ◌↔◌, ◌≤◌, ◌&&◌, refl, inl, true, false, none, some, [], ◌∷◌, any,
}
use graduation_project.Json.{Dict, text, number, object, empty, entry, get}
use graduation_project.Lifecycle.{waiting_approval, approved, rejected, can_transition}
use graduation_project.Schema.Approval.{
  approve, reject, request_changes, same_decision, ApprovalDecisionRequest, ApprovalRecord,
}
use graduation_project.Schema.{Workflow}
use graduation_project.Store.{Error, err, permission_denied}
use graduation_project.Workflows.Contract.{IsStored}
use graduation_project.Workflows.Sample.{
  sample, sample-ReadsBack, sample-ReadsRecords, waiting_row, waiting_state, waiting_session,
  waiting_row-IsStored,
}
use graduation_project.Approval.Roles.{
  admin, manager, require_any_role, require_roles, can_submit_approval_decision,
  can_resume_workflow, can_read_approval_history, workflow_full_access_roles, workflow_read_roles,
  approval_access_agrees,
}
use graduation_project.Approval.Rules.{
  is_final_approval_decision, has_final_approval_decision, validate_approval_decision_allowed,
  get_next_status_for_decision, validate_resume_allowed, get_allowed_approval_decisions,
  decision_allowed_iff, decision_next_allowed, offered_iff_allowed,
}
use graduation_project.Approval.Metadata.{
  validate_json_object, scalars_dict, scalars-validate_json_object,
}
use graduation_project.Approval.Sanitize.{
  is_sensitive_key, is_clean, is_clean_dict, sanitize_json_mapping, safe_resume_metadata,
  sanitize_json_mapping_lem, resume_metadata_leaks,
}
use graduation_project.Approval.Payload.{approval_records_from_payload}
use graduation_project.Approval.Service.{
  User, actor_role_names, is_valid_record, submit_approval_decision,
}
use graduation_project.Approval.Outcome.{IsDone, made}
use graduation_project.Approval.Outcome.Submit.{submit_approval_decision-succeeds}
use graduation_project.Approval.Outcome.Resume.{submit_approval_decision-resumes}
use graduation_project.Approval.Access.{is_leader}
use graduation_project.Schema.Approval.{ApprovalDecisionResponse, ApprovalHistoryResponse}
use graduation_project.Store.{find_workflow}
use graduation_project.Approval.Service.{get_approval_history}
use graduation_project.Store.{ok}
use graduation_project.Approval.Refusal.{
  submit_approval_decision-forbidden, submit_approval_decision-refused,
}

abbrev boss : User
boss = record { id = 3; email = some "boss@example.com"; role_names = "Manager" ∷ [] }

abbrev clerk : User
clerk = record { id = 4; email = none; role_names = "Sales" ∷ [] }

abbrev approval_request : ApprovalDecisionRequest
approval_request = record {
  decision = approve;
  comment = none;
  request_id = some "r-1";
  metadata = entry "note" (text "fine") empty;
}

no_history : approval_records_from_payload sample waiting_state.approval ≡ some []
unfolding approval_records_from_payload
no_history = refl

boss_may : can_submit_approval_decision (actor_role_names boss) approve ≡ true
unfolding can_submit_approval_decision actor_role_names
boss_may = refl

clerk_is_no_leader : any is_leader clerk.role_names ≡ false
clerk_is_no_leader = refl

single : is_final_approval_decision approve && has_final_approval_decision [] ≡ false
unfolding is_final_approval_decision has_final_approval_decision
single = refl

abbrev boss_record : ApprovalRecord
boss_record = made sample waiting_row approval_request boss approved 100 5

boss_record_valid : is_valid_record boss_record ≡ true
unfolding is_valid_record actor_role_names sanitize_json_mapping is_sensitive_key
boss_record_valid = refl

submit_approval_decision-succeeds_example :
    let (res, t) = submit_approval_decision sample none 7 approval_request boss waiting_session in
    IsDone sample 7 boss_record [] boss waiting_approval approved [] res t
unfolding get_next_status_for_decision
submit_approval_decision-succeeds_example =
    submit_approval_decision-succeeds sample none sample-ReadsBack sample-ReadsRecords waiting_row
      waiting_state approval_request boss [] waiting_session refl waiting_row-IsStored refl
      no_history boss_may single boss_record_valid

submit_approval_decision-resumes_example :
    let (res, t) = submit_approval_decision sample none 7 approval_request boss waiting_session in
    (answer : ApprovalDecisionResponse) × (row : Workflow) × (stored : ApprovalHistoryResponse)
    × (res ≡ ok answer)
    × (find_workflow 7 t.workflows ≡ some row)
    × (get_approval_history sample 7 t ≡ (ok stored, t))
    × ((answer.can_resume ≡ true) ↔ (approve ≡ approve))
    × ((validate_resume_allowed row.status stored.approvals ≡ none) ↔ (approve ≡ approve))
unfolding get_next_status_for_decision
submit_approval_decision-resumes_example =
    submit_approval_decision-resumes sample none sample-ReadsBack sample-ReadsRecords waiting_row
      waiting_state approval_request boss [] waiting_session refl waiting_row-IsStored refl
      no_history boss_may single boss_record_valid

submit_approval_decision-forbidden_example :
    submit_approval_decision sample none 7 approval_request clerk waiting_session
    ≡ (err permission_denied, waiting_session)
submit_approval_decision-forbidden_example =
    submit_approval_decision-forbidden sample none sample-ReadsBack waiting_row waiting_state
      approval_request clerk [] waiting_session refl waiting_row-IsStored no_history
      clerk_is_no_leader

abbrev moved_on : Workflow
moved_on = record waiting_row { status = approved }

moved_on-IsStored : IsStored sample moved_on waiting_state
moved_on-IsStored = record { dumped = refl; typed = refl; bounded = waiting_row-IsStored.bounded }

submit_approval_decision-refused_example :
    (e : Error) × (submit_approval_decision sample none 7 approval_request boss
        (record waiting_session { workflows = moved_on ∷ [] })
      ≡ (err e, record waiting_session { workflows = moved_on ∷ [] }))
submit_approval_decision-refused_example =
    submit_approval_decision-refused sample none sample-ReadsBack moved_on waiting_state
      approval_request boss [] (record waiting_session { workflows = moved_on ∷ [] }) refl
      moved_on-IsStored no_history (inl λ e. cc e)

decision_allowed_iff_example :
    (validate_approval_decision_allowed waiting_approval reject (boss_record ∷ []) ≡ none) ↔ (
      (waiting_approval ≡ waiting_approval)
      × ((is_final_approval_decision reject ≡ false)
          ⊎ (has_final_approval_decision (boss_record ∷ []) ≡ false)))
decision_allowed_iff_example = decision_allowed_iff waiting_approval reject (boss_record ∷ [])

reject_passes : validate_approval_decision_allowed waiting_approval reject [] ≡ none
unfolding validate_approval_decision_allowed has_final_approval_decision is_final_approval_decision
reject_passes = refl

reject_next : get_next_status_for_decision reject ≡ some rejected
unfolding get_next_status_for_decision
reject_next = refl

decision_next_allowed_example : can_transition waiting_approval rejected ≡ true
decision_next_allowed_example =
    decision_next_allowed waiting_approval rejected reject [] reject_passes reject_next

offered_iff_allowed_example :
    (any
        (same_decision request_changes)
        (get_allowed_approval_decisions waiting_approval (boss_record ∷ []))
      ≡ true)
    ↔ ((validate_approval_decision_allowed waiting_approval request_changes (boss_record ∷ [])
          ≡ none)
        × (has_final_approval_decision (boss_record ∷ []) ≡ false))
offered_iff_allowed_example =
    offered_iff_allowed waiting_approval request_changes (boss_record ∷ [])

abbrev secrets : Dict
secrets = entry "api_key" (text "k") (entry "note" (number 1) empty)

secrets_pass : validate_json_object secrets ≡ none
unfolding validate_json_object
secrets_pass = refl

scalars-validate_json_object_example : scalars_dict secrets ≤ 160000
scalars-validate_json_object_example = scalars-validate_json_object secrets secrets_pass

sanitize_json_mapping_lem_example :
    (is_clean_dict sample.lower (sanitize_json_mapping sample.lower secrets) ≡ true)
    × ((is_clean_dict sample.lower secrets ≡ true)
        ↔ (sanitize_json_mapping sample.lower secrets ≡ secrets))
sanitize_json_mapping_lem_example = sanitize_json_mapping_lem sample.lower secrets

plain_key : is_sensitive_key sample.lower "details" ≡ false
unfolding is_sensitive_key
plain_key = refl

secrets_dirty : is_clean_dict sample.lower secrets ≡ false
unfolding is_clean is_sensitive_key
secrets_dirty = refl

resume_metadata_leaks_example :
    (get "details" (safe_resume_metadata sample.lower (entry "details" (object secrets) empty))
      ≡ some (object secrets))
    × (is_clean_dict sample.lower
          (safe_resume_metadata sample.lower (entry "details" (object secrets) empty))
        ≡ false)
    × (get "details" (sanitize_json_mapping sample.lower (entry "details" (object secrets) empty))
        ≡ some (object (sanitize_json_mapping sample.lower secrets)))
resume_metadata_leaks_example =
    resume_metadata_leaks sample.lower "details" secrets empty plain_key secrets_dirty

approval_access_agrees_example :
    (can_submit_approval_decision ("Sales" ∷ []) approve
      ≡ require_roles workflow_full_access_roles ("Sales" ∷ []))
    × (can_resume_workflow ("Sales" ∷ []) ≡ require_roles workflow_full_access_roles ("Sales" ∷ []))
    × (can_read_approval_history ("Sales" ∷ []) ≡ require_roles workflow_read_roles ("Sales" ∷ []))
approval_access_agrees_example = approval_access_agrees ("Sales" ∷ []) approve

boss_passes : require_any_role (admin ∷ manager ∷ []) ("Manager" ∷ []) ≡ true
unfolding require_any_role
boss_passes = refl
