-- ===== src/Workflows/Keeps/Writes.antt =====
-- Every method of the workflow service that writes lets the session evolve: its status writes stay
-- behind the transition check and have their audit record.
use graduation_project.Prelude.{
  ℕ, ◌+◌, String, ◌≡◌, refl, ◌∙◌, true, Option, none, some, List, [], ◌∷◌, ◌++◌, ap, arith, inl,
  inr, Option-cases, map, nat_eq,
}
use mathlib.Core.Option
use graduation_project.Json.{Dict, text, empty, entry}
use graduation_project.Lifecycle.{WorkflowStatus, status_value, can_transition, validate_transition}
use graduation_project.Schema.{Uuid, WorkflowStateCreate, WorkflowState, Workflow, AuditLog}
use graduation_project.Store.{
  Platform, Session, Error, ok, check, modify, ◌>>=◌, ◌>>◌, find_workflow, set_workflow,
}
use graduation_project.Store.Actions.{
  create_log, update_status, update_state_payload, save, flush_row, create_row, add_workflow,
  draw_uuid, read_clock, stamped,
}
use graduation_project.Store.Rows.{find-stamped}
use graduation_project.Lifecycle.Table.{validate_transition-none}
use graduation_project.Workflows.Audit.{
  put_present, append_audit_log, audit_workflow_created, audit_workflow_status_transitioned,
  audit_workflow_state_updated,
}
use graduation_project.Workflows.Service.{
  Actor, refusal, workflow_to_state, get_required_workflow, store_state, create_workflow,
  transition_workflow_status, update_workflow_state, mismatch, updated_state_fields,
}
use graduation_project.Workflows.Trail.{trail, moves}
use graduation_project.Workflows.Evolution.{Advances, Advances-still, Evolves, Evolves-trans}
use graduation_project.Workflows.Evolution.Steps.{
  Evolves-log, Evolves-move, Evolves-set, Evolves-flush, Evolves-add,
}
use graduation_project.Workflows.Keeps.{Evolving, Evolves-bind, Evolving-check, evolving_rules}
use graduation_project.Workflows.Keeps.Service.{
  to_state-session, get_required_workflow-session, required_self, save_flush-found,
  store_state-Evolves,
}

module _ (P : Platform) where
  -- The audit record of a status write.
  abbrev move_log : Workflow → WorkflowStatus → Actor → Option String → AuditLog
  move_log w t actor reason = record {
    action = "workflow.status_transitioned";
    workflow_id = some w.id;
    actor_type = actor.actor_type;
    actor_id = actor.actor_id;
    resource_type = some "workflow";
    resource_id = some w.id;
    payload = put_present "reason" reason (
        entry "workflow_id" (text (P.uuid_str w.id)) (
          entry "old_status" (text (status_value w.status))
            (entry "new_status" (text (status_value t)) empty)));
  }

  one_move :
      (w : Workflow) (t : WorkflowStatus) (actor : Actor) (reason : Option String)
      → trail w.id (move_log w t actor reason ∷ []) ≡ moves w.status (t ∷ [])
  one_move w t actor none = let same : nat_eq w.id w.id ≡ true = ground arith in rw same refl
  one_move w t actor (some r) = let same : nat_eq w.id w.id ≡ true = ground arith in rw same refl

  -- A status write along the table, with its record.
  moved :
      (w : Workflow) (t : WorkflowStatus) (actor : Actor) (reason : Option String)
      → can_transition w.status t ≡ true
      → Advances (move_log w t actor reason ∷ []) w (record w { status = t })
  moved w t actor reason h = record {
    route = t ∷ [];
    follows = (h, tt);
    arrives = refl;
    recorded = one_move w t actor reason;
    same_id = refl;
    same_type = refl;
    same_domain = refl;
    same_request = refl;
    same_creation = refl;
    same_creator = refl;
  }

  Evolving-get_required_workflow : (i : Uuid) → Evolving (get_required_workflow P i)
  unfolding get_required_workflow
  Evolving-get_required_workflow i = search evolving_rules

  -- Only the transition check stands between a request and a status write.
  validated :
      (a b : WorkflowStatus) (s : Session)
      → (check (refusal (validate_transition a b)) s).0 ≡ ok tt
      → can_transition a b ≡ true
  unfolding check
  validated a b s h = elim (Option-cases (validate_transition a b)) [
    | inl passes ↦ validate_transition-none a b passes
    | inr (e, blocked) ↦ cc (rw blocked at h)
  ]

  check-session : (o : Option Error) (s : Session) → (check o s).1 ≡ s
  unfolding check
  check-session none s = refl
  check-session (some e) s = refl

  -- The status write of a transition, its flush, its audit record, and the second write.
  transitioned-Evolves :
      (w : Workflow) (t : WorkflowStatus) (actor : Actor) (reason : Option String) (s : Session)
      → find_workflow w.id s.workflows ≡ some w
      → can_transition w.status t ≡ true
      → Evolves s
          ((do
            moved ← update_status w t
            stored ← flush_row P moved
            audit_workflow_status_transitioned P stored.id w.status t actor.actor_type
                actor.actor_id reason
            store_state P stored)
            s).1
  unfolding update_status save flush_row audit_workflow_status_transitioned append_audit_log
      create_log modify ◌>>=◌
  transitioned-Evolves w t actor reason s here allowed =
      let w' : Workflow = record w { status = t } in
      let logs : List AuditLog = move_log w t actor reason ∷ [] in
      Evolves-trans s
        (record s {
          workflows = map (stamped P s.flushes) (set_workflow w' s.workflows);
          flushes = s.flushes + 1;
          audit_logs = s.audit_logs ++ logs;
        })
        _
        (Evolves-trans s
          (record s { workflows = set_workflow w' s.workflows; audit_logs = s.audit_logs ++ logs })
          _
          (Evolves-move logs s w' w here (moved w t actor reason allowed) λ i other. rw other refl)
          (Evolves-flush P _))
        (store_state-Evolves P (stamped P s.flushes w') _ (save_flush-found P w' w s here))

  pub Evolving-transition_workflow_status :
      (i : Uuid) (to_status : WorkflowStatus) (actor : Actor) (reason : Option String)
      → Evolving (transition_workflow_status P i to_status actor reason)
  unfolding transition_workflow_status
  Evolving-transition_workflow_status i to_status actor reason = record {
    from = λ s.
        Evolves-bind (get_required_workflow P i) _ s ((Evolving-get_required_workflow i).from s)
          λ w found. rw (get_required_workflow-session P i s) (
            Evolves-bind (check (refusal (validate_transition w.status to_status))) _ s
              ((Evolving-check _).from s)
              λ u passed. rw (check-session _ s) (
                transitioned-Evolves w to_status actor reason s (required_self P i s w found)
                  (validated w.status to_status s passed)));
  }

  recorded-Evolves :
      (w : Workflow) (actor : Actor) (reason : Option String) (old : Dict) (new : Dict)
      (s : Session)
      → find_workflow w.id s.workflows ≡ some w
      → Evolves s
          ((do
            saved ← update_state_payload w new
            audit_workflow_state_updated P saved.id saved.status actor.actor_type actor.actor_id
                reason
                (updated_state_fields old new)
            stored ← flush_row P saved
            workflow_to_state P stored)
            s).1
  unfolding update_state_payload save audit_workflow_state_updated append_audit_log create_log
      modify flush_row ◌>>=◌
  recorded-Evolves w actor reason old new s here = rw (to_state-session P _ _) (
      Evolves-trans s
        (record s { workflows = set_workflow (record w { state_payload = new }) s.workflows }) _
        (Evolves-set s (record w { state_payload = new }) w here
          (Advances-still [] w _ refl refl refl refl refl refl refl refl))
        (Evolves-trans _
          (record s {
            workflows = set_workflow (record w { state_payload = new }) s.workflows;
            audit_logs = s.audit_logs ++ _ ∷ [];
          })
          _ (Evolves-log _ _ refl) (Evolves-flush P _)))

  pub Evolving-update_workflow_state :
      (i : Uuid) (state : WorkflowState) (actor : Actor) (reason : Option String)
      → Evolving (update_workflow_state P i state actor reason)
  unfolding update_workflow_state
  Evolving-update_workflow_state i state actor reason = record {
    from = λ s.
        Evolves-bind (get_required_workflow P i) _ s ((Evolving-get_required_workflow i).from s)
          λ w found. rw (get_required_workflow-session P i s) (
            Evolves-bind (check (mismatch P state w)) _ s ((Evolving-check _).from s) λ u passed.
              rw (check-session _ s) (
                recorded-Evolves w actor reason w.state_payload (P.dump_state state) s
                  (required_self P i s w found)));
  }

  found_new :
      (w : Workflow) (ws : List Workflow)
      → find_workflow w.id ws ≡ none
      → find_workflow w.id (ws ++ w ∷ []) ≡ some w
  found_new w [] h = ground arith
  found_new w (v ∷ ws) h = ground (arith, found_new w ws)

  pub found_created :
      (n : ℕ) (w : Workflow) (ws : List Workflow)
      → find_workflow w.id ws ≡ none
      → find_workflow w.id (map (stamped P n) (ws ++ w ∷ [])) ≡ some (stamped P n w)
  found_created n w ws fresh =
      find-stamped P n w.id (ws ++ w ∷ []) ∙ ap (Option.map (stamped P n)) (found_new w ws fresh)

  -- The key that the next draw gives is not taken: what `uuid4` is for.
  abbrev pub IsFresh : Session → Type 0
  IsFresh s = find_workflow (P.uuid4 s.drawn) s.workflows ≡ none

  -- Where the next key is not taken, the creation of a workflow, whatever it returns or raises,
  -- leaves every other workflow to move along the transition table alone, and events and audit
  -- rows are only added.
  pub create_workflow-Evolves :
      (state : WorkflowStateCreate) (creator : Option Uuid) (s : Session)
      → IsFresh s
      → Evolves s (create_workflow P state creator s).1
  unfolding create_workflow create_row draw_uuid read_clock add_workflow flush_row
      audit_workflow_created append_audit_log create_log modify ◌>>=◌
  create_workflow-Evolves state creator s fresh =
      Evolves-trans s _ _ (Evolves-add s _ (s.drawn + 1) (s.readings + 1)) (
        Evolves-trans _ _ _ (Evolves-flush P _) (
          Evolves-trans _
            (record s {
              workflows = map (stamped P s.flushes) (s.workflows ++ _ ∷ []);
              drawn = s.drawn + 1;
              readings = s.readings + 1;
              flushes = s.flushes + 1;
              audit_logs = s.audit_logs ++ _ ∷ [];
            })
            _ (Evolves-log _ _ refl)
            (store_state-Evolves P _ _ (found_created s.flushes _ s.workflows fresh))))
