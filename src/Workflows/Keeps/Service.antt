-- ===== src/Workflows/Keeps/Service.antt =====
-- The writes of the workflow service to a row in hand let the session evolve.
use graduation_project.Prelude.{◌≡◌, refl, sym, ◌∙◌, Option, none, some, [], ap, arith}
use mathlib.Core.Option
use mathlib.Core.Path.{subst}
use graduation_project.Schema.{Uuid, Workflow}
use graduation_project.Store.{
  Platform, Session, ok, Action, or_raise, gets, ◌>>=◌, find_workflow, set_workflow,
}
use graduation_project.Store.Actions.{get_by_id, update_state_payload, save, flush_row, stamped}
use graduation_project.Store.Rows.{find-set_self, find-stamped, find_id}
use graduation_project.Workflows.Service.{
  workflow_to_state, get_required_workflow, store_state, get_workflow, shown,
}
use graduation_project.Workflows.Evolution.{Advances, Advances-still, Evolves, Evolves-trans}
use graduation_project.Workflows.Evolution.Steps.{Evolves-set, Evolves-flush}
use graduation_project.Workflows.Keeps.{Evolving, Evolves-bind, evolving_rules}

module _ (P : Platform) where
  pub to_state-session : (w : Workflow) (s : Session) → (workflow_to_state P w s).1 ≡ s
  unfolding workflow_to_state or_raise
  to_state-session w s = ground arith

  pub Evolving-workflow_to_state : (w : Workflow) → Evolving (workflow_to_state P w)
  unfolding workflow_to_state
  Evolving-workflow_to_state w = search evolving_rules

  Evolving-shown : (o : Option Workflow) → Evolving (shown P o)
  Evolving-shown none = search evolving_rules
  Evolving-shown (some w) = search (evolving_rules, Evolving-workflow_to_state)

  pub Evolving-get_workflow : (i : Uuid) → Evolving (get_workflow P i)
  unfolding get_workflow
  Evolving-get_workflow i = search (evolving_rules, Evolving-shown)

  -- What a row that was looked up tells of the session.
  pub get_required_workflow-session : (i : Uuid) (s : Session) → (get_required_workflow P i s).1 ≡ s
  unfolding get_required_workflow get_by_id gets or_raise ◌>>=◌
  get_required_workflow-session i s = ground arith

  pub get_required_workflow-found :
      (i : Uuid) (s : Session) (w : Workflow)
      → (get_required_workflow P i s).0 ≡ ok w
      → find_workflow i s.workflows ≡ some w
  unfolding get_required_workflow get_by_id gets or_raise ◌>>=◌
  get_required_workflow-found i s w h = ground arith

  pub required_self :
      (i : Uuid) (s : Session) (w : Workflow)
      → (get_required_workflow P i s).0 ≡ ok w
      → find_workflow w.id s.workflows ≡ some w
  required_self i s w h =
      let found : find_workflow i s.workflows ≡ some w = get_required_workflow-found i s w h in
      subst (λ j. find_workflow j s.workflows ≡ some w) (sym (find_id i w s.workflows found)) found

  -- A row in hand that is the session's own is written, and then flushed.
  pub save_flush-Evolves :
      (w v : Workflow) (s : Session)
      → find_workflow w.id s.workflows ≡ some v
      → Advances [] v w
      → Evolves s ((save w >>= flush_row P) s).1
  unfolding save flush_row ◌>>=◌
  save_flush-Evolves w v s here adv =
      Evolves-trans s _ _ (Evolves-set s w v here adv) (Evolves-flush P _)

  pub save_flush-found :
      (w v : Workflow) (s : Session)
      → find_workflow w.id s.workflows ≡ some v
      → find_workflow w.id ((save w >>= flush_row P) s).1.workflows ≡ some (stamped P s.flushes w)
  unfolding save flush_row ◌>>=◌
  save_flush-found w v s here =
      find-stamped P s.flushes w.id (set_workflow w s.workflows)
      ∙ ap (Option.map (stamped P s.flushes)) (find-set_self w v s.workflows here)

  -- The same with a continuation.
  pub written :
      {B : Type 0} (w v : Workflow) (s : Session) (k : Workflow → Action B)
      → find_workflow w.id s.workflows ≡ some v
      → Advances [] v w
      → Evolves
          ((save w >>= flush_row P) s).1
          (k (stamped P s.flushes w) ((save w >>= flush_row P) s).1).1
      → Evolves s ((save w >>= λ saved. flush_row P saved >>= k) s).1
  unfolding save flush_row ◌>>=◌
  written w v s k here adv rest = Evolves-trans s _ _ (save_flush-Evolves w v s here adv) rest

  pub store_state-Evolves :
      (w : Workflow) (s : Session)
      → find_workflow w.id s.workflows ≡ some w
      → Evolves s (store_state P w s).1
  unfolding store_state update_state_payload
  store_state-Evolves w s here =
      Evolves-bind (workflow_to_state P w) _ s ((Evolving-workflow_to_state w).from s) λ state h.
        rw (to_state-session w s) (
          written (record w { state_payload = P.dump_state state }) w s (workflow_to_state P) here
            (Advances-still [] w _ refl refl refl refl refl refl refl refl)
            ((Evolving-workflow_to_state _).from _))
