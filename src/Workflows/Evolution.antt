-- ===== src/Workflows/Evolution.antt =====
-- How a session may change: every workflow keeps its identity and moves only along the transition
-- table, each move with an audit record of it, and the event and audit rows are only added to.
pub mod Steps
use graduation_project.Prelude.{
  ℕ, ◌+◌, ◌≡◌, ◌≢◌, refl, sym, ap, ◌∙◌, ◌⊎◌, inl, inr, Bool, true, false, Option, none, some, List,
  [], ◌∷◌, ◌++◌, map, arith, nat_eq, Bool-cases, Option-cases,
}
use mathlib.Core.List.{append_assoc, append-nil}
use mathlib.Core.Option
use mathlib.Core.Path.{ap₂}
use graduation_project.Lifecycle.{WorkflowStatus}
use graduation_project.Lifecycle.Paths.{Follows, last_status}
use graduation_project.Schema.{Uuid, Workflow, WorkflowEvent, AuditLog}
use graduation_project.Store.{Platform, Session, find_workflow, set_workflow}
use graduation_project.Store.Actions.{stamped}
use graduation_project.Workflows.Trail.{trail, moves, trail-append, moves-append}
use graduation_project.Store.Rows.{find-set_self, find-set_ne, find-stamped, find_id}

-- One row, earlier and later, with the audit records that were added in between.
pub record Advances (logs : List AuditLog) (v w : Workflow) : Type 0 where
  pub route : List WorkflowStatus
  pub follows : Follows v.status route
  pub arrives : last_status v.status route ≡ w.status
  pub recorded : trail v.id logs ≡ moves v.status route
  pub same_id : w.id ≡ v.id
  pub same_type : w.workflow_type ≡ v.workflow_type
  pub same_domain : w.domain ≡ v.domain
  pub same_request : w.request_payload ≡ v.request_payload
  pub same_creation : w.created_at ≡ v.created_at
  pub same_creator : w.created_by_id ≡ v.created_by_id

pub record Evolves (s t : Session) : Type 0 where
  pub new_events : List WorkflowEvent
  pub events_grow : t.events ≡ s.events ++ new_events
  pub new_logs : List AuditLog
  pub logs_grow : t.audit_logs ≡ s.audit_logs ++ new_logs
  pub rows :
      (i : Uuid) (v : Workflow)
      → find_workflow i s.workflows ≡ some v
      → (w : Workflow) × (find_workflow i t.workflows ≡ some w) × Advances new_logs v w

Follows-append :
    (s : WorkflowStatus) (ts us : List WorkflowStatus)
    → Follows s ts
    → Follows (last_status s ts) us
    → Follows s (ts ++ us)
Follows-append s [] us f g = g
Follows-append s (t ∷ ts) us f g = (f.0, Follows-append t ts us f.1 g)

last-append :
    (s : WorkflowStatus) (ts us : List WorkflowStatus)
    → last_status s (ts ++ us) ≡ last_status (last_status s ts) us
last-append s [] us = refl
last-append s (t ∷ ts) us = last-append t ts us

-- A row whose status is kept.
pub Advances-still :
    (logs : List AuditLog) (v w : Workflow)
    → trail v.id logs ≡ []
    → v.status ≡ w.status
    → w.id ≡ v.id
    → w.workflow_type ≡ v.workflow_type
    → w.domain ≡ v.domain
    → w.request_payload ≡ v.request_payload
    → w.created_at ≡ v.created_at
    → w.created_by_id ≡ v.created_by_id
    → Advances logs v w
Advances-still logs v w still a b c d e f g = record {
  route = [];
  follows = tt;
  arrives = a;
  recorded = still;
  same_id = b;
  same_type = c;
  same_domain = d;
  same_request = e;
  same_creation = f;
  same_creator = g;
}

pub Advances-refl : (logs : List AuditLog) (v : Workflow) → trail v.id logs ≡ [] → Advances logs v v
Advances-refl logs v still = Advances-still logs v v still refl refl refl refl refl refl refl

pub Advances-trans :
    (ks ls : List AuditLog) (u v w : Workflow)
    → Advances ks u v
    → Advances ls v w
    → Advances (ks ++ ls) u w
Advances-trans ks ls u v w p q = record {
  route = p.route ++ q.route;
  follows = Follows-append u.status p.route q.route p.follows (rw p.arrives q.follows);
  arrives = last-append u.status p.route q.route ∙ (rw p.arrives q.arrives);
  recorded =
      trail-append u.id ks ls
      ∙ ap₂ (λ xs ys. xs ++ ys) p.recorded
          (ap (λ i. trail i ls) (sym p.same_id)
            ∙ q.recorded
            ∙ ap (λ st. moves st q.route) (sym p.arrives))
      ∙ sym (moves-append u.status p.route q.route);
  same_id = q.same_id ∙ p.same_id;
  same_type = q.same_type ∙ p.same_type;
  same_domain = q.same_domain ∙ p.same_domain;
  same_request = q.same_request ∙ p.same_request;
  same_creation = q.same_creation ∙ p.same_creation;
  same_creator = q.same_creator ∙ p.same_creator;
}

pub Evolves-refl : (s : Session) → Evolves s s
Evolves-refl s = record {
  rows = λ i v h. (v, h, Advances-refl [] v refl);
  new_events = [];
  events_grow = sym (append-nil s.events);
  new_logs = [];
  logs_grow = sym (append-nil s.audit_logs);
}

pub Evolves-trans : (s t u : Session) → Evolves s t → Evolves t u → Evolves s u
Evolves-trans s t u p q = record {
  rows = λ i v h.
      let (w, found, adv) = p.rows i v h in
      let (x, found', adv') = q.rows i w found in
      (x, found', Advances-trans p.new_logs q.new_logs v w x adv adv');
  new_events = p.new_events ++ q.new_events;
  events_grow = q.events_grow ∙ (rw (p.events_grow, append_assoc));
  new_logs = p.new_logs ++ q.new_logs;
  logs_grow = q.logs_grow ∙ (rw (p.logs_grow, append_assoc));
}
