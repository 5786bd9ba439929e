-- ===== src/Workflows/Evolution/Steps.antt =====
-- Each write to the session is a small evolution of it.
use graduation_project.Prelude.{
  ℕ, ◌+◌, ◌≡◌, refl, sym, ap, ◌∙◌, inl, inr, some, List, [], ◌∷◌, ◌++◌, map, arith, nat_eq,
  Bool-cases, false, ◌==◌,
}
use mathlib.Core.List.{append-nil}
use mathlib.Core.Option
use graduation_project.Schema.{Uuid, Workflow, WorkflowEvent, AuditLog}
use graduation_project.Store.{Platform, Session, find_workflow, set_workflow}
use graduation_project.Store.Actions.{stamped}
use graduation_project.Store.Rows.{find-set_self, find-set_ne, find-stamped, find_id}
use graduation_project.Workflows.Trail.{trail, trail-other}
use graduation_project.Workflows.Evolution.{Advances, Advances-refl, Advances-still, Evolves}

-- Rows alone change.
Evolves-workflows :
    (s t : Session)
    → t.events ≡ s.events
    → t.audit_logs ≡ s.audit_logs
    → ((i : Uuid) (v : Workflow)
        → find_workflow i s.workflows ≡ some v
        → (w : Workflow) × (find_workflow i t.workflows ≡ some w) × Advances [] v w)
    → Evolves s t
Evolves-workflows s t e l rows = record {
  rows = rows;
  new_events = [];
  events_grow = e ∙ sym (append-nil s.events);
  new_logs = [];
  logs_grow = l ∙ sym (append-nil s.audit_logs);
}

-- Events alone are added, and audit records that tell of no move.
pub Evolves-quiet :
    (s t : Session) (es : List WorkflowEvent) (ls : List AuditLog)
    → t.workflows ≡ s.workflows
    → t.events ≡ s.events ++ es
    → t.audit_logs ≡ s.audit_logs ++ ls
    → ((i : Uuid) → trail i ls ≡ [])
    → Evolves s t
Evolves-quiet s t es ls ws e l still = record {
  rows = λ i v h. (v, rw ws h, Advances-refl ls v (still v.id));
  new_events = es;
  events_grow = e;
  new_logs = ls;
  logs_grow = l;
}

-- A record of another action than a status write.
pub Evolves-log :
    (log : AuditLog) (s : Session)
    → (log.action == "workflow.status_transitioned") ≡ false
    → Evolves s (record s { audit_logs = s.audit_logs ++ log ∷ [] })
Evolves-log log s other =
    Evolves-quiet s _ [] (log ∷ []) refl (sym (append-nil s.events)) refl
      λ i. trail-other i log other

set_rows :
    (logs : List AuditLog) (w v : Workflow) (ws : List Workflow)
    → find_workflow w.id ws ≡ some v
    → Advances logs v w
    → ((i : Uuid) → nat_eq w.id i ≡ false → trail i logs ≡ [])
    → (i : Uuid) (u : Workflow) → find_workflow i ws ≡ some u
    → (x : Workflow) × (find_workflow i (set_workflow w ws) ≡ some x) × Advances logs u x
set_rows logs w v ws here adv others i u h = elim (Bool-cases (nat_eq w.id i)) [
  | inl same ↦
      let e : w.id ≡ i = ground arith in
      let uv : u ≡ v = cc (rw (← e) at h, here) in
      (w, rw (← e) (find-set_self w v ws here), rw uv adv)
  | inr other ↦ (
    u,
    find-set_ne w i ws (ground arith) ∙ h,
    Advances-refl logs u (ap (λ j. trail j logs) (find_id i u ws h) ∙ others i other),
  )
]

-- A write to a row with the audit records of it.
pub Evolves-move :
    (logs : List AuditLog) (s : Session) (w v : Workflow)
    → find_workflow w.id s.workflows ≡ some v
    → Advances logs v w
    → ((i : Uuid) → nat_eq w.id i ≡ false → trail i logs ≡ [])
    → Evolves s
        (record s { workflows = set_workflow w s.workflows; audit_logs = s.audit_logs ++ logs })
Evolves-move logs s w v here adv others = record {
  new_events = [];
  events_grow = sym (append-nil s.events);
  new_logs = logs;
  logs_grow = refl;
  rows = set_rows logs w v s.workflows here adv others;
}

-- A write to a row that keeps its status.
pub Evolves-set :
    (s : Session) (w v : Workflow)
    → find_workflow w.id s.workflows ≡ some v
    → Advances [] v w
    → Evolves s (record s { workflows = set_workflow w s.workflows })
Evolves-set s w v here adv =
    Evolves-workflows s _ refl refl (set_rows [] w v s.workflows here adv λ i other. refl)

-- A flush changes `updated_at` alone.
pub Evolves-flush :
    (P : Platform) (s : Session)
    → Evolves s
        (record s { workflows = map (stamped P s.flushes) s.workflows; flushes = s.flushes + 1 })
Evolves-flush P s = Evolves-workflows s _ refl refl λ i v h. (
  stamped P s.flushes v,
  find-stamped P s.flushes i s.workflows ∙ ap (Option.map (stamped P s.flushes)) h,
  Advances-still [] v _ refl refl refl refl refl refl refl refl,
)

pub find-append :
    (i : Uuid) (v w : Workflow) (ws : List Workflow)
    → find_workflow i ws ≡ some v
    → find_workflow i (ws ++ w ∷ []) ≡ some v
find-append i v w [] h = cc
find-append i v w (u ∷ ws) h = ground (arith, find-append i v w ws)

-- A new row leaves the others as they are.
pub Evolves-add :
    (s : Session) (w : Workflow) (n m : ℕ)
    → Evolves s (record s { workflows = s.workflows ++ w ∷ []; drawn = n; readings = m })
Evolves-add s w n m =
    Evolves-workflows s _ refl refl
      λ i v h. (v, find-append i v w s.workflows h, Advances-refl [] v refl)
