-- ===== src/Workflows/Keeps.antt =====
-- Actions that let the session evolve, whether they return or raise: one rule for each way to build
-- an action, and the calls of the repositories and of the event service.
pub mod Service
pub mod Writes
use graduation_project.Prelude.{
  String, ◌≡◌, refl, sym, Bool, true, false, Option, none, some, List, [], ◌∷◌, ◌++◌, ◌==◌,
  if◌then◌else◌,
}
use mathlib.Core.List.{append-nil}
use graduation_project.Schema.{Uuid, WorkflowEventCreate, WorkflowEvent, AuditLog, Workflow}
use graduation_project.Json.{Dict}
use graduation_project.Store.{
  Platform, Session, Error, Result, ok, err, Action, workflow_not_found, pure, raise, gets,
  or_raise, check, modify, continue, ◌>>=◌, ◌>>◌,
}
use graduation_project.Store.Actions.{
  get_by_id, flush, draw_uuid, read_clock, add_event, create_event, create_log,
}
use graduation_project.Workflows.Audit.{audit_workflow_event_appended, append_audit_log}
use graduation_project.Workflows.Events.{Publisher, publish_event, append_event}
use graduation_project.Workflows.Evolution.{Evolves, Evolves-refl, Evolves-trans}
use graduation_project.Workflows.Evolution.Steps.{Evolves-quiet, Evolves-flush, Evolves-log}

pub record Evolving {A : Type 0} (m : Action A) : Type 0 where
  pub from : (s : Session) → Evolves s (m s).1

module _ {A : Type 0} where
  pub Evolving-pure : (a : A) → Evolving (pure a)
  unfolding pure
  Evolving-pure a = record { from = Evolves-refl }

  pub Evolving-raise : (e : Error) → Evolving (raise {A = A} e)
  unfolding raise
  Evolving-raise e = record { from = Evolves-refl }

  pub Evolving-gets : (f : Session → A) → Evolving (gets f)
  unfolding gets
  Evolving-gets f = record { from = Evolves-refl }

  pub Evolving-or_raise : (e : Error) (o : Option A) → Evolving (or_raise e o)
  unfolding or_raise
  Evolving-or_raise e none = record { from = Evolves-refl }
  Evolving-or_raise e (some a) = record { from = Evolves-refl }

pub Evolving-check : (o : Option Error) → Evolving (check o)
unfolding check
Evolving-check none = record { from = Evolves-refl }
Evolving-check (some e) = record { from = Evolves-refl }

module _ {A B : Type 0} where
  after :
      (r : Result A) (f : A → Action B) (s : Session)
      → ((a : A) → r ≡ ok a → Evolves s (f a s).1)
      → Evolves s (continue r f s).1
  after (ok a) f s h = h a refl
  after (err e) f s h = Evolves-refl s

  -- At one session: the rest may use what the first part returned.
  pub Evolves-bind :
      (m : Action A) (f : A → Action B) (s : Session)
      → Evolves s (m s).1
      → ((a : A) → (m s).0 ≡ ok a → Evolves (m s).1 (f a (m s).1).1)
      → Evolves s ((m >>= f) s).1
  unfolding ◌>>=◌
  Evolves-bind m f s first rest =
      let (r, t) = m s in Evolves-trans s t (continue r f t).1 first (after r f t rest)

  pub Evolving-bind :
      (m : Action A) (f : A → Action B)
      → Evolving m
      → ((a : A) → Evolving (f a))
      → Evolving (m >>= f)
  Evolving-bind m f p q = record {
    from = λ s. Evolves-bind m f s (p.from s) (λ a h. (q a).from (m s).1);
  }

pub Evolving-get_by_id : (i : Uuid) → Evolving (get_by_id i)
unfolding get_by_id
Evolving-get_by_id i = record { from = Evolves-refl }

-- Records of other actions than a status write.
pub Evolving-append_audit_log :
    (a : String) (i : Uuid) (t : Option String) (u : Option Uuid) (r : String) (j : Uuid) (d : Dict)
    → (a == "workflow.status_transitioned") ≡ false
    → Evolving (append_audit_log a i t u r j d)
unfolding append_audit_log create_log modify
Evolving-append_audit_log a i t u r j d other = record { from = λ s. Evolves-log _ s other }

pub Evolving-audit_workflow_event_appended :
    (P : Platform) (i e : Uuid) (et t : Option String) (a : String) (u : Option Uuid)
    → Evolving (audit_workflow_event_appended P i e a et u t)
unfolding audit_workflow_event_appended
Evolving-audit_workflow_event_appended P i e et t a u = Evolving-append_audit_log _ _ _ _ _ _ _ refl

pub Evolving-flush : (P : Platform) → Evolving (flush P)
unfolding flush
Evolving-flush P = record { from = λ s. Evolves-flush P s }

pub Evolving-draw_uuid : (P : Platform) → Evolving (draw_uuid P)
unfolding draw_uuid
Evolving-draw_uuid P = record {
  from = λ s.
      Evolves-quiet s _ [] [] refl (sym (append-nil s.events)) (sym (append-nil s.audit_logs))
        λ k. refl;
}

pub Evolving-read_clock : (P : Platform) → Evolving (read_clock P)
unfolding read_clock
Evolving-read_clock P = record {
  from = λ s.
      Evolves-quiet s _ [] [] refl (sym (append-nil s.events)) (sym (append-nil s.audit_logs))
        λ k. refl;
}

pub Evolving-if :
    {A : Type 0} (b : Bool) (m n : Action A)
    → Evolving m
    → Evolving n
    → Evolving (if b then m else n)
Evolving-if true m n p q = p
Evolving-if false m n p q = q

pub Evolving-create_event :
    (P : Platform) (content : WorkflowEventCreate) → Evolving (create_event P content)
unfolding create_event
Evolving-create_event P content = record {
  from = λ s. Evolves-quiet s _ (_ ∷ []) [] refl refl (sym (append-nil s.audit_logs)) λ k. refl;
}

pub Evolving-publish_event :
    (publisher : Publisher) (e : WorkflowEvent) → Evolving (publish_event publisher e)
unfolding publish_event pure modify
Evolving-publish_event none e = record { from = Evolves-refl }
Evolving-publish_event (some returns) e = record { from = λ s. published (returns e) s }
  where
    published :
        (b : Bool) (s : Session)
        → Evolves s (if b then record s { published = s.published ++ e ∷ [] } else s)
    published true s =
        Evolves-quiet s _ [] [] refl (sym (append-nil s.events)) (sym (append-nil s.audit_logs))
          λ k. refl
    published false s = Evolves-refl s

pub ruleset evolving_rules = (
  Evolving-pure, Evolving-raise, Evolving-gets, Evolving-or_raise, Evolving-check, Evolving-bind,
  Evolving-if, Evolving-draw_uuid, Evolving-read_clock, Evolving-get_by_id,
  Evolving-audit_workflow_event_appended, Evolving-flush, Evolving-create_event,
  Evolving-publish_event,
)

pub Evolving-append_event :
    (P : Platform) (publisher : Publisher) (event : WorkflowEventCreate)
    → Evolving (append_event P publisher event)
unfolding append_event
Evolving-append_event P publisher event = search evolving_rules depth 12
