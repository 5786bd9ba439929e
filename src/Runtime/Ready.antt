-- ===== src/Runtime/Ready.antt =====
-- Runs of actions that succeed on a stored workflow, with the events that they add
-- (backend/app/runtime/service.py over the workflow and event services).
use graduation_project.Prelude.{◌≡◌, refl, sym, ap, ◌∙◌, String, some, List, [], ◌++◌, map}
use mathlib.Core.List.{append_assoc, append-nil}
use graduation_project.Lifecycle.{WorkflowStatus}
use graduation_project.Stage.{RuntimeStage}
use graduation_project.Schema.{Uuid, Workflow, WorkflowState, WorkflowEvent}
use graduation_project.Store.{
  Platform, Session, Result, ok, Action, find_workflow, pure, attempt, lift, ◌>>=◌,
}
use graduation_project.Workflows.Contract.{IsStored}
use graduation_project.Runtime.Stages.{Progress, Outcome, guarded}

abbrev pub types : List WorkflowEvent → List String
types = map (λ e. e.content.event_type)

module _ (P : Platform) (i : Uuid) where
  -- The workflow's row stands in the session in a status, and its payload is the dump of a state.
  pub record Ready (st : WorkflowStatus) (s : Session) : Type 0 where
    pub row : Workflow
    pub state : WorkflowState
    pub same_id : row.id ≡ i
    pub here : find_workflow i s.workflows ≡ some row
    pub in_status : row.status ≡ st
    pub stored : IsStored P row state

  -- An action returns a value, leaves the workflow ready and adds events of the given types.
  pub record Step {A : Type 0} (m : Action A) (s : Session) (st : WorkflowStatus)
      (new : List String) (Q : A → Type 0) : Type 0 where
    pub value : A
    pub after : Session
    pub runs : m s ≡ (ok value, after)
    pub good : Q value
    pub ready : Ready st after
    pub grown : types after.events ≡ types s.events ++ new

  module _ {A : Type 0} (s : Session) (st : WorkflowStatus) where
    pub Step-pure : (a : A) (Q : A → Type 0) → Q a → Ready st s → Step (pure a) s st [] Q
    unfolding pure
    Step-pure a Q q ready = record {
      value = a;
      after = s;
      runs = refl;
      good = q;
      ready = ready;
      grown = sym (append-nil (types s.events));
    }

    pub Step-lift :
        (r : Result A) (a : A) (Q : A → Type 0)
        → r ≡ ok a
        → Q a
        → Ready st s
        → Step (lift r) s st [] Q
    unfolding lift
    Step-lift r a Q e q ready = record {
      value = a;
      after = s;
      runs = ap (λ x. (x, s)) e;
      good = q;
      ready = ready;
      grown = sym (append-nil (types s.events));
    }

  module _ {A B : Type 0} (s : Session) (st st' : WorkflowStatus) (new more : List String) where
    pub Step-bind :
        (m : Action A) (f : A → Action B) (Q : A → Type 0) (S : B → Type 0)
        → Step m s st new Q
        → ((a : A) → Q a → (t : Session) → Ready st t → Step (f a) t st' more S)
        → Step (m >>= f) s st' (new ++ more) S
    unfolding ◌>>=◌
    Step-bind m f Q S first rest =
        let next : Step (f first.value) first.after st' more S =
          rest first.value first.good first.after first.ready in
        record {
          value = next.value;
          after = next.after;
          runs = rw first.runs next.runs;
          good = next.good;
          ready = next.ready;
          grown =
              next.grown
              ∙ ap (λ xs. xs ++ more) first.grown
              ∙ append_assoc (types s.events) new more;
        }

  module _ {A : Type 0} (s : Session) (st st' : WorkflowStatus) (new more : List String) where
    pub Step-guarded :
        (stage : RuntimeStage) (p : Progress) (m : Action A) (f : A → Action Outcome)
        (Q : A → Type 0) (S : Outcome → Type 0)
        → Step m s st new Q
        → ((a : A) → Q a → (t : Session) → Ready st t → Step (f a) t st' more S)
        → Step (guarded stage p m f) s st' (new ++ more) S
    unfolding guarded attempt ◌>>=◌
    Step-guarded stage p m f Q S first rest =
        let next : Step (f first.value) first.after st' more S =
          rest first.value first.good first.after first.ready in
        record {
          value = next.value;
          after = next.after;
          runs = rw first.runs next.runs;
          good = next.good;
          ready = next.ready;
          grown =
              next.grown
              ∙ ap (λ xs. xs ++ more) first.grown
              ∙ append_assoc (types s.events) new more;
        }
