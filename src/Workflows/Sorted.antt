-- ===== src/Workflows/Sorted.antt =====
-- The order and the completeness of event listings (backend/app/workflows/events.py and
-- backend/app/repositories/workflow_events.py).
use graduation_project.Prelude.{
  ℕ, suc, ◌≡◌, refl, ap, ◌∙◌, Bool, true, false, ◌&&◌, some, List, [], ◌∷◌, take, drop, all, nat_eq,
  if◌then◌else◌, arith, Bool-cases, inl, inr, and_left, and_both, and_right,
}
use graduation_project.Schema.{Uuid, Workflow, WorkflowEvent}
use graduation_project.Store.{Session, ok, or_raise, gets, ◌>>=◌, find_workflow}
use graduation_project.Store.Actions.{get_by_id}
use graduation_project.Store.Query.{
  order_by, insert_row, event_before, events_of, list_by_workflow_id,
}
use graduation_project.Workflows.Events.{list_events_for_workflow}

-- How many of the elements pass a test.
abbrev pub count_where : {A : Type 0} → (A → Bool) → List A → ℕ
count_where p [] = 0
count_where p (x ∷ xs) = let n = count_where p xs in if p x then suc n else n

-- By creation time and then by key: nothing stands before an earlier one.
abbrev pub is_ordered : List WorkflowEvent → Bool
is_ordered [] = true
is_ordered (x ∷ xs) = all (event_before x) xs && is_ordered xs

event_before_total : (x y : WorkflowEvent) → event_before x y ≡ false → event_before y x ≡ true
event_before_total x y h = ground (arith, h)

event_before_trans :
    (x y z : WorkflowEvent)
    → event_before x y ≡ true
    → event_before y z ≡ true
    → event_before x z ≡ true
event_before_trans x y z h k = ground (arith, h, k)

all-after :
    (x y : WorkflowEvent) (zs : List WorkflowEvent)
    → event_before x y ≡ true
    → all (event_before y) zs ≡ true
    → all (event_before x) zs ≡ true
all-after x y [] h k = refl
all-after x y (z ∷ zs) h k =
    and_both _ _ (event_before_trans x y z h (and_left _ _ k))
      (all-after x y zs h (and_right _ _ k))

all-insert_row :
    (q : WorkflowEvent → Bool) (x : WorkflowEvent) (xs : List WorkflowEvent)
    → q x ≡ true
    → all q xs ≡ true
    → all q (insert_row event_before x xs) ≡ true
all-insert_row q x [] h k = and_both _ _ h refl
all-insert_row q x (y ∷ ys) h k = elim (Bool-cases (event_before x y)) [
  | inl first ↦ rw first (and_both _ _ h k)
  | inr later ↦ rw later (and_both _ _ (and_left _ _ k) (all-insert_row q x ys h (and_right _ _ k)))
]

insert_row-ordered :
    (x : WorkflowEvent) (xs : List WorkflowEvent)
    → is_ordered xs ≡ true
    → is_ordered (insert_row event_before x xs) ≡ true
insert_row-ordered x [] h = refl
insert_row-ordered x (y ∷ ys) h = elim (Bool-cases (event_before x y)) [
  | inl first ↦
      rw first (and_both _ _ (and_both _ _ first (all-after x y ys first (and_left _ _ h))) h)
  | inr later ↦ rw later (
      and_both _ _
        (all-insert_row (event_before y) x ys (event_before_total x y later) (and_left _ _ h))
        (insert_row-ordered x ys (and_right _ _ h)))
]

order_by-ordered : (xs : List WorkflowEvent) → is_ordered (order_by event_before xs) ≡ true
unfolding order_by
order_by-ordered [] = refl
order_by-ordered (x ∷ xs) = insert_row-ordered x (order_by event_before xs) (order_by-ordered xs)

count-insert_row :
    (p : WorkflowEvent → Bool) (x : WorkflowEvent) (xs : List WorkflowEvent)
    → count_where p (insert_row event_before x xs) ≡ count_where p (x ∷ xs)
count-insert_row p x [] = refl
count-insert_row p x (y ∷ ys) = elim (Bool-cases (event_before x y)) [
  | inl first ↦ rw first refl
  | inr later ↦ rw (later, count-insert_row p x ys) (swapped (p x) (p y) (count_where p ys))
]
  where
    swapped :
        (a b : Bool) (n : ℕ)
        → (if b then suc (if a then suc n else n) else (if a then suc n else n))
          ≡ (if a then suc (if b then suc n else n) else (if b then suc n else n))
    swapped true true n = refl
    swapped true false n = refl
    swapped false true n = refl
    swapped false false n = refl

count-order_by :
    (p : WorkflowEvent → Bool) (xs : List WorkflowEvent)
    → count_where p (order_by event_before xs) ≡ count_where p xs
unfolding order_by
count-order_by p [] = refl
count-order_by p (x ∷ xs) =
    count-insert_row p x (order_by event_before xs)
    ∙ ap (λ n. if p x then suc n else n) (count-order_by p xs)

abbrev pub belongs_to : Uuid → WorkflowEvent → Bool
belongs_to i e = nat_eq e.content.workflow_id i

count-events_of :
    (i : Uuid) (p : WorkflowEvent → Bool) (es : List WorkflowEvent)
    → count_where p (events_of i es) ≡ count_where (λ e. belongs_to i e && p e) es
count-events_of i p [] = refl
count-events_of i p (e ∷ es) = elim (Bool-cases (belongs_to i e)) [
  | inl own ↦ rw (own, count-events_of i p es) refl
  | inr other ↦ rw (other, count-events_of i p es) refl
]

-- The listing of a known workflow's events is a page of one list, whatever its size and offset are,
-- and changes nothing. This list is in order of time and key, and holds the events of the session
-- that belong to the workflow, each as often as the session does, and no others.
pub list_events_for_workflow-lists :
    (i : Uuid) (w : Workflow) (s : Session)
    → find_workflow i s.workflows ≡ some w
    → (full : List WorkflowEvent) × ((limit offset : ℕ)
        → list_events_for_workflow i limit offset s ≡ (ok (take limit (drop offset full)), s))
      × (is_ordered full ≡ true)
      × ((p : WorkflowEvent → Bool)
          → count_where p full ≡ count_where (λ e. belongs_to i e && p e) s.events)
unfolding list_events_for_workflow get_by_id gets or_raise ◌>>=◌ list_by_workflow_id
list_events_for_workflow-lists i w s here = (
  order_by event_before (events_of i s.events),
  λ limit offset. rw here refl,
  order_by-ordered (events_of i s.events),
  λ p. count-order_by p (events_of i s.events) ∙ count-events_of i p s.events,
)
