-- ===== src/Workflows/Listing.antt =====
-- What the query of workflows shows (backend/app/repositories/workflows.py).
use graduation_project.Lifecycle.{WorkflowStatus}
use graduation_project.Prelude.{
  ℕ, zero, suc, All, take, drop, Bool-cases, ◌≡◌, Bool, true, String, Option, List, [], ◌∷◌, inl,
  inr,
}
use graduation_project.Schema.{Workflow}
use graduation_project.Store.Query.{
  order_by, insert_row, listed, is_listed, workflow_before, query_workflows,
}

All-take : {A : Type 0} (Q : A → Type 0) (n : ℕ) (xs : List A) → All Q xs → All Q (take n xs)
All-take Q zero xs h = tt
All-take Q (suc n) [] h = tt
All-take Q (suc n) (x ∷ xs) h = (h.0, All-take Q n xs h.1)

All-drop : {A : Type 0} (Q : A → Type 0) (n : ℕ) (xs : List A) → All Q xs → All Q (drop n xs)
All-drop Q zero xs h = h
All-drop Q (suc n) [] h = tt
All-drop Q (suc n) (x ∷ xs) h = All-drop Q n xs h.1

All-insert_row :
    {A : Type 0} (Q : A → Type 0) (before : A → A → Bool) (x : A) (xs : List A)
    → Q x
    → All Q xs
    → All Q (insert_row before x xs)
All-insert_row Q before x [] q h = (q, tt)
All-insert_row Q before x (y ∷ ys) q h = elim (Bool-cases (before x y)) [
  | inl first ↦ rw first (q, h)
  | inr later ↦ rw later (h.0, All-insert_row Q before x ys q h.1)
]

All-order_by :
    {A : Type 0} (Q : A → Type 0) (before : A → A → Bool) (xs : List A)
    → All Q xs
    → All Q (order_by before xs)
unfolding order_by
All-order_by Q before [] h = tt
All-order_by Q before (x ∷ xs) h =
    All-insert_row Q before x (order_by before xs) h.0 (All-order_by Q before xs h.1)

All-listed : (p : Workflow → Bool) (ws : List Workflow) → All (λ w. p w ≡ true) (listed p ws)
All-listed p [] = tt
All-listed p (w ∷ ws) = elim (Bool-cases (p w)) [
  | inl meets ↦ rw meets (meets, All-listed p ws)
  | inr fails ↦ rw fails (All-listed p ws)
]

-- Every row that the query of workflows gives is one that is not deleted and has the status and the
-- domain that were asked for, whatever the page is.
pub query_workflows-All :
    (status : Option WorkflowStatus) (domain : Option String) (limit offset : ℕ)
    (rows : List Workflow)
    → All (λ w. is_listed status domain w ≡ true) (query_workflows status domain limit offset rows)
unfolding query_workflows
query_workflows-All status domain limit offset rows = All-take _ limit _ (
    All-drop _ offset _
      (All-order_by _ workflow_before _ (All-listed (is_listed status domain) rows)))
