-- ===== src/Workflows/Trail.antt =====
-- The status writes that the audit records of backend/app/workflows/audit.py tell of.
use graduation_project.Prelude.{
  ◌≡◌, refl, Bool, false, ◌&&◌, Option, none, some, List, [], ◌∷◌, ◌++◌, Bool-cases, inl, inr,
  nat_eq, ◌==◌, if◌then◌else◌,
}
use graduation_project.Json.{Json, text, get}
use graduation_project.Lifecycle.{WorkflowStatus, status_value}
use graduation_project.Lifecycle.Paths.{last_status}
use graduation_project.Schema.{Uuid, AuditLog}

-- The old and the new status of a write.
abbrev pub Move : Type 0
Move = Option Json × Option Json

abbrev pub is_about : Uuid → Option Uuid → Bool
is_about i none = false
is_about i (some j) = nat_eq j i

abbrev pub is_move : Uuid → AuditLog → Bool
is_move i log = (log.action == "workflow.status_transitioned") && is_about i log.workflow_id

-- The moves of a workflow that the records tell of, in their order.
abbrev pub trail : Uuid → List AuditLog → List Move
trail i [] = []
trail i (log ∷ logs) =
    let rest = trail i logs in
    if is_move i log
    then (get "old_status" log.payload, get "new_status" log.payload) ∷ rest
    else rest

-- The moves along a route.
abbrev pub moves : WorkflowStatus → List WorkflowStatus → List Move
moves s [] = []
moves s (t ∷ ts) = (some (text (status_value s)), some (text (status_value t))) ∷ moves t ts

pub trail-append :
    (i : Uuid) (ks ls : List AuditLog) → trail i (ks ++ ls) ≡ trail i ks ++ trail i ls
trail-append i [] ls = refl
trail-append i (k ∷ ks) ls = elim (Bool-cases (is_move i k)) [
  | inl moved ↦ rw (moved, trail-append i ks ls) refl
  | inr other ↦ rw (other, trail-append i ks ls) refl
]

pub moves-append :
    (s : WorkflowStatus) (ts us : List WorkflowStatus)
    → moves s (ts ++ us) ≡ moves s ts ++ moves (last_status s ts) us
moves-append s [] us = refl
moves-append s (t ∷ ts) us = rw (moves-append t ts us) refl

-- A record of another action tells of no move.
pub trail-other :
    (i : Uuid) (log : AuditLog)
    → (log.action == "workflow.status_transitioned") ≡ false
    → trail i (log ∷ []) ≡ []
trail-other i log other = rw other refl
