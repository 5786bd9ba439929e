-- ===== src/Store/Rows.antt =====
-- What a lookup of a row finds after a write, and after a flush.
use graduation_project.Prelude.{ℕ, ◌≡◌, ◌≢◌, refl, some, List, [], ◌∷◌, map, arith}
use graduation_project.Schema.{Uuid, Workflow}
use graduation_project.Store.{Platform, find_workflow, set_workflow}
use graduation_project.Store.Actions.{stamped}
use mathlib.Core.Option

pub find-set_self :
    (w v : Workflow) (ws : List Workflow)
    → find_workflow w.id ws ≡ some v
    → find_workflow w.id (set_workflow w ws) ≡ some w
find-set_self w v [] h = ground arith
find-set_self w v (u ∷ ws) h = ground (arith, find-set_self w v ws)

pub find-set_ne :
    (w : Workflow) (i : Uuid) (ws : List Workflow)
    → w.id ≢ i
    → find_workflow i (set_workflow w ws) ≡ find_workflow i ws
find-set_ne w i [] h = refl
find-set_ne w i (u ∷ ws) h = ground (arith, find-set_ne w i ws)

pub find-stamped :
    (P : Platform) (n : ℕ) (i : Uuid) (ws : List Workflow)
    → find_workflow i (map (stamped P n) ws) ≡ Option.map (stamped P n) (find_workflow i ws)
find-stamped P n i [] = refl
find-stamped P n i (u ∷ ws) = ground (arith, find-stamped P n i ws)

pub find_id :
    (i : Uuid) (w : Workflow) (ws : List Workflow) → find_workflow i ws ≡ some w → w.id ≡ i
find_id i w [] h = ground arith
find_id i w (u ∷ ws) h = ground (arith, find_id i w ws)
