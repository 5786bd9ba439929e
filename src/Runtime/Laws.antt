-- ===== src/Runtime/Laws.antt =====
-- What the node handlers, the graph and the status table of backend/app/runtime do on the whole.
use graduation_project.Prelude.{
  ◌≡◌, ◌↔◌, refl, ap, ◌∙◌, String, true, false, Option, some, List, [], ◌∷◌, ◌++◌, map, any-append,
  arith, Bool-cases, inl, inr, ◌==◌,
}
use graduation_project.Json.{Json, Dict, bool, text, object, empty, entry, get, put}
use graduation_project.Json.Laws.{get-put, get-put_self, put_again, put-same_two}
use graduation_project.Lifecycle.{failed, can_transition}
use graduation_project.Stage.{RuntimeStage, approval, stage_value, same_stage}
use graduation_project.Store.{Result, ok, err}
use graduation_project.Runtime.{
  RuntimeWorkflowState, StageOutputs, put_output, runtime_stage_status,
}
use graduation_project.Runtime.Nodes.{
  placeholder_output, objects_of, read_stage_outputs, output_stage_outputs, completing,
  record_output, complete_stage,
}
use graduation_project.Runtime.Graph.{Engine, GraphEdge, edges_from, runtime_graph_topology}

put-put_output :
    (s : RuntimeStage) (d e : Dict) (outs : StageOutputs)
    → put_output s d (put_output s e outs) ≡ put_output s d outs
put-put_output s d e [] = ground arith
put-put_output s d e ((u, f) ∷ outs) = ground (arith, put-put_output s d e outs)

completing_again :
    (s : RuntimeStage) (ss : List RuntimeStage) → completing s (completing s ss) ≡ completing s ss
completing_again s ss = ground (arith, any-append (same_stage s) ss (s ∷ []))

-- A dictionary of dictionaries alone, of which the filter leaves everything.
abbrev AllObjects : Dict → Type 0
AllObjects empty = Unit
AllObjects (entry j (object w) d) = AllObjects d
AllObjects (entry j v d) = ⊥

AllObjects-objects_of : (d : Dict) → AllObjects (objects_of d)
unfolding objects_of
AllObjects-objects_of empty = tt
AllObjects-objects_of (entry j (object w) d) = AllObjects-objects_of d
AllObjects-objects_of (entry j v d) = AllObjects-objects_of d

objects_of-AllObjects : (d : Dict) → AllObjects d → objects_of d ≡ d
unfolding objects_of
objects_of-AllObjects empty h = refl
objects_of-AllObjects (entry j (object w) d) h = ap (entry j (object w)) (objects_of-AllObjects d h)
objects_of-AllObjects (entry j v d) h = elim h [ ]

AllObjects-put : (k : String) (v d : Dict) → AllObjects d → AllObjects (put k (object v) d)
AllObjects-put k v empty h = tt
AllObjects-put k v (entry j (object w) d) h = elim (Bool-cases (j == k)) [
  | inl here ↦ rw here h
  | inr other ↦ rw other (AllObjects-put k v d h)
]
AllObjects-put k v (entry j u d) h = elim h [ ]

read-clean : (o : Dict) → AllObjects (output_stage_outputs o)
unfolding output_stage_outputs
read-clean o = clean_at (get "stage_outputs" o)
  where
    clean_at : (v : Option Json) → AllObjects (read_stage_outputs v)
    clean_at (some (object d)) = AllObjects-objects_of d
    clean_at v = tt

read_there :
    (inner o : Dict)
    → get "stage_outputs" o ≡ some (object inner)
    → AllObjects inner
    → output_stage_outputs o ≡ inner
unfolding output_stage_outputs
read_there inner o there clean = rw there (objects_of-AllObjects inner clean)

reads_inner :
    (s : RuntimeStage) (d o : Dict)
    → output_stage_outputs (
        put "last_completed_stage" (text (stage_value s)) (
          put "stage_outputs" (object (put (stage_value s) (object d) (output_stage_outputs o))) o))
      ≡ put (stage_value s) (object d) (output_stage_outputs o)
reads_inner s d o =
    let inner : Dict = put (stage_value s) (object d) (output_stage_outputs o) in
    let there : get "stage_outputs"
          (put "last_completed_stage" (text (stage_value s)) (put "stage_outputs" (object inner) o))
        ≡ some (object inner) =
      get-put "last_completed_stage" "stage_outputs" _ (put "stage_outputs" (object inner) o)
      ∙ get-put_self "stage_outputs" (object inner) o in
    read_there inner _ there
      (AllObjects-put (stage_value s) d (output_stage_outputs o) (read-clean o))

record_output_again :
    (s : RuntimeStage) (d o : Dict) → record_output s d (record_output s d o) ≡ record_output s d o
unfolding record_output
record_output_again s d o =
    let inner : Dict = put (stage_value s) (object d) (output_stage_outputs o) in
    let last : Json = text (stage_value s) in
    let noted : Dict = put "last_completed_stage" last (put "stage_outputs" (object inner) o) in
    ap (λ x. put "last_completed_stage" last (put "stage_outputs" (object x) noted))
      (ap (put (stage_value s) (object d)) (reads_inner s d o)
        ∙ put_again (stage_value s) (object d) (object d) (output_stage_outputs o))
    ∙ put-same_two "last_completed_stage" "stage_outputs" last (object inner) o refl

-- Running a node a second time changes nothing.
pub complete_stage_idem :
    (r : RuntimeWorkflowState) (s : RuntimeStage) (extra : Dict)
    → complete_stage (complete_stage r s extra) s extra ≡ complete_stage r s extra
unfolding complete_stage placeholder_output
complete_stage_idem r s extra =
    rw
      (
        completing_again s r.completed_stages,
        put-same_two "deterministic_runtime" "last_completed_stage" (bool true)
            (text (stage_value s)) r.runtime_context refl,
        put-put_output s _ _ r.stage_outputs,
        record_output_again s _ r.outputs,
      )
      refl

abbrev pub edge_sources : Result (List GraphEdge) → List String
edge_sources (ok edges) = map (λ e. e.0) edges
edge_sources (err e) = []

abbrev pub edge_targets : Result (List GraphEdge) → List String
edge_targets (ok edges) = map (λ e. e.1) edges
edge_targets (err e) = []

sources-edges_from :
    (E : Engine) (s : RuntimeStage) (ss : List RuntimeStage)
    → map (λ e. e.0) (edges_from E s ss) ≡ stage_value s ∷ map stage_value ss
sources-edges_from E s [] = refl
sources-edges_from E s (t ∷ ts) = ap (λ xs. stage_value s ∷ xs) (sources-edges_from E t ts)

targets-edges_from :
    (E : Engine) (s : RuntimeStage) (ss : List RuntimeStage)
    → map (λ e. e.1) (edges_from E s ss) ≡ map stage_value ss ++ E.end_node ∷ []
targets-edges_from E s [] = refl
targets-edges_from E s (t ∷ ts) = ap (λ xs. stage_value t ∷ xs) (targets-edges_from E t ts)

-- For a list of at least one stage the edges lead from the start through the stages in their order
-- to the end: the sources are the start and the stages, the targets the stages and the end.
pub runtime_graph_topology_lem :
    (E : Engine) (s : RuntimeStage) (ss : List RuntimeStage)
    → let edges = runtime_graph_topology E (some (s ∷ ss)) in
      (edge_sources edges ≡ E.start_node ∷ map stage_value (s ∷ ss))
      × (edge_targets edges ≡ map stage_value (s ∷ ss) ++ E.end_node ∷ [])
unfolding runtime_graph_topology
runtime_graph_topology_lem E s ss = (
  ap (λ xs. E.start_node ∷ xs) (sources-edges_from E s ss),
  ap (λ xs. stage_value s ∷ xs) (targets-edges_from E s ss),
)

-- The status in which a stage runs may be left for FAILED, except for the approval stage.
pub stage_failure_iff :
    (s : RuntimeStage)
    → (can_transition (runtime_stage_status s) failed ≡ true) ↔ (same_stage s approval ≡ false)
unfolding can_transition
stage_failure_iff s = (λ h. ground arith, λ h. ground arith)
