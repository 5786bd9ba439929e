-- ===== src/Stage.antt =====
-- backend/app/runtime/schemas.py: the stages of the runtime graph, in execution order.
use graduation_project.Prelude.{ℕ, String, Bool, List, [], ◌∷◌, map, nat_eq}

pub data RuntimeStage : Type 0 where
  planner retrieval quotation compliance validation approval email_preparation : RuntimeStage

abbrev position : RuntimeStage → ℕ
position planner = 0
position retrieval = 1
position quotation = 2
position compliance = 3
position validation = 4
position approval = 5
position email_preparation = 6

abbrev pub same_stage : RuntimeStage → RuntimeStage → Bool
same_stage a b = nat_eq (position a) (position b)

abbrev pub stage_value : RuntimeStage → String
stage_value planner = "planner"
stage_value retrieval = "retrieval"
stage_value quotation = "quotation"
stage_value compliance = "compliance"
stage_value validation = "validation"
stage_value approval = "approval"
stage_value email_preparation = "email_preparation"

abbrev pub runtime_stages : List RuntimeStage
runtime_stages =
    planner ∷ retrieval ∷ quotation ∷ compliance ∷ validation ∷ approval ∷ email_preparation ∷ []

unfoldable pub runtime_stage_values : List String
runtime_stage_values = map stage_value runtime_stages
