-- ===== src/Runtime/Outputs.antt =====
-- The stage outputs of backend/app/runtime: what their writes leave, as dictionaries and as sections
-- of the workflow state.
use graduation_project.Prelude.{
  ◌≡◌, refl, ap, ◌∙◌, ◌⊎◌, inl, inr, Bool, true, false, not, ◌&&◌, Option, none, some, List, [],
  ◌∷◌, ◌++◌, any, any-append, ◌||◌, arith, Bool-cases, if◌then◌else◌, and_right,
}
use mathlib.Core.Path.{subst}
use graduation_project.Json.{Dict, empty, is_empty}
use graduation_project.Stage.{RuntimeStage, planner, same_stage}
use graduation_project.Schema.{WorkflowState}
use graduation_project.Runtime.{StageOutputs, output_of, put_output}
use graduation_project.Runtime.Adapter.{section, set_section, add_sections}
use graduation_project.Runtime.Convert.{set_sections}

-- No stage twice, and no empty output.
abbrev pub is_plain : StageOutputs → Bool
is_plain [] = true
is_plain ((stage, d) ∷ outs) =
    not (any (λ o. same_stage stage o.0) outs) && (not (is_empty d) && is_plain outs)

section-set :
    (s t : RuntimeStage) (d : Dict) (w : WorkflowState)
    → section s (set_section t d w) ≡ (if same_stage t s then d else section s w)
section-set s t d w = ground arith

pub same_stage_iff : (s t : RuntimeStage) → same_stage s t ≡ true → s ≡ t
same_stage_iff planner planner h = refl
same_stage_iff s t h = ground arith

put-here :
    (s : RuntimeStage) (d : Dict) (outs : StageOutputs)
    → output_of s outs ≡ some d
    → put_output s d outs ≡ outs
put-here s d [] h = ground arith
put-here s d ((t, e) ∷ outs) h = elim (Bool-cases (same_stage t s)) [
  | inl same ↦ rw same (ground arith)
  | inr other ↦ rw other (ap (λ rest. (t, e) ∷ rest) (put-here s d outs (rw other at h)))
]

abbrev pub mentions : RuntimeStage → StageOutputs → Bool
mentions s outs = any (λ o. same_stage s o.0) outs

pub put-new :
    (s : RuntimeStage) (d : Dict) (outs : StageOutputs)
    → mentions s outs ≡ false
    → put_output s d outs ≡ outs ++ (s, d) ∷ []
put-new s d [] h = refl
put-new s d ((t, e) ∷ outs) h = ground (arith, put-new s d outs)

abbrev pub or_else : Option Dict → Dict → Dict
or_else none d = d
or_else (some e) d = e

output-absent :
    (s : RuntimeStage) (outs : StageOutputs) → mentions s outs ≡ false → output_of s outs ≡ none
output-absent s [] h = refl
output-absent s ((t, e) ∷ outs) h =
    ground (arith, same_stage_iff t s, same_stage_iff s t, output-absent s outs)

pub section-set_sections :
    (s : RuntimeStage) (outs : StageOutputs) (w : WorkflowState)
    → is_plain outs ≡ true
    → section s (set_sections outs w) ≡ or_else (output_of s outs) (section s w)
section-set_sections s [] w h = refl
section-set_sections s ((t, d) ∷ outs) w h = ground (
  arith,
  same_stage_iff t s,
  section-set s t d w,
  output-absent t outs,
  section-set_sections s outs (set_section t d w),
)

-- Where every section is that of the outputs or empty, reading the sections changes nothing.
pub add_sections-same :
    (w : WorkflowState) (stages : List RuntimeStage) (outs : StageOutputs)
    → ((s : RuntimeStage)
        → (is_empty (section s w) ≡ true) ⊎ (output_of s outs ≡ some (section s w)))
    → add_sections w stages outs ≡ outs
add_sections-same w [] outs h = refl
add_sections-same w (stage ∷ stages) outs h =
    ap (add_sections w stages) (step (h stage)) ∙ add_sections-same w stages outs h
  where
    step :
        (is_empty (section stage w) ≡ true) ⊎ (output_of stage outs ≡ some (section stage w))
        → (if is_empty (section stage w) then outs else put_output stage (section stage w) outs)
          ≡ outs
    step (inl none_there) = rw none_there refl
    step (inr there) = ground (arith, put-here stage (section stage w) outs there)

pub mentions-append :
    (s : RuntimeStage) (xs ys : StageOutputs)
    → mentions s (xs ++ ys) ≡ mentions s xs || mentions s ys
mentions-append s xs ys = any-append _ xs ys

-- A state without its sections: what the section updates leave alone.
abbrev pub without_sections : WorkflowState → WorkflowState
without_sections w = record w {
  planner = empty;
  retrieval = empty;
  quotation = empty;
  compliance = empty;
  validation = empty;
  approval = empty;
  email = empty;
}

without-set :
    (t : RuntimeStage) (d : Dict) (w : WorkflowState)
    → without_sections (set_section t d w) ≡ without_sections w
without-set planner d w = refl
without-set t d w = refl

pub without-set_sections :
    (outs : StageOutputs) (w : WorkflowState)
    → without_sections (set_sections outs w) ≡ without_sections w
without-set_sections [] w = refl
without-set_sections ((t, d) ∷ outs) w =
    without-set_sections outs (set_section t d w) ∙ without-set t d w

absorb : (a b : Bool) → a || b ≡ (if a || b then true else a)
absorb a b = ground arith

regroup : (a b c : Bool) → a || (if b then true else c) ≡ (if a || b then true else c)
regroup a b c = ground arith

mentions-put :
    (t s : RuntimeStage) (d : Dict) (outs : StageOutputs)
    → mentions t (put_output s d outs) ≡ (if mentions t outs then true else same_stage t s)
mentions-put t s d [] = last_one (same_stage t s)
  where
    last_one : (b : Bool) → b || false ≡ b
    last_one b = ground arith
mentions-put t s d ((u, e) ∷ outs) = elim (Bool-cases (same_stage u s)) [
  | inl same ↦ rw same (
      subst
        (λ x.
          same_stage t u || mentions t outs
          ≡ (if same_stage t u || mentions t outs then true else same_stage t x))
        (same_stage_iff u s same) (absorb (same_stage t u) (mentions t outs)))
  | inr other ↦
      rw (other, mentions-put t s d outs)
        (regroup (same_stage t u) (mentions t outs) (same_stage t s))
]

still_distinct :
    (a b c d : Bool)
    → a ≡ false
    → not b && c ≡ true
    → d ≡ true
    → not (if b then true else a) && d ≡ true
still_distinct a b c d other h e = ground arith

-- No stage twice, as in every Python dictionary.
abbrev pub has_distinct_stages : StageOutputs → Bool
has_distinct_stages [] = true
has_distinct_stages ((s, d) ∷ outs) = not (mentions s outs) && has_distinct_stages outs

pub put-has_distinct_stages :
    (s : RuntimeStage) (d : Dict) (outs : StageOutputs)
    → has_distinct_stages outs ≡ true
    → has_distinct_stages (put_output s d outs) ≡ true
put-has_distinct_stages s d [] h = refl
put-has_distinct_stages s d ((u, e) ∷ outs) h = elim (Bool-cases (same_stage u s)) [
  | inl same ↦ rw same h
  | inr other ↦
      rw (other, mentions-put u s d outs)
        (still_distinct (same_stage u s) (mentions u outs) (has_distinct_stages outs) _ other h
          (put-has_distinct_stages s d outs (and_right _ _ h)))
]
