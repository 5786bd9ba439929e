-- ===== src/Runtime/Rag.antt =====
-- backend/app/runtime/rag_adapter.py: citations of knowledge chunks in the runtime state. The
-- retrieval service behind the adapter is a function from the query to its citations; a citation is
-- its excerpt and its dump. A score is kept by its numeral.
use Prim.Native.String
use graduation_project.Prelude.{
  ℕ, ◌-◌, String, Bool, true, not, Option, none, some, List, [], ◌∷◌, any, length, leb, take, ◌==◌,
  if◌then◌else◌,
}
use graduation_project.Json.{
  Json, Items, Dict, null, bool, number, text, array, object, nil, cons, empty, entry, get, put,
}
use graduation_project.Json.Equality.{sorted}
use graduation_project.Stage.{RuntimeStage, compliance, validation, approval, stage_value}
use graduation_project.Store.{Result, ok, and_then}
use graduation_project.Workflows.Audit.{texts}
use graduation_project.Runtime.{RuntimeWorkflowState, output_of, put_output, has_stage}
use graduation_project.Runtime.Nodes.{objects_of}
use graduation_project.Runtime.Texts.{strip, bounded_query_part, take_text}

abbrev pub rag_supported_stages : List RuntimeStage
rag_supported_stages = compliance ∷ validation ∷ approval ∷ []

pub record KnowledgeCitation : Type 0 where
  pub excerpt : String
  pub dumped : Dict

pub record KnowledgeSearchRequest : Type 0 where
  pub query : String
  pub top_k : ℕ
  pub source_types : List String
  pub minimum_score : ℕ

pub record RagGroundingResult : Type 0 where
  pub stage : RuntimeStage
  pub query_label : String
  pub result_count : ℕ
  pub citations : Items

pub record RagAdapter : Type 0 where
  pub search : KnowledgeSearchRequest → Result (List KnowledgeCitation)
  pub top_k : ℕ
  pub minimum_score : ℕ
  pub max_context_chars : ℕ
  pub event_payload_max_chars : ℕ

-- `supports_stage`
unfoldable pub supports_stage : RuntimeStage → Bool
supports_stage stage = has_stage stage rag_supported_stages

abbrev hinted : Option Json → String
hinted (some (text s)) =
    if not (strip s == "") then bounded_query_part 300 s else "procurement request"
hinted _ = "procurement request"

-- `_bounded_request_hint`
unfoldable pub bounded_request_hint : Dict → String
bounded_request_hint request = hinted (get "raw_text" request)

-- `state.domain or "procurement"`
abbrev domain_or_default : Option String → String
domain_or_default none = "procurement"
domain_or_default (some s) = if s == "" then "procurement" else s

pub record StageQuery : Type 0 where
  pub query_label : String
  pub query : String
  pub source_types : List String

abbrev phrased : String → RuntimeWorkflowState → String
phrased topic state = String.◌++◌ topic (
    String.◌++◌ " domain " (
      String.◌++◌ (bounded_query_part 300 (domain_or_default state.domain))
        (String.◌++◌ " request " (bounded_request_hint state.request))))

-- `_stage_query`
unfoldable pub stage_query : RuntimeWorkflowState → RuntimeStage → StageQuery
unfolding bounded_request_hint
stage_query state compliance = record {
  query_label = "compliance_policy_contract_checklist";
  query = phrased "procurement policy contract terms compliance checklist" state;
  source_types = "policy" ∷ "contract" ∷ "compliance_checklist" ∷ [];
}
stage_query state validation = record {
  query_label = "finance_pricing_supplier_risk";
  query = phrased "pricing guideline supplier evaluation finance risk threshold" state;
  source_types = "pricing" ∷ "supplier_profile" ∷ "policy" ∷ [];
}
stage_query state approval = record {
  query_label = "approval_policy_contract_evidence";
  query = phrased "procurement policy contract terms approval evidence summary" state;
  source_types = "policy" ∷ "contract" ∷ "pricing" ∷ "compliance_checklist" ∷ [];
}
stage_query state stage = record {
  query_label = "unsupported_stage";
  query = String.◌++◌ "unsupported stage " (stage_value stage);
  source_types = [];
}

-- `payload.get(key)`, and `payload[key]` on the dump of a citation, which has every field.
abbrev pub field : String → Dict → Json
field k d = elim (get k d) [ none ↦ null | some v ↦ v ]

-- `_evidence_payload_for_citation`
unfoldable pub evidence_payload : KnowledgeCitation → String → RuntimeStage → String → Dict
evidence_payload citation excerpt stage label =
    let d = citation.dumped in
    entry "citation_id" (field "citation_id" d) (
      entry "document_id" (field "document_id" d) (
        entry "document_title" (field "document_title" d) (
          entry "source_type" (field "source_type" d) (
            entry "citation_label" (field "citation_label" d) (
              entry "section" (field "section" d) (
                entry "page" (field "page" d) (
                  entry "excerpt" (text excerpt) (
                    entry "relevance_score" (field "relevance_score" d) (
                      entry "stage" (text (stage_value stage))
                        (entry "reason" (text label) empty))))))))))

-- The loop of `_evidence_for_results` over the first `top_k` results: each citation that is kept,
-- with its excerpt cut to the characters that are left. A citation that is skipped has an empty
-- excerpt, which takes no character away.
unfoldable pub evidence_loop : ℕ → List KnowledgeCitation → List (KnowledgeCitation × String)
evidence_loop remaining [] = []
evidence_loop remaining (c ∷ cs) =
    let excerpt = strip (take_text remaining c.excerpt) in
    let rest = evidence_loop (remaining - String.count excerpt) cs in
    if leb remaining 0 then [] else if excerpt == "" then rest else (c, excerpt) ∷ rest

abbrev evidence_items : RuntimeStage → String → List (KnowledgeCitation × String) → Items
evidence_items stage label [] = nil
evidence_items stage label ((c, excerpt) ∷ rest) =
    cons (object (evidence_payload c excerpt stage label)) (evidence_items stage label rest)

-- `_evidence_for_results`
unfoldable pub evidence_for_results :
    RagAdapter → List KnowledgeCitation → List (KnowledgeCitation × String)
unfolding evidence_loop
evidence_for_results A results = evidence_loop A.max_context_chars (take A.top_k results)

abbrev grounding_of : RuntimeStage → String → List (KnowledgeCitation × String) → RagGroundingResult
grounding_of stage label evidence = record {
  stage = stage;
  query_label = label;
  result_count = length evidence;
  citations = evidence_items stage label evidence;
}

-- `retrieve_stage_grounding`
unfoldable pub retrieve_stage_grounding :
    RagAdapter → RuntimeWorkflowState → RuntimeStage → Result RagGroundingResult
unfolding supports_stage stage_query evidence_for_results evidence_payload
retrieve_stage_grounding A state stage =
    if not (supports_stage stage)
    then ok (grounding_of stage "unsupported_stage" [])
    else and_then
        (A.search (record {
          query = (stage_query state stage).query;
          top_k = A.top_k;
          source_types = (stage_query state stage).source_types;
          minimum_score = A.minimum_score;
        }))
        λ results. ok (
          grounding_of stage (stage_query state stage).query_label (evidence_for_results A results))

abbrev pub objects_at : Option Json → Dict
objects_at (some (object d)) = objects_of d
objects_at _ = empty

abbrev pub dict_output : Option Json → Dict
dict_output (some (object d)) = d
dict_output _ = empty

-- The `stages` of `_runtime_rag_context`.
unfoldable pub rag_stages : Dict → Dict
rag_stages runtime_context = objects_at (get "stages" (dict_output (get "rag" runtime_context)))

-- The context with a payload for a stage, under a fresh `rag` entry.
abbrev with_rag_stage : RuntimeStage → Dict → Dict → Dict
with_rag_stage stage payload runtime_context =
    put "rag"
      (object (
        entry "enabled" (bool true) (
          entry "stages"
            (object (put (stage_value stage) (object payload) (rag_stages runtime_context)))
            empty)))
      runtime_context

abbrev output_or : Option Dict → Dict
output_or none = empty
output_or (some d) = d

-- `apply_grounding`
unfoldable pub apply_grounding :
    RuntimeWorkflowState → RagGroundingResult → Bool → RuntimeWorkflowState
unfolding rag_stages
apply_grounding state result include_stage_output = record state {
  runtime_context =
      with_rag_stage result.stage
        (entry "stage" (text (stage_value result.stage)) (
          entry "query_label" (text result.query_label) (
            entry "result_count" (number result.result_count)
              (entry "citations" (array result.citations) empty))))
        state.runtime_context;
  outputs =
      put "evidence"
        (object (
          put (stage_value result.stage) (array result.citations)
            (dict_output (get "evidence" state.outputs))))
        state.outputs;
  stage_outputs =
      if include_stage_output
      then put_output result.stage
          (put "evidence_query_label" (text result.query_label) (
            put "evidence_count" (number result.result_count) (
              put "evidence" (array result.citations)
                (output_or (output_of result.stage state.stage_outputs)))))
          state.stage_outputs
      else state.stage_outputs;
}

-- `failure_context`
unfoldable pub failure_context : RuntimeWorkflowState → RuntimeStage → String → RuntimeWorkflowState
unfolding rag_stages
failure_context state stage error_type = record state {
  runtime_context =
      with_rag_stage stage
        (entry "stage" (text (stage_value stage)) (
          entry "status" (text "failed") (
            entry "result_count" (number 0)
              (entry "error_type" (text (take_text 120 error_type)) empty))))
        state.runtime_context;
}

-- The texts under a key of the citations.
abbrev texts_under : String → Items → List String
texts_under k nil = []
texts_under k (cons v vs) = with_text (get k (dict_output (some v))) (texts_under k vs)
  where
    with_text : Option Json → List String → List String
    with_text (some (text s)) ss = s ∷ ss
    with_text _ ss = ss

abbrev distinct : List String → List String
distinct [] = []
distinct (s ∷ ss) = let rest = distinct ss in if any (λ t. t == s) rest then rest else s ∷ rest

-- `event_payload`
unfoldable pub event_payload : RagAdapter → RagGroundingResult → Dict
unfolding sorted
event_payload A result = entry "stage" (text (stage_value result.stage)) (
    entry "top_k" (number A.top_k) (
      entry "result_count" (number result.result_count) (
        entry "citation_ids" (array (texts (texts_under "citation_id" result.citations))) (
          entry "source_types"
            (array (texts (sorted (distinct (texts_under "source_type" result.citations)))))
            (entry "query_label" (text result.query_label) empty)))))
