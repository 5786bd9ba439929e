-- ===== src/Runtime/Evidence.antt =====
-- backend/app/runtime/rag_adapter.py: how much evidence a stage is given.
use Prim.Native.Char.{Char, code}
use Prim.Native.String
use graduation_project.Prelude.{
  ℕ, zero, suc, ◌+◌, ◌-◌, ◌≤◌, String, Bool, true, false, ◌&&◌, List, [], ◌∷◌, length, length-take,
  take, leb, arith, ◌==◌, if◌then◌else◌,
}
use graduation_project.Runtime.Texts.{strip, take_text, strip_left, strip_right, is_space}
use graduation_project.Runtime.Rag.{
  KnowledgeCitation, RagAdapter, evidence_loop, evidence_for_results,
}

count-take_text : (n : ℕ) (s : String) → String.count (take_text n s) ≤ n
count-take_text zero s = omega (arith, String.count.nil)
count-take_text (suc n) String.[] = omega (arith, String.count.nil)
count-take_text (suc n) (String.◌∷◌ c s) =
    omega (arith, String.count.cons c (take_text n s), count-take_text n s)

count-strip_left : (s : String) → String.count (strip_left s) ≤ String.count s
count-strip_left String.[] = omega arith
count-strip_left (String.◌∷◌ c s) = ground (arith, String.count.cons c s, count-strip_left s)

kept_char :
    (b : Bool) (c : Char) (s : String)
    → String.count (if b then "" else String.◌∷◌ c s) ≤ suc (String.count s)
kept_char true c s = omega (arith, String.count.nil)
kept_char false c s = omega (arith, String.count.cons c s)

count-strip_right : (s : String) → String.count (strip_right s) ≤ String.count s
count-strip_right String.[] = omega arith
count-strip_right (String.◌∷◌ c s) = omega (
  arith,
  String.count.cons c s,
  kept_char (is_space (code c) && (strip_right s == "")) c (strip_right s),
  count-strip_right s,
)

count-strip : (s : String) → String.count (strip s) ≤ String.count s
unfolding strip
count-strip s = omega (arith, count-strip_left s, count-strip_right (strip_left s))

abbrev pub total : List (KnowledgeCitation × String) → ℕ
total [] = 0
total ((c, excerpt) ∷ rest) = String.count excerpt + total rest

step-total :
    (spent blank : Bool) (n k : ℕ) (c : KnowledgeCitation) (excerpt : String)
    (rest : List (KnowledgeCitation × String))
    → String.count excerpt ≤ n
    → total rest ≤ n - String.count excerpt
    → length rest ≤ k
    → let kept : List (KnowledgeCitation × String) =
        if spent then [] else if blank then rest else (c, excerpt) ∷ rest in
      (total kept ≤ n) × (length kept ≤ suc k)
step-total true blank n k c excerpt rest fits chars many = (omega arith, omega arith)
step-total false true n k c excerpt rest fits chars many =
    (omega (arith, chars), omega (arith, many))
step-total false false n k c excerpt rest fits chars many =
    (omega (arith, fits, chars), omega (arith, many))

loop-total :
    (n : ℕ) (cs : List KnowledgeCitation)
    → (total (evidence_loop n cs) ≤ n) × (length (evidence_loop n cs) ≤ length cs)
unfolding evidence_loop
loop-total n [] = (omega arith, omega arith)
loop-total n (c ∷ cs) =
    let excerpt : String = strip (take_text n c.excerpt) in
    let (chars, many) = loop-total (n - String.count excerpt) cs in
    step-total (leb n 0) (excerpt == "") n (length cs) c excerpt _
      (omega (arith, count-strip (take_text n c.excerpt), count-take_text n c.excerpt)) chars many

-- The excerpts that a stage is given have at most `max_context_chars` characters together, and there
-- are at most `top_k` of them.
pub evidence_for_results-bounded :
    (A : RagAdapter) (results : List KnowledgeCitation)
    → (total (evidence_for_results A results) ≤ A.max_context_chars)
      × (length (evidence_for_results A results) ≤ A.top_k)
unfolding evidence_for_results
evidence_for_results-bounded A results =
    let (chars, many) = loop-total A.max_context_chars (take A.top_k results) in
    (chars, omega (arith, many, length-take A.top_k results))
