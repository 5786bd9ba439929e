-- ===== src/Knowledge/Examples.antt =====
-- Splitting at a text of three paragraphs.
use graduation_project.Prelude.{
  ℕ, zero, suc, Bool, ◌||◌, ◌≡◌, refl, some, List, ◌∷◌, [], ◌++◌, All, nat_eq,
}
use graduation_project.Knowledge.Chunking.{Str, ChunkingConfig, split_text}
use graduation_project.Knowledge.Bounds.{IsBounded, split_text-IsBounded}

abbrev blank : ℕ → Bool
blank c = nat_eq c 10 || nat_eq c 32

abbrev config : ChunkingConfig
config = record { max_chunk_chars = 100; chunk_overlap_chars = 10; min_chunk_chars = 5 }

abbrev letters : ℕ → Str
letters zero = []
letters (suc n) = 97 ∷ letters n

abbrev essay : Str
essay = letters 60 ++ 10 ∷ 10 ∷ letters 60 ++ 10 ∷ 10 ∷ letters 30

split_text-IsBounded_example :
    (chunks : List Str) × (split_text blank config essay ≡ some chunks)
    × All (IsBounded blank config) chunks
split_text-IsBounded_example = split_text-IsBounded blank config essay refl
