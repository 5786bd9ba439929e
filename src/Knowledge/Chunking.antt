-- ===== src/Knowledge/Chunking.antt =====
-- backend/app/knowledge/chunking.py: `_split_text` and its helpers, with the `ChunkingConfig` of
-- schemas.py. A text is the list of its code points; `is_space` is Python's `str.isspace`.
use graduation_project.Prelude.{
  ℕ, zero, suc, ◌+◌, ◌-◌, Bool, false, ◌&&◌, Option, none, some, List, [], ◌∷◌, ◌++◌, length, take,
  drop, ltb, leb, nat_eq, if◌then◌else◌,
}

abbrev pub Str : Type 0
Str = List ℕ

pub record ChunkingConfig : Type 0 where
  pub max_chunk_chars : ℕ
  pub chunk_overlap_chars : ℕ
  pub min_chunk_chars : ℕ

abbrev pub max_chunk_text_chars : ℕ
max_chunk_text_chars = 8000

-- The bounds of the fields, and `validate_chunking_bounds`.
abbrev pub is_valid_config : ChunkingConfig → Bool
is_valid_config config =
    leb 100 config.max_chunk_chars
    && leb config.max_chunk_chars max_chunk_text_chars
    && leb config.chunk_overlap_chars max_chunk_text_chars
    && leb 1 config.min_chunk_chars
    && leb config.min_chunk_chars max_chunk_text_chars
    && ltb config.chunk_overlap_chars config.max_chunk_chars
    && leb config.min_chunk_chars config.max_chunk_chars

-- `text[start:end]`
abbrev pub slice : Str → ℕ → ℕ → Str
slice text start end = take (end - start) (drop start text)

abbrev pub min : ℕ → ℕ → ℕ
min a b = if leb a b then a else b

abbrev pub is_break : Str → Bool
is_break (c ∷ d ∷ rest) = nat_eq c 10 && nat_eq d 10
is_break _ = false

-- The last break that starts at `start` or later and below the given position.
unfoldable pub last_break : Str → ℕ → ℕ → Option ℕ
last_break text start zero = none
last_break text start (suc n) =
    let earlier = last_break text start n in
    if leb start n && is_break (drop n text) then some n else earlier

-- `text.rfind("\n\n", start, end)`, which is -1 where this is `none`: both newlines lie below `end`.
abbrev pub rfind_break : Str → ℕ → ℕ → Option ℕ
rfind_break text start end = last_break text start (end - 1)

abbrev pub end_or : ℕ → Option ℕ → ℕ
end_or end none = end
end_or end (some paragraph_boundary) = paragraph_boundary

module _ (is_space : ℕ → Bool) where
  abbrev pub strip_left : Str → Str
  strip_left [] = []
  strip_left (c ∷ cs) = let rest = strip_left cs in if is_space c then rest else c ∷ cs

  abbrev pub push : ℕ → Str → Str
  push c [] = if is_space c then [] else c ∷ []
  push c (d ∷ ds) = c ∷ d ∷ ds

  abbrev pub strip_right : Str → Str
  strip_right [] = []
  strip_right (c ∷ cs) = push c (strip_right cs)

  -- `str.strip`
  unfoldable pub strip : Str → Str
  strip text = strip_right (strip_left text)

  abbrev pub skip : Str → ℕ → ℕ
  skip [] start = start
  skip (c ∷ cs) start = let later = skip cs (suc start) in if is_space c then later else start

  unfoldable pub skip_leading_whitespace : Str → ℕ → ℕ
  skip_leading_whitespace text start = skip (drop start text) start

  abbrev pub append_chunk : List Str → Str → List Str
  append_chunk chunks [] = chunks
  append_chunk chunks (c ∷ cs) = chunks ++ (c ∷ cs) ∷ []

  module _ (config : ChunkingConfig) where
    abbrev pub joined : Str → Str → Str
    joined previous_chunk final_chunk = previous_chunk ++ 10 ∷ 10 ∷ final_chunk

    unfoldable pub merge_tiny_final_chunk : List Str → List Str
    merge_tiny_final_chunk [] = []
    merge_tiny_final_chunk (x ∷ []) = x ∷ []
    merge_tiny_final_chunk (x ∷ y ∷ []) =
        if ltb (length y) config.min_chunk_chars && leb (length (joined x y)) config.max_chunk_chars
        then joined x y ∷ []
        else x ∷ y ∷ []
    merge_tiny_final_chunk (x ∷ y ∷ z ∷ rest) = x ∷ merge_tiny_final_chunk (y ∷ z ∷ rest)

    module _ (text : Str) where
      -- Where the chunk ends that begins at `start`.
      unfoldable pub chunk_end : ℕ → ℕ
      chunk_end start =
          let end = min (start + config.max_chunk_chars) (length text) in
          if ltb end (length text)
          then end_or end (rfind_break text (start + config.min_chunk_chars) end)
          else end

      unfoldable pub next_start : ℕ → ℕ → ℕ
      next_start start end = skip_leading_whitespace text (
          if leb (end - config.chunk_overlap_chars) start
          then end
          else end - config.chunk_overlap_chars)

      -- The loop of `_split_text`, on fuel; `none` is the loop cut short.
      unfoldable pub split_loop : ℕ → ℕ → List Str → Option (List Str)
      split_loop zero start chunks = none
      split_loop (suc fuel) start chunks =
          let end = chunk_end start in
          let longer = append_chunk chunks (strip (slice text start end)) in
          let rest = split_loop fuel (next_start start end) longer in
          if ltb start (length text)
          then if leb (length text) end then some longer else rest
          else some chunks

      abbrev pub merged : Option (List Str) → Option (List Str)
      merged none = none
      merged (some chunks) = some (merge_tiny_final_chunk chunks)

      unfoldable pub split_text : Option (List Str)
      split_text = merged (split_loop (length text + 1) 0 [])
