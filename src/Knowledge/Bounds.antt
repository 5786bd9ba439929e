-- ===== src/Knowledge/Bounds.antt =====
-- The end of `_split_text` (backend/app/knowledge/chunking.py), and the sizes of its chunks.
use graduation_project.Prelude.{
  ℕ, zero, suc, ◌+◌, ◌-◌, ◌≤◌, ◌<◌, ◌≡◌, refl, Bool, true, ◌&&◌, some, List, [], ◌∷◌, length, drop,
  ltb, leb, arith, inl, inr, Bool-cases, leb→le, ltb→lt, and_right, length-take, length-append, All,
  All-append,
}
use graduation_project.Knowledge.Chunking.{
  Str, ChunkingConfig, is_valid_config, slice, strip, strip_left, strip_right, push, append_chunk,
  joined, merge_tiny_final_chunk, chunk_end, next_start, split_loop, split_text,
}
use graduation_project.Knowledge.Progress.{chunk_end_lem, next_start_lt}

module _ (is_space : ℕ → Bool) where
  length-strip_left : (cs : Str) → length (strip_left is_space cs) ≤ length cs
  length-strip_left [] = omega arith
  length-strip_left (c ∷ cs) = ground (arith, length-strip_left cs)

  length-push : (c : ℕ) (cs : Str) → length (push is_space c cs) ≤ suc (length cs)
  length-push c [] = ground arith
  length-push c (d ∷ ds) = omega arith

  length-strip_right : (cs : Str) → length (strip_right is_space cs) ≤ length cs
  length-strip_right [] = omega arith
  length-strip_right (c ∷ cs) =
      omega (arith, length-push c (strip_right is_space cs), length-strip_right cs)

  length-strip : (text : Str) → length (strip is_space text) ≤ length text
  unfolding strip
  length-strip text =
      omega (arith, length-strip_right (strip_left is_space text), length-strip_left text)

  module _ (config : ChunkingConfig) where
    -- A chunk that the schema of chunks accepts under a configuration.
    abbrev pub IsBounded : Str → Type 0
    IsBounded chunk = (1 ≤ length chunk) × (length chunk ≤ config.max_chunk_chars)

    append_chunk-All :
        (chunks : List Str) (chunk : Str)
        → All IsBounded chunks
        → length chunk ≤ config.max_chunk_chars
        → All IsBounded (append_chunk is_space chunks chunk)
    append_chunk-All chunks [] h k = h
    append_chunk-All chunks (c ∷ cs) h k =
        All-append IsBounded chunks ((c ∷ cs) ∷ []) h ((omega arith, k), tt)

    merge-All :
        (chunks : List Str)
        → All IsBounded chunks
        → All IsBounded (merge_tiny_final_chunk is_space config chunks)
    unfolding merge_tiny_final_chunk
    merge-All [] h = h
    merge-All (x ∷ []) h = h
    merge-All (x ∷ y ∷ []) h =
        elim (Bool-cases (
          ltb (length y) config.min_chunk_chars
          && leb (length (joined is_space config x y)) config.max_chunk_chars)) [
            | inl tiny ↦ rw tiny (
              (
                omega (arith, h.0.0, length-append x (10 ∷ 10 ∷ y)),
                leb→le _ config.max_chunk_chars (and_right _ _ tiny),
              ),
              tt,
            )
            | inr large ↦ rw large h
          ]
    merge-All (x ∷ y ∷ z ∷ rest) h = (h.0, merge-All (y ∷ z ∷ rest) h.1)

    module _ (text : Str) where
      loop_lem :
          (fuel start : ℕ) (chunks : List Str)
          → is_valid_config config ≡ true
          → 1 ≤ fuel
          → length text < fuel + start
          → All IsBounded chunks
          → (result : List Str) × (split_loop is_space config text fuel start chunks ≡ some result)
            × All IsBounded result
      unfolding split_loop
      loop_lem zero start chunks valid some_fuel enough h = absurd (omega arith)
      loop_lem (suc fuel) start chunks valid some_fuel enough h =
          let end = chunk_end is_space config text start in
          let longer : List Str =
            append_chunk is_space chunks (strip is_space (slice text start end)) in
          elim (Bool-cases (ltb start (length text))) [
            | inr past ↦ (chunks, rw past refl, h)
            | inl inside ↦
                let (onward, within, in_text) =
                  chunk_end_lem is_space config text start valid
                    (ltb→lt start (length text) inside) in
                let forward = next_start_lt is_space config text start end onward in
                let bounded : All IsBounded longer =
                  append_chunk-All chunks (strip is_space (slice text start end)) h (
                    omega (
                      arith,
                      length-strip (slice text start end),
                      length-take (end - start) (drop start text),
                    )) in
                elim (Bool-cases (leb (length text) end)) [
                  | inl last ↦ (longer, rw (inside, last) refl, bounded)
                  | inr on ↦
                      let (result, ends, all_bounded) =
                        loop_lem fuel (next_start is_space config text start end) longer valid
                          (omega (arith, ltb→lt start (length text) inside))
                          (omega (arith, forward)) bounded in
                      (result, rw (inside, on) ends, all_bounded)
                ]
          ]

      -- Under a valid configuration the splitting of a text ends, and every chunk has at least one
      -- and at most max_chunk_chars characters, also where the last two were merged.
      pub split_text-IsBounded :
          is_valid_config config ≡ true
          → (chunks : List Str) × (split_text is_space config text ≡ some chunks)
            × All IsBounded chunks
      unfolding split_text
      split_text-IsBounded valid =
          let (result, ends, bounded) =
            loop_lem (length text + 1) 0 [] valid (omega arith) (omega arith) tt in
          (merge_tiny_final_chunk is_space config result, rw ends refl, merge-All result bounded)
