-- ===== src/Knowledge/Progress.antt =====
-- The turns of the loop of `_split_text` (backend/app/knowledge/chunking.py).
use graduation_project.Prelude.{
  ℕ, zero, suc, ◌+◌, ◌-◌, ◌≤◌, ◌<◌, ◌≡◌, refl, Bool, true, ◌&&◌, Option, none, some, [], ◌∷◌,
  length, drop, ltb, leb, arith, inl, inr, Bool-cases, leb→le, leb→gt, and_left,
}
use graduation_project.Knowledge.Chunking.{
  Str, ChunkingConfig, is_valid_config, is_break, last_break, rfind_break, end_or, skip,
  skip_leading_whitespace, chunk_end, next_start, min,
}

last_break-some : (text : Str) (lo n i : ℕ) → last_break text lo n ≡ some i → (lo ≤ i) × (i < n)
unfolding last_break
last_break-some text lo zero i h = cc
last_break-some text lo (suc n) i h = elim (Bool-cases (leb lo n && is_break (drop n text))) [
  | inl here ↦ ground (arith, leb→le lo n (and_left _ _ here), rw here at h)
  | inr earlier ↦
      let (low, high) = last_break-some text lo n i (rw earlier at h) in (low, omega arith)
]

valid_positive :
    (config : ChunkingConfig)
    → is_valid_config config ≡ true
    → (1 ≤ config.max_chunk_chars) × (1 ≤ config.min_chunk_chars)
valid_positive config valid = ground arith

limit_lem :
    (start m len : ℕ)
    → 1 ≤ m
    → start < len
    → (start < min (start + m) len)
      × (min (start + m) len ≤ start + m)
      × (min (start + m) len ≤ len)
limit_lem start m len h k = ground arith

broken_end :
    (start lo e m len : ℕ) (o : Option ℕ)
    → start < lo
    → (start < e) × (e ≤ start + m) × (e ≤ len)
    → ((i : ℕ) → o ≡ some i → (lo ≤ i) × (i < e - 1))
    → let end = end_or e o in (start < end) × (end ≤ start + m) × (end ≤ len)
broken_end start lo e m len none h limit between = limit
broken_end start lo e m len (some i) h (above, within, inside) between =
    let (low, high) = between i refl in (omega arith, omega arith, omega arith)

module _ (is_space : ℕ → Bool) where
  skip-le : (cs : Str) (start : ℕ) → start ≤ skip is_space cs start
  skip-le [] start = omega arith
  skip-le (c ∷ cs) start = ground (arith, skip-le cs (suc start))

  module _ (config : ChunkingConfig) (text : Str) where
    -- A chunk is not empty, within the limit, and within the text.
    pub chunk_end_lem :
        (start : ℕ)
        → is_valid_config config ≡ true
        → start < length text
        → let end = chunk_end is_space config text start in
          (start < end) × (end ≤ start + config.max_chunk_chars) × (end ≤ length text)
    unfolding chunk_end
    chunk_end_lem start valid inside =
        let (some_max, some_min) = valid_positive config valid in
        let e = min (start + config.max_chunk_chars) (length text) in
        let limit = limit_lem start config.max_chunk_chars (length text) some_max inside in
        let lo = start + config.min_chunk_chars in
        elim (Bool-cases (ltb e (length text))) [
          | inr at_end ↦ rw at_end limit
          | inl before ↦ rw before (
              broken_end start lo e config.max_chunk_chars (length text) (rfind_break text lo e)
                (omega arith) limit (λ i h. last_break-some text lo (e - 1) i h))
        ]

    pub next_start_lt :
        (start end : ℕ) → start < end → start < next_start is_space config text start end
    unfolding next_start skip_leading_whitespace
    next_start_lt start end h = elim (Bool-cases (leb (end - config.chunk_overlap_chars) start)) [
      | inl back ↦ rw back (omega (arith, skip-le (drop end text) end))
      | inr on ↦
          let from = end - config.chunk_overlap_chars in
          rw on (omega (arith, skip-le (drop from text) from, leb→gt from start on))
    ]
