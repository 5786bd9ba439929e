-- ===== src/Runtime/Texts.antt =====
-- The methods of Python's `str` that backend/app/runtime calls.
use Prim.Native.Char.{code}
use Prim.Native.String
use graduation_project.Prelude.{
  ℕ, zero, suc, String, Bool, ◌&&◌, ◌||◌, List, [], ◌∷◌, nat_eq, leb, ◌==◌, if◌then◌else◌,
}

-- The characters that `str.isspace` knows, by code point.
abbrev pub is_space : ℕ → Bool
is_space c =
    (leb 9 c && leb c 13)
    || (leb 28 c && leb c 32)
    || nat_eq c 133
    || nat_eq c 160
    || nat_eq c 5760
    || (leb 8192 c && leb c 8202)
    || nat_eq c 8232
    || nat_eq c 8233
    || nat_eq c 8239
    || nat_eq c 8287
    || nat_eq c 12288

abbrev pub strip_left : String → String
strip_left String.[] = ""
strip_left (String.◌∷◌ c s) = if is_space (code c) then strip_left s else String.◌∷◌ c s

abbrev pub strip_right : String → String
strip_right String.[] = ""
strip_right (String.◌∷◌ c s) =
    let rest = strip_right s in if is_space (code c) && (rest == "") then "" else String.◌∷◌ c rest

-- `value.strip()`
unfoldable pub strip : String → String
strip s = strip_right (strip_left s)

-- `value.replace("-", "_")`
unfoldable pub underscored : String → String
underscored String.[] = ""
underscored (String.◌∷◌ c s) = String.◌∷◌ (if nat_eq (code c) b'-' then "_" else c) (underscored s)

-- `value[:n]`
abbrev pub take_text : ℕ → String → String
take_text zero s = ""
take_text (suc n) String.[] = ""
take_text (suc n) (String.◌∷◌ c s) = String.◌∷◌ c (take_text n s)

abbrev add_word : String → List String → List String
add_word w ws = if w == "" then ws else w ∷ ws

-- The first word, which may be empty, and the words after it.
abbrev split_first : String → String × List String
split_first String.[] = ("", [])
split_first (String.◌∷◌ c s) =
    let (w, ws) = split_first s in
    if is_space (code c) then ("", add_word w ws) else (String.◌∷◌ c w, ws)

-- `" ".join(words)`
abbrev join : List String → String
join [] = ""
join (w ∷ []) = w
join (w ∷ v ∷ ws) = String.◌++◌ w (String.◌++◌ " " (join (v ∷ ws)))

-- `_bounded_query_part`, whose words are those of `value.split()`.
unfoldable pub bounded_query_part : ℕ → String → String
bounded_query_part limit value =
    let (w, ws) = split_first value in take_text limit (join (add_word w ws))
