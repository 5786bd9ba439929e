-- ===== src/Approval/Metadata.antt =====
-- backend/app/approvals/schemas.py: the bounds on the metadata of decisions and resume requests.
use Prim.Native.String
use graduation_project.Prelude.{
  ℕ, zero, suc, ◌+◌, ◌*◌, ◌≤◌, ◌≡◌, refl, String, Bool, true, false, Option, none, some, ◌||◌, ltb,
  nat_eq, arith, if◌then◌else◌, ltb→ge,
}
use native.Mathlib.Numerals.{add-one}
use graduation_project.Json.{
  Json, Items, Dict, null, bool, number, text, array, object, opaque, nil, cons, empty, entry, size,
  count,
}

-- The ValueErrors, in the words of their messages.
pub data MetadataError : Type 0 where
  too_many_keys too_deep text_too_long list_too_long bad_key not_json : MetadataError

abbrev pub max_approval_metadata_keys : ℕ
max_approval_metadata_keys = 20

abbrev pub max_approval_metadata_depth : ℕ
max_approval_metadata_depth = 4

abbrev pub max_approval_metadata_list_items : ℕ
max_approval_metadata_list_items = 20

abbrev pub max_approval_metadata_string_length : ℕ
max_approval_metadata_string_length = 500

abbrev raise_if : Bool → MetadataError → Option MetadataError
raise_if b e = if b then some e else none

-- One check and then the next: the first error is raised.
infixr 30 ◌then◌
abbrev ◌then◌ : Option MetadataError → Option MetadataError → Option MetadataError
none then n = n
(some e) then n = some e

abbrev bad : String → Bool
bad k = nat_eq (String.count k) 0 || ltb 100 (String.count k)

-- `_validate_json_value`; `none` is the silent return. Keys are texts by type.
unfoldable mutual
  pub validate_json_value : Json → ℕ → Option MetadataError
  validate_json_value (text s) depth =
      raise_if (ltb max_approval_metadata_depth depth) too_deep
      then raise_if (ltb max_approval_metadata_string_length (String.count s)) text_too_long
  validate_json_value null depth = raise_if (ltb max_approval_metadata_depth depth) too_deep
  validate_json_value (bool b) depth = raise_if (ltb max_approval_metadata_depth depth) too_deep
  validate_json_value (number n) depth = raise_if (ltb max_approval_metadata_depth depth) too_deep
  validate_json_value (array xs) depth =
      raise_if (ltb max_approval_metadata_depth depth) too_deep
      then raise_if (ltb max_approval_metadata_list_items (count xs)) list_too_long
      then validate_items xs (depth + 1)
  validate_json_value (object d) depth =
      raise_if (ltb max_approval_metadata_depth depth) too_deep
      then raise_if (ltb max_approval_metadata_keys (size d)) too_many_keys
      then validate_entries d (depth + 1)
  validate_json_value (opaque n) depth =
      raise_if (ltb max_approval_metadata_depth depth) too_deep then some not_json

  pub validate_items : Items → ℕ → Option MetadataError
  validate_items nil depth = none
  validate_items (cons x xs) depth = validate_json_value x depth then validate_items xs depth

  pub validate_entries : Dict → ℕ → Option MetadataError
  validate_entries empty depth = none
  validate_entries (entry k v d) depth =
      raise_if (bad k) bad_key then validate_json_value v depth then validate_entries d depth

unfoldable pub validate_json_object : Dict → Option MetadataError
unfolding validate_json_value
validate_json_object value =
    raise_if (ltb max_approval_metadata_keys (size value)) too_many_keys
    then validate_json_value (object value) 0

-- The number of scalar values in a value, and how deep it is nested.
mutual
  pub scalars : Json → ℕ
  scalars (array xs) = scalars_items xs
  scalars (object d) = scalars_dict d
  scalars _ = 1

  pub scalars_items : Items → ℕ
  scalars_items nil = 0
  scalars_items (cons x xs) = scalars x + scalars_items xs

  pub scalars_dict : Dict → ℕ
  scalars_dict empty = 0
  scalars_dict (entry k v d) = scalars v + scalars_dict d

-- How many scalars fit below a value at a depth.
abbrev room : ℕ → ℕ
room zero = 160000
room (suc zero) = 8000
room (suc (suc zero)) = 400
room (suc (suc (suc zero))) = 20
room (suc (suc (suc (suc zero)))) = 1
room _ = 0

room_step : (d : ℕ) → 20 * room (d + 1) ≤ room d
room_step zero = omega arith
room_step (suc zero) = omega arith
room_step (suc (suc zero)) = omega arith
room_step (suc (suc (suc zero))) = omega arith
room_step (suc (suc (suc (suc zero)))) = omega arith
room_step (suc (suc (suc (suc (suc d))))) = rw add-one (omega arith)

room_pos : (d : ℕ) → d ≤ 4 → 1 ≤ room d
room_pos zero h = omega arith
room_pos (suc zero) h = omega arith
room_pos (suc (suc zero)) h = omega arith
room_pos (suc (suc (suc zero))) h = omega arith
room_pos (suc (suc (suc (suc zero)))) h = omega arith
room_pos (suc (suc (suc (suc (suc d))))) h = absurd (omega arith)

fits : (n s d : ℕ) → n ≤ 20 → s ≤ n * room (d + 1) → s ≤ room d
fits n s d h k = grind (arith, room_step d)

-- A check that is passed.
then-none : (a b : Option MetadataError) → (a then b) ≡ none → (a ≡ none) × (b ≡ none)
then-none none b h = (refl, h)
then-none (some e) b h = cc

raise_if-none : (b : Bool) (e : MetadataError) → raise_if b e ≡ none → b ≡ false
raise_if-none true e h = cc
raise_if-none false e h = refl

within : (n m : ℕ) (e : MetadataError) → raise_if (ltb m n) e ≡ none → n ≤ m
within n m e h = ltb→ge m n (raise_if-none (ltb m n) e h)

mutual
  unfolding validate_json_value scalars

  scalars-le : (v : Json) (d : ℕ) → validate_json_value v d ≡ none → scalars v ≤ room d
  scalars-le null d h = ground (arith, room_pos d)
  scalars-le (bool b) d h = ground (arith, room_pos d)
  scalars-le (number n) d h = ground (arith, room_pos d)
  scalars-le (text s) d h = ground (arith, room_pos d)
  scalars-le (opaque n) d h = ground arith
  scalars-le (array xs) d h =
      let (deep, rest) = then-none _ _ h in
      let (long, items) = then-none _ _ rest in
      fits (count xs) (scalars_items xs) d (within _ _ _ long) (scalars_items-le xs (d + 1) items)
  scalars-le (object e) d h =
      let (deep, rest) = then-none _ _ h in
      let (long, entries) = then-none _ _ rest in
      fits (size e) (scalars_dict e) d (within _ _ _ long) (scalars_dict-le e (d + 1) entries)

  scalars_items-le :
      (xs : Items) (d : ℕ) → validate_items xs d ≡ none → scalars_items xs ≤ count xs * room d
  scalars_items-le nil d h = omega arith
  scalars_items-le (cons x xs) d h =
      let parts = then-none (validate_json_value x d) (validate_items xs d) h in
      omega (arith, scalars-le x d parts.0, scalars_items-le xs d parts.1)

  scalars_dict-le :
      (e : Dict) (d : ℕ) → validate_entries e d ≡ none → scalars_dict e ≤ size e * room d
  scalars_dict-le empty d h = omega arith
  scalars_dict-le (entry k v e) d h =
      let parts =
        then-none (validate_json_value v d) (validate_entries e d)
          (then-none (raise_if (bad k) bad_key) _ h).1 in
      omega (arith, scalars-le v d parts.0, scalars_dict-le e d parts.1)

-- Accepted metadata is bounded as a whole: it holds at most 20 ^ 4 scalar values.
pub scalars-validate_json_object :
    (value : Dict) → validate_json_object value ≡ none → scalars_dict value ≤ 160000
unfolding validate_json_object scalars
scalars-validate_json_object value h = scalars-le (object value) 0 (then-none _ _ h).1
