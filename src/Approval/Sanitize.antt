-- ===== src/Approval/Sanitize.antt =====
-- Which metadata keys are dropped before a record or an event is written: the recursive filter of
-- backend/app/approvals/service.py and the flat one of backend/app/runtime/service.py.
-- `lower` is Python's `str.lower`.
use package.text.Mathlib.Text.{find?}
use mathlib.Core.Path.{ap₂}
use graduation_project.Prelude.{
  ◌≡◌, ◌↔◌, refl, ap, sym, ◌∙◌, String, and_left, and_right, Bool, true, false, not, ◌&&◌, none,
  some, List, [], ◌∷◌, any, arith, eq_iff, if◌then◌else◌, Bool-cases, inl, inr,
}
use graduation_project.Json.{
  Json, Items, Dict, null, bool, number, text, array, object, opaque, nil, cons, empty, entry, get,
}

abbrev pub sensitive_key_parts : List String
sensitive_key_parts =
    "api_key" ∷ "apikey" ∷ "authorization" ∷ "password" ∷ "provider_payload"
    ∷ "raw_provider_payload" ∷ "request_payload" ∷ "secret" ∷ "state_payload" ∷ "token" ∷ []

-- `part in normalized`
abbrev occurs_in : String → String → Bool
occurs_in normalized part = elim (find? normalized part) [ none ↦ false | some _ ↦ true ]

module _ (lower : String → String) where
  -- `_is_sensitive_key` and `_is_sensitive_resume_key`, which are the same test.
  unfoldable pub is_sensitive_key : String → Bool
  is_sensitive_key key = any (occurs_in (lower key)) sensitive_key_parts

  -- `_sanitize_json_value` and `_sanitize_json_mapping`
  unfoldable mutual
    pub sanitize_json_value : Json → Json
    sanitize_json_value (object d) = object (sanitize_json_mapping d)
    sanitize_json_value (array xs) = array (sanitize_items xs)
    sanitize_json_value null = null
    sanitize_json_value (bool b) = bool b
    sanitize_json_value (number n) = number n
    sanitize_json_value (text s) = text s
    sanitize_json_value (opaque n) = opaque n

    pub sanitize_items : Items → Items
    sanitize_items nil = nil
    sanitize_items (cons x xs) = cons (sanitize_json_value x) (sanitize_items xs)

    pub sanitize_json_mapping : Dict → Dict
    sanitize_json_mapping empty = empty
    sanitize_json_mapping (entry k v d) =
        let rest = sanitize_json_mapping d in
        if is_sensitive_key k then rest else entry k (sanitize_json_value v) rest

  -- `_safe_resume_metadata`
  unfoldable pub safe_resume_metadata : Dict → Dict
  safe_resume_metadata empty = empty
  safe_resume_metadata (entry k v d) =
      let rest = safe_resume_metadata d in if is_sensitive_key k then rest else entry k v rest

  -- No sensitive key stands anywhere in a value, at whatever depth.
  unfoldable mutual
    pub is_clean : Json → Bool
    is_clean (object d) = is_clean_dict d
    is_clean (array xs) = is_clean_items xs
    is_clean _ = true

    pub is_clean_items : Items → Bool
    is_clean_items nil = true
    is_clean_items (cons x xs) = is_clean x && is_clean_items xs

    pub is_clean_dict : Dict → Bool
    is_clean_dict empty = true
    is_clean_dict (entry k v d) = not (is_sensitive_key k) && (is_clean v && is_clean_dict d)

  mutual
    unfolding sanitize_json_value is_clean

    value_clean : (v : Json) → is_clean (sanitize_json_value v) ≡ true
    value_clean (object d) = dict_clean d
    value_clean (array xs) = items_clean xs
    value_clean null = refl
    value_clean (bool b) = refl
    value_clean (number n) = refl
    value_clean (text s) = refl
    value_clean (opaque n) = refl

    items_clean : (xs : Items) → is_clean_items (sanitize_items xs) ≡ true
    items_clean nil = refl
    items_clean (cons x xs) = ground (arith, value_clean x, items_clean xs)

    dict_clean : (d : Dict) → is_clean_dict (sanitize_json_mapping d) ≡ true
    dict_clean empty = refl
    dict_clean (entry k v d) = ground (arith, value_clean v, dict_clean d)

  kept_entry :
      (k : String) (v : Json) (d : Dict)
      → not (is_sensitive_key k) ≡ true
      → sanitize_json_value v ≡ v
      → sanitize_json_mapping d ≡ d
      → sanitize_json_mapping (entry k v d) ≡ entry k v d
  unfolding sanitize_json_value
  kept_entry k v d plain hv hd = elim (Bool-cases (is_sensitive_key k)) [
    | inl sensitive ↦ cc (rw sensitive at plain)
    | inr other ↦ rw other (ap₂ (entry k) hv hd)
  ]

  mutual
    unfolding sanitize_json_value is_clean

    value_kept : (v : Json) → is_clean v ≡ true → sanitize_json_value v ≡ v
    value_kept (object d) h = ap object (dict_kept d h)
    value_kept (array xs) h = ap array (items_kept xs h)
    value_kept null h = refl
    value_kept (bool b) h = refl
    value_kept (number n) h = refl
    value_kept (text s) h = refl
    value_kept (opaque n) h = refl

    items_kept : (xs : Items) → is_clean_items xs ≡ true → sanitize_items xs ≡ xs
    items_kept nil h = refl
    items_kept (cons x xs) h =
        ap₂ cons (value_kept x (and_left _ _ h)) (items_kept xs (and_right _ _ h))

    dict_kept : (d : Dict) → is_clean_dict d ≡ true → sanitize_json_mapping d ≡ d
    dict_kept empty h = refl
    dict_kept (entry k v d) h =
        kept_entry k v d (and_left _ _ h) (value_kept v (and_left _ _ (and_right _ _ h)))
          (dict_kept d (and_right _ _ (and_right _ _ h)))

  clean_kept : (d : Dict) → sanitize_json_mapping d ≡ d → is_clean_dict d ≡ true
  clean_kept d h = sym (ap is_clean_dict h) ∙ dict_clean d

  -- What is written of a decision's metadata holds no sensitive key at any depth, and exactly the
  -- metadata that holds none is written as it is.
  pub sanitize_json_mapping_lem :
      (d : Dict)
      → (is_clean_dict (sanitize_json_mapping d) ≡ true)
        × ((is_clean_dict d ≡ true) ↔ (sanitize_json_mapping d ≡ d))
  sanitize_json_mapping_lem d = (dict_clean d, (dict_kept d, clean_kept d))

  -- The filter of resume requests looks at the top level alone: a key that is not sensitive keeps
  -- its value whole, with whatever sensitive keys it holds, where the filter of decisions cleans it.
  pub resume_metadata_leaks :
      (k : String) (inner : Dict) (d : Dict)
      → is_sensitive_key k ≡ false
      → is_clean_dict inner ≡ false
      → (get k (safe_resume_metadata (entry k (object inner) d)) ≡ some (object inner))
        × (is_clean_dict (safe_resume_metadata (entry k (object inner) d)) ≡ false)
        × (get k (sanitize_json_mapping (entry k (object inner) d))
            ≡ some (object (sanitize_json_mapping inner)))
  unfolding safe_resume_metadata sanitize_json_value is_clean
  resume_metadata_leaks k inner d plain dirty = ground (arith, eq_iff k k)
