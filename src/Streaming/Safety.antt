-- ===== src/Streaming/Safety.antt =====
-- What clients of the event stream can be sent (backend/app/streaming/schemas.py).
use graduation_project.Prelude.{
  ℕ, zero, suc, ◌+◌, ◌≤◌, ◌≡◌, refl, ap, String, Bool, true, false, ◌&&◌, not, Option, none, some,
  leb, arith, inl, inr, Bool-cases, Option-cases, ◌==◌, if◌then◌else◌, and_left, and_both,
  and_right,
}
use mathlib.Core.Path.{subst}
use graduation_project.Json.{
  Json, Items, Dict, null, bool, number, text, array, object, opaque, nil, cons, empty, entry, put,
  size, count, is_empty,
}
use graduation_project.Schema.{Time, WorkflowEvent}
use graduation_project.Runtime.Texts.{take_text}
use graduation_project.Streaming.{
  max_payload_depth, max_payload_items, max_list_items, max_string_length,
  WorkflowEventStreamMessage, is_unsafe_payload_key, keep, sanitize_value, sanitize_entries,
  sanitize_sequence, sanitize_mapping, sanitize_stream_payload, workflow_event_to_stream_message,
  stream_message, is_valid_message,
}

leb_complete : {m n : ℕ} → m ≤ n → leb m n ≡ true
leb_complete h = ground (arith, h)

module _ (lower : String → String) (standard : ℕ → Option String) (str : ℕ → String) where
  -- No key is unsafe, no dictionary has more than 50 entries and no list more than 20, and what
  -- stands at depth 4 is empty.
  unfoldable mutual
    pub is_safe : Json → ℕ → Bool
    is_safe (object d) depth =
        leb (size d) max_payload_items
        && ((if leb max_payload_depth depth then is_empty d else true) && is_safe_dict d depth)
    is_safe (array xs) depth =
        leb (count xs) max_list_items
        && ((if leb max_payload_depth depth then leb (count xs) 0 else true)
            && is_safe_items xs depth)
    is_safe _ depth = true

    pub is_safe_dict : Dict → ℕ → Bool
    is_safe_dict empty depth = true
    is_safe_dict (entry k v d) depth =
        not (is_unsafe_payload_key lower k) && (is_safe v (depth + 1) && is_safe_dict d depth)

    pub is_safe_items : Items → ℕ → Bool
    is_safe_items nil depth = true
    is_safe_items (cons x xs) depth = is_safe x (depth + 1) && is_safe_items xs depth

  put-is_safe :
      (k : String) (v : Json) (d : Dict) (depth : ℕ)
      → is_unsafe_payload_key lower k ≡ false
      → is_safe v (depth + 1) ≡ true
      → is_safe_dict d depth ≡ true
      → is_safe_dict (put k v d) depth ≡ true
  unfolding is_safe
  put-is_safe k v empty depth plain hv hd = rw (plain, hv) refl
  put-is_safe k v (entry j w d) depth plain hv hd = elim (Bool-cases (j == k)) [
    | inl here ↦
        rw here
          (and_both _ _ (and_left _ _ hd) (and_both _ _ hv (and_right _ _ (and_right _ _ hd))))
    | inr other ↦ rw other (
        and_both _ _ (and_left _ _ hd) (
          and_both _ _ (and_left _ _ (and_right _ _ hd))
            (put-is_safe k v d depth plain hv (and_right _ _ (and_right _ _ hd)))))
  ]

  keep-is_safe :
      (k : String) (v : Json) (d : Dict) (depth : ℕ)
      → is_safe v (depth + 1) ≡ true
      → is_safe_dict d depth ≡ true
      → is_safe_dict (keep lower k v d) depth ≡ true
  keep-is_safe k v d depth hv hd = elim (Bool-cases (is_unsafe_payload_key lower k)) [
    | inl unsafe ↦ rw unsafe hd
    | inr plain ↦ rw plain (put-is_safe k v d depth plain hv hd)
  ]

  size-put : (k : String) (v : Json) (d : Dict) → size (put k v d) ≤ suc (size d)
  size-put k v empty = omega arith
  size-put k v (entry j w d) = elim (Bool-cases (j == k)) [
    | inl here ↦ rw here (omega arith)
    | inr other ↦ rw other (omega (arith, size-put k v d))
  ]

  size-keep : (k : String) (v : Json) (d : Dict) → size (keep lower k v d) ≤ suc (size d)
  size-keep k v d = elim (Bool-cases (is_unsafe_payload_key lower k)) [
    | inl unsafe ↦ rw unsafe (omega arith)
    | inr plain ↦ rw plain (size-put k v d)
  ]

  size-sanitize_entries :
      (d : Dict) (left depth : ℕ) (sanitized : Dict)
      → size (sanitize_entries lower standard str d left depth sanitized) ≤ size sanitized + left
  unfolding sanitize_value
  size-sanitize_entries empty left depth sanitized = omega arith
  size-sanitize_entries (entry k v d) zero depth sanitized = omega arith
  size-sanitize_entries (entry k v d) (suc left) depth sanitized =
      let v' : Json = sanitize_value lower standard str v (depth + 1) in
      let key : String = take_text max_string_length k in
      omega (
        arith,
        size-sanitize_entries d left depth (keep lower key v' sanitized),
        size-keep key v' sanitized,
      )

  count-sanitize_sequence :
      (xs : Items) (left depth : ℕ)
      → count (sanitize_sequence lower standard str xs left depth) ≤ left
  unfolding sanitize_value
  count-sanitize_sequence nil left depth = omega arith
  count-sanitize_sequence (cons x xs) zero depth = omega arith
  count-sanitize_sequence (cons x xs) (suc left) depth =
      omega (arith, count-sanitize_sequence xs left depth)

  mutual
    unfolding is_safe sanitize_value

    value_safe :
        (v : Json) (depth : ℕ) → is_safe (sanitize_value lower standard str v depth) depth ≡ true
    value_safe null depth = refl
    value_safe (bool b) depth = refl
    value_safe (number n) depth = refl
    value_safe (text s) depth = refl
    value_safe (opaque n) depth = elim (Option-cases (standard n)) [
      | inl other ↦ rw other refl
      | inr (s, known) ↦ rw known refl
    ]
    value_safe (object d) depth = elim (Bool-cases (leb max_payload_depth depth)) [
      | inl deep ↦ rw deep refl
      | inr above ↦ rw above (
          and_both _ _ (leb_complete (size-sanitize_entries d max_payload_items depth empty))
            (entries_safe d max_payload_items depth empty refl))
    ]
    value_safe (array xs) depth = elim (Bool-cases (leb max_payload_depth depth)) [
      | inl deep ↦ rw deep refl
      | inr above ↦ rw above (
          and_both _ _ (leb_complete (count-sanitize_sequence xs max_list_items depth))
            (items_safe xs max_list_items depth))
    ]

    entries_safe :
        (d : Dict) (left depth : ℕ) (sanitized : Dict)
        → is_safe_dict sanitized depth ≡ true
        → is_safe_dict (sanitize_entries lower standard str d left depth sanitized) depth ≡ true
    entries_safe empty left depth sanitized h = h
    entries_safe (entry k v d) zero depth sanitized h = h
    entries_safe (entry k v d) (suc left) depth sanitized h = entries_safe d left depth _ (
        keep-is_safe (take_text max_string_length k) _ sanitized depth (value_safe v (depth + 1)) h)

    items_safe :
        (xs : Items) (left depth : ℕ)
        → is_safe_items (sanitize_sequence lower standard str xs left depth) depth ≡ true
    items_safe nil left depth = refl
    items_safe (cons x xs) zero depth = refl
    items_safe (cons x xs) (suc left) depth =
        and_both _ _ (value_safe x (depth + 1)) (items_safe xs left depth)

  sanitize_stream_payload-is_safe :
      (d : Dict) → is_safe (object (sanitize_stream_payload lower standard str d)) 0 ≡ true
  unfolding sanitize_stream_payload sanitize_mapping sanitize_value
  sanitize_stream_payload-is_safe d = value_safe (object d) 0

  abbrev or_first :
      WorkflowEventStreamMessage → Option WorkflowEventStreamMessage → WorkflowEventStreamMessage
  or_first m none = m
  or_first m (some n) = n

  -- The message of an event, if the schema lets it through, names the event, its workflow and the
  -- sequence asked for, and its payload has no unsafe key at any depth, at most 50 entries in each
  -- dictionary and 20 in each list, and nothing in what stands at depth 4.
  pub workflow_event_to_stream_message-is_safe :
      (e : WorkflowEvent) (sequence : Option ℕ) (emitted_at : Time) (m : WorkflowEventStreamMessage)
      → workflow_event_to_stream_message lower standard str e sequence emitted_at ≡ some m
      → (is_safe (object m.payload) 0 ≡ true)
        × (m.event_id ≡ e.event_id)
        × (m.workflow_id ≡ e.content.workflow_id)
        × (m.sequence ≡ sequence)
  unfolding workflow_event_to_stream_message
  workflow_event_to_stream_message-is_safe e sequence emitted_at m h =
      let made : WorkflowEventStreamMessage =
        stream_message lower standard str e sequence emitted_at in
      elim (Bool-cases (is_valid_message lower standard str made)) [
        | inl valid ↦
            let same : made ≡ m = ap (or_first m) (rw valid at h) in
            subst
              (λ n.
                (is_safe (object n.payload) 0 ≡ true)
                × (n.event_id ≡ e.event_id)
                × (n.workflow_id ≡ e.content.workflow_id)
                × (n.sequence ≡ sequence))
              same (sanitize_stream_payload-is_safe e.content.payload, refl, refl, refl)
        | inr bad ↦ cc (rw bad at h)
      ]
