-- ===== src/Json/Equality.antt =====
-- Python's `==` on JSON values, and the sorted keys at which two dictionaries differ.
use Prim.Native.String
use Prim.Native.Nat.{Ordering}
use graduation_project.Prelude.{
  String, ◌≡◌, refl, Bool, true, false, not, ◌&&◌, ◌||◌, Option, none, some, List, [], ◌∷◌, any,
  nat_eq, ◌==◌, arith, if◌then◌else◌,
}
use graduation_project.Json.{
  Json, Items, Dict, null, bool, number, text, array, object, opaque, nil, cons, empty, entry, get,
  size,
}

abbrev same_bool : Bool → Bool → Bool
same_bool true b = b
same_bool false b = not b

-- Dictionaries are equal as maps: of one size, and each entry of the first found in the second.
unfoldable mutual
  pub same_json : Json → Json → Bool
  same_json null null = true
  same_json (bool a) (bool b) = same_bool a b
  same_json (number m) (number n) = nat_eq m n
  same_json (text s) (text t) = s == t
  same_json (array xs) (array ys) = same_items xs ys
  same_json (object d) (object e) = nat_eq (size d) (size e) && included d e
  same_json (opaque m) (opaque n) = nat_eq m n
  same_json _ _ = false

  pub same_items : Items → Items → Bool
  same_items nil nil = true
  same_items (cons x xs) (cons y ys) = same_json x y && same_items xs ys
  same_items _ _ = false

  pub included : Dict → Dict → Bool
  included empty e = true
  included (entry k v d) e =
      elim (get k e) [ none ↦ false | some w ↦ same_json v w ] && included d e

-- `sorted` on texts: by code points.
insert_text : String → List String → List String
insert_text s [] = s ∷ []
insert_text s (t ∷ ts) = elim (String.compare s t) [
  | Ordering.gt ↦ t ∷ insert_text s ts
  | _ ↦ s ∷ t ∷ ts
]

unfoldable pub sorted : List String → List String
unfolding insert_text
sorted [] = []
sorted (s ∷ ss) = insert_text s (sorted ss)

any-insert_text :
    (p : String → Bool) (s : String) (ts : List String)
    → any p (insert_text s ts) ≡ (p s || any p ts)
unfolding insert_text
any-insert_text p s [] = refl
any-insert_text p s (t ∷ ts) =
    elim (String.compare s t)
      as (λ c.
        any p (elim c [ Ordering.gt ↦ t ∷ insert_text s ts | _ ↦ s ∷ t ∷ ts ])
        ≡ (p s || any p (t ∷ ts))) [
          | Ordering.gt ↦ rw (any-insert_text p s ts) (ground arith)
          | _ ↦ refl
        ]

-- Sorting keeps what is in the list.
pub any-sorted : (p : String → Bool) (ss : List String) → any p (sorted ss) ≡ any p ss
unfolding sorted
any-sorted p [] = refl
any-sorted p (s ∷ ss) = rw (any-insert_text p s (sorted ss), any-sorted p ss) refl

-- `old.get(key) != value`: a missing key reads as None.
abbrev differs : Option Json → Json → Bool
differs none v = not (same_json null v)
differs (some w) v = not (same_json w v)

unfoldable pub changed_keys : List String → Dict → Dict → List String
unfolding same_json
changed_keys skipped old empty = []
changed_keys skipped old (entry k v new) =
    let rest = changed_keys skipped old new in
    if any (λ j. j == k) skipped then rest else if differs (get k old) v then k ∷ rest else rest
