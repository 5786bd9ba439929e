-- ===== src/Json/Laws.antt =====
-- The laws of the dictionary operations: what a lookup finds after a write.
use graduation_project.Prelude.{
  String, ◌≡◌, refl, Bool, true, false, ◌&&◌, Option, none, some, arith, ap, ◌∙◌, inl, inr,
  Bool-cases, ◌==◌, eq_iff, eq_refl, if◌then◌else◌,
}
use graduation_project.Json.{Json, Dict, empty, entry, get, put, pop}

pub get-put :
    (k j : String) (v : Json) (d : Dict) → get j (put k v d) ≡ (if k == j then some v else get j d)
get-put k j v empty = refl
get-put k j v (entry i w d) = ground (arith, eq_iff k j, eq_iff i k, eq_iff i j, get-put k j v d)

pub get-put_self : (k : String) (v : Json) (d : Dict) → get k (put k v d) ≡ some v
get-put_self k v d = simp (get-put, eq_refl)

abbrev is_none : Option Json → Bool
is_none none = true
is_none (some v) = false

-- No key twice, as in every Python dictionary.
abbrev pub is_distinct : Dict → Bool
is_distinct empty = true
is_distinct (entry k v d) = is_none (get k d) && is_distinct d

pub get-pop_self : (k : String) (d : Dict) → is_distinct d ≡ true → get k (pop k d) ≡ none
get-pop_self k empty h = refl
get-pop_self k (entry j v d) h = ground (arith, eq_iff j k, get-pop_self k d)

pub get-pop_ne : (k j : String) (d : Dict) → (k == j) ≡ false → get j (pop k d) ≡ get j d
get-pop_ne k j empty h = refl
get-pop_ne k j (entry i v d) h =
    ground (arith, eq_iff i k, eq_iff i j, eq_iff k j, get-pop_ne k j d)

pub put-is_distinct :
    (k : String) (v : Json) (d : Dict) → is_distinct d ≡ true → is_distinct (put k v d) ≡ true
put-is_distinct k v empty h = refl
put-is_distinct k v (entry j w d) h =
    ground (arith, eq_iff j k, eq_iff k j, get-put k j v d, put-is_distinct k v d)

pub put_again : (k : String) (v w : Json) (d : Dict) → put k v (put k w d) ≡ put k v d
put_again k v w empty = ground (arith, eq_iff k k)
put_again k v w (entry j u d) = ground (arith, eq_iff j k, put_again k v w d)

pub put-same : (k : String) (v : Json) (d : Dict) → get k d ≡ some v → put k v d ≡ d
put-same k v empty h = ground arith
put-same k v (entry j u d) h = elim (Bool-cases (j == k)) [
  | inl here ↦ rw here (ground (arith, here))
  | inr other ↦ rw other (ap (entry j u) (put-same k v d (rw other at h)))
]

-- Two keys that are written again with the same values.
pub put-same_two :
    (k j : String) (v w : Json) (d : Dict)
    → (k == j) ≡ false
    → put k v (put j w (put k v (put j w d))) ≡ put k v (put j w d)
put-same_two k j v w d other =
    let there : get j (put k v (put j w d)) ≡ some w =
      get-put k j v (put j w d) ∙ (rw other (get-put_self j w d)) in
    ap (put k v) (put-same j w (put k v (put j w d)) there)
    ∙ put-same k v (put k v (put j w d)) (get-put_self k v (put j w d))
