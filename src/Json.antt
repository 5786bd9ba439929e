-- ===== src/Json.antt =====
-- The JSON values that the backend keeps in request, state and event payloads, and Python's `dict`
-- of them in insertion order.
pub mod Laws
pub mod Equality
use graduation_project.Prelude.{
  ℕ, suc, String, Bool, true, false, Option, none, some, ◌==◌, if◌then◌else◌,
}

-- `number` is an int or a float, by its numeral; `opaque` is a Python value that is not JSON.
mutual
  pub data Json : Type 0 where
    null : Json
    bool : Bool → Json
    number : ℕ → Json
    text : String → Json
    array : Items → Json
    object : Dict → Json
    opaque : ℕ → Json

  pub data Items : Type 0 where
    nil : Items
    cons : Json → Items → Items

  pub data Dict : Type 0 where
    empty : Dict
    entry : String → Json → Dict → Dict

-- `d.get(k)`
abbrev pub get : String → Dict → Option Json
get k empty = none
get k (entry j v d) = if j == k then some v else get k d

-- `d[k] = v`
abbrev pub put : String → Json → Dict → Dict
put k v empty = entry k v empty
put k v (entry j w d) = if j == k then entry j v d else entry j w (put k v d)

-- `d.pop(k, None)`
abbrev pub pop : String → Dict → Dict
pop k empty = empty
pop k (entry j w d) = if j == k then d else entry j w (pop k d)

-- `d.update(e)`, and the literal `{**d, **e}`
abbrev pub update : Dict → Dict → Dict
update d empty = d
update d (entry k v e) = update (put k v d) e

-- `bool(d)`
abbrev pub is_empty : Dict → Bool
is_empty empty = true
is_empty (entry k v d) = false

abbrev pub size : Dict → ℕ
size empty = 0
size (entry k v d) = suc (size d)

abbrev pub count : Items → ℕ
count nil = 0
count (cons x xs) = suc (count xs)

-- What `isinstance(v, dict)` lets through.
abbrev pub as_object : Option Json → Option Dict
as_object (some (object d)) = some d
as_object _ = none
