-- ===== src/Protocol/Json.antt =====
-- The values that `JSON.parse` returns. A key of an object occurs once, and a key that is missing
-- reads as `undefined`, the `none` of `field`.
use pi_mesh.Prelude.{ℕ, String, Bool, true, false, List, [], ◌∷◌, Option, none, some, ◌==◌}
use pi_mesh.Dict
use pi_mesh.Dict.{Dict}

-- A number is an integer, at least zero or `negative n` for -(n + 1), or it is none.
mutual
  pub data Json : Type 0 where
    null fraction : Json
    bool : Bool → Json
    whole : ℕ → Json
    negative : ℕ → Json
    str : String → Json
    arr : Items → Json
    obj : Fields → Json

  pub data Items : Type 0 where
    nil : Items
    cons : Json → Items → Items

  pub data Fields : Type 0 where
    end : Fields
    entry : String → Json → Fields → Fields

abbrev pub elements : Items → List Json
elements nil = []
elements (cons x xs) = x ∷ elements xs

abbrev pub entries : Fields → Dict Json
entries end = []
entries (entry k v fs) = (k, v) ∷ entries fs

abbrev pub items : List Json → Items
items [] = nil
items (x ∷ xs) = cons x (items xs)

abbrev pub fields : Dict Json → Fields
fields [] = end
fields ((k, v) ∷ m) = entry k v (fields m)

-- `o[k]`
abbrev pub field : String → Fields → Option Json
field k o = Dict.get k (entries o)

-- `typeof v === "string" && p(v)`
abbrev pub is_text : (String → Bool) → Option Json → Bool
is_text p (some (str s)) = p s
is_text p _ = false

-- `Array.isArray(v) && p(v)`
abbrev pub is_array : (List Json → Bool) → Option Json → Bool
is_array p (some (arr xs)) = p (elements xs)
is_array p _ = false

-- The code's `isRecord(v) && p(v)`.
abbrev pub is_record : (Fields → Bool) → Option Json → Bool
is_record p (some (obj o)) = p o
is_record p _ = false

-- `typeof v === "number" && Number.isInteger(v) && p(v)` where `p` refuses what is negative.
abbrev pub is_whole : (ℕ → Bool) → Option Json → Bool
is_whole p (some (whole n)) = p n
is_whole p _ = false

-- `typeof v === "boolean"`
abbrev pub is_bool : Option Json → Bool
is_bool (some (bool b)) = true
is_bool _ = false

-- `v === true`
abbrev pub is_true : Option Json → Bool
is_true (some (bool b)) = b
is_true _ = false

-- `v === undefined || p(v)`
abbrev pub is_absent_or : (Option Json → Bool) → Option Json → Bool
is_absent_or p none = true
is_absent_or p (some v) = p (some v)

-- `v !== undefined`
abbrev pub is_present : Option Json → Bool
is_present none = false
is_present (some v) = true

-- `v === s`
abbrev pub is_word : String → Option Json → Bool
is_word s v = is_text (λ t. t == s) v
