-- ===== src/Dict.antt =====
-- A JavaScript `Map` with string keys (and a `Set` of strings, a `Dict` of units): the entries in
-- the order of their first insertion.
pub mod Laws
pub mod Recent
use pi_mesh.Prelude.{
  ℕ, String, Bool, false, ◌||◌, List, [], ◌∷◌, Option, none, some, ◌==◌, if◌then◌else◌, is_some,
  length, map, ltb,
}

abbrev pub Dict {ℓ} : Type ℓ → Type ℓ
Dict V = List (String × V)

module _ {ℓ} {V : Type ℓ} where
  unfoldable pub get : String → Dict V → Option V
  get k [] = none
  get k ((j, v) ∷ m) = if j == k then some v else get k m

  abbrev pub has : String → Dict V → Bool
  has k m = is_some (get k m)

  -- A key that is there keeps its place.
  unfoldable pub set : String → V → Dict V → Dict V
  set k v [] = (k, v) ∷ []
  set k v ((j, w) ∷ m) = if j == k then (j, v) ∷ m else (j, w) ∷ set k v m

  unfoldable pub delete : String → Dict V → Dict V
  delete k [] = []
  delete k ((j, w) ∷ m) = let rest = delete k m in if j == k then rest else (j, w) ∷ rest

  -- The loop `for (const [k, v] of m) if (!p(k, v)) m.delete(k)`.
  unfoldable pub retain : (String → V → Bool) → Dict V → Dict V
  retain p [] = []
  retain p ((j, w) ∷ m) = let rest = retain p m in if p j w then (j, w) ∷ rest else rest

  abbrev pub size : Dict V → ℕ
  size m = length m

  -- The loop that deletes the oldest key while there are more than the cap. No key occurs twice.
  unfoldable pub drop_oldest : ℕ → Dict V → Dict V
  drop_oldest cap [] = []
  drop_oldest cap ((j, w) ∷ m) =
      let rest = drop_oldest cap m in if ltb cap (size ((j, w) ∷ m)) then rest else (j, w) ∷ m

  abbrev pub keys : Dict V → List String
  keys [] = []
  keys ((j, w) ∷ m) = j ∷ keys m

  abbrev pub values : Dict V → List V
  values [] = []
  values ((j, w) ∷ m) = w ∷ values m

-- `ks.includes(k)`
abbrev pub listed : String → List String → Bool
listed k [] = false
listed k (j ∷ js) = j == k || listed k js
