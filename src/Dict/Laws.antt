-- ===== src/Dict/Laws.antt =====
-- The laws of `Dict`.
use mathlib.Core.Path.{subst₂}
use pi_mesh.Prelude.{
  Bool-cases, inl, inr, ℕ, ◌≤◌, ◌+◌, String, Bool, [], ◌∷◌, Option, none, some, ◌≡◌, refl, arith,
  ◌==◌, eq_iff, subst, if◌then◌else◌,
}
use pi_mesh.Dict
use pi_mesh.Dict.{Dict, listed, get, has, set, delete, retain, size, drop_oldest}

module _ {ℓ} {V : Type ℓ} where
  pub get-set :
      (j k : String) (v : V) (m : Dict V) → get j (set k v m) ≡ (if k == j then some v else get j m)
  unfolding get set
  get-set j k v [] = refl
  get-set j k v ((i, w) ∷ m) = ground (arith, eq_iff k j, eq_iff i k, eq_iff i j, get-set j k v m)

  pub get-delete :
      (j k : String) (m : Dict V) → get j (delete k m) ≡ (if k == j then none else get j m)
  unfolding get delete
  get-delete j k [] = ground arith
  get-delete j k ((i, w) ∷ m) = ground (arith, eq_iff k j, eq_iff i k, eq_iff i j, get-delete j k m)

  -- No key occurs twice.
  abbrev pub Unique : Dict V → Type ℓ
  Unique [] = Unit
  Unique ((k, v) ∷ m) = (get k m ≡ none) × Unique m

  pub set-Unique : (k : String) (v : V) (m : Dict V) → Unique m → Unique (set k v m)
  unfolding set get
  set-Unique k v [] u = (refl, tt)
  set-Unique k v ((i, w) ∷ m) (f, u) =
      ground (arith, get-set i k v m, set-Unique k v m u, eq_iff k i, eq_iff i k)

  pub delete-Unique : (k : String) (m : Dict V) → Unique m → Unique (delete k m)
  unfolding delete
  delete-Unique k [] u = tt
  delete-Unique k ((i, w) ∷ m) (f, u) =
      ground (arith, get-delete i k m, delete-Unique k m u, eq_iff k i, eq_iff i k)

  get-retain-none :
      (p : String → V → Bool) (j : String) (m : Dict V) → get j m ≡ none → get j (retain p m) ≡ none
  unfolding get retain
  get-retain-none p j [] h = refl
  get-retain-none p j ((i, w) ∷ m) h = ground (arith, get-retain-none p j m)

  pub retain-Unique : (p : String → V → Bool) (m : Dict V) → Unique m → Unique (retain p m)
  unfolding retain
  retain-Unique p [] u = tt
  retain-Unique p ((i, w) ∷ m) (f, u) = ground (arith, get-retain-none p i m f, retain-Unique p m u)

  abbrev pub keep_if : (String → V → Bool) → String → Option V → Option V
  keep_if p j none = none
  keep_if p j (some v) = if p j v then some v else none

  pub get-retain :
      (p : String → V → Bool) (j : String) (m : Dict V)
      → Unique m
      → get j (retain p m) ≡ keep_if p j (get j m)
  unfolding get retain
  get-retain p j [] u = refl
  get-retain p j ((i, w) ∷ m) (f, u) = ground (
    arith,
    get-retain p j m u,
    get-retain-none p j m,
    eq_iff i j,
    λ (e : i ≡ j). subst (λ k. get k m ≡ none) e f,
  )

  pub size-set :
      (k : String) (v : V) (m : Dict V)
      → size (set k v m) ≡ (if has k m then size m else size m + 1)
  unfolding get set
  size-set k v [] = omega arith
  size-set k v ((i, w) ∷ m) = ground (arith, size-set k v m)

  pub delete_absent : (k : String) (m : Dict V) → get k m ≡ none → delete k m ≡ m
  unfolding get delete
  delete_absent k [] h = refl
  delete_absent k ((i, w) ∷ m) h = ground (arith, delete_absent k m)

  pub size-delete :
      (k : String) (m : Dict V)
      → Unique m
      → size m ≡ (if has k m then size (delete k m) + 1 else size (delete k m))
  unfolding get delete
  size-delete k [] u = refl
  size-delete k ((i, w) ∷ m) (f, u) =
      ground (arith, size-delete k m u, eq_iff i k, delete_absent k m)

  pub drop_oldest_few : (cap : ℕ) (m : Dict V) → size m ≤ cap → drop_oldest cap m ≡ m
  unfolding drop_oldest
  drop_oldest_few cap [] h = refl
  drop_oldest_few cap ((k, n) ∷ m) h = ground arith

  pub size-drop_oldest : (cap : ℕ) (m : Dict V) → size (drop_oldest cap m) ≤ cap
  unfolding drop_oldest
  size-drop_oldest cap [] = omega arith
  size-drop_oldest cap ((k, n) ∷ m) = ground (arith, size-drop_oldest cap m)

module _ {ℓ κ} {V : Type ℓ} (P : String → V → Type κ) where
  -- What holds of every entry.
  abbrev pub Every : Dict V → Type (ℓ ⊔ κ)
  Every m = (j : String) (w : V) → get j m ≡ some w → P j w

  pub Every-set : (k : String) (v : V) (m : Dict V) → P k v → Every m → Every (set k v m)
  Every-set k v m new old j w h = elim (Bool-cases (k == j)) [
    | inl e ↦ subst₂ P ((eq_iff k j).0 e) (ground (arith, get-set j k v m)) new
    | inr e ↦ old j w (ground (arith, get-set j k v m))
  ]

  pub Every-delete : (k : String) (m : Dict V) → Every m → Every (delete k m)
  Every-delete k m old j w h = old j w (ground (arith, get-delete j k m))

pub listed-keys {ℓ} : {V : Type ℓ} (k : String) (m : Dict V) → listed k (Dict.keys m) ≡ has k m
unfolding get
listed-keys k [] = refl
listed-keys k ((j, v) ∷ m) = ground (arith, listed-keys k m)
