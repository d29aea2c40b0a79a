-- ===== src/Extension/Injection/Keys.antt =====
-- The keys of batches in `triesByKey` of src/extension/injection-guard.ts.
use pi_mesh.Prelude.{
  ℕ, suc, ◌≤◌, String, true, false, not, List, [], ◌∷◌, none, ◌≡◌, subst, arith, ◌==◌, eq_iff,
  Bool-cases, inl, inr, length, select, length-select-le, if◌then◌else◌,
}
use pi_mesh.Dict
use pi_mesh.Dict.{Dict, listed, get}
use pi_mesh.Dict.Laws.{Unique, Every, get-set, get-delete}
use pi_mesh.Extension.Injection.{tries_of}

without : String → List String → List String
without k ks = select (λ j. not (j == k)) ks

length-without :
    (k : String) (ks : List String) → listed k ks ≡ true → suc (length (without k ks)) ≤ length ks
unfolding without select
length-without k [] h = ground (arith, h)
length-without k (j ∷ ks) h =
    ground (arith, length-without k ks, length-select-le (λ i. not (i == k)) ks)

listed-without :
    (j k : String) (ks : List String)
    → (k == j) ≡ false
    → listed j ks ≡ true
    → listed j (without k ks) ≡ true
unfolding without select
listed-without j k [] ne h = h
listed-without j k (i ∷ ks) ne h =
    ground (arith, listed-without j k ks ne, eq_iff i j, eq_iff i k, eq_iff k j)

abbrev pub AllListed : List String → Dict ℕ → Type 0
AllListed ks m = Every (λ j n. listed j ks ≡ true) m

-- A table is no larger than a list of its keys.
pub size-listed :
    (m : Dict ℕ) (ks : List String) → Unique m → AllListed ks m → Dict.size m ≤ length ks
unfolding get
size-listed [] ks u h = omega arith
size-listed ((k, n) ∷ m) ks (fresh, u) h =
    let here : listed k ks ≡ true = h k n (ground (arith, eq_iff k k)) in
    let rest : AllListed (without k ks) m = λ j v e. elim (Bool-cases (k == j)) [
      | inl same ↦ ground (arith, subst (λ i. get i m ≡ none) ((eq_iff k j).0 same) fresh)
      | inr other ↦ listed-without j k ks other (h j v (ground arith))
    ] in
    omega (arith, size-listed m (without k ks) u rest, length-without k ks here)

pub tries_of-delete :
    (j k : String) (m : Dict ℕ)
    → tries_of k (Dict.delete j m) ≡ (if j == k then 0 else tries_of k m)
unfolding tries_of
tries_of-delete j k m = ground (arith, get-delete k j m)

pub tries_of-set :
    (j k : String) (n : ℕ) (m : Dict ℕ)
    → tries_of k (Dict.set j n m) ≡ (if j == k then n else tries_of k m)
unfolding tries_of
tries_of-set j k n m = ground (arith, get-set k j n m)
