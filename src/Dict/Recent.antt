-- ===== src/Dict/Recent.antt =====
-- A `Map` from keys to the times at which they were last used, which forgets old ones.
use pi_mesh.Prelude.{
  ℕ, ◌+◌, ◌-◌, ◌≤◌, String, Bool, false, List, [], ◌∷◌, some, ◌≡◌, ◌⊎◌, inl, inr, sym, ap, ◌∙◌,
  arith, ◌==◌, eq_iff, ltb, All, Bool-cases,
}
use pi_mesh.Dict
use pi_mesh.Dict.{Dict}
use pi_mesh.Dict.Laws.{Unique, get-set, get-retain}

-- A key that was used, and when.
abbrev pub Entry : Type 0
Entry = String × ℕ

pub All-imp {ℓ κ μ} :
    {A : Type ℓ} (P : A → Type κ) (Q : A → Type μ)
    → ((x : A) → P x → Q x)
    → (xs : List A) → All P xs
    → All Q xs
All-imp P Q imp [] h = tt
All-imp P Q imp (x ∷ xs) (p, h) = (imp x p, All-imp P Q imp xs h)

module _ (window : ℕ) where
  -- An entry is in the past, and it is remembered or too old to matter.
  abbrev pub IsKnown : Dict ℕ → ℕ → Entry → Type 0
  IsKnown recent now e =
      (e.1 ≤ now) × ((e.1 + window ≤ now) ⊎ ((s : ℕ) × (Dict.get e.0 recent ≡ some s) × (e.1 ≤ s)))

  -- Time passes.
  pub IsKnown-later :
      (recent : Dict ℕ) (now then_ : ℕ) (e : Entry)
      → now ≤ then_
      → IsKnown recent now e
      → IsKnown recent then_ e
  IsKnown-later recent now then_ e le (past, inl old) = (omega arith, inl (omega arith))
  IsKnown-later recent now then_ e le (past, inr known) = (omega arith, inr known)

  -- The key is set to the present.
  pub IsKnown-set :
      (k : String) (recent : Dict ℕ) (now : ℕ) (e : Entry)
      → IsKnown recent now e
      → IsKnown (Dict.set k now recent) now e
  IsKnown-set k recent now e (past, inl old) = (past, inl old)
  IsKnown-set k recent now e (past, inr (s, here, le)) = elim (Bool-cases (k == e.0)) [
    | inl same ↦ (past, inr (now, ground (arith, get-set e.0 k now recent), past))
    | inr other ↦ (past, inr (s, ground (arith, get-set e.0 k now recent), le))
  ]

  pub IsKnown-here :
      (k : String) (recent : Dict ℕ) (now : ℕ) → IsKnown (Dict.set k now recent) now (k, now)
  IsKnown-here k recent now =
      (omega arith, inr (now, ground (arith, get-set k k now recent, eq_iff k k), omega arith))

  -- Only what is too old is forgotten.
  pub IsKnown-retain :
      (p : String → ℕ → Bool) (recent : Dict ℕ) (now : ℕ) (e : Entry)
      → ((k : String) (s : ℕ) → p k s ≡ false → s + window ≤ now)
      → Unique recent
      → IsKnown recent now e
      → IsKnown (Dict.retain p recent) now e
  IsKnown-retain p recent now e stale u (past, inl old) = (past, inl old)
  IsKnown-retain p recent now e stale u (past, inr (s, here, le)) = elim (Bool-cases (p e.0 s)) [
    | inl kept ↦ (past, inr (s, ground (arith, get-retain p e.0 recent u), le))
    | inr gone ↦ (past, inl (omega (arith, stale e.0 s gone, le)))
  ]

  -- What was used under this key is old, unless it is found to be recent.
  pub fresh_key :
      (recent : Dict ℕ) (k : String) (now : ℕ) (e : Entry)
      → ((s : ℕ) → Dict.get k recent ≡ some s → ltb (now - s) window ≡ false)
      → IsKnown recent now e
      → e.0 ≡ k
      → e.1 + window ≤ now
  fresh_key recent k now e pass (past, inl old) same = old
  fresh_key recent k now e pass (past, inr (s, here, le)) same =
      ground (arith, pass s (ap (λ (j : String). Dict.get j recent) (sym same) ∙ here))
