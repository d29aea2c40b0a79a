-- ===== src/Broker/Policy/Patterns.antt =====
-- What a pattern of a rule means: nothing or a lone star fits all, a trailing star fits what begins
-- with the rest, and any other pattern fits itself only.
use pi_mesh.Prelude.{
  ℕ, ◌≡◌, ◌↔◌, refl, ap, inl, inr, String, true, false, List, [], ◌∷◌, ◌++◌, Option, none, some,
  ◌==◌, eq_iff, codes, ends_with, without_last, starts_with, arith, Bool-cases,
}
use pi_mesh.Broker.Policy.{match_pattern}

-- Which texts a pattern fits.
pub data Fits : Option String → String → Type 0 where
  anything : {value : String} → Fits none value
  prefix :
      {pattern value : String} (stem rest : List ℕ)
      → codes pattern ≡ stem ++ b'*' ∷ []
      → codes value ≡ stem ++ rest
      → Fits (some pattern) value
  exact :
      {pattern value : String}
      → ends_with b'*' (codes pattern) ≡ false
      → pattern ≡ value
      → Fits (some pattern) value

starts_with_split : (s p : List ℕ) → starts_with s p ≡ true → (rest : List ℕ) × (s ≡ p ++ rest)
unfolding starts_with
starts_with_split s [] h = (s, refl)
starts_with_split [] (c ∷ p) h = cc
starts_with_split (d ∷ s) (c ∷ p) h =
    let (rest, e) = starts_with_split s p (ground arith) in (rest, ground arith)

starts_with-append : (p rest : List ℕ) → starts_with (p ++ rest) p ≡ true
unfolding starts_with
starts_with-append [] rest = starts_nil rest
  where
    starts_nil : (s : List ℕ) → starts_with s [] ≡ true
    starts_nil [] = refl
    starts_nil (c ∷ s) = refl
starts_with-append (c ∷ p) rest = ground (arith, starts_with-append p rest)

ends_with_split : (c : ℕ) (s : List ℕ) → ends_with c s ≡ true → s ≡ without_last s ++ c ∷ []
unfolding ends_with without_last
ends_with_split c [] h = cc
ends_with_split c (d ∷ []) h = ground arith
ends_with_split c (d ∷ e ∷ s) h = ap (◌∷◌ d) (ends_with_split c (e ∷ s) h)

ends_with-append : (c : ℕ) (s : List ℕ) → ends_with c (s ++ c ∷ []) ≡ true
unfolding ends_with
ends_with-append c [] = ground arith
ends_with-append c (d ∷ []) = ground arith
ends_with-append c (d ∷ e ∷ s) = ends_with-append c (e ∷ s)

without_last-append : (c : ℕ) (s : List ℕ) → without_last (s ++ c ∷ []) ≡ s
unfolding without_last
without_last-append c [] = refl
without_last-append c (d ∷ []) = refl
without_last-append c (d ∷ e ∷ s) = ap (◌∷◌ d) (without_last-append c (e ∷ s))

Fits-of_match :
    (pattern value : String) → match_pattern (some pattern) value ≡ true → Fits (some pattern) value
unfolding match_pattern
Fits-of_match pattern value h = elim (Bool-cases (pattern == "*")) [
  | inl star ↦ prefix [] (codes value) (ap codes ((eq_iff pattern "*").0 star)) refl
  | inr other ↦ elim (Bool-cases (ends_with b'*' (codes pattern))) [
    | inl open_end ↦
        let (rest, e) =
          starts_with_split (codes value) (without_last (codes pattern))
            (rw (other, open_end) at h) in
        prefix (without_last (codes pattern)) rest (ends_with_split b'*' (codes pattern) open_end) e
    | inr closed ↦ exact closed ((eq_iff pattern value).0 (rw (other, closed) at h))
  ]
]

match_of_Fits :
    {pattern : Option String} {value : String}
    → Fits pattern value
    → match_pattern pattern value ≡ true
unfolding match_pattern
match_of_Fits anything = refl
match_of_Fits (prefix {pattern = p} {value = v} stem rest e f) = elim (Bool-cases (p == "*")) [
  | inl star ↦ rw star
  | inr other ↦
      rw (other, e, ends_with-append b'*' stem, f, without_last-append b'*' stem)
        (starts_with-append stem rest)
]
match_of_Fits (exact {pattern = p} {value = v} closed e) = elim (Bool-cases (p == "*")) [
  | inl star ↦ rw star
  | inr other ↦ rw (other, closed) ((eq_iff p v).1 e)
]

-- The test of a pattern succeeds exactly where the pattern fits the text.
pub match_pattern_iff :
    (pattern : Option String) (value : String)
    → (match_pattern pattern value ≡ true) ↔ Fits pattern value
unfolding match_pattern
match_pattern_iff none value = (λ _. anything, λ _. refl)
match_pattern_iff (some pattern) value = (Fits-of_match pattern value, match_of_Fits)
