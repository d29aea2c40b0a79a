-- ===== src/Protocol/Decoder/Split.antt =====
-- A text as the segments between its newlines.
use pi_mesh.Prelude.{
  ℕ, ◌<◌, Bool, false, not, List, [], ◌∷◌, ◌++◌, Option, none, some, ◌≡◌, refl, arith,
  if◌then◌else◌, eqb, length, all, select, split_on, Option-cases, Bool-cases, inl, inr,
}
use pi_mesh.Protocol.Decoder.{Text, newline, exceeds, cut, is_empty}

-- The segments but the last, which are whole lines, and the last.
abbrev pub whole_lines : List Text → List Text
whole_lines [] = []
whole_lines (s ∷ []) = []
whole_lines (s ∷ t ∷ ss) = s ∷ whole_lines (t ∷ ss)

abbrev pub last_part : List Text → Text
last_part [] = []
last_part (s ∷ []) = s
last_part (s ∷ t ∷ ss) = last_part (t ∷ ss)

abbrev pub fits : ℕ → List Text → Bool
fits max_bytes ss = all (λ s. not (exceeds max_bytes s)) ss

-- What a text says to a decoder: its lines that are not empty, and what is left; nothing if a line
-- or what is left is too long.
unfoldable pub decoded : ℕ → Text → Option (List Text × Text)
decoded max_bytes s =
    let ss = split_on newline s in
    if fits max_bytes ss
    then some (select (λ l. not (is_empty l)) (whole_lines ss), last_part ss)
    else none

-- The segments are one at least.
pub split_on-cons : (s : Text) → (l : Text) × (ls : List Text) × (split_on newline s ≡ l ∷ ls)
unfolding split_on
split_on-cons [] = ([], [], refl)
split_on-cons (c ∷ s) =
    let (l, ls, e) = split_on-cons s in
    elim (Bool-cases (eqb c newline)) [
      | inl new ↦ ([], l ∷ ls, ground arith)
      | inr old ↦ (c ∷ l, ls, ground arith)
    ]

pub cut-none : (s : Text) → cut s ≡ none → split_on newline s ≡ s ∷ []
unfolding cut split_on
cut-none [] h = refl
cut-none (c ∷ s) h = ground (arith, cut-none s)

pub cut-some :
    (s line rest : Text)
    → cut s ≡ some (line, rest)
    → (split_on newline s ≡ line ∷ split_on newline rest) × (length rest < length s)
unfolding cut split_on
cut-some [] line rest h = cc
cut-some (c ∷ s) line rest h = elim (Option-cases (cut s)) [
  | inl e ↦ ground arith
  | inr ((l, r), e) ↦ ground (arith, cut-some s l r e)
]

-- A text in which no newline stands.
abbrev pub IsLine : Text → Type 0
IsLine s = split_on newline s ≡ s ∷ []

pub split_on-line :
    (l s : Text) → IsLine l → split_on newline (l ++ newline ∷ s) ≡ l ∷ split_on newline s
unfolding split_on
split_on-line [] s h = refl
split_on-line (c ∷ l) s h = let (x, xs, e) = split_on-cons l in ground (arith, split_on-line l s)

-- One character more, where it is no newline.
last_part-more :
    (c : ℕ) (x : Text) (xs : List Text)
    → eqb c newline ≡ false
    → IsLine (last_part (x ∷ xs))
    → IsLine (last_part ((c ∷ x) ∷ xs))
unfolding split_on
last_part-more c x [] f h = ground arith
last_part-more c x (y ∷ ys) f h = h

append-more :
    (c : ℕ) (x : Text) (xs : List Text) (b rest : Text)
    → eqb c newline ≡ false
    → split_on newline rest ≡ whole_lines (x ∷ xs) ++ split_on newline (last_part (x ∷ xs) ++ b)
    → split_on newline (c ∷ rest)
      ≡ whole_lines ((c ∷ x) ∷ xs) ++ split_on newline (last_part ((c ∷ x) ∷ xs) ++ b)
unfolding split_on
append-more c x [] b rest f h = ground arith
append-more c x (y ∷ ys) b rest f h = ground arith

-- What stands before a newline, and after the last one, holds none.
pub last_part-IsLine : (s : Text) → IsLine (last_part (split_on newline s))
unfolding split_on
last_part-IsLine [] = refl
last_part-IsLine (c ∷ s) =
    let (x, xs, e) = split_on-cons s in
    let ih : IsLine (last_part (x ∷ xs)) = rw e at (last_part-IsLine s) in
    elim (Bool-cases (eqb c newline)) [
      | inl new ↦ ground arith
      | inr old ↦ rw (old, e) (last_part-more c x xs old ih)
    ]

-- The segments of a text that is continued: the last segment goes on.
pub split_on-append :
    (a b : Text)
    → split_on newline (a ++ b)
      ≡ whole_lines (split_on newline a) ++ split_on newline (last_part (split_on newline a) ++ b)
unfolding split_on
split_on-append [] b = refl
split_on-append (c ∷ a) b =
    let (x, xs, e) = split_on-cons a in
    let ih = rw e at (split_on-append a b) in
    elim (Bool-cases (eqb c newline)) [
      | inl new ↦ ground arith
      | inr old ↦ rw (old, e) (rw old at (append-more c x xs b (a ++ b) old ih))
    ]
