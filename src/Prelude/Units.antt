-- ===== src/Prelude/Units.antt =====
-- The measures of a text, and the searches in it, that the program's bounds and tests use.
use Prim.Native.String.{String}
use Prim.Native.Nat.{ℕ, ◌+◌}
use mathlib.Core.Bool.{Bool, ◌||◌}
use mathlib.Core.List.{List, [], ◌∷◌}
use package.pi_mesh.Prelude.Tests.{ltb, eqb, if◌then◌else◌}
use package.pi_mesh.Prelude.Text.{codes, starts_with, same_codes}

-- `s.length`: a character outside of the basic plane is two units of UTF-16.
unfoldable pub units : List ℕ → ℕ
units [] = 0
units (c ∷ s) = (if ltb c 0x10000 then 1 else 2) + units s

abbrev pub text_length : String → ℕ
text_length s = units (codes s)

-- The bytes of a character in UTF-8; half of a surrogate pair is written as U+FFFD, of three bytes.
abbrev pub char_bytes : ℕ → ℕ
char_bytes c = if ltb c 0x80 then 1 else if ltb c 0x800 then 2 else if ltb c 0x10000 then 3 else 4

-- `Buffer.byteLength(s, "utf8")`
unfoldable pub utf8_bytes : List ℕ → ℕ
utf8_bytes [] = 0
utf8_bytes (c ∷ s) = char_bytes c + utf8_bytes s

-- `s.includes(p)`
unfoldable pub includes : List ℕ → List ℕ → Bool
includes [] p = starts_with [] p
includes (c ∷ s) p = starts_with (c ∷ s) p || includes s p

-- `s.endsWith(p)`
unfoldable pub ends_in : List ℕ → List ℕ → Bool
ends_in [] p = same_codes [] p
ends_in (c ∷ s) p = same_codes (c ∷ s) p || ends_in s p

to_front : ℕ → List (List ℕ) → List (List ℕ)
to_front c [] = (c ∷ []) ∷ []
to_front c (s ∷ ss) = (c ∷ s) ∷ ss

-- `s.split(c)` for a single character.
unfoldable pub split_on : ℕ → List ℕ → List (List ℕ)
unfolding to_front
split_on c [] = [] ∷ []
split_on c (d ∷ s) = let rest = split_on c s in if eqb d c then [] ∷ rest else to_front d rest
