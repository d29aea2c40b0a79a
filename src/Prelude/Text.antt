-- ===== src/Prelude/Text.antt =====
-- The string methods that the program calls, on the characters of a native text.
use Prim.Native.Char.{Char, code}
use Prim.Native.String.{String}
use Prim.Native.Nat.{ℕ, zero, suc, ◌-◌}
use mathlib.Core.Bool.{Bool, true, false, ◌&&◌, ◌||◌}
use mathlib.Core.List.{List, [], ◌∷◌}
use package.pi_mesh.Prelude.Tests.{leb, eqb, if◌then◌else◌}

abbrev pub codes : String → List ℕ
codes String.[] = []
codes (String.◌∷◌ c s) = code c ∷ codes s

-- The white space that `trim` removes.
abbrev pub is_space : ℕ → Bool
is_space c =
    (leb 9 c && leb c 13)
    || eqb c 32
    || eqb c 0xa0
    || eqb c 0x1680
    || (leb 0x2000 c && leb c 0x200a)
    || eqb c 0x2028
    || eqb c 0x2029
    || eqb c 0x202f
    || eqb c 0x205f
    || eqb c 0x3000
    || eqb c 0xfeff

-- `s.trim() === ""`
unfoldable pub is_blank : String → Bool
is_blank String.[] = true
is_blank (String.◌∷◌ c s) = is_space (code c) && is_blank s

-- `s.endsWith(c)` for a single character.
unfoldable pub ends_with : ℕ → List ℕ → Bool
ends_with c [] = false
ends_with c (x ∷ []) = eqb x c
ends_with c (x ∷ y ∷ s) = ends_with c (y ∷ s)

-- `s.slice(0, -1)`
unfoldable pub without_last : List ℕ → List ℕ
without_last [] = []
without_last (x ∷ []) = []
without_last (x ∷ y ∷ s) = x ∷ without_last (y ∷ s)

-- `s.startsWith(p)`
unfoldable pub starts_with : List ℕ → List ℕ → Bool
starts_with s [] = true
starts_with [] (p ∷ ps) = false
starts_with (c ∷ s) (p ∷ ps) = eqb c p && starts_with s ps

-- `s === t`
unfoldable pub same_codes : List ℕ → List ℕ → Bool
same_codes [] [] = true
same_codes (c ∷ s) (d ∷ t) = eqb c d && same_codes s t
same_codes _ _ = false

-- `s.slice(0, n)`
unfoldable pub take_text : ℕ → String → String
take_text zero s = String.[]
take_text (suc n) String.[] = String.[]
take_text (suc n) (String.◌∷◌ c s) = String.◌∷◌ c (take_text n s)

-- `s.slice(n)`
unfoldable pub drop_text : ℕ → String → String
drop_text zero s = s
drop_text (suc n) String.[] = String.[]
drop_text (suc n) (String.◌∷◌ c s) = drop_text n s

unfoldable pub trim_start : String → String
trim_start String.[] = String.[]
trim_start (String.◌∷◌ c s) =
    let rest = trim_start s in if is_space (code c) then rest else String.◌∷◌ c s

is_none : String → Bool
is_none String.[] = true
is_none (String.◌∷◌ c s) = false

unfoldable pub trim_end : String → String
unfolding is_none
trim_end String.[] = String.[]
trim_end (String.◌∷◌ c s) =
    let rest = trim_end s in
    if is_space (code c) && is_none rest then String.[] else String.◌∷◌ c rest

-- `s.trim()`
abbrev pub trim : String → String
trim s = trim_end (trim_start s)

nth_char : ℕ → String → Char → Char
nth_char n String.[] c = c
nth_char zero (String.◌∷◌ d s) c = d
nth_char (suc n) (String.◌∷◌ d s) c = nth_char n s c

-- The letters that `toLowerCase` maps to ASCII: the capitals and the sign of the unit kelvin. All
-- others stay here, so that the result is right where it is tested to be ASCII.
lower_char : Char → Char
unfolding nth_char
lower_char c =
    if leb 65 (code c) && leb (code c) 90
    then nth_char (code c - 65) "abcdefghijklmnopqrstuvwxyz" c
    else if eqb (code c) 0x212a
    then nth_char 10 "abcdefghijklmnopqrstuvwxyz" c
    else c

unfoldable pub lower : String → String
unfolding lower_char
lower String.[] = String.[]
lower (String.◌∷◌ c s) = String.◌∷◌ (lower_char c) (lower s)
