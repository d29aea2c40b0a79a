-- ===== src/Protocol/Names.antt =====
-- Aliases and rooms: `isValidAlias`, `isValidRoom` of src/protocol/envelope.ts with the regular
-- expressions of src/shared/config.ts, and `effectiveCaps`.
use pi_mesh.Prelude.{
  ℕ, String, Bool, false, ◌&&◌, ◌||◌, List, [], ◌∷◌, Option, none, some, if◌then◌else◌, ltb, leb,
  eqb, codes, all, length,
}
use pi_mesh.Shared.Config.{proto_version}

abbrev pub is_lower : ℕ → Bool
is_lower c = leb b'a' c && leb c b'z'

abbrev pub is_digit : ℕ → Bool
is_digit c = leb b'0' c && leb c b'9'

matches_alias : List ℕ → Bool
matches_alias [] = false
matches_alias (c ∷ s) =
    is_lower c
    && leb 1 (length s)
    && leb (length s) 31
    && all (λ d. is_lower d || is_digit d || eqb d b'-') s

-- `/^[a-z][a-z0-9-]{1,31}$/`
unfoldable pub is_valid_alias : String → Bool
unfolding matches_alias
is_valid_alias s = matches_alias (codes s)

matches_room : List ℕ → Bool
matches_room [] = false
matches_room (c ∷ s) =
    (is_lower c || is_digit c)
    && leb (length s) 63
    && all (λ d. is_lower d || is_digit d || eqb d b'.' || eqb d b'-') s

-- `/^[a-z0-9][a-z0-9.-]{0,63}$/`
unfoldable pub is_valid_room : String → Bool
unfolding matches_room
is_valid_room s = matches_room (codes s)

-- A peer below protocol 2 advertises no capabilities.
unfoldable pub effective_caps : Option ℕ → Option (List String) → List String
effective_caps none caps = []
effective_caps (some proto) none = []
effective_caps (some proto) (some caps) = if ltb proto proto_version then [] else caps
