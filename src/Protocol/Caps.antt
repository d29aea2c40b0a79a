-- ===== src/Protocol/Caps.antt =====
-- Names of capabilities: `normalizeCaps` of src/shared/config.ts and `capTargetName` of
-- src/protocol/task-package.ts.
use pi_mesh.Prelude.{
  ℕ, String, Bool, false, not, ◌&&◌, ◌||◌, List, [], ◌∷◌, ◌++◌, Option, none, some, if◌then◌else◌,
  leb, eqb, codes, all, length, starts_with, drop_text, trim, lower,
}
use pi_mesh.Dict.{listed}
use pi_mesh.Shared.Config.{max_caps, max_cap_chars}
use pi_mesh.Protocol.Names.{is_lower, is_digit}

matches_cap : List ℕ → Bool
matches_cap [] = false
matches_cap (c ∷ s) =
    (is_lower c || is_digit c)
    && all (λ d. is_lower d || is_digit d || eqb d b'.' || eqb d b'_' || eqb d b'-') s

-- `/^[a-z0-9][a-z0-9._-]*$/`, and at most so many characters.
unfoldable pub is_cap : String → Bool
unfolding matches_cap
is_cap s = leb (length (codes s)) max_cap_chars && matches_cap (codes s)

unfoldable pub normalize_from : List String → List String → List String
normalize_from out [] = out
normalize_from out (raw ∷ rest) =
    let cap = lower (trim raw) in
    let out' = if listed cap out then out else out ++ cap ∷ [] in
    let skipped = normalize_from out rest in
    let more = normalize_from out' rest in
    if not (is_cap cap) then skipped else if leb max_caps (length out') then out' else more

abbrev pub normalize_caps : Option (List String) → List String
normalize_caps none = []
normalize_caps (some caps) = normalize_from [] caps

abbrev pub is_single : List String → Bool
is_single [] = false
is_single (x ∷ xs) = leb (length xs) 0

-- The name of the target `cap:<name>`, if it is one.
unfoldable pub cap_target_name : String → Option String
cap_target_name to =
    let lowered = lower (trim to) in
    let name = trim (drop_text 4 lowered) in
    if not (starts_with (codes lowered) (codes "cap:"))
    then none
    else if is_single (normalize_caps (some (name ∷ [])))
    then some name
    else none
