-- ===== src/Protocol/Shapes.antt =====
-- The shapes of single values in a frame: the regular expressions and the small validators of
-- src/protocol/envelope.ts.
use pi_mesh.Prelude.{
  ℕ, String, Bool, true, false, not, ◌&&◌, ◌||◌, List, [], ◌∷◌, Option, some, ◌==◌, if◌then◌else◌,
  ltb, leb, eqb, codes, any, all, length, starts_with, same_codes, text_length, includes, ends_in,
  split_on, trim, lower,
}
use pi_mesh.Dict.{listed}
use pi_mesh.Shared.Config.{max_ref_chars, max_caps, max_ctl_target_chars}
use pi_mesh.Protocol.Names.{is_lower, is_digit}
use pi_mesh.Protocol.Caps.{is_cap}
use pi_mesh.Protocol.Json.{
  Json, null, fraction, bool, whole, negative, str, arr, obj, Items, nil, cons, Fields, end, entry,
  field, is_text, is_array, is_record, is_absent_or,
}

abbrev pub is_letter : ℕ → Bool
is_letter c = is_lower c || (leb b'A' c && leb c b'Z')

-- `1 <= s.length && s.length <= most`
abbrev pub is_bounded : ℕ → String → Bool
is_bounded most s = ltb 0 (text_length s) && leb (text_length s) most

-- `/^[0-9a-f]{64}$/`
unfoldable pub is_hash : String → Bool
is_hash s =
    eqb (length (codes s)) 64 && all (λ c. is_digit c || (leb b'a' c && leb c b'f')) (codes s)

all_digits : List ℕ → Bool
all_digits [] = true
all_digits (c ∷ s) = is_digit c && all_digits s

-- `[+-]\d{2}:?\d{2}`
is_offset : List ℕ → Bool
unfolding all_digits
is_offset (c ∷ h ∷ i ∷ d ∷ m ∷ n ∷ []) =
    (eqb c b'+' || eqb c b'-') && all_digits (h ∷ i ∷ m ∷ n ∷ []) && eqb d b':'
is_offset (c ∷ h ∷ i ∷ m ∷ n ∷ []) = (eqb c b'+' || eqb c b'-') && all_digits (h ∷ i ∷ m ∷ n ∷ [])
is_offset _ = false

-- `(Z|[+-]\d{2}:?\d{2})$`
is_zone : List ℕ → Bool
unfolding is_offset
is_zone (c ∷ []) = eqb c b'Z'
is_zone s = is_offset s

-- `\d*(Z|[+-]\d{2}:?\d{2})$`, after a first digit of the fraction.
fraction_then_zone : List ℕ → Bool
fraction_then_zone [] = false
fraction_then_zone (c ∷ s) =
    let rest = fraction_then_zone s in if is_digit c then rest else is_zone (c ∷ s)

-- `(\.\d+)?(Z|[+-]\d{2}:?\d{2})$`
after_seconds : List ℕ → Bool
unfolding is_zone fraction_then_zone
after_seconds (p ∷ d ∷ s) =
    if eqb p b'.' then is_digit d && fraction_then_zone s else is_zone (p ∷ d ∷ s)
after_seconds s = is_zone s

-- A pattern of digits, for which `0` stands, and fixed characters, then the rest.
after_pattern : List ℕ → List ℕ → Bool
unfolding after_seconds
after_pattern [] s = after_seconds s
after_pattern (p ∷ ps) [] = false
after_pattern (p ∷ ps) (c ∷ s) = (if eqb p b'0' then is_digit c else eqb p c) && after_pattern ps s

-- `ISO_8601_REGEX`
unfoldable pub is_iso : String → Bool
unfolding after_pattern
is_iso s = after_pattern (codes "0000-00-00T00:00:00") (codes s)

-- `CTL_TARGET_REGEX`, and its bound.
matches_target : List ℕ → Bool
matches_target [] = false
matches_target (c ∷ s) =
    (is_letter c || is_digit c)
    && all (λ d. is_letter d || is_digit d || any (eqb d) (codes "._:-")) s

unfoldable pub is_ctl_target : String → Bool
unfolding matches_target
is_ctl_target s = is_bounded max_ctl_target_chars s && matches_target (codes s)

-- A path below the repository, whose segments are no `..`, and none of the files of an environment.
unfoldable pub is_valid_ref_path : String → Bool
is_valid_ref_path ref =
    let s = codes ref in
    not (eqb (text_length ref) 0 || ltb max_ref_chars (text_length ref))
    && not (starts_with s (codes "/") || starts_with s (codes "~"))
    && not (any (λ c. eqb c 0x5c) s)
    && not (any (λ seg. same_codes seg (codes "..")) (split_on b'/' s))
    && not (ref == ".env" || starts_with s (codes ".env.") || ends_in s (codes "/.env"))
    && not (includes s (codes ".env/") || includes s (codes "/.env/"))

abbrev pub max_reservation_chars : ℕ
max_reservation_chars = 512

unfoldable pub is_valid_reservation_pattern : String → Bool
is_valid_reservation_pattern pattern =
    is_bounded max_reservation_chars pattern && not (any (λ c. eqb c 0) (codes pattern))

-- `isValidReservations`, where the argument tells whether `Date.parse` reads a text.
unfoldable pub is_valid_reservation : (String → Bool) → Json → Bool
is_valid_reservation reads_date item =
    is_record
      (λ r.
        is_text is_valid_reservation_pattern (field "pattern" r)
        && is_absent_or (is_text (λ s. leb (text_length s) max_reservation_chars))
            (field "reason" r)
        && is_absent_or (is_text reads_date) (field "since" r))
      (some item)

unfoldable pub is_valid_reservations : (String → Bool) → Option Json → Bool
is_valid_reservations reads_date v = is_array (all (is_valid_reservation reads_date)) v

unfoldable pub is_valid_iso : (String → Bool) → Option Json → Bool
is_valid_iso reads_date v = is_text (λ s. is_iso s && reads_date s) v

unfoldable pub is_valid_caps : Option Json → Bool
is_valid_caps v =
    is_array
      (λ caps.
        leb (length caps) max_caps
        && all (λ cap. is_text (λ s. ltb 0 (text_length s) && is_cap s) (some cap)) caps)
      v

unfoldable pub is_valid_proto : Option Json → Bool
is_valid_proto (some (whole n)) = leb 1 n && leb n 1000
is_valid_proto _ = false

strip_at : String → String
strip_at String.[] = String.[]
strip_at (String.◌∷◌ c s) =
    let rest = strip_at s in
    if starts_with (codes (String.◌∷◌ c s)) (codes "@") then rest else String.◌∷◌ c s

-- `normalizeAlias`: less white space, leading `@` and, of the ASCII letters, capitals.
unfoldable pub normalize_alias : String → String
unfolding strip_at
normalize_alias raw = lower (strip_at (trim raw))

abbrev pub forbidden_persisted_keys : List String
forbidden_persisted_keys =
    "body" ∷ "task" ∷ "prompt" ∷ "output" ∷ "content" ∷ "message" ∷ "rationale" ∷ "text" ∷ "diff"
    ∷ "patch" ∷ []

-- Whether some object in a value has a key that must not reach the ledger.
unfoldable mutual
  pub has_forbidden_persisted_key : Json → Bool
  has_forbidden_persisted_key (arr xs) = some_forbidden xs
  has_forbidden_persisted_key (obj o) = some_key_forbidden o
  has_forbidden_persisted_key null = false
  has_forbidden_persisted_key fraction = false
  has_forbidden_persisted_key (bool b) = false
  has_forbidden_persisted_key (whole n) = false
  has_forbidden_persisted_key (negative n) = false
  has_forbidden_persisted_key (str s) = false

  pub some_forbidden : Items → Bool
  some_forbidden nil = false
  some_forbidden (cons x xs) = has_forbidden_persisted_key x || some_forbidden xs

  pub some_key_forbidden : Fields → Bool
  some_key_forbidden end = false
  some_key_forbidden (entry k v o) =
      listed k forbidden_persisted_keys || has_forbidden_persisted_key v || some_key_forbidden o
