-- ===== src/Shared/Reservations.antt =====
-- src/shared/reservations.ts: which reservation of a file by a peer stands in the way. The time of a
-- reservation is the number of its milliseconds. An argument is what `toLowerCase` makes of a path, or
-- nothing where the program does not run on Windows.
pub mod Conflicts
pub mod Tests
use pi_mesh.Prelude.{
  ℕ, ◌-◌, ◌+◌, String, Bool, true, false, not, ◌&&◌, ◌||◌, List, [], ◌∷◌, ◌++◌, Option, none, some,
  ◌==◌, if◌then◌else◌, ltb, eqb, codes, map, starts_with, same_codes, ends_with,
}
use pi_mesh.Dict.{Dict}
use pi_mesh.Protocol.Frame.{FileReservation}

-- `p.replace(/^\.\//, "")`
unfoldable pub strip_here : List ℕ → List ℕ
strip_here (a ∷ b ∷ p) = if eqb a b'.' && eqb b b'/' then p else a ∷ b ∷ p
strip_here p = p

abbrev pub fold_case : Option (List ℕ → List ℕ) → List ℕ → List ℕ
fold_case none out = out
fold_case (some to_lower) out = to_lower out

unfoldable pub normalize_path : Option (List ℕ → List ℕ) → List ℕ → List ℕ
normalize_path windows p =
    fold_case windows (strip_here (map (λ c. if eqb c 0x5c then b'/' else c) p))

unfoldable pub path_matches_reservation : Option (List ℕ → List ℕ) → List ℕ → List ℕ → Bool
path_matches_reservation windows file_path pattern =
    let file = normalize_path windows file_path in
    let pat = normalize_path windows pattern in
    if ends_with b'/' pat
    then starts_with file pat || same_codes (file ++ b'/' ∷ []) pat
    else same_codes file pat

unfoldable pub is_reservation_expired : FileReservation → ℕ → ℕ → Bool
is_reservation_expired reservation ttl_ms now =
    if eqb ttl_ms 0
    then false
    else elim reservation.since [ none ↦ false | some t ↦ ltb ttl_ms (now - t) ]

module _ (windows : Option (List ℕ → List ℕ)) (file_path : String) (ttl_ms now : ℕ) where
  abbrev pub blocks : FileReservation → Bool
  blocks r =
      not (is_reservation_expired r ttl_ms now)
      && path_matches_reservation windows (codes file_path) (codes r.pattern)

  -- The inner loop: the first reservation of one peer that blocks.
  unfoldable pub first_blocking : List FileReservation → Option FileReservation
  first_blocking [] = none
  first_blocking (r ∷ rs) = let rest = first_blocking rs in if blocks r then some r else rest

  found_by :
      String
      → Option FileReservation
      → Option (String × FileReservation)
      → Option (String × FileReservation)
  found_by alias none rest = rest
  found_by alias (some r) rest = some (alias, r)

  unfoldable pub find_conflict :
      String → Dict (List FileReservation) → Option (String × FileReservation)
  unfolding found_by
  find_conflict self_alias [] = none
  find_conflict self_alias ((alias, rs) ∷ by_peer) =
      let rest = find_conflict self_alias by_peer in
      if alias == self_alias then rest else found_by alias (first_blocking rs) rest
