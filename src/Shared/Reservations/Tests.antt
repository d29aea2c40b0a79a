-- ===== src/Shared/Reservations/Tests.antt =====
-- src/shared/reservations.ts on a few paths.
use pi_mesh.Prelude.{String, List, [], ◌∷◌, none, some, true, false, ◌≡◌, refl, codes}
use pi_mesh.Dict.{Dict}
use pi_mesh.Protocol.Frame.{FileReservation}
use pi_mesh.Shared.Reservations.{
  normalize_path, path_matches_reservation, is_reservation_expired, first_blocking, find_conflict,
}
use pi_mesh.Shared.Reservations.Conflicts.{Holds, Stands, find_conflict_lem}

abbrev source_tree : FileReservation
source_tree = record { pattern = "./src/"; reason = none; since = some 100 }

abbrev by_peer : Dict (List FileReservation)
by_peer = ("ana", source_tree ∷ []) ∷ ("bob", source_tree ∷ []) ∷ []

under : path_matches_reservation none (codes "src/x.ts") (codes "./src/") ≡ true
unfolding path_matches_reservation pi_mesh.Prelude.ends_with normalize_path
    pi_mesh.Shared.Reservations.strip_here pi_mesh.Prelude.starts_with
under = refl

exact : path_matches_reservation none (codes "src/x.ts") (codes "src/x") ≡ false
unfolding path_matches_reservation pi_mesh.Prelude.ends_with normalize_path
    pi_mesh.Shared.Reservations.strip_here pi_mesh.Prelude.same_codes
exact = refl

others_conflict : find_conflict none "src/x.ts" 0 500 "ana" by_peer ≡ some ("bob", source_tree)
unfolding find_conflict first_blocking is_reservation_expired path_matches_reservation
    pi_mesh.Prelude.ends_with normalize_path pi_mesh.Shared.Reservations.strip_here
    pi_mesh.Prelude.starts_with
others_conflict = refl

expired_is_free : find_conflict none "src/x.ts" 50 500 "ana" by_peer ≡ none
unfolding find_conflict first_blocking is_reservation_expired
expired_is_free = refl

find_conflict_lem_example :
    ((alias : String) (r : FileReservation)
      → find_conflict none "src/x.ts" 50 500 "ana" by_peer ≡ some (alias, r)
      → Holds alias r by_peer × Stands none "src/x.ts" 50 500 "ana" alias r)
    × (find_conflict none "src/x.ts" 50 500 "ana" by_peer ≡ none
        → (alias : String) (r : FileReservation) → Holds alias r by_peer
        → ¬ Stands none "src/x.ts" 50 500 "ana" alias r)
find_conflict_lem_example = find_conflict_lem none "src/x.ts" 50 500 "ana" by_peer
