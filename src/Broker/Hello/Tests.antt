-- ===== src/Broker/Hello/Tests.antt =====
-- Hellos at concrete tables.
use pi_mesh.Prelude.{◌≡◌, refl, true, false, [], ◌∷◌, none, some}
use pi_mesh.Dict
use pi_mesh.Broker.Rooms.View.{in_room, joined}
use pi_mesh.Broker.Rooms.Consistent.{IsConsistent}
use pi_mesh.Broker.Rooms.Tests.{two_peers-IsConsistent}
use pi_mesh.Broker.Hello.{hello_as, distinct_from, requested_rooms}
use pi_mesh.Broker.Hello.Consistent.{hello_as-IsConsistent}
use pi_mesh.Broker.Hello.Rejoin.{hello_as-leaves_ghost}
use pi_mesh.Broker.Samples.{
  sample_env, sample_config, sample_peer, two_peers, world_of, hello_frame,
}

distinct_rooms : requested_rooms (some ("docs" ∷ "ops" ∷ "docs" ∷ [])) ≡ "docs" ∷ "ops" ∷ []
unfolding distinct_from
distinct_rooms = refl

hello_as-IsConsistent_example :
    IsConsistent
      (hello_as sample_env sample_config "cat" 3 none
        (hello_frame "cat" ("docs" ∷ []))
        (world_of [] two_peers)).state
unfolding Dict.get
hello_as-IsConsistent_example =
    hello_as-IsConsistent sample_env sample_config "cat" 3 none (hello_frame "cat" ("docs" ∷ []))
      (world_of [] two_peers) (λ _. refl) two_peers-IsConsistent

-- Ann's socket 1 is destroyed and not yet closed; she comes back on socket 3, for `docs` only.
hello_as-leaves_ghost_example :
    let s' =
      (hello_as sample_env sample_config "ann" 3 none
        (hello_frame "ann" ("docs" ∷ []))
        (world_of (1 ∷ []) two_peers)).state in
    (in_room "ann" "default" s' ≡ true) × (joined "ann" "default" s' ≡ false)
unfolding Dict.get distinct_from
hello_as-leaves_ghost_example =
    hello_as-leaves_ghost "ann" "default" sample_env sample_config 3 none
      (hello_frame "ann" ("docs" ∷ [])) (world_of (1 ∷ []) two_peers) (sample_peer "ann" 1)
      two_peers-IsConsistent refl refl refl refl refl
