-- ===== src/Broker/World/Tests.antt =====
-- Closing a peer of concrete tables.
use pi_mesh.Prelude.{◌≡◌, refl, String, false, [], none, ◌==◌, if◌then◌else◌, length}
use pi_mesh.Dict
use pi_mesh.Broker.Rooms.{
  detach_from_rooms, broadcast_to_room, broadcast_to, remove_from_all, remove_member,
}
use pi_mesh.Broker.Rooms.View.{in_room, joined}
use pi_mesh.Broker.Rooms.Tests.{two_peers-IsConsistent}
use pi_mesh.Broker.World.{close_peer, announce_offline, write_all_quiet, write_quiet}
use pi_mesh.Broker.World.Closing.{close_peer-forgets}
use pi_mesh.Broker.Samples.{sample_env, two_peers, world_of}

-- Bob learns that ann is gone, and nobody else.
close_notifies : length (close_peer sample_env "ann" (world_of [] two_peers)).writes ≡ 1
unfolding close_peer detach_from_rooms announce_offline write_all_quiet write_quiet
    broadcast_to_room broadcast_to remove_from_all remove_member Dict.get Dict.set Dict.delete
close_notifies = refl

close_peer-forgets_example :
    let s' = (close_peer sample_env "ann" (world_of [] two_peers)).state in
    (Dict.get "ann" s'.peers ≡ none)
    × ((a r : String) → in_room a r s' ≡ (if "ann" == a then false else in_room a r two_peers))
    × ((a r : String) → joined a r s' ≡ (if "ann" == a then false else joined a r two_peers))
close_peer-forgets_example =
    close_peer-forgets sample_env "ann" (world_of [] two_peers) two_peers-IsConsistent
