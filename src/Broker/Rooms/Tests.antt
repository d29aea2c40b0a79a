-- ===== src/Broker/Rooms/Tests.antt =====
-- Joins and leaves at concrete tables.
use pi_mesh.Prelude.{◌≡◌, refl, [], ◌∷◌, eq_iff, arith}
use pi_mesh.Dict
use pi_mesh.Dict.Laws.{Every-set}
use pi_mesh.Protocol.Frame.{member, invalid_room}
use pi_mesh.Protocol.Names.{is_valid_room}
use pi_mesh.Broker.Rooms.{ok, refused, join_room, leave_room}
use pi_mesh.Broker.Rooms.Consistent.{IsConsistent}
use pi_mesh.Broker.Rooms.Bounds.{IsBounded, IsRoom, IsPeer}
use pi_mesh.Broker.Samples.{sample_config, sample_peer, two_peers}

join_second : (join_room sample_config (sample_peer "ann" 1) "docs" member two_peers).0 ≡ ok
unfolding join_room is_valid_room Dict.get Dict.set
join_second = refl

join_bad_name :
    (join_room sample_config (sample_peer "ann" 1) "Docs" member two_peers).0 ≡ refused invalid_room
unfolding join_room is_valid_room
join_bad_name = refl

leave_last : (leave_room (sample_peer "ann" 1) "default" two_peers).0 ≡ ok
unfolding leave_room Dict.get
leave_last = refl

pub two_peers-IsConsistent : IsConsistent two_peers
unfolding Dict.get
two_peers-IsConsistent = record {
  own_alias = λ a p h. ground (arith, eq_iff "ann" a, eq_iff "bob" a);
  agree = λ a r. ground (arith, eq_iff "ann" a, eq_iff "bob" a, eq_iff "default" r);
}

pub two_peers-IsBounded : IsBounded sample_config two_peers
unfolding Dict.get Dict.set is_valid_room
two_peers-IsBounded = record {
  rooms_valid =
      Every-set IsRoom "default" (("ann", tt) ∷ ("bob", tt) ∷ []) []
        (record {
          valid_name = refl;
          unique = (refl, (refl, tt));
          nonempty = omega arith;
          bounded = omega arith;
        })
        (λ room ms h. cc);
  peers_bounded =
      Every-set (λ _. IsPeer sample_config) "bob" (sample_peer "bob" 2)
        (("ann", sample_peer "ann" 1) ∷ []) ((refl, tt), omega arith)
        (Every-set (λ _. IsPeer sample_config) "ann" (sample_peer "ann" 1) []
          ((refl, tt), omega arith) (λ a p h. cc));
}
