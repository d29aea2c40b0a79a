-- ===== src/Broker/Rooms/Consistent.antt =====
-- The invariant of the membership tables, kept by joins, leaves and departures.
use pi_mesh.Prelude.{◌≡◌, ◌∙◌, String, some, eq_iff, arith}
use pi_mesh.Dict
use pi_mesh.Dict.{Dict}
use pi_mesh.Dict.Laws.{get-set}
use pi_mesh.Protocol.Frame.{MeshRole}
use pi_mesh.Broker.State.{BrokerState, PeerRecord, MeshConfig}
use pi_mesh.Broker.Rooms.{join_room, leave_room, detach_from_rooms}
use pi_mesh.Broker.Rooms.View.{
  in_room, joined, Holds, in_room-join, joined-join, own_alias-join, own_alias-detach,
  in_room-leave, joined-leave, in_room-detach, joined-detach,
}

-- Each record stands under its own alias, and the two tables agree: a room's set holds exactly the
-- peers that list the room.
pub record IsConsistent (s : BrokerState) : Type 0 where
  pub own_alias : (a : String) (p : PeerRecord) → Dict.get a s.peers ≡ some p → p.alias ≡ a
  pub agree : (a r : String) → in_room a r s ≡ joined a r s

module _ (config : MeshConfig) (peer : PeerRecord) (room : String) (role : MeshRole)
    (s : BrokerState) (c : IsConsistent s) (h : Holds peer s) where
  -- A join, granted or refused, keeps the two tables in agreement.
  pub join_room-IsConsistent : IsConsistent (join_room config peer room role s).2
  join_room-IsConsistent = record {
    own_alias = own_alias-join config peer room role s c.own_alias;
    agree = λ a r. rw (
      in_room-join a r config peer room role s (λ j. c.agree peer.alias room ∙ j) h,
      joined-join a r config peer room role s h,
      c.agree a r,
    );
  }

module _ (peer : PeerRecord) (room : String) (s : BrokerState) (c : IsConsistent s)
    (h : Holds peer s) where
  own_alias-leave :
      (a : String) (p : PeerRecord)
      → Dict.get a (leave_room peer room s).2.peers ≡ some p
      → p.alias ≡ a
  unfolding leave_room
  own_alias-leave a p e = ground (
    arith,
    get-set a peer.alias (record peer { rooms = Dict.delete room peer.rooms }) s.peers,
    eq_iff peer.alias a,
    c.own_alias a p,
  )

  -- Leaving a room keeps the two tables in agreement.
  pub leave_room-IsConsistent : IsConsistent (leave_room peer room s).2
  leave_room-IsConsistent = record {
    own_alias = own_alias-leave;
    agree = λ a r. rw (in_room-leave a r peer room s, joined-leave a r peer room s h, c.agree a r);
  }

module _ (peer : PeerRecord) (s : BrokerState) (c : IsConsistent s) (h : Holds peer s) where
  pub detach_from_rooms-IsConsistent : IsConsistent (detach_from_rooms peer s).1
  detach_from_rooms-IsConsistent = record {
    own_alias = own_alias-detach peer s c.own_alias;
    agree = λ a r.
        rw (in_room-detach a r peer s, joined-detach a r peer s, c.agree a r)
          (ground (arith, eq_iff peer.alias a));
  }
