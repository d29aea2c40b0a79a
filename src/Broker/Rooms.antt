-- ===== src/Broker/Rooms.antt =====
-- src/broker/rooms.ts: who is in which room. A room's set of members and a peer's map of rooms are
-- two tables. The peer that the code passes is the object that `state.peers` holds, so a change of
-- it is stored there too.
pub mod View
pub mod Consistent
pub mod Bounds
pub mod Tests
use pi_mesh.Prelude.{
  ℕ, suc, String, Bool, true, false, not, ◌&&◌, ◌||◌, List, [], ◌∷◌, ◌++◌, Option, none, some, ◌==◌,
  if◌then◌else◌, leb, eqb, is_some, get_or_else, length,
}
use pi_mesh.Dict
use pi_mesh.Dict.{Dict}
use pi_mesh.Shared.Config.{max_peers_per_room, default_room}
use pi_mesh.Protocol.Frame.{
  MeshFrame, MeshRole, MeshErrorCode, invalid_room, not_member, MeshPeerInfo, FileReservation,
  build_frame, presence,
}
use pi_mesh.Protocol.Names.{is_valid_room}
use pi_mesh.Broker.State.{BrokerState, PeerRecord, Members, MeshConfig}

pub data RoomResult : Type 0 where
  ok : RoomResult
  refused : MeshErrorCode → RoomResult

abbrev pub store : PeerRecord → BrokerState → BrokerState
store peer s = record s { peers = Dict.set peer.alias peer s.peers }

-- The peer as it is after the call stands beside the state.
abbrev pub Changed : Type 0
Changed = RoomResult × PeerRecord × BrokerState

-- `members.add(alias)`, `members` being the room's set, new or not.
abbrev pub add_member : String → String → Members → BrokerState → BrokerState
add_member room alias ms s = record s { rooms = Dict.set room (Dict.set alias tt ms) s.rooms }

abbrev pub enter : PeerRecord → String → MeshRole → Members → BrokerState → Changed
enter peer room role ms s =
    if not (Dict.has peer.alias ms) && leb max_peers_per_room (Dict.size ms)
    then (refused invalid_room, peer, s)
    else (let peer' = record peer { rooms = Dict.set room role peer.rooms } in
        (ok, peer', store peer' (add_member room peer.alias ms s)))

unfoldable pub join_room : MeshConfig → PeerRecord → String → MeshRole → BrokerState → Changed
join_room config peer room role s =
    if not (is_valid_room room)
    then (refused invalid_room, peer, s)
    else if Dict.has room peer.rooms
    then (let peer' = record peer { rooms = Dict.set room role peer.rooms } in
        (ok, peer', store peer' s))
    else if leb config.max_rooms_per_peer (Dict.size peer.rooms)
    then (refused invalid_room, peer, s)
    else enter peer room role (get_or_else (Dict.get room s.rooms) []) s

-- A room without members is deleted.
abbrev pub put_members : String → Members → Dict Members → Dict Members
put_members room [] rooms = Dict.delete room rooms
put_members room (m ∷ ms) rooms = Dict.set room (m ∷ ms) rooms

abbrev pub drop_from : String → String → Option Members → Dict Members → Dict Members
drop_from room alias none rooms = rooms
drop_from room alias (some ms) rooms = put_members room (Dict.delete alias ms) rooms

unfoldable pub remove_member : String → String → Dict Members → Dict Members
remove_member alias room rooms = drop_from room alias (Dict.get room rooms) rooms

unfoldable pub leave_room : PeerRecord → String → BrokerState → Changed
leave_room peer room s =
    if not (Dict.has room peer.rooms)
    then (refused not_member, peer, s)
    else (let peer' = record peer { rooms = Dict.delete room peer.rooms } in
        (ok, peer', store peer' (record s { rooms = remove_member peer.alias room s.rooms })))

unfoldable pub remove_from_all : String → List String → Dict Members → Dict Members
remove_from_all alias [] rooms = rooms
remove_from_all alias (r ∷ rs) rooms = remove_from_all alias rs (remove_member alias r rooms)

-- The rooms that the peer was in, and the state without it in them.
unfoldable pub detach_from_rooms : PeerRecord → BrokerState → List String × BrokerState
detach_from_rooms peer s =
    let rs = Dict.keys peer.rooms in
    (
      rs,
      store (record peer { rooms = [] })
          (record s { rooms = remove_from_all peer.alias rs s.rooms }),
    )

-- A frame to write, and the peer whose socket takes it.
abbrev pub Delivery : Type 0
Delivery = PeerRecord × MeshFrame

abbrev pub deliver_to : MeshFrame → Option PeerRecord → List Delivery → List Delivery
deliver_to frame none rest = rest
deliver_to frame (some peer) rest = (peer, frame) ∷ rest

abbrev pub is_excluded : Option String → String → Bool
is_excluded none alias = false
is_excluded (some excluded) alias = alias == excluded

unfoldable pub broadcast_to : BrokerState → MeshFrame → Option String → Members → List Delivery
broadcast_to s frame exclude [] = []
broadcast_to s frame exclude ((alias, _) ∷ ms) =
    let rest = broadcast_to s frame exclude ms in
    if is_excluded exclude alias then rest else deliver_to frame (Dict.get alias s.peers) rest

-- The writes of `broadcastToRoom`, in its order.
unfoldable pub broadcast_to_room : BrokerState → String → MeshFrame → Option String → List Delivery
broadcast_to_room s room frame exclude =
    broadcast_to s frame exclude (get_or_else (Dict.get room s.rooms) [])

abbrev pub presence_frame :
    String → String → String → String → Option (List String) → Option ℕ → MeshFrame
presence_frame id alias status room caps proto = record (build_frame presence id) {
  from = some alias;
  status = some status;
  room = some room;
  caps = caps;
  proto = proto;
}

-- The frames that one call builds are told apart by nothing but their random ids, which the model
-- takes to be one `id`.
unfoldable pub announce_in : String → BrokerState → PeerRecord → List String → List Delivery
announce_in id s peer [] = []
announce_in id s peer (r ∷ rs) =
    broadcast_to_room s r (presence_frame id peer.alias "online" r peer.caps peer.proto)
      (some peer.alias)
    ++ announce_in id s peer rs

abbrev pub announce_online : String → BrokerState → PeerRecord → List Delivery
announce_online id s peer = announce_in id s peer (Dict.keys peer.rooms)

abbrev pub none_if_empty {ℓ} : {A : Type ℓ} → List A → Option (List A)
none_if_empty [] = none
none_if_empty (x ∷ xs) = some (x ∷ xs)

abbrev pub peer_info : Option String → PeerRecord → MeshPeerInfo
peer_info room peer = record {
  alias = peer.alias;
  rooms = Dict.keys peer.rooms;
  role = Dict.get (get_or_else room default_room) peer.rooms;
  since = peer.connected_at;
  last_seen_at = peer.last_seen_at;
  reservations = none_if_empty peer.reservations;
  client_version = peer.client_version;
  activity = peer.activity;
  via = peer.via;
  caps = none_if_empty (get_or_else peer.caps []);
  proto = peer.proto;
}

abbrev pub is_visible : Option String → PeerRecord → Bool
is_visible none peer = peer.hello_done
is_visible (some room) peer = peer.hello_done && Dict.has room peer.rooms

unfoldable pub snapshot_of : Option String → List PeerRecord → List MeshPeerInfo
snapshot_of room [] = []
snapshot_of room (p ∷ ps) =
    let rest = snapshot_of room ps in if is_visible room p then peer_info room p ∷ rest else rest

abbrev pub peers_snapshot : BrokerState → Option String → List MeshPeerInfo
peers_snapshot s room = snapshot_of room (Dict.values s.peers)
