-- ===== src/Broker/Hello.antt =====
-- `handleHello` of src/broker/broker.ts: a socket claims an alias.
pub mod Keeps
pub mod Consistent
pub mod Rejoin
pub mod Stable
pub mod Tests
use pi_mesh.Prelude.{
  ℕ, String, Bool, true, false, not, ◌&&◌, ◌||◌, List, [], ◌∷◌, ◌++◌, Option, none, some, ◌==◌,
  if◌then◌else◌, ltb, eqb, any, get_or_else, length, is_some, take_text,
}
use pi_mesh.Dict
use pi_mesh.Dict.{Dict, listed}
use pi_mesh.Protocol.Frame.{
  MeshFrame, FileReservation, MeshErrorCode, MeshRole, member, observer, build_frame, welcome,
  invalid_alias, invalid_token, alias_taken,
}
use pi_mesh.Protocol.Names.{effective_caps}
use pi_mesh.Shared.Config.{default_room, proto_version}
use pi_mesh.Broker.State.{BrokerState, PeerRecord, StoredMsg, MeshConfig}
use pi_mesh.Broker.Rooms.{
  RoomResult, ok, refused, Changed, Delivery, join_room, store, detach_from_rooms, peers_snapshot,
  broadcast_to_room, presence_frame,
}
use pi_mesh.Broker.Mailbox.{flush_mailbox}
use pi_mesh.Broker.World.{
  Env, World, is_destroyed, destroy, without_peer, send_to, send_all, send_error, notify_dropped,
  broadcast_reservations, is_current,
}

-- `new Set(rooms)`: the first occurrence of each counts.
abbrev pub add_room : String → List String → List String
add_room r rs = if listed r rs then rs else r ∷ rs

unfoldable pub distinct_from : List String → List String → List String
distinct_from seen [] = []
distinct_from seen (r ∷ rs) =
    let rest = distinct_from seen rs in
    let more = distinct_from (r ∷ seen) rs in if listed r seen then rest else r ∷ more

abbrev pub requested_rooms : Option (List String) → List String
requested_rooms none = default_room ∷ []
requested_rooms (some rs) = distinct_from [] rs

abbrev pub role_named : Option String → MeshRole → MeshRole
role_named none fallback = fallback
role_named (some name) fallback =
    if name == "observer" then observer else if name == "member" then member else fallback

-- The role in a room: that of the map, if it names one, else that of the frame, else `member`.
abbrev pub role_in : MeshFrame → String → MeshRole
role_in frame room =
    role_named (Dict.get room (get_or_else frame.roles [])) (get_or_else frame.role member)

-- The loop over the rooms: it stops at the first that refuses.
abbrev pub join_next : (PeerRecord → BrokerState → Changed) → Changed → Changed
join_next more (ok, peer, s) = more peer s
join_next more (refused code, peer, s) = (refused code, peer, s)

unfoldable pub join_rooms :
    MeshConfig → MeshFrame → List String → PeerRecord → BrokerState → Changed
join_rooms config frame [] peer s = (ok, peer, s)
join_rooms config frame (r ∷ rs) peer s =
    join_next (join_rooms config frame rs) (join_room config peer r (role_in frame r) s)

-- `v.slice(0, 64)`, of a version that is not empty.
abbrev pub version_of : Option String → Option String
version_of none = none
version_of (some v) = if v == "" then none else some (take_text 64 v)

-- The record as the object is now: closing it has emptied its rooms.
abbrev pub as_now : PeerRecord → Option PeerRecord → PeerRecord
as_now peer none = record peer { rooms = [] }
as_now peer (some current) =
    if eqb current.socket peer.socket then current else record peer { rooms = [] }

module _ (env : Env) (config : MeshConfig) where
  -- The shared token, for connections over the network.
  abbrev pub token_matches : Option String → Option String → Bool
  token_matches none given = false
  token_matches (some expected) none = false
  token_matches (some expected) (some given) = given == env.sha256 expected

  abbrev pub refuse : ℕ → MeshErrorCode → String → World → World
  refuse socket code id w = destroy socket (send_error env config socket code id w)

  -- A record of the alias on another socket that is still open.
  abbrev pub is_taken : ℕ → World → Option PeerRecord → Bool
  is_taken socket w none = false
  is_taken socket w (some existing) =
      not (eqb existing.socket socket) && not (is_destroyed existing.socket w)

  -- The record that the hello makes. The origin `via` of a network peer is its address: it is given.
  abbrev pub new_peer : String → ℕ → Option String → MeshFrame → PeerRecord
  new_peer alias socket via frame = record {
    alias = alias;
    socket = socket;
    rooms = [];
    client_version = version_of frame.client_version;
    connected_at = env.now;
    last_seen_at = env.now;
    hello_done = true;
    reservations = get_or_else frame.reservations [];
    activity = none;
    via = via;
    caps = some (effective_caps frame.proto frame.caps);
    proto = some (get_or_else frame.proto 1);
  }

  -- The tables with the new record in the place of an old one, whose rooms are not touched.
  abbrev pub register : PeerRecord → BrokerState → BrokerState
  register peer s = record s {
    peers = Dict.set peer.alias peer (Dict.delete peer.alias s.peers);
    known_aliases = Dict.set peer.alias env.now s.known_aliases;
  }

  unfoldable pub announce_rooms : PeerRecord → List String → World → World
  announce_rooms peer [] w = w
  announce_rooms peer (r ∷ rs) w = announce_rooms peer rs (
      send_all env config
        (broadcast_to_room w.state r
          (presence_frame env.msg_id peer.alias "online" r peer.caps peer.proto) (some peer.alias))
        w)

  abbrev pub with_reservations : PeerRecord → List FileReservation → World → World
  with_reservations peer [] w = w
  with_reservations peer (r ∷ rs) w = broadcast_reservations env config peer w

  abbrev pub to_peer : PeerRecord → List MeshFrame → List Delivery
  to_peer peer [] = []
  to_peer peer (f ∷ fs) = (peer, f) ∷ to_peer peer fs

  abbrev pub welcome_frame : PeerRecord → String → ℕ → BrokerState → MeshFrame
  welcome_frame peer id waiting s = record (build_frame welcome id) {
    from = some peer.alias;
    rooms = some (Dict.keys peer.rooms);
    peers = some (peers_snapshot s none);
    mailbox_count = some waiting;
    proto = some proto_version;
  }

  -- Rooms joined: the stored frames follow the welcome, then the others learn of the peer.
  unfoldable pub admit : PeerRecord → String → World → World
  admit peer id w =
      let (frames, dropped, s) = flush_mailbox w.state config peer.alias env.now in
      let noticed = notify_dropped env config dropped (record w { state = s }) in
      let welcomed =
        send_to env config peer
          (welcome_frame (as_now peer (Dict.get peer.alias noticed.state.peers)) id (length frames)
            noticed.state)
          noticed in
      let served = send_all env config (to_peer peer frames) welcomed in
      let current = as_now peer (Dict.get peer.alias served.state.peers) in
      let announced = announce_rooms current (Dict.keys current.rooms) served in
      with_reservations peer peer.reservations announced

  -- A room was refused: the peer leaves those that it had joined.
  unfoldable pub turn_away : PeerRecord → MeshErrorCode → String → World → World
  turn_away peer code id w =
      let told = send_error env config peer.socket code id w in
      destroy peer.socket (record told { state = without_peer peer told.state })

  abbrev pub after_joins : String → World → Changed → World
  after_joins id w (ok, peer, s) = admit peer id (record w { state = s })
  after_joins id w (refused code, peer, s) = turn_away peer code id (record w { state = s })

  unfoldable pub enroll : PeerRecord → MeshFrame → World → World
  enroll peer frame w =
      after_joins frame.id w
        (join_rooms config frame (requested_rooms frame.rooms) peer (register peer w.state))

  -- A named hello: the token, then the alias, then the rooms.
  unfoldable pub hello_as : String → ℕ → Option String → MeshFrame → World → World
  hello_as alias socket via frame w =
      if any (λ s. eqb s socket) w.token_sockets
        && not (token_matches config.broker_token frame.token)
      then refuse socket invalid_token frame.id w
      else if is_taken socket w (Dict.get alias w.state.peers)
      then refuse socket alias_taken frame.id w
      else enroll (new_peer alias socket via frame) frame w

  unfoldable pub handle_hello : ℕ → Option String → MeshFrame → World → World
  unfolding hello_as
  handle_hello socket via frame w = elim frame.from [
    | none ↦ refuse socket invalid_alias frame.id w
    | some alias ↦ hello_as alias socket via frame w
  ]
