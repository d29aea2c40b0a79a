-- ===== src/Broker/Dispatch.antt =====
-- `dispatch` of src/broker/broker.ts: a frame that a socket has received.
pub mod Strangers
pub mod Tests
use pi_mesh.Prelude.{
  ℕ, ◌+◌, ◌-◌, String, Bool, true, false, not, ◌&&◌, ◌||◌, List, [], ◌∷◌, Option, none, some, ◌==◌,
  if◌then◌else◌, leb, ltb, eqb, get_or_else, length, select, is_some,
}
use pi_mesh.Dict
use pi_mesh.Dict.{Dict}
use pi_mesh.Protocol.Frame.{
  MeshFrame, MeshErrorCode, MeshRole, member, FrameType, Activity, ActivityState, Counters,
  FileReservation, build_frame, hello, welcome, msg, ack, reply, remind, presence, mailbox,
  status_req, status_res, join, leave, reserve, read, ping, pong, activity, claim, release, lease,
  lease_status, ctl, ctl_ack, error, invalid_frame, hello_required, invalid_room,
}
use pi_mesh.Broker.State.{BrokerState, PeerRecord, StoredMsg, MeshConfig}
use pi_mesh.Broker.Mailbox.{purge_all_expired}
use pi_mesh.Broker.Ratelimit
use pi_mesh.Broker.Ratelimit.{check_rate}
use pi_mesh.Broker.Policy.{MeshPolicy}
use pi_mesh.Broker.Rooms.{
  RoomResult, ok, refused, Changed, join_room, leave_room, store, broadcast_to_room, presence_frame,
  peers_snapshot,
}
use pi_mesh.Broker.World.{
  Env, World, ref_of, is_destroyed, destroy, close_peer, send_to, send_all, send_error,
  notify_dropped, broadcast_reservations,
}
use pi_mesh.Broker.Relay.{send_ack, end_write, time_out_write}
use pi_mesh.Broker.Hello.{handle_hello}
use pi_mesh.Broker.Routing.{
  is_set, route_msg, route_online_only, route_reply_all, route_reply_targets,
}
use pi_mesh.Broker.Control.{handle_ctl, handle_ctl_ack}
use pi_mesh.Broker.Leasing.{handle_claim, handle_release, handle_lease_status}

-- The turn state that a peer announces, and its name.
abbrev pub announced_state : Option String → ActivityState
announced_state none = ActivityState.idle
announced_state (some status) =
    if status == "busy"
    then ActivityState.busy
    else if status == "rate_limited"
    then ActivityState.rate_limited
    else if status == "blocked"
    then ActivityState.blocked
    else ActivityState.idle

abbrev pub state_name : ActivityState → String
state_name ActivityState.busy = "busy"
state_name ActivityState.idle = "idle"
state_name ActivityState.rate_limited = "rate_limited"
state_name ActivityState.blocked = "blocked"

-- A change of the record of a peer, which the table holds.
abbrev pub put_peer : PeerRecord → World → World
put_peer peer w = record w { state = store peer w.state }

module _ (env : Env) (config : MeshConfig) (policy : MeshPolicy) (le : String → String → Bool) where
  module _ (peer : PeerRecord) (frame : MeshFrame) where
    abbrev pub handle_reserve : World → World
    handle_reserve w =
        let peer' = record peer { reservations = get_or_else frame.reservations [] } in
        send_ack env config (ref_of peer') frame.id "ok"
          (broadcast_reservations env config peer' (put_peer peer' w))

    abbrev pub route_reply : World → World
    route_reply w =
        if is_set frame.reply_all
        then route_reply_all env config policy peer frame w
        else if is_some frame.reply_targets
        then route_reply_targets env config policy peer frame w
        else route_online_only env config policy peer frame false w

    abbrev pub handle_reply : World → World
    handle_reply w =
        let (passed, s) = check_rate w.state peer.alias Ratelimit.msg policy.rate_limits env.now in
        let w' = record w { state = s } in
        if passed
        then route_reply w'
        else send_error env config peer.socket MeshErrorCode.rate_limited frame.id w'

    abbrev pub activity_frame : ActivityState → String → MeshFrame
    activity_frame state room = record (build_frame activity env.msg_id) {
      from = some peer.alias;
      status = some (state_name state);
      room = some room;
    }

    unfoldable pub announce_activity : ActivityState → List String → World → World
    announce_activity state [] w = w
    announce_activity state (r ∷ rs) w = announce_activity state rs (
        send_all env config (broadcast_to_room w.state r (activity_frame state r) (some peer.alias))
          w)

    abbrev pub handle_activity : World → World
    handle_activity w =
        let state = announced_state frame.status in
        let peer' = record peer { activity = some (record { state = state; since = env.now }) } in
        announce_activity state (Dict.keys peer.rooms) (put_peer peer' w)

    abbrev pub status_frame : BrokerState → MeshFrame
    status_frame s = record (build_frame status_res frame.id) {
      peers = some (peers_snapshot s frame.room);
      rooms = some (Dict.keys s.rooms);
      stats = some (record {
        relayed = s.stats.relayed;
        refused = s.stats.refused;
        mailbox_delivered = s.stats.mailbox_delivered;
        mailbox_dropped = s.stats.mailbox_dropped;
      });
    }

    abbrev pub tell_room : String → String → World → World
    tell_room status room w =
        send_all env config
          (broadcast_to_room w.state room
            (presence_frame env.msg_id peer.alias status room none none) (some peer.alias))
          w

    -- The answer to a join or a leave, and the presence that the members of the room are told.
    abbrev pub after_change : ℕ → String → String → World → Changed → World
    after_change socket status room w (ok, peer', s) =
        tell_room status room
          (send_ack env config (ref_of peer') frame.id "ok" (record w { state = s }))
    after_change socket status room w (refused code, peer', s) =
        send_error env config socket code frame.id (record w { state = s })

    abbrev pub handle_join : ℕ → Option String → World → World
    handle_join socket none w = send_error env config socket invalid_room frame.id w
    handle_join socket (some room) w =
        after_change socket "online" room w
          (join_room config peer room (get_or_else frame.role member) w.state)

    abbrev pub handle_leave : ℕ → Option String → World → World
    handle_leave socket none w = send_error env config socket invalid_room frame.id w
    handle_leave socket (some room) w =
        after_change socket "offline" room w (leave_room peer room w.state)

    -- A frame of a peer that has said hello.
    unfoldable pub handle : ℕ → FrameType → World → World
    handle socket claim w = handle_claim env config peer frame w
    handle socket release w = handle_release env config peer frame w
    handle socket lease_status w = handle_lease_status env config peer frame w
    handle socket msg w = route_msg env config policy peer frame le w
    handle socket reserve w = handle_reserve w
    handle socket reply w = handle_reply w
    handle socket remind w = route_online_only env config policy peer frame true w
    handle socket read w = route_online_only env config policy peer frame true w
    handle socket ctl w = handle_ctl env config policy peer frame w
    handle socket ctl_ack w = handle_ctl_ack env config policy peer frame w
    handle socket activity w = handle_activity w
    handle socket ping w = send_to env config peer (build_frame pong frame.id) w
    handle socket status_req w = send_to env config peer (status_frame w.state) w
    handle socket join w = handle_join socket frame.room w
    handle socket leave w = handle_leave socket frame.room w
    handle socket _ w = send_error env config socket invalid_frame frame.id w

  -- The record that the sender of a frame names, if it is on this socket and has said hello.
  abbrev pub authed : ℕ → Option PeerRecord → Option PeerRecord
  authed socket none = none
  authed socket (some peer) = if eqb peer.socket socket && peer.hello_done then some peer else none

  abbrev pub sender_of : Option String → World → Option PeerRecord
  sender_of none w = none
  sender_of (some alias) w = Dict.get alias w.state.peers

  abbrev pub is_hello : FrameType → Bool
  is_hello hello = true
  is_hello _ = false

  abbrev pub dispatch_from : ℕ → Option String → MeshFrame → Option PeerRecord → World → World
  dispatch_from socket via frame none w =
      if is_hello frame.type
      then handle_hello env config socket via frame w
      else send_error env config socket hello_required frame.id w
  dispatch_from socket via frame (some peer) w =
      if is_hello frame.type
      then send_error env config socket invalid_frame frame.id w
      else (let peer' = record peer { last_seen_at = env.now } in
          handle peer' frame socket frame.type (put_peer peer' w))

  unfoldable pub dispatch : ℕ → Option String → MeshFrame → World → World
  dispatch socket via frame w =
      dispatch_from socket via frame (authed socket (sender_of frame.from w)) w
