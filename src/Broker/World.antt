-- ===== src/Broker/World.antt =====
-- The broker of src/broker/broker.ts: its tables, the sockets, and the writes in flight. A write ends
-- later, in success or not, and its callback runs then; it fails at once on a frame that is too long
-- and on a socket that is destroyed
-- or half closed.
pub mod Closing
pub mod Stable
pub mod Tests
use pi_mesh.Prelude.{
  ℕ, String, Bool, true, false, not, ◌&&◌, ◌||◌, List, [], ◌∷◌, ◌++◌, Option, none, some, ◌==◌,
  if◌then◌else◌, ltb, eqb, any, get_or_else,
}
use pi_mesh.Dict
use pi_mesh.Dict.{Dict}
use pi_mesh.Protocol.Frame.{
  MeshFrame, MeshErrorCode, FileReservation, build_frame, error, ack, reserve,
}
use pi_mesh.Shared.Config.{default_max_frame_bytes}
use pi_mesh.Broker.State.{BrokerState, PeerRecord, StoredMsg, MeshConfig}
use pi_mesh.Broker.Lease.{LeaseTable}
use pi_mesh.Broker.Policy.{MeshPolicy}
use pi_mesh.Broker.Rooms.{Delivery, broadcast_to_room, presence_frame, detach_from_rooms}

-- What a handler takes from outside: the time, the id that `makeMsgId` draws, the length of a frame
-- as a line of JSON, and the hash of a text.
pub record Env : Type 0 where
  pub now : ℕ
  pub msg_id : String
  pub frame_bytes : MeshFrame → ℕ
  pub sha256 : String → String

-- A record that a callback holds is told by its alias and its socket.
pub record PeerRef : Type 0 where
  pub alias : String
  pub socket : ℕ

-- A frame on its way from one peer to another: what the acknowledgement of it needs.
pub record Relay : Type 0 where
  pub sender : PeerRef
  pub target : PeerRef
  pub frame : MeshFrame
  pub interrupt_status : Option String
  pub routed_to : Option String

-- What is to be done when a write ends, by the function that made it: nothing (`sendError` and the
-- notices of `closePeer`); to close the peer if it failed (`sendTo`); `routeMsg` to one peer and
-- `routeCapMsg`; `routeOnlineOnly`, whose flag is `silentDrop`; `handleCtl`; `handleCtlAck`; and the
-- fan-outs of a broadcast and of a reply, whose number is that of the batch.
pub data Callback : Type 0 where
  ignore : Callback
  close_on_failure : String → ℕ → Callback
  relayed : Relay → Callback
  relayed_online : Relay → Bool → Callback
  controlled : Relay → Callback
  control_acked : Callback
  fanned_out : ℕ → Relay → Callback
  fanned_reply : ℕ → Relay → Callback

pub record Write : Type 0 where
  pub socket : ℕ
  pub frame : MeshFrame
  pub callback : Callback

pub record PendingCtl : Type 0 where
  pub from : String
  pub to : String
  pub action : String
  pub sent_at : ℕ

-- `Promise.all` of the writes of one fan-out: those still waiting, counting the loop that starts
-- them as one, and what the acknowledgement says in the end.
pub record Batch : Type 0 where
  pub sender : PeerRef
  pub id : String
  pub is_reply : Bool
  pub waiting : ℕ
  pub delivered : ℕ
  pub total : ℕ

pub record World : Type 0 where
  pub state : BrokerState
  pub destroyed : List ℕ
  pub half_closed : List ℕ
  pub token_sockets : List ℕ
  pub writes : List Write
  pub pending_ctl : Dict PendingCtl
  pub batches : List Batch
  pub leases : LeaseTable

abbrev pub is_destroyed : ℕ → World → Bool
is_destroyed socket w = any (λ s. eqb s socket) w.destroyed

-- `socket.destroyed || !socket.writable`: a socket that the other end has half closed takes no more.
abbrev pub cannot_write : ℕ → World → Bool
cannot_write socket w = is_destroyed socket w || any (λ s. eqb s socket) w.half_closed

-- `socket.destroy()`; the `close` event comes later.
abbrev pub destroy : ℕ → World → World
destroy socket w = record w { destroyed = socket ∷ w.destroyed }

-- `writeFrame`, given what its callback does on a failure.
unfoldable pub write_frame : (World → World) → Env → ℕ → ℕ → MeshFrame → Callback → World → World
write_frame on_failure env max_bytes socket frame callback w =
    if ltb max_bytes (env.frame_bytes frame) || cannot_write socket w
    then on_failure w
    else record w {
      writes = w.writes ++ record { socket = socket; frame = frame; callback = callback } ∷ [];
    }

unfoldable pub write_quiet : Env → ℕ → ℕ → MeshFrame → World → World
unfolding write_frame
write_quiet env max_bytes socket frame w = write_frame (λ v. v) env max_bytes socket frame ignore w

unfoldable pub write_all_quiet : Env → ℕ → List Delivery → World → World
write_all_quiet env max_bytes [] w = w
write_all_quiet env max_bytes ((peer, frame) ∷ rest) w =
    write_all_quiet env max_bytes rest (write_quiet env max_bytes peer.socket frame w)

-- The part of `closePeer` that changes the tables.
abbrev pub without_peer : PeerRecord → BrokerState → BrokerState
without_peer peer s =
    let (_, s') = detach_from_rooms peer s in record s' { peers = Dict.delete peer.alias s'.peers }

unfoldable pub announce_offline : Env → ℕ → String → List String → World → World
announce_offline env max_bytes alias [] w = w
announce_offline env max_bytes alias (r ∷ rs) w = announce_offline env max_bytes alias rs (
    write_all_quiet env max_bytes
      (broadcast_to_room w.state r (presence_frame env.msg_id alias "offline" r none none)
        (some alias))
      w)

abbrev pub reserve_frame : String → String → List FileReservation → MeshFrame
reserve_frame id alias rs = record (build_frame reserve id) {
  from = some alias;
  reservations = some rs;
}

abbrev pub to_each : MeshFrame → List PeerRecord → List Delivery
to_each frame [] = []
to_each frame (p ∷ ps) = (p, frame) ∷ to_each frame ps

-- The remaining peers learn that the reservations are void.
abbrev pub void_reservations : Env → ℕ → PeerRecord → List FileReservation → World → World
void_reservations env max_bytes peer [] w = w
void_reservations env max_bytes peer (r ∷ rs) w =
    write_all_quiet env max_bytes
      (to_each (reserve_frame env.msg_id peer.alias []) (Dict.values w.state.peers)) w

unfoldable pub close_found : Env → Option PeerRecord → World → World
close_found env none w = w
close_found env (some peer) w =
    let (rooms, _) = detach_from_rooms peer w.state in
    let closed = record w { state = without_peer peer w.state } in
    let cut = if is_destroyed peer.socket closed then closed else destroy peer.socket closed in
    void_reservations env default_max_frame_bytes peer peer.reservations
      (announce_offline env default_max_frame_bytes peer.alias rooms cut)

-- `closePeer`, which every caller leaves at the default bound on a frame.
unfoldable pub close_peer : Env → String → World → World
unfolding close_found
close_peer env alias w = close_found env (Dict.get alias w.state.peers) w

abbrev pub is_current : ℕ → Option PeerRecord → Bool
is_current socket none = false
is_current socket (some peer) = eqb peer.socket socket

-- What `sendTo` does when its write fails; the fan-outs and relays do the same.
unfoldable pub close_current : Env → PeerRef → World → World
close_current env peer w =
    if is_current peer.socket (Dict.get peer.alias w.state.peers)
    then close_peer env peer.alias w
    else w

abbrev pub ref_of : PeerRecord → PeerRef
ref_of peer = record { alias = peer.alias; socket = peer.socket }

module _ (env : Env) (config : MeshConfig) where
  unfoldable pub send_ref : PeerRef → MeshFrame → World → World
  unfolding write_frame close_current
  send_ref peer frame w =
      write_frame (close_current env peer) env config.max_frame_bytes peer.socket frame
        (close_on_failure peer.alias peer.socket) w

  unfoldable pub send_to : PeerRecord → MeshFrame → World → World
  send_to peer frame w = send_ref (ref_of peer) frame w

  unfoldable pub send_all : List Delivery → World → World
  send_all [] w = w
  send_all ((peer, frame) ∷ rest) w = send_all rest (send_to peer frame w)

  abbrev pub error_frame : MeshErrorCode → String → MeshFrame
  error_frame code id = record (build_frame error id) { code = some code }

  unfoldable pub send_error : ℕ → MeshErrorCode → String → World → World
  unfolding write_quiet
  send_error socket code id w =
      write_quiet env config.max_frame_bytes socket (error_frame code id) w

  -- The sender of a dropped entry, if it is online.
  abbrev pub online : World → Option PeerRecord → Option PeerRecord
  online w none = none
  online w (some peer) =
      if peer.hello_done && not (is_destroyed peer.socket w) then some peer else none

  abbrev pub peer_at : Option String → World → Option PeerRecord
  peer_at none w = none
  peer_at (some alias) w = Dict.get alias w.state.peers

  abbrev pub drop_notice : MeshFrame → MeshFrame
  drop_notice frame = record (build_frame ack frame.id) {
    status = some "dropped_offline";
    to = frame.to;
  }

  abbrev pub notify_one : MeshFrame → Option PeerRecord → World → World
  notify_one frame none w = w
  notify_one frame (some sender) w = send_to sender (drop_notice frame) w

  unfoldable pub notify_dropped : List StoredMsg → World → World
  notify_dropped [] w = w
  notify_dropped (m ∷ ms) w =
      notify_dropped ms (notify_one m.frame (online w (peer_at m.frame.from w)) w)

  abbrev pub except : String → List PeerRecord → List PeerRecord
  except alias [] = []
  except alias (p ∷ ps) = let rest = except alias ps in if p.alias == alias then rest else p ∷ rest

  -- One peer's reservations, to every other peer.
  unfoldable pub broadcast_reservations : PeerRecord → World → World
  unfolding send_all
  broadcast_reservations peer w =
      send_all
        (to_each (reserve_frame env.msg_id peer.alias peer.reservations)
          (except peer.alias (Dict.values w.state.peers)))
        w
