-- ===== src/Broker/Routing.antt =====
-- `routeMsg`, `routeOnlineOnly`, `routeReplyAll` and `routeReplyTargets` of src/broker/broker.ts.
pub mod Caps
pub mod Keeps
pub mod Chosen
pub mod Outcome
pub mod Stored
pub mod Tests
use pi_mesh.Prelude.{
  ℕ, suc, ◌+◌, String, Bool, true, false, not, ◌&&◌, ◌||◌, List, [], ◌∷◌, ◌++◌, Option, none, some,
  ◌==◌, if◌then◌else◌, leb, get_or_else, length,
}
use pi_mesh.Dict
use pi_mesh.Dict.{Dict}
use pi_mesh.Protocol.Frame.{
  MeshFrame, MeshErrorCode, MeshRole, member, observer, invalid_frame, not_member,
  observer_readonly, peer_not_found, policy_denied,
}
use pi_mesh.Protocol.Caps.{cap_target_name}
use pi_mesh.Shared.Config.{default_room}
use pi_mesh.Broker.State.{BrokerState, PeerRecord, MeshConfig, Members}
use pi_mesh.Broker.Policy.{MeshPolicy, PolicyDecision, allowed, downgraded, denied}
use pi_mesh.Broker.World.{
  Env, World, Batch, PeerRef, Relay, relayed, relayed_online, fanned_out, fanned_reply, ref_of,
  online, peer_at,
}
use pi_mesh.Broker.Relay.{
  count_relayed, one_more, one_away, change_batch, send_ack, ack_relay, store_for, write_to,
  resolve,
}
use pi_mesh.Broker.Routing.Caps.{
  priority_of, forced_status, downgrade, refuse_frame, decide, rate_checked, route_cap_msg,
}

abbrev pub is_set : Option Bool → Bool
is_set none = false
is_set (some b) = b

abbrev pub room_of : MeshFrame → String
room_of frame = get_or_else frame.room default_room

abbrev pub role_refusal : Option MeshRole → Option MeshErrorCode
role_refusal none = some not_member
role_refusal (some observer) = some observer_readonly
role_refusal (some member) = none

-- Who is not in the room, or only observes it, may not send to it.
abbrev pub room_refusal : PeerRecord → String → Option MeshErrorCode
room_refusal from room = role_refusal (Dict.get room from.rooms)

-- The members of a room that are left in the set that a loop runs over.
abbrev pub is_still_in : String → String → World → Bool
is_still_in room alias w = Dict.has alias (get_or_else (Dict.get room w.state.rooms) [])

module _ (env : Env) (config : MeshConfig) (policy : MeshPolicy) (from : PeerRecord)
    (frame : MeshFrame) where
  abbrev pub relay_to : PeerRecord → MeshFrame → Option String → Relay
  relay_to target routed status = record {
    sender = ref_of from;
    target = ref_of target;
    frame = routed;
    interrupt_status = status;
    routed_to = none;
  }

  -- To the socket of a peer that is online, else to the mailbox.
  abbrev pub deliver : String → Option PeerRecord → MeshFrame → Option String → World → World
  deliver to (some target) routed status w =
      let r = relay_to target routed status in
      write_to env config (ref_of target) routed (relayed r) w
  deliver to none routed status w =
      let stored = count_relayed 1 (store_for env config to routed w) in
      ack_relay env config
        (record {
          sender = ref_of from;
          target = ref_of from;
          frame = frame;
          interrupt_status = status;
          routed_to = none;
        })
        "queued_offline" stored

  abbrev pub deliver_if : PolicyDecision → String → Option PeerRecord → World → World
  deliver_if denied to target w = refuse_frame env config policy from frame policy_denied w
  deliver_if downgraded to target w =
      deliver to target (downgrade frame) (some "force_downgraded") w
  deliver_if allowed to target w = deliver to target frame (forced_status (priority_of frame)) w

  abbrev pub send_checked : String → String → Option PeerRecord → World → World
  send_checked to room target w =
      let (passed, w') = rate_checked env config policy from frame w in
      if passed
      then deliver_if (decide env config policy from frame to room) to target w'
      else refuse_frame env config policy from frame MeshErrorCode.rate_limited w'

  abbrev pub send_direct : String → String → Option PeerRecord → World → World
  send_direct to room none w =
      if Dict.has to w.state.known_aliases
      then send_checked to room none w
      else refuse_frame env config policy from frame peer_not_found w
  send_direct to room (some target) w =
      if Dict.has room target.rooms
      then send_checked to room (some target) w
      else refuse_frame env config policy from frame not_member w

  -- One member of a broadcast: a write that the batch waits for, or the mailbox.
  abbrev pub fan_to : ℕ → String → Option PeerRecord → World → World
  fan_to n alias (some target) w =
      let r = relay_to target frame none in
      write_to env config (ref_of target) frame (fanned_out n r)
        (change_batch env config n one_more w)
  fan_to n alias none w =
      let w' = change_batch env config n one_away w in
      if Dict.has alias w.state.known_aliases then store_for env config alias frame w' else w'

  unfoldable pub fan_out : ℕ → String → Members → World → World
  fan_out n room [] w = w
  fan_out n room ((alias, _) ∷ ms) w = fan_out n room ms (
      if alias == from.alias || not (is_still_in room alias w)
      then w
      else fan_to n alias (online env config w (Dict.get alias w.state.peers)) w)

  abbrev pub new_batch : Bool → Batch
  new_batch is_reply = record {
    sender = ref_of from;
    id = frame.id;
    is_reply = is_reply;
    waiting = 1;
    delivered = 0;
    total = 0;
  }

  abbrev pub open_batch : Bool → World → ℕ × World
  open_batch is_reply w =
      (length w.batches, record w { batches = w.batches ++ new_batch is_reply ∷ [] })

  abbrev pub broadcast : String → Members → World → World
  broadcast room ms w =
      let (n, w') = open_batch false w in resolve env config n false (fan_out n room ms w')

  -- A broadcast that the policy would have downgraded goes out as it is.
  abbrev pub broadcast_if : PolicyDecision → String → Members → World → World
  broadcast_if denied room ms w = refuse_frame env config policy from frame policy_denied w
  broadcast_if downgraded room ms w = broadcast room ms w
  broadcast_if allowed room ms w = broadcast room ms w

  abbrev pub broadcast_checked : String → Members → World → World
  broadcast_checked room ms w =
      let (passed, w') = rate_checked env config policy from frame w in
      if passed
      then broadcast_if (decide env config policy from frame "*" room) room ms w'
      else refuse_frame env config policy from frame MeshErrorCode.rate_limited w'

  abbrev pub broadcast_in : String → Members → World → World
  broadcast_in room ms w =
      if leb (Dict.size ms) 1
      then refuse_frame env config policy from frame peer_not_found w
      else broadcast_checked room ms w

  module _ (le : String → String → Bool) where
    abbrev pub send_to_alias : String → String → Option String → World → World
    send_to_alias to room (some cap) w = route_cap_msg env config policy from frame le cap room w
    send_to_alias to room none w =
        send_direct to room (online env config w (Dict.get to w.state.peers)) w

    abbrev pub send_unless : Option MeshErrorCode → String → String → World → World
    send_unless (some code) to room w = refuse_frame env config policy from frame code w
    send_unless none to room w = send_to_alias to room (cap_target_name to) w

    abbrev pub broadcast_unless : Option MeshErrorCode → String → World → World
    broadcast_unless (some code) room w = refuse_frame env config policy from frame code w
    broadcast_unless none room w =
        broadcast_in room (get_or_else (Dict.get room w.state.rooms) []) w

    abbrev pub send_named : Option String → String → World → World
    send_named none room w = refuse_frame env config policy from frame invalid_frame w
    send_named (some to) room w = send_unless (room_refusal from room) to room w

    unfoldable pub route_msg : World → World
    route_msg w =
        if is_set frame.broadcast
        then broadcast_unless (room_refusal from (room_of frame)) (room_of frame) w
        else send_named frame.to (room_of frame) w

  abbrev pub send_online : Bool → Option PeerRecord → World → World
  send_online silent (some target) w =
      let r = relay_to target frame none in
      write_to env config (ref_of target) frame (relayed_online r silent) w
  send_online silent none w =
      if silent then w else send_ack env config (ref_of from) frame.id "dropped_offline" w

  unfoldable pub route_online_only : Bool → World → World
  route_online_only silent w =
      send_online silent (online env config w (peer_at env config frame.to w)) w

  abbrev pub reply_to_one : ℕ → Option PeerRecord → World → World
  reply_to_one n none w = w
  reply_to_one n (some target) w =
      let r = relay_to target frame none in
      write_to env config (ref_of target) frame (fanned_reply n r)
        (change_batch env config n one_more w)

  unfoldable pub reply_members : ℕ → String → Members → World → World
  reply_members n room [] w = w
  reply_members n room ((alias, _) ∷ ms) w = reply_members n room ms (
      if alias == from.alias || not (is_still_in room alias w)
      then w
      else reply_to_one n (online env config w (Dict.get alias w.state.peers)) w)

  unfoldable pub route_reply_all : World → World
  route_reply_all w =
      let members = get_or_else (Dict.get (room_of frame) w.state.rooms) [] in
      if leb (Dict.size members) 1
      then send_ack env config (ref_of from) frame.id "dropped_offline" w
      else (let (n, w') = open_batch true w in
          resolve env config n false (reply_members n (room_of frame) members w'))

  unfoldable pub reply_aliases : ℕ → List String → World → World
  reply_aliases n [] w = w
  reply_aliases n (alias ∷ rest) w = reply_aliases n rest (
      if alias == from.alias
      then w
      else reply_to_one n (online env config w (Dict.get alias w.state.peers)) w)

  unfoldable pub route_reply_targets : World → World
  route_reply_targets w =
      let (n, w') = open_batch true w in
      resolve env config n false (reply_aliases n (get_or_else frame.reply_targets []) w')
