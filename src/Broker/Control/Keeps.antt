-- ===== src/Broker/Control/Keeps.antt =====
-- Control frames keep every stable property.
use pi_mesh.Prelude.{refl, String, Option, none, some, if-both}
use pi_mesh.Dict
use pi_mesh.Protocol.Frame.{
  MeshFrame, MeshErrorCode, invalid_frame, unreachable, not_member, policy_denied,
}
use pi_mesh.Broker.State.{PeerRecord, MeshConfig}
use pi_mesh.Broker.Ratelimit.{check_rate}
use pi_mesh.Broker.Policy.{MeshPolicy, PolicyDecision, allowed, downgraded, denied}
use pi_mesh.Broker.World.{Env, World, ref_of, online, peer_at}
use pi_mesh.Broker.World.Stable.{IsStable, send_error-stable}
use pi_mesh.Broker.Relay.Keeps.{write_to-stable}
use pi_mesh.Broker.Routing.{room_of, room_refusal}
use pi_mesh.Broker.Routing.Caps.{refuse_frame}
use pi_mesh.Broker.Routing.Keeps.{refuse_frame-stable}
use pi_mesh.Broker.Control.{
  ctl_kind, ctl_checked, ctl_if, ctl_decision, ctl_target, ctl_unless, ctl_named, handle_ctl,
  answers, send_ctl_ack, ack_named, handle_ctl_ack,
}

module _ {ℓ} (Q : World → Type ℓ) (st : IsStable Q) (env : Env) (config : MeshConfig)
    (policy : MeshPolicy) (from : PeerRecord) (frame : MeshFrame) where
  refuse-keeps :
      (code : MeshErrorCode) (w : World)
      → Q w
      → Q (refuse_frame env config policy from frame code w)
  refuse-keeps = refuse_frame-stable Q st env config policy from frame

  checked-keeps :
      (to : String) (target : PeerRecord) (w : World)
      → Q w
      → Q (ctl_checked env config policy from frame to target w)
  unfolding check_rate
  checked-keeps to target w h =
      let (passed, s) =
        check_rate w.state from.alias (ctl_kind env config policy from frame) policy.rate_limits
          env.now in
      let k = st.on_state w s refl refl h in
      if-both Q passed
        (write_to-stable Q st env config (ref_of target) frame _ _ (st.on_pending _ _ k))
        (refuse-keeps MeshErrorCode.rate_limited _ k)

  if-keeps :
      (d : PolicyDecision) (to : String) (target : PeerRecord) (w : World)
      → Q w
      → Q (ctl_if env config policy from frame d to target w)
  if-keeps allowed to target w h = checked-keeps to target w h
  if-keeps downgraded to target w h = refuse-keeps policy_denied w h
  if-keeps denied to target w h = refuse-keeps policy_denied w h

  target-keeps :
      (to room : String) (o : Option PeerRecord) (w : World)
      → Q w
      → Q (ctl_target env config policy from frame to room o w)
  target-keeps to room none w h =
      send_error-stable Q st env config from.socket unreachable frame.id w h
  target-keeps to room (some target) w h =
      if-both Q (Dict.has room target.rooms)
        (if-keeps (ctl_decision env config policy from frame to room) to target w h)
        (refuse-keeps not_member w h)

  unless-keeps :
      (o : Option MeshErrorCode) (to room : String) (w : World)
      → Q w
      → Q (ctl_unless env config policy from frame o to room w)
  unless-keeps (some code) to room w h = refuse-keeps code w h
  unless-keeps none to room w h =
      target-keeps to room (online env config w (Dict.get to w.state.peers)) w h

  named-keeps :
      (o : Option String) (w : World) → Q w → Q (ctl_named env config policy from frame o w)
  named-keeps none w h = send_error-stable Q st env config from.socket invalid_frame frame.id w h
  named-keeps (some to) w h =
      unless-keeps (room_refusal from (room_of frame)) to (room_of frame) w h

  pub handle_ctl-stable : (w : World) → Q w → Q (handle_ctl env config policy from frame w)
  unfolding handle_ctl
  handle_ctl-stable w h = named-keeps frame.to w h

  ack-keeps :
      (o : Option PeerRecord) (w : World) → Q w → Q (send_ctl_ack env config policy from frame o w)
  ack-keeps none w h = h
  ack-keeps (some target) w h = write_to-stable Q st env config (ref_of target) frame _ w h

  ack_named-keeps :
      (o : Option String) (w : World) → Q w → Q (ack_named env config policy from frame o w)
  ack_named-keeps none w h = h
  ack_named-keeps (some reply_to) w h =
      let w' = record w { pending_ctl = Dict.delete reply_to w.pending_ctl } in
      if-both Q (answers env config policy from frame (Dict.get reply_to w.pending_ctl))
        (ack-keeps (online env config w' (peer_at env config frame.to w')) w' (st.on_pending w _ h))
        h

  pub handle_ctl_ack-stable : (w : World) → Q w → Q (handle_ctl_ack env config policy from frame w)
  unfolding handle_ctl_ack
  handle_ctl_ack-stable w h = ack_named-keeps frame.reply_to w h
