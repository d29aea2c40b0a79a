-- ===== src/Broker/Routing/Keeps.antt =====
-- Routing a message or a reply keeps every stable property.
use pi_mesh.Prelude.{
  ℕ, refl, String, Bool, true, false, not, ◌||◌, List, [], ◌∷◌, Option, none, some, ◌==◌, leb,
  if-both, get_or_else,
}
use pi_mesh.Dict
use pi_mesh.Protocol.Frame.{
  MeshFrame, MeshErrorCode, invalid_frame, not_member, peer_not_found, policy_denied,
}
use pi_mesh.Protocol.Caps.{cap_target_name}
use pi_mesh.Broker.State.{PeerRecord, MeshConfig, Members}
use pi_mesh.Broker.Ratelimit.{check_rate}
use pi_mesh.Broker.Policy.{MeshPolicy, PolicyDecision, allowed, downgraded, denied}
use pi_mesh.Broker.World.{Env, World, ref_of, online, peer_at}
use pi_mesh.Broker.World.Stable.{IsStable, send_ref-stable, send_error-stable}
use pi_mesh.Broker.Relay.{one_more, one_away}
use pi_mesh.Broker.Relay.Keeps.{
  relayed-stable, refused-stable, batch-stable, store_for-stable, resolve-stable, write_to-stable,
}
use pi_mesh.Broker.Routing.{
  is_set, room_of, room_refusal, is_still_in, deliver, deliver_if, send_checked, send_direct,
  fan_to, fan_out, open_batch, broadcast, broadcast_if, broadcast_in, send_to_alias, send_unless,
  broadcast_unless, send_named, route_msg, send_online, route_online_only, reply_to_one,
  reply_members, route_reply_all, reply_aliases, route_reply_targets,
}
use pi_mesh.Broker.Routing.Caps.{
  Scan, Candidate, refuse_frame, decide, rate_checked, route_chosen, route_first, route_members,
  route_cap_msg, scan, sort_candidates,
}

module _ {ℓ} (Q : World → Type ℓ) (st : IsStable Q) (env : Env) (config : MeshConfig)
    (policy : MeshPolicy) (from : PeerRecord) (frame : MeshFrame) where
  pub refuse_frame-stable :
      (code : MeshErrorCode) (w : World)
      → Q w
      → Q (refuse_frame env config policy from frame code w)
  refuse_frame-stable code w h =
      send_error-stable Q st env config from.socket code frame.id _
        (refused-stable Q st env config w h)

  rate_checked-keeps : (w : World) → Q w → Q (rate_checked env config policy from frame w).1
  unfolding check_rate
  rate_checked-keeps w h = st.on_state w _ refl refl h

  module _ (le : String → String → Bool) (cap room : String) where
    chosen-keeps :
        (target : PeerRecord) (d : PolicyDecision) (w : World)
        → Q w
        → Q (route_chosen env config policy from frame le cap room target d w)
    chosen-keeps target denied w h = refuse_frame-stable policy_denied w h
    chosen-keeps target downgraded w h = write_to-stable Q st env config (ref_of target) _ _ w h
    chosen-keeps target allowed w h = write_to-stable Q st env config (ref_of target) _ _ w h

    first-keeps :
        (seen : Scan) (cs : List Candidate) (w : World)
        → Q w
        → Q (route_first env config policy from frame le cap room seen cs w)
    first-keeps seen [] w h = refuse_frame-stable _ w h
    first-keeps seen (c ∷ cs) w h =
        chosen-keeps c.peer (decide env config policy from frame c.peer.alias room) w h

    members-keeps :
        (o : Option Members) (w : World)
        → Q w
        → Q (route_members env config policy from frame le cap room o w)
    members-keeps none w h = refuse_frame-stable peer_not_found w h
    members-keeps (some ms) w h =
        let seen = scan env config policy from frame le cap room w ms in
        first-keeps seen (sort_candidates le seen.candidates) w h

    cap_msg-keeps : (w : World) → Q w → Q (route_cap_msg env config policy from frame le cap room w)
    unfolding route_cap_msg
    cap_msg-keeps w h =
        let (passed, w') = rate_checked env config policy from frame w in
        let k = rate_checked-keeps w h in
        if-both Q passed (members-keeps (Dict.get room w'.state.rooms) w' k)
          (refuse_frame-stable MeshErrorCode.rate_limited w' k)

  deliver-keeps :
      (to : String) (o : Option PeerRecord) (routed : MeshFrame) (status : Option String)
      (w : World)
      → Q w
      → Q (deliver env config policy from frame to o routed status w)
  deliver-keeps to (some target) routed status w h =
      write_to-stable Q st env config (ref_of target) routed _ w h
  deliver-keeps to none routed status w h =
      send_ref-stable Q st env config (ref_of from) _ _
        (relayed-stable Q st env config 1 _ (store_for-stable Q st env config to routed w h))

  deliver_if-keeps :
      (d : PolicyDecision) (to : String) (o : Option PeerRecord) (w : World)
      → Q w
      → Q (deliver_if env config policy from frame d to o w)
  deliver_if-keeps denied to o w h = refuse_frame-stable policy_denied w h
  deliver_if-keeps downgraded to o w h = deliver-keeps to o _ _ w h
  deliver_if-keeps allowed to o w h = deliver-keeps to o _ _ w h

  checked-keeps :
      (to room : String) (o : Option PeerRecord) (w : World)
      → Q w
      → Q (send_checked env config policy from frame to room o w)
  checked-keeps to room o w h =
      let (passed, w') = rate_checked env config policy from frame w in
      let k = rate_checked-keeps w h in
      if-both Q passed (deliver_if-keeps (decide env config policy from frame to room) to o w' k)
        (refuse_frame-stable MeshErrorCode.rate_limited w' k)

  direct-keeps :
      (to room : String) (o : Option PeerRecord) (w : World)
      → Q w
      → Q (send_direct env config policy from frame to room o w)
  direct-keeps to room none w h =
      if-both Q (Dict.has to w.state.known_aliases) (checked-keeps to room none w h)
        (refuse_frame-stable peer_not_found w h)
  direct-keeps to room (some target) w h =
      if-both Q (Dict.has room target.rooms) (checked-keeps to room (some target) w h)
        (refuse_frame-stable not_member w h)

  fan_to-keeps :
      (n : ℕ) (alias : String) (o : Option PeerRecord) (w : World)
      → Q w
      → Q (fan_to env config policy from frame n alias o w)
  fan_to-keeps n alias (some target) w h =
      write_to-stable Q st env config (ref_of target) frame _ _
        (batch-stable Q st env config n one_more w h)
  fan_to-keeps n alias none w h =
      let k = batch-stable Q st env config n one_away w h in
      if-both Q (Dict.has alias w.state.known_aliases)
        (store_for-stable Q st env config alias frame _ k) k

  fan_out-keeps :
      (n : ℕ) (room : String) (ms : Members) (w : World)
      → Q w
      → Q (fan_out env config policy from frame n room ms w)
  unfolding fan_out
  fan_out-keeps n room [] w h = h
  fan_out-keeps n room ((alias, _) ∷ ms) w h = fan_out-keeps n room ms _ (
      if-both Q (alias == from.alias || not (is_still_in room alias w)) h
        (fan_to-keeps n alias (online env config w (Dict.get alias w.state.peers)) w h))

  opened-keeps :
      (is_reply : Bool) (w : World) → Q w → Q (open_batch env config policy from frame is_reply w).1
  opened-keeps is_reply w h = st.on_batches w _ h

  broadcast-keeps :
      (room : String) (ms : Members) (w : World)
      → Q w
      → Q (broadcast env config policy from frame room ms w)
  broadcast-keeps room ms w h =
      let (n, w') = open_batch env config policy from frame false w in
      resolve-stable Q st env config n false _ (fan_out-keeps n room ms w' (opened-keeps false w h))

  broadcast_if-keeps :
      (d : PolicyDecision) (room : String) (ms : Members) (w : World)
      → Q w
      → Q (broadcast_if env config policy from frame d room ms w)
  broadcast_if-keeps denied room ms w h = refuse_frame-stable policy_denied w h
  broadcast_if-keeps downgraded room ms w h = broadcast-keeps room ms w h
  broadcast_if-keeps allowed room ms w h = broadcast-keeps room ms w h

  broadcast_in-keeps :
      (room : String) (ms : Members) (w : World)
      → Q w
      → Q (broadcast_in env config policy from frame room ms w)
  broadcast_in-keeps room ms w h =
      let (passed, w') = rate_checked env config policy from frame w in
      let k = rate_checked-keeps w h in
      if-both Q (leb (Dict.size ms) 1) (refuse_frame-stable peer_not_found w h) (
        if-both Q passed
          (broadcast_if-keeps (decide env config policy from frame "*" room) room ms w' k)
          (refuse_frame-stable MeshErrorCode.rate_limited w' k))

  module _ (le : String → String → Bool) where
    alias-keeps :
        (to room : String) (o : Option String) (w : World)
        → Q w
        → Q (send_to_alias env config policy from frame le to room o w)
    alias-keeps to room (some cap) w h = cap_msg-keeps le cap room w h
    alias-keeps to room none w h =
        direct-keeps to room (online env config w (Dict.get to w.state.peers)) w h

    unless-keeps :
        (o : Option MeshErrorCode) (to room : String) (w : World)
        → Q w
        → Q (send_unless env config policy from frame le o to room w)
    unless-keeps (some code) to room w h = refuse_frame-stable code w h
    unless-keeps none to room w h = alias-keeps to room (cap_target_name to) w h

    named-keeps :
        (o : Option String) (room : String) (w : World)
        → Q w
        → Q (send_named env config policy from frame le o room w)
    named-keeps none room w h = refuse_frame-stable invalid_frame w h
    named-keeps (some to) room w h = unless-keeps (room_refusal from room) to room w h

    broadcast_unless-keeps :
        (o : Option MeshErrorCode) (room : String) (w : World)
        → Q w
        → Q (broadcast_unless env config policy from frame le o room w)
    broadcast_unless-keeps (some code) room w h = refuse_frame-stable code w h
    broadcast_unless-keeps none room w h =
        broadcast_in-keeps room (get_or_else (Dict.get room w.state.rooms) []) w h

    pub route_msg-stable : (w : World) → Q w → Q (route_msg env config policy from frame le w)
    unfolding route_msg
    route_msg-stable w h =
        if-both Q (is_set frame.broadcast)
          (broadcast_unless-keeps (room_refusal from (room_of frame)) (room_of frame) w h)
          (named-keeps frame.to (room_of frame) w h)

  online-keeps :
      (silent : Bool) (o : Option PeerRecord) (w : World)
      → Q w
      → Q (send_online env config policy from frame silent o w)
  online-keeps silent (some target) w h =
      write_to-stable Q st env config (ref_of target) frame _ w h
  online-keeps silent none w h =
      if-both Q silent h (send_ref-stable Q st env config (ref_of from) _ w h)

  pub online_only-stable :
      (silent : Bool) (w : World)
      → Q w
      → Q (route_online_only env config policy from frame silent w)
  unfolding route_online_only
  online_only-stable silent w h =
      online-keeps silent (online env config w (peer_at env config frame.to w)) w h

  one-keeps :
      (n : ℕ) (o : Option PeerRecord) (w : World)
      → Q w
      → Q (reply_to_one env config policy from frame n o w)
  one-keeps n none w h = h
  one-keeps n (some target) w h =
      write_to-stable Q st env config (ref_of target) frame _ _
        (batch-stable Q st env config n one_more w h)

  reply_members-keeps :
      (n : ℕ) (room : String) (ms : Members) (w : World)
      → Q w
      → Q (reply_members env config policy from frame n room ms w)
  unfolding reply_members
  reply_members-keeps n room [] w h = h
  reply_members-keeps n room ((alias, _) ∷ ms) w h = reply_members-keeps n room ms _ (
      if-both Q (alias == from.alias || not (is_still_in room alias w)) h
        (one-keeps n (online env config w (Dict.get alias w.state.peers)) w h))

  pub reply_all-stable : (w : World) → Q w → Q (route_reply_all env config policy from frame w)
  unfolding route_reply_all
  reply_all-stable w h =
      let members = get_or_else (Dict.get (room_of frame) w.state.rooms) [] in
      let (n, w') = open_batch env config policy from frame true w in
      if-both Q (leb (Dict.size members) 1) (send_ref-stable Q st env config (ref_of from) _ w h) (
        resolve-stable Q st env config n false _
          (reply_members-keeps n (room_of frame) members w' (opened-keeps true w h)))

  reply_aliases-keeps :
      (n : ℕ) (as' : List String) (w : World)
      → Q w
      → Q (reply_aliases env config policy from frame n as' w)
  unfolding reply_aliases
  reply_aliases-keeps n [] w h = h
  reply_aliases-keeps n (alias ∷ rest) w h = reply_aliases-keeps n rest _ (
      if-both Q (alias == from.alias) h
        (one-keeps n (online env config w (Dict.get alias w.state.peers)) w h))

  pub reply_targets-stable :
      (w : World) → Q w → Q (route_reply_targets env config policy from frame w)
  unfolding route_reply_targets
  reply_targets-stable w h =
      let (n, w') = open_batch env config policy from frame true w in
      resolve-stable Q st env config n false _
        (reply_aliases-keeps n (get_or_else frame.reply_targets []) w' (opened-keeps true w h))
