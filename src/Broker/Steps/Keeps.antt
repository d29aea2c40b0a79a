-- ===== src/Broker/Steps/Keeps.antt =====
-- What a step of the broker keeps: a stable property that the changes of a peer's record, of its
-- rooms and of the leases keep too.
use pi_mesh.Prelude.{
  ℕ, ◌≡◌, refl, String, Bool, true, false, List, [], ◌∷◌, Option, none, some, if-both, get_or_else,
  is_some, arith,
}
use pi_mesh.Dict
use pi_mesh.Protocol.Frame.{
  MeshFrame, MeshErrorCode, MeshRole, member, FrameType, ActivityState, hello, welcome, msg, ack,
  reply, remind, presence, mailbox, status_req, status_res, join, leave, reserve, read, ping, pong,
  activity, claim, release, lease, lease_status, ctl, ctl_ack, error, invalid_frame, hello_required,
  invalid_room, not_member,
}
use pi_mesh.Broker.State.{BrokerState, PeerRecord, MeshConfig}
use pi_mesh.Broker.Lease
use pi_mesh.Broker.Lease.{LeaseTable, Call, claims, releases, looks_up}
use pi_mesh.Broker.Ratelimit
use pi_mesh.Broker.Ratelimit.{check_rate}
use pi_mesh.Broker.Policy.{MeshPolicy}
use pi_mesh.Broker.Rooms.{RoomResult, ok, refused, join_room, leave_room, broadcast_to_room}
use pi_mesh.Broker.World.{Env, World, ref_of, send_all, send_error}
use pi_mesh.Broker.World.Stable.{
  IsStable, send_ref-stable, send_to-stable, send_all-stable, send_error-stable,
  reservations-stable,
}
use pi_mesh.Broker.Hello.{handle_hello}
use pi_mesh.Broker.Routing.{is_set, room_of}
use pi_mesh.Broker.Routing.Keeps.{
  route_msg-stable, online_only-stable, reply_all-stable, reply_targets-stable,
}
use pi_mesh.Broker.Control.Keeps.{handle_ctl-stable, handle_ctl_ack-stable}
use pi_mesh.Shared.Config.{default_lease_ttl_ms}
use pi_mesh.Broker.Leasing.{stamp, handle_claim, handle_release, handle_lease_status}
use pi_mesh.Broker.Dispatch.{
  put_peer, handle_reserve, route_reply, handle_reply, announce_activity, activity_frame,
  announced_state, handle_activity, tell_room, after_change, handle_join, handle_leave, handle,
  authed, sender_of, is_hello, dispatch_from, dispatch,
}

-- The changes of the tables that a frame of a peer makes. A record that the table holds is
-- `Held`.
pub record IsKept {ℓ} (config : MeshConfig) (le : String → String → Bool)
    (Held : PeerRecord → World → Type ℓ) (Q : World → Type ℓ) : Type ℓ where
  pub on_found :
      (w : World) (alias : String) (p : PeerRecord)
      → Dict.get alias w.state.peers ≡ some p
      → Q w
      → Held p w
  pub on_put :
      (w : World) (p p' : PeerRecord)
      → Held p w
      → p'.alias ≡ p.alias
      → p'.rooms ≡ p.rooms
      → Q w
      → Held p' (put_peer p' w) × Q (put_peer p' w)
  pub on_join :
      (w : World) (p : PeerRecord) (room : String) (role : MeshRole)
      → Held p w
      → Q w
      → Q (record w { state = (join_room config p room role w.state).2 })
  pub on_leave :
      (w : World) (p : PeerRecord) (room : String)
      → Held p w
      → Q w
      → Q (record w { state = (leave_room p room w.state).2 })
  pub on_lease :
      (w : World) (c : ℕ × Call) → Q w → Q (record w { leases = Lease.step le c w.leases })

module _ {ℓ} (Q : World → Type ℓ) (st : IsStable Q) (Held : PeerRecord → World → Type ℓ)
    (config : MeshConfig) (policy : MeshPolicy) (le : String → String → Bool)
    (kept : IsKept config le Held Q) (env : Env) where
  module _ (peer : PeerRecord) (frame : MeshFrame) where
    reserve-keeps :
        (w : World) → Held peer w → Q w → Q (handle_reserve env config policy le peer frame w)
    reserve-keeps w held h =
        let peer' = record peer { reservations = get_or_else frame.reservations [] } in
        send_ref-stable Q st env config (ref_of peer') _ _ (
          reservations-stable Q st env config peer' (put_peer peer' w)
            (kept.on_put w peer peer' held refl refl h).1)

    route_reply-keeps : (w : World) → Q w → Q (route_reply env config policy le peer frame w)
    route_reply-keeps w h =
        if-both Q (is_set frame.reply_all) (reply_all-stable Q st env config policy peer frame w h)
          (if-both Q (is_some frame.reply_targets)
            (reply_targets-stable Q st env config policy peer frame w h)
            (online_only-stable Q st env config policy peer frame false w h))

    reply-keeps : (w : World) → Q w → Q (handle_reply env config policy le peer frame w)
    unfolding check_rate
    reply-keeps w h =
        let (passed, s) = check_rate w.state peer.alias Ratelimit.msg policy.rate_limits env.now in
        let w' = record w { state = s } in
        let k = st.on_state w s refl refl h in
        if-both Q passed (route_reply-keeps w' k)
          (send_error-stable Q st env config peer.socket MeshErrorCode.rate_limited frame.id w' k)

    announce-keeps :
        (state : ActivityState) (rs : List String) (w : World)
        → Q w
        → Q (announce_activity env config policy le peer frame state rs w)
    unfolding announce_activity
    announce-keeps state [] w h = h
    announce-keeps state (r ∷ rs) w h =
        let ds =
          broadcast_to_room w.state r (activity_frame env config policy le peer frame state r)
            (some peer.alias) in
        announce-keeps state rs (send_all env config ds w) (send_all-stable Q st env config ds w h)

    activity-keeps :
        (w : World) → Held peer w → Q w → Q (handle_activity env config policy le peer frame w)
    activity-keeps w held h =
        announce-keeps (announced_state frame.status) (Dict.keys peer.rooms) _
          (kept.on_put w peer _ held refl refl h).1

    tell-keeps :
        (status room : String) (w : World)
        → Q w
        → Q (tell_room env config policy le peer frame status room w)
    tell-keeps status room w h = send_all-stable Q st env config _ w h

    change-keeps :
        (socket : ℕ) (status room : String) (w : World) (res : RoomResult) (p : PeerRecord)
        (s : BrokerState)
        → Q (record w { state = s })
        → Q (after_change env config policy le peer frame socket status room w (res, p, s))
    change-keeps socket status room w ok p s h =
        tell-keeps status room _ (send_ref-stable Q st env config (ref_of p) _ _ h)
    change-keeps socket status room w (refused code) p s h =
        send_error-stable Q st env config socket code frame.id _ h

    join-keeps :
        (socket : ℕ) (o : Option String) (w : World)
        → Held peer w
        → Q w
        → Q (handle_join env config policy le peer frame socket o w)
    join-keeps socket none w held h =
        send_error-stable Q st env config socket invalid_room frame.id w h
    join-keeps socket (some room) w held h =
        let role = get_or_else frame.role member in
        change-keeps socket "online" room w (join_room config peer room role w.state).0
          (join_room config peer room role w.state).1 (join_room config peer room role w.state).2
          (kept.on_join w peer room role held h)

    leave-keeps :
        (socket : ℕ) (o : Option String) (w : World)
        → Held peer w
        → Q w
        → Q (handle_leave env config policy le peer frame socket o w)
    leave-keeps socket none w held h =
        send_error-stable Q st env config socket invalid_room frame.id w h
    leave-keeps socket (some room) w held h =
        change-keeps socket "offline" room w (leave_room peer room w.state).0
          (leave_room peer room w.state).1 (leave_room peer room w.state).2
          (kept.on_leave w peer room held h)

    claim-keeps : (w : World) → Q w → Q (handle_claim env config peer frame w)
    unfolding handle_claim Lease.step
    claim-keeps w h =
        if-both Q (Dict.has (room_of frame) peer.rooms)
          (send_to-stable Q st env config peer _ _ (
            kept.on_lease w
              (
                env.now,
                claims (stamp env config peer frame) (get_or_else frame.task "") peer.alias
                    (get_or_else frame.paths []) (get_or_else frame.ttl_ms default_lease_ttl_ms),
              )
              h))
          (send_error-stable Q st env config peer.socket not_member frame.id w h)

    release-keeps : (w : World) → Q w → Q (handle_release env config peer frame w)
    unfolding handle_release Lease.step
    release-keeps w h =
        if-both Q (Dict.has (room_of frame) peer.rooms)
          (send_to-stable Q st env config peer _ _ (
            kept.on_lease w
              (
                env.now,
                releases (get_or_else frame.task "") peer.alias (get_or_else frame.lease_id ""),
              )
              h))
          (send_error-stable Q st env config peer.socket not_member frame.id w h)

    status-keeps : (w : World) → Q w → Q (handle_lease_status env config peer frame w)
    unfolding handle_lease_status Lease.step
    status-keeps w h =
        send_to-stable Q st env config peer _ _
          (kept.on_lease w (env.now, looks_up (get_or_else frame.task "")) h)

    invalid-keeps :
        (socket : ℕ) (w : World) → Q w → Q (send_error env config socket invalid_frame frame.id w)
    invalid-keeps socket w h = send_error-stable Q st env config socket invalid_frame frame.id w h

    handle-keeps :
        (socket : ℕ) (type : FrameType) (w : World)
        → Held peer w
        → Q w
        → Q (handle env config policy le peer frame socket type w)
    unfolding handle
    handle-keeps socket claim w held h = claim-keeps w h
    handle-keeps socket release w held h = release-keeps w h
    handle-keeps socket lease_status w held h = status-keeps w h
    handle-keeps socket msg w held h = route_msg-stable Q st env config policy peer frame le w h
    handle-keeps socket reserve w held h = reserve-keeps w held h
    handle-keeps socket reply w held h = reply-keeps w h
    handle-keeps socket remind w held h =
        online_only-stable Q st env config policy peer frame true w h
    handle-keeps socket read w held h =
        online_only-stable Q st env config policy peer frame true w h
    handle-keeps socket ctl w held h = handle_ctl-stable Q st env config policy peer frame w h
    handle-keeps socket ctl_ack w held h =
        handle_ctl_ack-stable Q st env config policy peer frame w h
    handle-keeps socket activity w held h = activity-keeps w held h
    handle-keeps socket ping w held h = send_to-stable Q st env config peer _ w h
    handle-keeps socket status_req w held h = send_to-stable Q st env config peer _ w h
    handle-keeps socket join w held h = join-keeps socket frame.room w held h
    handle-keeps socket leave w held h = leave-keeps socket frame.room w held h
    handle-keeps socket hello w held h = invalid-keeps socket w h
    handle-keeps socket welcome w held h = invalid-keeps socket w h
    handle-keeps socket ack w held h = invalid-keeps socket w h
    handle-keeps socket presence w held h = invalid-keeps socket w h
    handle-keeps socket mailbox w held h = invalid-keeps socket w h
    handle-keeps socket status_res w held h = invalid-keeps socket w h
    handle-keeps socket pong w held h = invalid-keeps socket w h
    handle-keeps socket lease w held h = invalid-keeps socket w h
    handle-keeps socket error w held h = invalid-keeps socket w h

  module _
      (on_hello : (socket : ℕ) (via : Option String) (frame : MeshFrame) (w : World)
        → Q w
        → Q (handle_hello env config socket via frame w)) where
    from-keeps :
        (socket : ℕ) (via : Option String) (frame : MeshFrame) (o : Option PeerRecord) (w : World)
        → ((p : PeerRecord) → o ≡ some p → Held p w)
        → Q w
        → Q (dispatch_from env config policy le socket via frame o w)
    from-keeps socket via frame none w held h =
        if-both Q (is_hello env config policy le frame.type) (on_hello socket via frame w h)
          (send_error-stable Q st env config socket hello_required frame.id w h)
    from-keeps socket via frame (some peer) w held h =
        let peer' = record peer { last_seen_at = env.now } in
        let (held', k) = kept.on_put w peer peer' (held peer refl) refl refl h in
        if-both Q (is_hello env config policy le frame.type)
          (send_error-stable Q st env config socket invalid_frame frame.id w h)
          (handle-keeps peer' frame socket frame.type (put_peer peer' w) held' k)

    authed-Held :
        (socket : ℕ) (o : Option String) (w : World) (p : PeerRecord)
        → Q w
        → authed env config policy le socket (sender_of env config policy le o w) ≡ some p
        → Held p w
    authed-Held socket none w p h e = absurd (ground arith)
    authed-Held socket (some alias) w p h e =
        kept.on_found w alias p (found (Dict.get alias w.state.peers) e) h
      where
        found : (o : Option PeerRecord) → authed env config policy le socket o ≡ some p → o ≡ some p
        found none e = e
        found (some q) e = ground arith

    pub dispatch-keeps :
        (socket : ℕ) (via : Option String) (frame : MeshFrame) (w : World)
        → Q w
        → Q (dispatch env config policy le socket via frame w)
    unfolding dispatch
    dispatch-keeps socket via frame w h =
        from-keeps socket via frame
          (authed env config policy le socket (sender_of env config policy le frame.from w)) w
          (λ p e. authed-Held socket frame.from w p h e) h
