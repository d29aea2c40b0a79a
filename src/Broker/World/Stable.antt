-- ===== src/Broker/World/Stable.antt =====
-- Properties that writing, storing, closing and counting leave alone. What a handler does beyond
-- these is proved for the handler.
use pi_mesh.Prelude.{
  ℕ, ◌≡◌, String, ◌||◌, List, [], ◌∷◌, Option, none, some, if◌then◌else◌, ltb, if-both,
}
use pi_mesh.Dict
use pi_mesh.Dict.{Dict}
use pi_mesh.Protocol.Frame.{MeshFrame, MeshErrorCode, FileReservation}
use pi_mesh.Shared.Config.{default_max_frame_bytes}
use pi_mesh.Broker.State.{BrokerState, PeerRecord, StoredMsg, MeshConfig}
use pi_mesh.Broker.Rooms.{Delivery, broadcast_to_room, presence_frame, detach_from_rooms}
use pi_mesh.Broker.World.{
  Env, World, Write, Batch, PeerRef, PendingCtl, is_destroyed, cannot_write, destroy, write_quiet,
  write_all_quiet, without_peer, announce_offline, void_reservations, close_found, close_peer,
  is_current, ref_of, close_current, send_ref, send_to, send_all, send_error, notify_one,
  notify_dropped, online, peer_at, broadcast_reservations, to_each, except, reserve_frame,
  error_frame,
}
use pi_mesh.Broker.World.Closing.{close_state}

pub record IsStable {ℓ} (Q : World → Type ℓ) : Type ℓ where
  pub on_writes : (w : World) (xs : List Write) → Q w → Q (record w { writes = xs })
  pub on_destroyed : (w : World) (ds : List ℕ) → Q w → Q (record w { destroyed = ds })
  pub on_batches : (w : World) (bs : List Batch) → Q w → Q (record w { batches = bs })
  pub on_pending : (w : World) (d : Dict PendingCtl) → Q w → Q (record w { pending_ctl = d })
  pub on_state :
      (w : World) (s : BrokerState)
      → s.peers ≡ w.state.peers
      → s.rooms ≡ w.state.rooms
      → Q w
      → Q (record w { state = s })
  pub on_close :
      (w : World) (alias : String)
      → Q w
      → Q (record w { state = close_state (Dict.get alias w.state.peers) w.state })

module _ {ℓ} (Q : World → Type ℓ) (st : IsStable Q) (env : Env) where
  module _ (max_bytes : ℕ) where
    quiet-keeps :
        (socket : ℕ) (frame : MeshFrame) (w : World)
        → Q w
        → Q (write_quiet env max_bytes socket frame w)
    unfolding write_quiet
    quiet-keeps socket frame w h =
        if-both Q (ltb max_bytes (env.frame_bytes frame) || cannot_write socket w) h
          (st.on_writes w _ h)

    all_quiet-keeps :
        (ds : List Delivery) (w : World) → Q w → Q (write_all_quiet env max_bytes ds w)
    unfolding write_all_quiet
    all_quiet-keeps [] w h = h
    all_quiet-keeps ((peer, frame) ∷ rest) w h =
        all_quiet-keeps rest (write_quiet env max_bytes peer.socket frame w)
          (quiet-keeps peer.socket frame w h)

    offline-keeps :
        (alias : String) (rs : List String) (w : World)
        → Q w
        → Q (announce_offline env max_bytes alias rs w)
    unfolding announce_offline
    offline-keeps alias [] w h = h
    offline-keeps alias (r ∷ rs) w h =
        let ds =
          broadcast_to_room w.state r (presence_frame env.msg_id alias "offline" r none none)
            (some alias) in
        offline-keeps alias rs (write_all_quiet env max_bytes ds w) (all_quiet-keeps ds w h)

    void-keeps :
        (peer : PeerRecord) (rs : List FileReservation) (w : World)
        → Q w
        → Q (void_reservations env max_bytes peer rs w)
    void-keeps peer [] w h = h
    void-keeps peer (r ∷ rs) w h = all_quiet-keeps _ w h

  found-keeps :
      (o : Option PeerRecord) (w : World)
      → Q (record w { state = close_state o w.state })
      → Q (close_found env o w)
  unfolding close_found
  found-keeps none w h = h
  found-keeps (some peer) w h =
      let rooms = (detach_from_rooms peer w.state).0 in
      let closed = record w { state = without_peer peer w.state } in
      let cut = if is_destroyed peer.socket closed then closed else destroy peer.socket closed in
      void-keeps default_max_frame_bytes peer peer.reservations
        (announce_offline env default_max_frame_bytes peer.alias rooms cut)
        (offline-keeps default_max_frame_bytes peer.alias rooms cut
          (if-both Q (is_destroyed peer.socket closed) h (st.on_destroyed closed _ h)))

  pub close_peer-stable : (alias : String) (w : World) → Q w → Q (close_peer env alias w)
  unfolding close_peer
  close_peer-stable alias w h = found-keeps (Dict.get alias w.state.peers) w (st.on_close w alias h)

  pub close_current-stable : (peer : PeerRef) (w : World) → Q w → Q (close_current env peer w)
  unfolding close_current
  close_current-stable peer w h =
      if-both Q (is_current peer.socket (Dict.get peer.alias w.state.peers))
        (close_peer-stable peer.alias w h) h

  module _ (config : MeshConfig) where
    pub send_ref-stable :
        (peer : PeerRef) (frame : MeshFrame) (w : World)
        → Q w
        → Q (send_ref env config peer frame w)
    unfolding send_ref
    send_ref-stable peer frame w h =
        if-both Q (ltb config.max_frame_bytes (env.frame_bytes frame) || cannot_write peer.socket w)
          (close_current-stable peer w h) (st.on_writes w _ h)

    pub send_to-stable :
        (peer : PeerRecord) (frame : MeshFrame) (w : World)
        → Q w
        → Q (send_to env config peer frame w)
    unfolding send_to
    send_to-stable peer frame w h = send_ref-stable (ref_of peer) frame w h

    pub send_all-stable : (ds : List Delivery) (w : World) → Q w → Q (send_all env config ds w)
    unfolding send_all
    send_all-stable [] w h = h
    send_all-stable ((peer, frame) ∷ rest) w h =
        send_all-stable rest (send_to env config peer frame w) (send_to-stable peer frame w h)

    pub send_error-stable :
        (socket : ℕ) (code : MeshErrorCode) (id : String) (w : World)
        → Q w
        → Q (send_error env config socket code id w)
    unfolding send_error
    send_error-stable socket code id w h =
        quiet-keeps config.max_frame_bytes socket (error_frame env config code id) w h

    one-keeps :
        (frame : MeshFrame) (o : Option PeerRecord) (w : World)
        → Q w
        → Q (notify_one env config frame o w)
    one-keeps frame none w h = h
    one-keeps frame (some sender) w h = send_to-stable sender _ w h

    pub notify_dropped-stable :
        (ms : List StoredMsg) (w : World) → Q w → Q (notify_dropped env config ms w)
    unfolding notify_dropped
    notify_dropped-stable [] w h = h
    notify_dropped-stable (m ∷ ms) w h =
        let sender = online env config w (peer_at env config m.frame.from w) in
        notify_dropped-stable ms (notify_one env config m.frame sender w)
          (one-keeps m.frame sender w h)

    pub reservations-stable :
        (peer : PeerRecord) (w : World) → Q w → Q (broadcast_reservations env config peer w)
    unfolding broadcast_reservations
    reservations-stable peer w h =
        send_all-stable
          (to_each (reserve_frame env.msg_id peer.alias peer.reservations)
            (except env config peer.alias (Dict.values w.state.peers)))
          w h
