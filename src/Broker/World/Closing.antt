-- ===== src/Broker/World/Closing.antt =====
-- `closePeer` on the tables, and what every write that may close a peer preserves.
use pi_mesh.Prelude.{
  ℕ, ◌≡◌, refl, ap, ◌∙◌, String, false, ◌&&◌, ◌||◌, List, [], ◌∷◌, Option, none, some, ◌==◌, eq_iff,
  if◌then◌else◌, ltb, arith, if-both, inl, inr, Option-cases,
}
use pi_mesh.Dict
use pi_mesh.Dict.{Dict}
use pi_mesh.Dict.Laws.{get-delete, Every-delete}
use pi_mesh.Protocol.Frame.{MeshFrame, MeshErrorCode, FileReservation}
use pi_mesh.Shared.Config.{default_max_frame_bytes}
use pi_mesh.Broker.State.{BrokerState, PeerRecord, StoredMsg, MeshConfig}
use pi_mesh.Broker.Rooms.{Delivery, broadcast_to_room, presence_frame, detach_from_rooms}
use pi_mesh.Broker.Rooms.View.{in_room, joined, Holds, in_room-detach, joined-detach}
use pi_mesh.Broker.Rooms.Consistent.{IsConsistent, detach_from_rooms-IsConsistent}
use pi_mesh.Broker.Rooms.Bounds.{IsBounded, IsPeer, detach_from_rooms-IsBounded}
use pi_mesh.Broker.World.{
  Env, World, is_destroyed, cannot_write, destroy, write_quiet, write_all_quiet, without_peer,
  announce_offline, void_reservations, close_found, close_peer, is_current, PeerRef, ref_of,
  close_current, send_ref, send_to, send_all, send_error, notify_one, notify_dropped, online,
  peer_at, broadcast_reservations, to_each, except, reserve_frame, error_frame,
}

module _ (env : Env) (max_bytes : ℕ) where
  state-write_quiet :
      (socket : ℕ) (frame : MeshFrame) (w : World)
      → (write_quiet env max_bytes socket frame w).state ≡ w.state
  unfolding write_quiet
  state-write_quiet socket frame w =
      if-both (λ (v : World). v.state ≡ w.state)
        (ltb max_bytes (env.frame_bytes frame) || cannot_write socket w) refl refl

  state-write_all_quiet :
      (ds : List Delivery) (w : World) → (write_all_quiet env max_bytes ds w).state ≡ w.state
  unfolding write_all_quiet
  state-write_all_quiet [] w = refl
  state-write_all_quiet ((peer, frame) ∷ rest) w =
      state-write_all_quiet rest (write_quiet env max_bytes peer.socket frame w)
      ∙ state-write_quiet peer.socket frame w

  state-announce_offline :
      (alias : String) (rs : List String) (w : World)
      → (announce_offline env max_bytes alias rs w).state ≡ w.state
  unfolding announce_offline
  state-announce_offline alias [] w = refl
  state-announce_offline alias (r ∷ rs) w =
      let ds =
        broadcast_to_room w.state r (presence_frame env.msg_id alias "offline" r none none)
          (some alias) in
      state-announce_offline alias rs (write_all_quiet env max_bytes ds w)
      ∙ state-write_all_quiet ds w

  state-void_reservations :
      (peer : PeerRecord) (rs : List FileReservation) (w : World)
      → (void_reservations env max_bytes peer rs w).state ≡ w.state
  state-void_reservations peer [] w = refl
  state-void_reservations peer (r ∷ rs) w = state-write_all_quiet _ w

-- The tables without the peer of this alias, if there is one.
abbrev pub close_state : Option PeerRecord → BrokerState → BrokerState
close_state none s = s
close_state (some peer) s = without_peer peer s

state-close_found :
    (env : Env) (o : Option PeerRecord) (w : World)
    → (close_found env o w).state ≡ close_state o w.state
unfolding close_found
state-close_found env none w = refl
state-close_found env (some peer) w =
    let rooms = (detach_from_rooms peer w.state).0 in
    let closed = record w { state = without_peer peer w.state } in
    let cut = if is_destroyed peer.socket closed then closed else destroy peer.socket closed in
    state-void_reservations env default_max_frame_bytes peer peer.reservations
      (announce_offline env default_max_frame_bytes peer.alias rooms cut)
    ∙ state-announce_offline env default_max_frame_bytes peer.alias rooms cut
    ∙ if-both (λ (v : World). v.state ≡ without_peer peer w.state) (is_destroyed peer.socket closed)
        refl refl

pub state-close_peer :
    (env : Env) (alias : String) (w : World)
    → (close_peer env alias w).state ≡ close_state (Dict.get alias w.state.peers) w.state
unfolding close_peer
state-close_peer env alias w = state-close_found env (Dict.get alias w.state.peers) w

module _ (a r : String) (peer : PeerRecord) (s : BrokerState) where
  pub joined-without :
      joined a r (without_peer peer s) ≡ (if peer.alias == a then false else joined a r s)
  unfolding detach_from_rooms
  joined-without =
      ground (
        arith,
        get-delete a peer.alias (detach_from_rooms peer s).1.peers,
        joined-detach a r peer s,
      )

  pub in_room-without :
      in_room a r (without_peer peer s)
      ≡ (if Dict.has r peer.rooms && peer.alias == a then false else in_room a r s)
  in_room-without = in_room-detach a r peer s

without_peer-IsConsistent :
    (peer : PeerRecord) (s : BrokerState)
    → Holds peer s
    → IsConsistent s
    → IsConsistent (without_peer peer s)
without_peer-IsConsistent peer s h c = record {
  own_alias =
      Every-delete (λ a p. p.alias ≡ a) peer.alias (detach_from_rooms peer s).1.peers
        (detach_from_rooms-IsConsistent peer s c h).own_alias;
  agree = λ a r.
      rw (in_room-without a r peer s, joined-without a r peer s)
        (ground (arith, c.agree a r, eq_iff peer.alias a));
}

pub close_state-IsConsistent :
    (alias : String) (s : BrokerState)
    → IsConsistent s
    → IsConsistent (close_state (Dict.get alias s.peers) s)
close_state-IsConsistent alias s c = elim (Option-cases (Dict.get alias s.peers)) [
  | inl e ↦ rw e c
  | inr (peer, e) ↦ rw e (
      without_peer-IsConsistent peer s
        (ap (λ (k : String). Dict.get k s.peers) (c.own_alias alias peer e) ∙ e) c)
]

pub close_state-IsBounded :
    (config : MeshConfig) (alias : String) (s : BrokerState)
    → IsBounded config s
    → IsBounded config (close_state (Dict.get alias s.peers) s)
close_state-IsBounded config alias s v = elim (Option-cases (Dict.get alias s.peers)) [
  | inl e ↦ rw e v
  | inr (peer, e) ↦
      let d = detach_from_rooms-IsBounded config peer s v in
      rw e (record {
        rooms_valid = d.rooms_valid;
        peers_bounded =
            Every-delete (λ _. IsPeer config) peer.alias (detach_from_rooms peer s).1.peers
              d.peers_bounded;
      })
]

-- Closing a peer of consistent tables takes it out of the table of peers and out of every room, and
-- leaves the rooms of all others as they were.
pub close_peer-forgets :
    (env : Env) (alias : String) (w : World)
    → IsConsistent w.state
    → let s' = (close_peer env alias w).state in
      (Dict.get alias s'.peers ≡ none)
      × ((a r : String) → in_room a r s' ≡ (if alias == a then false else in_room a r w.state))
      × ((a r : String) → joined a r s' ≡ (if alias == a then false else joined a r w.state))
close_peer-forgets env alias w c =
    rw (state-close_peer env alias w) (go (Dict.get alias w.state.peers) refl)
  where
    s : BrokerState
    s = w.state

    go :
        (o : Option PeerRecord)
        → Dict.get alias s.peers ≡ o
        → let s' = close_state o s in
          (Dict.get alias s'.peers ≡ none)
          × ((a r : String) → in_room a r s' ≡ (if alias == a then false else in_room a r s))
          × ((a r : String) → joined a r s' ≡ (if alias == a then false else joined a r s))
    go none e = (
      e,
      λ a r. ground (arith, c.agree a r, eq_iff alias a),
      λ a r. ground (arith, eq_iff alias a),
    )
    go (some peer) e =
        let own = c.own_alias alias peer e in
        (
          ground (
            arith,
            get-delete alias peer.alias (detach_from_rooms peer s).1.peers,
            eq_iff peer.alias alias,
          ),
          λ a r. ground (arith, in_room-without a r peer s, c.agree a r, eq_iff alias a),
          λ a r. ground (arith, joined-without a r peer s),
        )

-- A property of the tables that survives the closing of any peer survives every write.
module _ {ℓ} (P : BrokerState → Type ℓ)
    (closing : (alias : String) (s : BrokerState)
      → P s
      → P (close_state (Dict.get alias s.peers) s))
    (env : Env) where
  pub close_peer-keeps : (alias : String) (w : World) → P w.state → P (close_peer env alias w).state
  close_peer-keeps alias w h = rw (state-close_peer env alias w) (closing alias w.state h)

  pub close_current-keeps :
      (peer : PeerRef) (w : World) → P w.state → P (close_current env peer w).state
  unfolding close_current
  close_current-keeps peer w h =
      if-both (λ (v : World). P v.state)
        (is_current peer.socket (Dict.get peer.alias w.state.peers))
        (close_peer-keeps peer.alias w h) h

  module _ (config : MeshConfig) where
    pub send_ref-keeps :
        (peer : PeerRef) (frame : MeshFrame) (w : World)
        → P w.state
        → P (send_ref env config peer frame w).state
    unfolding send_ref
    send_ref-keeps peer frame w h =
        if-both (λ (v : World). P v.state)
          (ltb config.max_frame_bytes (env.frame_bytes frame) || cannot_write peer.socket w)
          (close_current-keeps peer w h) h

    pub send_to-keeps :
        (peer : PeerRecord) (frame : MeshFrame) (w : World)
        → P w.state
        → P (send_to env config peer frame w).state
    unfolding send_to
    send_to-keeps peer frame w h = send_ref-keeps (ref_of peer) frame w h

    pub send_all-keeps :
        (ds : List Delivery) (w : World) → P w.state → P (send_all env config ds w).state
    unfolding send_all
    send_all-keeps [] w h = h
    send_all-keeps ((peer, frame) ∷ rest) w h =
        send_all-keeps rest (send_to env config peer frame w) (send_to-keeps peer frame w h)

    pub send_error-keeps :
        (socket : ℕ) (code : MeshErrorCode) (id : String) (w : World)
        → P w.state
        → P (send_error env config socket code id w).state
    unfolding send_error
    send_error-keeps socket code id w h =
        if-both (λ (v : World). P v.state)
          (ltb config.max_frame_bytes (env.frame_bytes (error_frame env config code id))
            || cannot_write socket w)
          h h

    notify_one-keeps :
        (frame : MeshFrame) (o : Option PeerRecord) (w : World)
        → P w.state
        → P (notify_one env config frame o w).state
    notify_one-keeps frame none w h = h
    notify_one-keeps frame (some sender) w h = send_to-keeps sender _ w h

    pub notify_dropped-keeps :
        (ms : List StoredMsg) (w : World) → P w.state → P (notify_dropped env config ms w).state
    unfolding notify_dropped
    notify_dropped-keeps [] w h = h
    notify_dropped-keeps (m ∷ ms) w h =
        let sender = online env config w (peer_at env config m.frame.from w) in
        notify_dropped-keeps ms (notify_one env config m.frame sender w)
          (notify_one-keeps m.frame sender w h)

    pub broadcast_reservations-keeps :
        (peer : PeerRecord) (w : World)
        → P w.state
        → P (broadcast_reservations env config peer w).state
    unfolding broadcast_reservations
    broadcast_reservations-keeps peer w h =
        send_all-keeps
          (to_each (reserve_frame env.msg_id peer.alias peer.reservations)
            (except env config peer.alias (Dict.values w.state.peers)))
          w h

pub state-send_error :
    (env : Env) (config : MeshConfig) (socket : ℕ) (code : MeshErrorCode) (id : String) (w : World)
    → (send_error env config socket code id w).state ≡ w.state
unfolding send_error
state-send_error env config socket code id w =
    if-both (λ (v : World). v.state ≡ w.state)
      (ltb config.max_frame_bytes (env.frame_bytes (error_frame env config code id))
        || cannot_write socket w)
      refl refl
