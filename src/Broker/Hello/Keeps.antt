-- ===== src/Broker/Hello/Keeps.antt =====
-- What every hello preserves of the membership tables.
use pi_mesh.Prelude.{
  ℕ, ◌≡◌, refl, ◌∙◌, subst, String, false, not, ◌&&◌, List, [], ◌∷◌, Option, some, eq_refl, eqb,
  any, arith, if-both, if-both_eq, length, All,
}
use pi_mesh.Dict
use pi_mesh.Dict.{Dict, listed}
use pi_mesh.Dict.Laws.{get-set}
use pi_mesh.Protocol.Frame.{
  MeshFrame, FileReservation, MeshErrorCode, MeshRole, invalid_token, alias_taken,
}
use pi_mesh.Broker.State.{BrokerState, PeerRecord, MeshConfig}
use pi_mesh.Broker.Rooms.{RoomResult, ok, refused, join_room, broadcast_to_room, presence_frame}
use pi_mesh.Broker.Mailbox.{flush_mailbox}
use pi_mesh.Broker.Rooms.View.{Holds}
use pi_mesh.Broker.World.{Env, World, send_to, send_all, notify_dropped}
use pi_mesh.Broker.World.Closing.{
  close_state, state-send_error, send_to-keeps, send_all-keeps, send_error-keeps,
  notify_dropped-keeps, broadcast_reservations-keeps,
}
use pi_mesh.Broker.Hello.{
  role_in, join_next, join_rooms, requested_rooms, refuse, is_taken, new_peer, register,
  announce_rooms, with_reservations, to_peer, welcome_frame, admit, turn_away, after_joins, enroll,
  hello_as, as_now, token_matches,
}

-- A property of the tables that a hello keeps: it is one of the peers and rooms alone, and survives
-- the closing of a peer.
module _ {ℓ} (P : BrokerState → Type ℓ)
    (mail : (s : BrokerState) (config : MeshConfig) (alias : String) (now : ℕ)
      → P s
      → P (flush_mailbox s config alias now).2)
    (closing : (alias : String) (s : BrokerState)
      → P s
      → P (close_state (Dict.get alias s.peers) s))
    (env : Env) (config : MeshConfig) where
  announce_rooms-keeps :
      (peer : PeerRecord) (rs : List String) (w : World)
      → P w.state
      → P (announce_rooms env config peer rs w).state
  unfolding announce_rooms
  announce_rooms-keeps peer [] w h = h
  announce_rooms-keeps peer (r ∷ rs) w h =
      let ds =
        broadcast_to_room w.state r
          (presence_frame env.msg_id peer.alias "online" r peer.caps peer.proto)
          (some peer.alias) in
      announce_rooms-keeps peer rs (send_all env config ds w)
        (send_all-keeps P closing env config ds w h)

  with_reservations-keeps :
      (peer : PeerRecord) (rs : List FileReservation) (w : World)
      → P w.state
      → P (with_reservations env config peer rs w).state
  with_reservations-keeps peer [] w h = h
  with_reservations-keeps peer (r ∷ rs) w h =
      broadcast_reservations-keeps P closing env config peer w h

  admit-keeps :
      (peer : PeerRecord) (id : String) (w : World)
      → P w.state
      → P (admit env config peer id w).state
  unfolding admit
  admit-keeps peer id w h =
      let (frames, dropped, s) = flush_mailbox w.state config peer.alias env.now in
      let flushed = record w { state = s } in
      let noticed = notify_dropped env config dropped flushed in
      let hello_frame =
        welcome_frame env config (as_now peer (Dict.get peer.alias noticed.state.peers)) id
          (length frames) noticed.state in
      let welcomed = send_to env config peer hello_frame noticed in
      let served = send_all env config (to_peer env config peer frames) welcomed in
      let current = as_now peer (Dict.get peer.alias served.state.peers) in
      let h₁ =
        notify_dropped-keeps P closing env config dropped flushed
          (mail w.state config peer.alias env.now h) in
      let h₂ = send_to-keeps P closing env config peer hello_frame noticed h₁ in
      let h₃ = send_all-keeps P closing env config (to_peer env config peer frames) welcomed h₂ in
      let h₄ = announce_rooms-keeps current (Dict.keys current.rooms) served h₃ in
      with_reservations-keeps peer peer.reservations
        (announce_rooms env config current (Dict.keys current.rooms) served) h₄

  refuse-keeps :
      (socket : ℕ) (code : MeshErrorCode) (id : String) (w : World)
      → P w.state
      → P (refuse env config socket code id w).state
  refuse-keeps socket code id w h = send_error-keeps P closing env config socket code id w h

-- The joins of a hello: the record that comes out stands in the tables, under its alias.
module _ {ℓ} (P : BrokerState → Type ℓ) (IsAllowed : String → Type 0) (config : MeshConfig)
    (frame : MeshFrame) (alias : String)
    (joining : (peer : PeerRecord) (room : String) (role : MeshRole) (s : BrokerState)
      → peer.alias ≡ alias
      → IsAllowed room
      → Holds peer s
      → P s
      → P (join_room config peer room role s).2) where
  -- After a join the tables hold the record that it returns.
  join_room-Holds :
      (peer : PeerRecord) (room : String) (role : MeshRole) (s : BrokerState)
      → Holds peer s
      → Holds (join_room config peer room role s).1 (join_room config peer room role s).2
        × ((join_room config peer room role s).1.alias ≡ peer.alias)
  unfolding join_room
  join_room-Holds peer room role s h = ground (
    arith,
    get-set peer.alias peer.alias (record peer { rooms = Dict.set room role peer.rooms }) s.peers,
    eq_refl peer.alias,
  )

  pub join_rooms-keeps :
      (rs : List String) (peer : PeerRecord) (s : BrokerState)
      → All IsAllowed rs
      → peer.alias ≡ alias
      → Holds peer s
      → P s
      → let (_, peer', s') = join_rooms config frame rs peer s in
        P s' × Holds peer' s' × (peer'.alias ≡ alias)
  unfolding join_rooms
  join_rooms-keeps [] peer s a e h p = (p, h, e)
  join_rooms-keeps (r ∷ rs) peer s (q, a) e h p =
      step (join_room config peer r (role_in frame r) s).0
        (join_room config peer r (role_in frame r) s).1
        (join_room config peer r (role_in frame r) s).2 (joining peer r (role_in frame r) s e q h p)
        (join_room-Holds peer r (role_in frame r) s h).0
        ((join_room-Holds peer r (role_in frame r) s h).1 ∙ e)
        (λ peer s. join_rooms-keeps rs peer s a)
    where
      step :
          (res : RoomResult) (q : PeerRecord) (t : BrokerState)
          → P t
          → Holds q t
          → q.alias ≡ alias
          → ((peer : PeerRecord) (s : BrokerState)
              → peer.alias ≡ alias
              → Holds peer s
              → P s
              → let (_, peer', s') = join_rooms config frame rs peer s in
                P s' × Holds peer' s' × (peer'.alias ≡ alias))
          → let (_, peer', s') = join_next (join_rooms config frame rs) (res, q, t) in
            P s' × Holds peer' s' × (peer'.alias ≡ alias)
      step ok q t pt ht et later = later q t et ht pt
      step (refused code) q t pt ht et later = (pt, ht, et)

module _ {ℓ} (P : BrokerState → Type ℓ)
    (mail : (s : BrokerState) (config : MeshConfig) (alias : String) (now : ℕ)
      → P s
      → P (flush_mailbox s config alias now).2)
    (closing : (alias : String) (s : BrokerState)
      → P s
      → P (close_state (Dict.get alias s.peers) s))
    (env : Env) (config : MeshConfig) (alias : String) (IsAllowed : String → Type 0)
    (joining : (peer : PeerRecord) (room : String) (role : MeshRole) (s : BrokerState)
      → peer.alias ≡ alias
      → IsAllowed room
      → Holds peer s
      → P s
      → P (join_room config peer room role s).2) where
  turn_away-keeps :
      (peer : PeerRecord) (code : MeshErrorCode) (id : String) (w : World)
      → Holds peer w.state
      → P w.state
      → P (turn_away env config peer code id w).state
  unfolding turn_away
  turn_away-keeps peer code id w h p = rw (state-send_error env config peer.socket code id w) (
      subst (λ (o : Option PeerRecord). P (close_state o w.state)) h (closing peer.alias w.state p))

  after_joins-keeps :
      (id : String) (w : World) (res : RoomResult) (peer : PeerRecord) (s : BrokerState)
      → Holds peer s
      → P s
      → P (after_joins env config id w (res, peer, s)).state
  after_joins-keeps id w ok peer s h p =
      admit-keeps P mail closing env config peer id (record w { state = s }) p
  after_joins-keeps id w (refused code) peer s h p =
      turn_away-keeps peer code id (record w { state = s }) h p

  register-Holds : (peer : PeerRecord) (s : BrokerState) → Holds peer (register env config peer s)
  register-Holds peer s = ground (
    arith,
    get-set peer.alias peer.alias peer (Dict.delete peer.alias s.peers),
    eq_refl peer.alias,
  )

  pub enroll-keeps :
      (peer : PeerRecord) (frame : MeshFrame) (w : World)
      → All IsAllowed (requested_rooms frame.rooms)
      → peer.alias ≡ alias
      → P (register env config peer w.state)
      → P (enroll env config peer frame w).state
  unfolding enroll
  enroll-keeps peer frame w a e p =
      let rs = requested_rooms frame.rooms in
      let s = register env config peer w.state in
      let (kept, holds, _) =
        join_rooms-keeps P IsAllowed config frame alias joining rs peer s a e
          (register-Holds peer w.state) p in
      after_joins-keeps frame.id w (join_rooms config frame rs peer s).0
        (join_rooms config frame rs peer s).1 (join_rooms config frame rs peer s).2 holds kept

  -- A hello keeps what registering the new record keeps, unless it is refused before that.
  pub hello_as-keeps :
      (socket : ℕ) (via : Option String) (frame : MeshFrame) (w : World)
      → All IsAllowed (requested_rooms frame.rooms)
      → P w.state
      → (is_taken env config socket w (Dict.get alias w.state.peers) ≡ false
          → P (register env config (new_peer env config alias socket via frame) w.state))
      → P (hello_as env config alias socket via frame w).state
  unfolding hello_as
  hello_as-keeps socket via frame w a p registered =
      if-both (λ (v : World). P v.state)
        (any (λ s. eqb s socket) w.token_sockets
          && not (token_matches env config config.broker_token frame.token))
        (send_error-keeps P closing env config socket invalid_token frame.id w p)
        (if-both_eq (λ (v : World). P v.state)
          (is_taken env config socket w (Dict.get alias w.state.peers))
          (λ _. send_error-keeps P closing env config socket alias_taken frame.id w p)
          (λ free.
            enroll-keeps (new_peer env config alias socket via frame) frame w a refl
              (registered free)))
