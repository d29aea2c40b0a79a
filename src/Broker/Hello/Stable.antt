-- ===== src/Broker/Hello/Stable.antt =====
-- A hello keeps a stable property that is not about the tables of peers and rooms.
use pi_mesh.Prelude.{
  ℕ, String, not, ◌&&◌, List, [], ◌∷◌, Option, none, some, any, eqb, if-both, length,
}
use pi_mesh.Dict
use pi_mesh.Protocol.Frame.{
  MeshFrame, MeshErrorCode, FileReservation, invalid_alias, invalid_token, alias_taken,
}
use pi_mesh.Broker.State.{BrokerState, PeerRecord, MeshConfig}
use pi_mesh.Broker.Mailbox.{flush_mailbox}
use pi_mesh.Broker.Rooms.{RoomResult, ok, refused}
use pi_mesh.Broker.World.{Env, World, send_to, send_all, send_error, notify_dropped}
use pi_mesh.Broker.World.Stable.{
  IsStable, send_to-stable, send_all-stable, send_error-stable, notify_dropped-stable,
  reservations-stable,
}
use pi_mesh.Broker.Hello.{
  join_rooms, requested_rooms, refuse, is_taken, new_peer, register, announce_rooms,
  with_reservations, to_peer, welcome_frame, admit, turn_away, after_joins, enroll, hello_as,
  handle_hello, as_now, token_matches,
}

module _ {ℓ} (Q : World → Type ℓ) (st : IsStable Q)
    (any_state : (w : World) (s : BrokerState) → Q w → Q (record w { state = s })) (env : Env)
    (config : MeshConfig) where
  announce-keeps :
      (peer : PeerRecord) (rs : List String) (w : World)
      → Q w
      → Q (announce_rooms env config peer rs w)
  unfolding announce_rooms
  announce-keeps peer [] w h = h
  announce-keeps peer (r ∷ rs) w h =
      announce-keeps peer rs _ (send_all-stable Q st env config _ w h)

  with_reservations-keeps :
      (peer : PeerRecord) (rs : List FileReservation) (w : World)
      → Q w
      → Q (with_reservations env config peer rs w)
  with_reservations-keeps peer [] w h = h
  with_reservations-keeps peer (r ∷ rs) w h = reservations-stable Q st env config peer w h

  admit-keeps : (peer : PeerRecord) (id : String) (w : World) → Q w → Q (admit env config peer id w)
  unfolding admit
  admit-keeps peer id w h =
      let (frames, dropped, s) = flush_mailbox w.state config peer.alias env.now in
      let flushed = record w { state = s } in
      let noticed = notify_dropped env config dropped flushed in
      let hello_frame =
        welcome_frame env config (as_now peer (Dict.get peer.alias noticed.state.peers)) id
          (length frames) noticed.state in
      let welcomed = send_to env config peer hello_frame noticed in
      let served = send_all env config (to_peer env config peer frames) welcomed in
      let current = as_now peer (Dict.get peer.alias served.state.peers) in
      let h₁ = notify_dropped-stable Q st env config dropped flushed (any_state w s h) in
      let h₂ = send_to-stable Q st env config peer hello_frame noticed h₁ in
      let h₃ = send_all-stable Q st env config (to_peer env config peer frames) welcomed h₂ in
      with_reservations-keeps peer peer.reservations _
        (announce-keeps current (Dict.keys current.rooms) served h₃)

  turn_away-keeps :
      (peer : PeerRecord) (code : MeshErrorCode) (id : String) (w : World)
      → Q w
      → Q (turn_away env config peer code id w)
  unfolding turn_away
  turn_away-keeps peer code id w h =
      let told = send_error env config peer.socket code id w in
      st.on_destroyed _ _
        (any_state told _ (send_error-stable Q st env config peer.socket code id w h))

  after_joins-keeps :
      (id : String) (w : World) (res : RoomResult) (peer : PeerRecord) (s : BrokerState)
      → Q w
      → Q (after_joins env config id w (res, peer, s))
  after_joins-keeps id w ok peer s h = admit-keeps peer id _ (any_state w s h)
  after_joins-keeps id w (refused code) peer s h = turn_away-keeps peer code id _ (any_state w s h)

  enroll-keeps :
      (peer : PeerRecord) (frame : MeshFrame) (w : World) → Q w → Q (enroll env config peer frame w)
  unfolding enroll
  enroll-keeps peer frame w h =
      let r =
        join_rooms config frame (requested_rooms frame.rooms) peer
          (register env config peer w.state) in
      after_joins-keeps frame.id w r.0 r.1 r.2 h

  refuse-keeps :
      (socket : ℕ) (code : MeshErrorCode) (id : String) (w : World)
      → Q w
      → Q (refuse env config socket code id w)
  refuse-keeps socket code id w h =
      st.on_destroyed _ _ (send_error-stable Q st env config socket code id w h)

  hello_as-keeps :
      (alias : String) (socket : ℕ) (via : Option String) (frame : MeshFrame) (w : World)
      → Q w
      → Q (hello_as env config alias socket via frame w)
  unfolding hello_as
  hello_as-keeps alias socket via frame w h =
      if-both Q
        (any (λ s. eqb s socket) w.token_sockets
          && not (token_matches env config config.broker_token frame.token))
        (refuse-keeps socket invalid_token frame.id w h)
        (if-both Q (is_taken env config socket w (Dict.get alias w.state.peers))
          (refuse-keeps socket alias_taken frame.id w h)
          (enroll-keeps (new_peer env config alias socket via frame) frame w h))

  pub handle_hello-stable :
      (socket : ℕ) (via : Option String) (frame : MeshFrame) (w : World)
      → Q w
      → Q (handle_hello env config socket via frame w)
  unfolding handle_hello
  handle_hello-stable socket via frame w h = go frame.from
    where
      go :
          (o : Option String)
          → Q (elim o [
            | none ↦ refuse env config socket invalid_alias frame.id w
            | some alias ↦ hello_as env config alias socket via frame w
          ])
      go none = refuse-keeps socket invalid_alias frame.id w h
      go (some alias) = hello_as-keeps alias socket via frame w h
