-- ===== src/Broker/Hello/Consistent.antt =====
-- A hello keeps the membership tables bounded, and consistent unless it replaces a dead record.
use pi_mesh.Prelude.{ℕ, ◌≡◌, refl, String, false, List, [], ◌∷◌, Option, none, eq_iff, arith, All}
use pi_mesh.Dict
use pi_mesh.Dict.{Dict, listed}
use pi_mesh.Dict.Laws.{get-delete, get-set, Every-delete, Every-set}
use pi_mesh.Protocol.Frame.{MeshFrame}
use pi_mesh.Broker.State.{BrokerState, PeerRecord, MeshConfig}
use pi_mesh.Broker.Rooms.Consistent.{IsConsistent, join_room-IsConsistent}
use pi_mesh.Broker.Rooms.Bounds.{IsBounded, IsPeer, join_room-IsBounded}
use pi_mesh.Broker.Mailbox.{flush_mailbox, partition_expired}
use pi_mesh.Broker.World.{Env, World}
use pi_mesh.Broker.World.Closing.{close_state-IsConsistent, close_state-IsBounded}
use pi_mesh.Broker.Hello.{requested_rooms, is_taken, new_peer, register, hello_as}
use pi_mesh.Broker.Hello.Keeps.{hello_as-keeps}

anything : (rs : List String) → All (λ _. Unit {0}) rs
anything [] = tt
anything (r ∷ rs) = (tt, anything rs)

flush-IsConsistent :
    (s : BrokerState) (config : MeshConfig) (alias : String) (now : ℕ)
    → IsConsistent s
    → IsConsistent (flush_mailbox s config alias now).2
unfolding flush_mailbox partition_expired
flush-IsConsistent s config alias now c = record { own_alias = c.own_alias; agree = c.agree }

flush-IsBounded :
    (limits : MeshConfig) (s : BrokerState) (config : MeshConfig) (alias : String) (now : ℕ)
    → IsBounded limits s
    → IsBounded limits (flush_mailbox s config alias now).2
unfolding flush_mailbox partition_expired
flush-IsBounded limits s config alias now v = record {
  rooms_valid = v.rooms_valid;
  peers_bounded = v.peers_bounded;
}

module _ (env : Env) (config : MeshConfig) where
  register-IsConsistent :
      (alias : String) (socket : ℕ) (via : Option String) (frame : MeshFrame) (s : BrokerState)
      → Dict.get alias s.peers ≡ none
      → IsConsistent s
      → IsConsistent (register env config (new_peer env config alias socket via frame) s)
  unfolding Dict.get
  register-IsConsistent alias socket via frame s free c =
      let peer = new_peer env config alias socket via frame in
      record {
        own_alias =
            Every-set (λ a p. p.alias ≡ a) alias peer (Dict.delete alias s.peers) refl
              (Every-delete (λ a p. p.alias ≡ a) alias s.peers c.own_alias);
        agree = λ a r. ground (
          arith,
          get-set a alias peer (Dict.delete alias s.peers),
          get-delete a alias s.peers,
          c.agree a r,
          eq_iff alias a,
        );
      }

  register-IsBounded :
      (peer : PeerRecord) (s : BrokerState)
      → peer.rooms ≡ []
      → IsBounded config s
      → IsBounded config (register env config peer s)
  register-IsBounded peer s fresh v = record {
    rooms_valid = v.rooms_valid;
    peers_bounded =
        Every-set (λ _. IsPeer config) peer.alias peer (Dict.delete peer.alias s.peers)
          (rw fresh (tt, omega arith))
          (Every-delete (λ _. IsPeer config) peer.alias s.peers v.peers_bounded);
  }

  -- Whatever hello comes in, afterwards every room still has a valid name and between 1 and
  -- `max_peers_per_room` members, none twice, and no peer is in more rooms than configured.
  pub hello_as-IsBounded :
      (alias : String) (socket : ℕ) (via : Option String) (frame : MeshFrame) (w : World)
      → IsBounded config w.state
      → IsBounded config (hello_as env config alias socket via frame w).state
  hello_as-IsBounded alias socket via frame w v =
      hello_as-keeps (IsBounded config) (flush-IsBounded config) (close_state-IsBounded config) env
        config alias (λ _. Unit)
        (λ peer room role s _ _ h b.
          join_room-IsBounded config peer room role s (b.peers_bounded peer.alias peer h) b)
        socket via frame w (anything (requested_rooms frame.rooms)) v
        (λ _. register-IsBounded (new_peer env config alias socket via frame) w.state refl v)

  -- If the tables are consistent and the alias has no record, or one whose socket is still open so
  -- that the hello is refused, the hello leaves the tables consistent, whether it is admitted, turned
  -- away by a room, or refused.
  pub hello_as-IsConsistent :
      (alias : String) (socket : ℕ) (via : Option String) (frame : MeshFrame) (w : World)
      → (is_taken env config socket w (Dict.get alias w.state.peers) ≡ false
          → Dict.get alias w.state.peers ≡ none)
      → IsConsistent w.state
      → IsConsistent (hello_as env config alias socket via frame w).state
  hello_as-IsConsistent alias socket via frame w no_dead c =
      hello_as-keeps IsConsistent flush-IsConsistent close_state-IsConsistent env config alias
        (λ _. Unit) (λ peer room role s _ _ h b. join_room-IsConsistent config peer room role s b h)
        socket via frame w (anything (requested_rooms frame.rooms)) c
        (λ free. register-IsConsistent alias socket via frame w.state (no_dead free) c)
