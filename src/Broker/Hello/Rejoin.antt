-- ===== src/Broker/Hello/Rejoin.antt =====
-- A hello that takes the place of a dead record: the old record goes without leaving its rooms.
use pi_mesh.Prelude.{
  ℕ, ◌≡◌, refl, ap, ◌∙◌, String, true, false, not, ◌&&◌, List, [], ◌∷◌, Option, some, ◌==◌, eq_iff,
  eq_refl, eqb, any, arith, inl, inr, Option-cases, All,
}
use pi_mesh.Dict
use pi_mesh.Dict.{Dict, listed}
use pi_mesh.Dict.Laws.{get-set, Every-delete, Every-set}
use pi_mesh.Protocol.Frame.{MeshFrame, MeshRole}
use pi_mesh.Broker.State.{BrokerState, PeerRecord, MeshConfig}
use pi_mesh.Broker.Rooms.{join_room, detach_from_rooms}
use pi_mesh.Broker.Rooms.View.{
  Holds, in_room, joined, joined-join, in_room-join_other, own_alias-join, own_alias-detach,
}
use pi_mesh.Broker.Rooms.Consistent.{IsConsistent}
use pi_mesh.Broker.Mailbox.{flush_mailbox, partition_expired}
use pi_mesh.Broker.World.{Env, World, is_destroyed, without_peer}
use pi_mesh.Broker.World.Closing.{close_state, in_room-without, joined-without}
use pi_mesh.Broker.Hello.{new_peer, register, hello_as, requested_rooms}
use pi_mesh.Broker.Hello.Keeps.{enroll-keeps}

module _ (alias r : String) where
  -- The room's set holds the alias, and the peer of that alias does not list the room.
  pub record IsGhost (s : BrokerState) : Type 0 where
    pub own_alias : (a : String) (p : PeerRecord) → Dict.get a s.peers ≡ some p → p.alias ≡ a
    pub in_set : in_room alias r s ≡ true
    pub not_joined : joined alias r s ≡ false

  flush-IsGhost :
      (s : BrokerState) (config : MeshConfig) (a : String) (now : ℕ)
      → IsGhost s
      → IsGhost (flush_mailbox s config a now).2
  unfolding flush_mailbox partition_expired
  flush-IsGhost s config a now g = record {
    own_alias = g.own_alias;
    in_set = g.in_set;
    not_joined = g.not_joined;
  }

  not_listed :
      (peer : PeerRecord) (s : BrokerState)
      → Holds peer s
      → IsGhost s
      → (peer.alias == alias) ≡ true
      → Dict.has r peer.rooms ≡ false
  not_listed peer s h g e =
      let same = (eq_iff peer.alias alias).0 e in let away = g.not_joined in ground (arith, same)

  without-IsGhost :
      (peer : PeerRecord) (s : BrokerState)
      → Holds peer s
      → IsGhost s
      → IsGhost (without_peer peer s)
  without-IsGhost peer s h g =
      let away = g.not_joined in
      let inside = g.in_set in
      record {
        own_alias =
            Every-delete (λ a p. p.alias ≡ a) peer.alias (detach_from_rooms peer s).1.peers
              (own_alias-detach peer s g.own_alias);
        in_set = rw (in_room-without alias r peer s) (ground (arith, not_listed peer s h g));
        not_joined = rw (joined-without alias r peer s) (ground arith);
      }

  close-IsGhost :
      (a : String) (s : BrokerState) → IsGhost s → IsGhost (close_state (Dict.get a s.peers) s)
  close-IsGhost a s g = elim (Option-cases (Dict.get a s.peers)) [
    | inl e ↦ rw e g
    | inr (peer, e) ↦ rw e (
        without-IsGhost peer s (ap (λ (k : String). Dict.get k s.peers) (g.own_alias a peer e) ∙ e)
          g)
  ]

  -- The room is another one.
  abbrev IsOther : String → Type 0
  IsOther q = (q == r) ≡ false

  join-IsGhost :
      (config : MeshConfig) (peer : PeerRecord) (room : String) (role : MeshRole) (s : BrokerState)
      → IsOther room
      → Holds peer s
      → IsGhost s
      → IsGhost (join_room config peer room role s).2
  join-IsGhost config peer room role s other h g = record {
    own_alias = own_alias-join config peer room role s g.own_alias;
    in_set = in_room-join_other alias r config peer room role s other ∙ g.in_set;
    not_joined =
        joined-join alias r config peer room role s h ∙ (let away = g.not_joined in ground arith);
  }

  All-others : (rs : List String) → listed r rs ≡ false → All IsOther rs
  All-others [] e = tt
  All-others (q ∷ rs) e = (ground arith, All-others rs (ground arith))

  -- If the tables are consistent, the socket is none of those that had to show a token, and the
  -- record of the alias has a destroyed socket and lists a room that the hello does not ask for, then
  -- after the hello, admitted or turned away by a room, the room's set still holds the alias although
  -- no record of it lists the room.
  pub hello_as-leaves_ghost :
      (env : Env) (config : MeshConfig) (socket : ℕ) (via : Option String) (frame : MeshFrame)
      (w : World) (old : PeerRecord)
      → IsConsistent w.state
      → Dict.get alias w.state.peers ≡ some old
      → Dict.has r old.rooms ≡ true
      → is_destroyed old.socket w ≡ true
      → any (λ s. eqb s socket) w.token_sockets ≡ false
      → listed r (requested_rooms frame.rooms) ≡ false
      → let s' = (hello_as env config alias socket via frame w).state in
        (in_room alias r s' ≡ true) × (joined alias r s' ≡ false)
  unfolding hello_as Dict.get
  hello_as-leaves_ghost env config socket via frame w old c found lists dead local other =
      rw (local, found, dead, not_taken)
        (let g =
            enroll-keeps IsGhost flush-IsGhost close-IsGhost env config alias IsOther
              (λ peer room role s _ q h b. join-IsGhost config peer room role s q h b) new frame w
              (All-others (requested_rooms frame.rooms) other) refl registered in
          (g.in_set, g.not_joined))
    where
      new : PeerRecord
      new = new_peer env config alias socket via frame

      not_taken : (not (eqb old.socket socket) && false) ≡ false
      not_taken = ground arith

      registered : IsGhost (register env config new w.state)
      registered = record {
        own_alias =
            Every-set (λ a p. p.alias ≡ a) alias new (Dict.delete alias w.state.peers) refl
              (Every-delete (λ a p. p.alias ≡ a) alias w.state.peers c.own_alias);
        in_set = ground (arith, c.agree alias r);
        not_joined =
            ground
              (arith, get-set alias alias new (Dict.delete alias w.state.peers), eq_refl alias);
      }
