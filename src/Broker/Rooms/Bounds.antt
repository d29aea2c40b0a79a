-- ===== src/Broker/Rooms/Bounds.antt =====
-- The sizes of the membership tables: every room has a valid name and between 1 and
-- `max_peers_per_room` members, and no peer is in more rooms than the configuration allows.
use pi_mesh.Prelude.{
  ◌≤◌, ◌<◌, ◌≡◌, String, true, false, not, ◌&&◌, List, [], ◌∷◌, leb, get_or_else, arith,
  Option-cases, inl, inr, if-both, if-both_eq,
}
use pi_mesh.Dict
use pi_mesh.Dict.{Dict}
use pi_mesh.Dict.Laws.{
  Every, Every-set, Every-delete, Unique, size-set, size-delete, set-Unique, delete-Unique,
}
use pi_mesh.Shared.Config.{max_peers_per_room}
use pi_mesh.Protocol.Frame.{MeshRole}
use pi_mesh.Protocol.Names.{is_valid_room}
use pi_mesh.Broker.State.{BrokerState, PeerRecord, Members, MeshConfig}
use pi_mesh.Broker.Rooms.{
  Changed, store, join_room, leave_room, remove_member, remove_from_all, detach_from_rooms,
  put_members, add_member,
}

-- A room's set has no double entry, is not empty, and holds at most `max_peers_per_room` aliases.
pub record IsRoom (room : String) (ms : Members) : Type 0 where
  pub valid_name : is_valid_room room ≡ true
  pub unique : Unique ms
  pub nonempty : 0 < Dict.size ms
  pub bounded : Dict.size ms ≤ max_peers_per_room

abbrev pub RoomsAreValid : Dict Members → Type 0
RoomsAreValid = Every IsRoom

nonempty-set : (k : String) (ms : Members) → 0 < Dict.size (Dict.set k tt ms)
unfolding Dict.set
nonempty-set k [] = omega arith
nonempty-set k ((j, u) ∷ ms) = ground arith

module _ (rooms : Dict Members) (v : RoomsAreValid rooms) where
  set-valid :
      (room : String) (ms : Members) → IsRoom room ms → RoomsAreValid (Dict.set room ms rooms)
  set-valid room ms new = Every-set IsRoom room ms rooms new v

  members-valid :
      (room : String)
      → Unique (get_or_else (Dict.get room rooms) [])
        × (Dict.size (get_or_else (Dict.get room rooms) []) ≤ max_peers_per_room)
  members-valid room = elim (Option-cases (Dict.get room rooms)) [
    | inl e ↦ rw e (tt, omega arith)
    | inr (ms, e) ↦ let r = v room ms e in rw e (r.unique, r.bounded)
  ]

  add_member-valid :
      (room alias : String) (ms : Members)
      → is_valid_room room ≡ true
      → Unique ms
      → Dict.size ms ≤ max_peers_per_room
      → (not (Dict.has alias ms) && leb max_peers_per_room (Dict.size ms)) ≡ false
      → RoomsAreValid (Dict.set room (Dict.set alias tt ms) rooms)
  add_member-valid room alias ms name u b fits = set-valid room (Dict.set alias tt ms) (record {
    valid_name = name;
    unique = set-Unique alias tt ms u;
    nonempty = nonempty-set alias ms;
    bounded = ground (arith, size-set alias tt ms);
  })

  put_members-valid :
      (room : String) (ms : Members)
      → is_valid_room room ≡ true
      → Unique ms
      → Dict.size ms ≤ max_peers_per_room
      → RoomsAreValid (put_members room ms rooms)
  put_members-valid room [] name u b = Every-delete IsRoom room rooms v
  put_members-valid room ((j, x) ∷ ms) name u b =
      set-valid room ((j, x) ∷ ms)
        (record { valid_name = name; unique = u; nonempty = omega arith; bounded = b })

  remove_member-valid : (alias room : String) → RoomsAreValid (remove_member alias room rooms)
  unfolding remove_member
  remove_member-valid alias room = elim (Option-cases (Dict.get room rooms)) [
    | inl e ↦ rw (e, remove_member) v
    | inr (ms, e) ↦
        let r = v room ms e in
        rw (e, remove_member)
          (put_members-valid room (Dict.delete alias ms) r.valid_name
            (delete-Unique alias ms r.unique)
            (let h = r.bounded in ground (arith, size-delete alias ms r.unique)))
  ]

remove_from_all-valid :
    (alias : String) (rs : List String) (rooms : Dict Members)
    → RoomsAreValid rooms
    → RoomsAreValid (remove_from_all alias rs rooms)
unfolding remove_from_all
remove_from_all-valid alias [] rooms v = v
remove_from_all-valid alias (r ∷ rs) rooms v =
    remove_from_all-valid alias rs (remove_member alias r rooms)
      (remove_member-valid rooms v alias r)

module _ (config : MeshConfig) where
  -- No peer is in more rooms than the configuration allows.
  abbrev pub IsPeer : PeerRecord → Type 0
  IsPeer p = Unique p.rooms × (Dict.size p.rooms ≤ config.max_rooms_per_peer)

  abbrev pub PeersAreBounded : BrokerState → Type 0
  PeersAreBounded s = Every (λ _. IsPeer) s.peers

  pub record IsBounded (s : BrokerState) : Type 0 where
    pub rooms_valid : RoomsAreValid s.rooms
    pub peers_bounded : PeersAreBounded s

  store-bounded :
      (peer : PeerRecord) (s : BrokerState)
      → Unique peer.rooms
      → Dict.size peer.rooms ≤ config.max_rooms_per_peer
      → PeersAreBounded s
      → PeersAreBounded (store peer s)
  store-bounded peer s u b = Every-set (λ _. IsPeer) peer.alias peer s.peers (u, b)

  -- A join of a peer that is in no more rooms than configured, granted or refused, keeps the bounds
  -- on rooms and peers.
  pub join_room-IsBounded :
      (peer : PeerRecord) (room : String) (role : MeshRole) (s : BrokerState)
      → IsPeer peer
      → IsBounded s
      → IsBounded (join_room config peer room role s).2
  unfolding join_room
  join_room-IsBounded peer room role s (u, b) v =
      let (mu, mb) = members-valid s.rooms v.rooms_valid room in
      let ms = get_or_else (Dict.get room s.rooms) [] in
      if-both_eq P (not (is_valid_room room)) (λ _. v)
        λ name.
          if-both_eq P (Dict.has room peer.rooms)
            (λ old. record {
              rooms_valid = v.rooms_valid;
              peers_bounded =
                  store-bounded (record peer { rooms = Dict.set room role peer.rooms }) s
                    (set-Unique room role peer.rooms u)
                    (ground (arith, size-set room role peer.rooms)) v.peers_bounded;
            })
            λ new.
              if-both_eq P (leb config.max_rooms_per_peer (Dict.size peer.rooms)) (λ _. v)
                λ few.
                  if-both_eq P
                    (not (Dict.has peer.alias ms) && leb max_peers_per_room (Dict.size ms)) (λ _. v)
                    λ fits. record {
                      rooms_valid =
                          add_member-valid s.rooms v.rooms_valid room peer.alias ms (ground arith)
                            mu mb fits;
                      peers_bounded =
                          store-bounded (record peer { rooms = Dict.set room role peer.rooms })
                            (add_member room peer.alias ms s) (set-Unique room role peer.rooms u)
                            (ground (arith, size-set room role peer.rooms)) v.peers_bounded;
                    }
    where
      P : Changed → Type 0
      P r = IsBounded r.2

  pub leave_room-IsBounded :
      (peer : PeerRecord) (room : String) (s : BrokerState)
      → IsPeer peer
      → IsBounded s
      → IsBounded (leave_room peer room s).2
  unfolding leave_room
  leave_room-IsBounded peer room s (u, b) v =
      let rooms' = remove_member peer.alias room s.rooms in
      if-both (λ (r : Changed). IsBounded r.2) (not (Dict.has room peer.rooms)) v
        (record {
          rooms_valid = remove_member-valid s.rooms v.rooms_valid peer.alias room;
          peers_bounded =
              store-bounded (record peer { rooms = Dict.delete room peer.rooms })
                (record s { rooms = rooms' }) (delete-Unique room peer.rooms u)
                (ground (arith, size-delete room peer.rooms u)) v.peers_bounded;
        })

  pub detach_from_rooms-IsBounded :
      (peer : PeerRecord) (s : BrokerState) → IsBounded s → IsBounded (detach_from_rooms peer s).1
  unfolding detach_from_rooms
  detach_from_rooms-IsBounded peer s v =
      let rooms' = remove_from_all peer.alias (Dict.keys peer.rooms) s.rooms in
      record {
        rooms_valid = remove_from_all-valid peer.alias (Dict.keys peer.rooms) s.rooms v.rooms_valid;
        peers_bounded =
            store-bounded (record peer { rooms = [] }) (record s { rooms = rooms' }) tt
              (omega arith) v.peers_bounded;
      }
