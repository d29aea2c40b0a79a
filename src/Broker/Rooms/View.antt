-- ===== src/Broker/Rooms/View.antt =====
-- The two tables of membership seen as Boolean relations, and what each operation does to them.
use pi_mesh.Prelude.{
  ◌≡◌, refl, String, Bool, true, false, ◌&&◌, List, [], ◌∷◌, Option, none, some, ◌==◌, eq_iff,
  if◌then◌else◌, get_or_else, arith,
}
use pi_mesh.Dict
use pi_mesh.Dict.{Dict, listed}
use pi_mesh.Dict.Laws.{listed-keys, get-set, get-delete}
use pi_mesh.Protocol.Frame.{MeshRole}
use pi_mesh.Broker.State.{BrokerState, PeerRecord, Members, MeshConfig}
use pi_mesh.Broker.Rooms.{
  RoomResult, ok, refused, store, join_room, leave_room, remove_member, remove_from_all,
  detach_from_rooms, put_members, drop_from, add_member,
}

abbrev pub has_member : String → Option Members → Bool
has_member alias none = false
has_member alias (some ms) = Dict.has alias ms

-- `state.rooms.get(room)?.has(alias)`
abbrev pub in_room : String → String → BrokerState → Bool
in_room alias room s = has_member alias (Dict.get room s.rooms)

abbrev pub has_joined : String → Option PeerRecord → Bool
has_joined room none = false
has_joined room (some peer) = Dict.has room peer.rooms

-- `state.peers.get(alias)?.rooms.has(room)`
abbrev pub joined : String → String → BrokerState → Bool
joined alias room s = has_joined room (Dict.get alias s.peers)

has_member-put :
    (a room r : String) (ms : Members) (rooms : Dict Members)
    → has_member a (Dict.get r (put_members room ms rooms))
      ≡ (if room == r then Dict.has a ms else has_member a (Dict.get r rooms))
unfolding Dict.get
has_member-put a room r [] rooms = ground (arith, get-delete r room rooms)
has_member-put a room r (m ∷ ms) rooms = ground (arith, get-set r room (m ∷ ms) rooms)

has_member-drop_from :
    (a alias room r : String) (o : Option Members) (rooms : Dict Members)
    → Dict.get room rooms ≡ o
    → has_member a (Dict.get r (drop_from room alias o rooms))
      ≡ (if room == r && alias == a then false else has_member a (Dict.get r rooms))
has_member-drop_from a alias room r none rooms e = ground (arith, eq_iff room r)
has_member-drop_from a alias room r (some ms) rooms e = ground (
  arith,
  has_member-put a room r (Dict.delete alias ms) rooms,
  get-delete a alias ms,
  eq_iff room r,
)

-- Taking a peer out of a room changes this one membership only.
has_member-remove_member :
    (a alias room r : String) (rooms : Dict Members)
    → has_member a (Dict.get r (remove_member alias room rooms))
      ≡ (if room == r && alias == a then false else has_member a (Dict.get r rooms))
unfolding remove_member
has_member-remove_member a alias room r rooms =
    has_member-drop_from a alias room r (Dict.get room rooms) rooms refl

has_member-remove_from_all :
    (a alias r : String) (rs : List String) (rooms : Dict Members)
    → has_member a (Dict.get r (remove_from_all alias rs rooms))
      ≡ (if listed r rs && alias == a then false else has_member a (Dict.get r rooms))
unfolding remove_from_all
has_member-remove_from_all a alias r [] rooms = refl
has_member-remove_from_all a alias r (q ∷ qs) rooms = ground (
  arith,
  has_member-remove_from_all a alias r qs (remove_member alias q rooms),
  has_member-remove_member a alias q r rooms,
)

module _ (a r : String) (peer : PeerRecord) (s : BrokerState) where
  joined-store :
      joined a r (store peer s) ≡ (if peer.alias == a then Dict.has r peer.rooms else joined a r s)
  joined-store = ground (arith, get-set a peer.alias peer s.peers)

  -- A peer that leaves all rooms is in none of those that it had joined, and the others stay.
  pub in_room-detach :
      in_room a r (detach_from_rooms peer s).1
      ≡ (if Dict.has r peer.rooms && peer.alias == a then false else in_room a r s)
  unfolding detach_from_rooms
  in_room-detach =
      rw (← listed-keys r peer.rooms)
        (has_member-remove_from_all a peer.alias r (Dict.keys peer.rooms) s.rooms)

  pub joined-detach :
      joined a r (detach_from_rooms peer s).1 ≡ (if peer.alias == a then false else joined a r s)
  unfolding detach_from_rooms Dict.get
  joined-detach = ground (arith, get-set a peer.alias (record peer { rooms = [] }) s.peers)

abbrev pub is_ok : RoomResult → Bool
is_ok ok = true
is_ok (refused code) = false

-- The state holds this record under its alias.
abbrev pub Holds : PeerRecord → BrokerState → Type 0
Holds peer s = Dict.get peer.alias s.peers ≡ some peer

module _ (a r : String) (peer : PeerRecord) (room : String) (s : BrokerState) where
  pub in_room-leave : in_room a r (leave_room peer room s).2 ≡ (
      if is_ok (leave_room peer room s).0 && room == r && peer.alias == a
      then false
      else in_room a r s)
  unfolding leave_room
  in_room-leave = ground (arith, has_member-remove_member a peer.alias room r s.rooms)

  pub joined-leave :
      Holds peer s
      → joined a r (leave_room peer room s).2 ≡ (
          if is_ok (leave_room peer room s).0 && room == r && peer.alias == a
          then false
          else joined a r s)
  unfolding leave_room
  joined-leave h = ground (
    arith,
    get-set a peer.alias (record peer { rooms = Dict.delete room peer.rooms }) s.peers,
    get-delete r room peer.rooms,
    eq_iff peer.alias a,
  )

  in_room-add_member :
      in_room a r (add_member room peer.alias (get_or_else (Dict.get room s.rooms) []) s)
      ≡ (if room == r && peer.alias == a then true else in_room a r s)
  unfolding Dict.get
  in_room-add_member = ground (
    arith,
    get-set r room (Dict.set peer.alias tt (get_or_else (Dict.get room s.rooms) [])) s.rooms,
    get-set a peer.alias tt (get_or_else (Dict.get room s.rooms) []),
    eq_iff room r,
  )

module _ (a r : String) (config : MeshConfig) (peer : PeerRecord) (room : String) (role : MeshRole)
    (s : BrokerState) where
  -- A refused join changes nothing.
  pub join_room-refused :
      is_ok (join_room config peer room role s).0 ≡ false
      → ((join_room config peer room role s).1 ≡ peer) × ((join_room config peer room role s).2 ≡ s)
  unfolding join_room
  join_room-refused e = ground arith

  pub in_room-join :
      (joined peer.alias room s ≡ true → in_room peer.alias room s ≡ true)
      → Holds peer s
      → in_room a r (join_room config peer room role s).2 ≡ (
          if is_ok (join_room config peer room role s).0 && room == r && peer.alias == a
          then true
          else in_room a r s)
  unfolding join_room
  in_room-join consistent h =
      ground (arith, in_room-add_member a r peer room s, eq_iff room r, eq_iff peer.alias a)

  pub joined-join :
      Holds peer s
      → joined a r (join_room config peer room role s).2 ≡ (
          if is_ok (join_room config peer room role s).0 && room == r && peer.alias == a
          then true
          else joined a r s)
  unfolding join_room
  joined-join h = ground (
    arith,
    get-set a peer.alias (record peer { rooms = Dict.set room role peer.rooms }) s.peers,
    get-set r room role peer.rooms,
    eq_iff peer.alias a,
    eq_iff room r,
  )

  pub in_room-join_other :
      (room == r) ≡ false → in_room a r (join_room config peer room role s).2 ≡ in_room a r s
  unfolding join_room
  in_room-join_other e = ground (arith, in_room-add_member a r peer room s)

module _ (config : MeshConfig) (peer : PeerRecord) (room : String) (role : MeshRole)
    (s : BrokerState) where
  pub own_alias-join :
      ((b : String) (p : PeerRecord) → Dict.get b s.peers ≡ some p → p.alias ≡ b)
      → (b : String) (p : PeerRecord)
      → Dict.get b (join_room config peer room role s).2.peers ≡ some p
      → p.alias ≡ b
  unfolding join_room
  own_alias-join own b p e = ground (
    arith,
    get-set b peer.alias (record peer { rooms = Dict.set room role peer.rooms }) s.peers,
    eq_iff peer.alias b,
    own b p,
  )

pub own_alias-detach :
    (peer : PeerRecord) (s : BrokerState)
    → ((a : String) (p : PeerRecord) → Dict.get a s.peers ≡ some p → p.alias ≡ a)
    → (a : String) (p : PeerRecord) → Dict.get a (detach_from_rooms peer s).1.peers ≡ some p
    → p.alias ≡ a
unfolding detach_from_rooms
own_alias-detach peer s own a p e =
    ground (
      arith,
      get-set a peer.alias (record peer { rooms = [] }) s.peers,
      eq_iff peer.alias a,
      own a p,
    )
