-- ===== src/Client/Session/Rooms.antt =====
-- The room that `MeshClient` of src/client/client.ts picks for a message without one.
use pi_mesh.Prelude.{
  String, Bool, true, false, [], ◌∷◌, Option, none, some, if◌then◌else◌, ◌≡◌, refl, sym, ap, ◌∙◌,
  arith, ◌==◌, eq_iff, Bool-cases, inl, inr, if-both_eq,
}
use pi_mesh.Dict
use pi_mesh.Dict.{Dict, get}
use pi_mesh.Shared.Config.{default_room}
use pi_mesh.Client.Session.{MeshClient}

-- `this.peerRooms.get(to)?.has(room) === true`
abbrev pub is_in : Option (Dict (Unit {0})) → String → Bool
is_in none room = false
is_in (some rooms) room = Dict.has room rooms

unfoldable pub first_shared : Option (Dict (Unit {0})) → Dict (Unit {0}) → Option String
first_shared theirs [] = none
first_shared theirs ((room, u) ∷ joined) =
    let rest = first_shared theirs joined in if is_in theirs room then some room else rest

abbrev pub first_joined : Dict (Unit {0}) → Option String
first_joined [] = none
first_joined ((room, u) ∷ joined) = some room

abbrev pub default_or_first : Dict (Unit {0}) → Option String
default_or_first joined =
    if Dict.has default_room joined then some default_room else first_joined joined

abbrev pub without_target : Option String → Dict (Unit {0}) → Option String
without_target none joined = default_or_first joined
without_target (some room) joined =
    if Dict.has room joined then some room else default_or_first joined

abbrev pub or_else : Option String → Option String → Option String
or_else (some room) other = some room
or_else none other = other

unfoldable pub resolve_send_room : Option String → MeshClient → Option String
resolve_send_room none c = without_target c.project_room c.joined_rooms
resolve_send_room (some to) c =
    or_else (first_shared (Dict.get to c.peer_rooms) c.joined_rooms)
      (without_target c.project_room c.joined_rooms)

-- The room of a message is joined, and shared with the addressee where any joined room is.
abbrev pub IsChosen : Option (Dict (Unit {0})) → Dict (Unit {0}) → Option String → Type 0
IsChosen theirs joined none = joined ≡ []
IsChosen theirs joined (some r) =
    (Dict.has r joined ≡ true)
    × ((q : String) → Dict.has q joined ≡ true → is_in theirs q ≡ true → is_in theirs r ≡ true)

-- No joined room is shared, or the first one that is.
abbrev Shares : Option (Dict (Unit {0})) → Dict (Unit {0}) → Option String → Type 0
Shares theirs joined none = (q : String) → Dict.has q joined ≡ true → is_in theirs q ≡ false
Shares theirs joined (some r) = (Dict.has r joined ≡ true) × (is_in theirs r ≡ true)

Shares-later :
    (theirs : Option (Dict (Unit {0}))) (room : String) (u : Unit {0}) (joined : Dict (Unit {0}))
    (o : Option String)
    → is_in theirs room ≡ false
    → Shares theirs joined o
    → Shares theirs ((room, u) ∷ joined) o
unfolding get
Shares-later theirs room u joined none other none_shared = λ q here. elim (Bool-cases (room == q)) [
  | inl same ↦ ap (is_in theirs) (sym ((eq_iff room q).0 same)) ∙ other
  | inr differ ↦ none_shared q (ground (arith, here))
]
Shares-later theirs room u joined (some r) other (here, shared) = (ground (arith, here), shared)

first_shared-Shares :
    (theirs : Option (Dict (Unit {0}))) (joined : Dict (Unit {0}))
    → Shares theirs joined (first_shared theirs joined)
unfolding first_shared get
first_shared-Shares theirs [] = λ q here. ground (arith, here)
first_shared-Shares theirs ((room, u) ∷ joined) =
    if-both_eq (Shares theirs ((room, u) ∷ joined)) (is_in theirs room)
      (λ shared. (ground (arith, eq_iff room room), shared))
      (λ other. Shares-later theirs room u joined _ other (first_shared-Shares theirs joined))

abbrev IsJoined : Dict (Unit {0}) → Option String → Type 0
IsJoined joined none = joined ≡ []
IsJoined joined (some r) = Dict.has r joined ≡ true

default-IsJoined : (joined : Dict (Unit {0})) → IsJoined joined (default_or_first joined)
unfolding get
default-IsJoined [] = refl
default-IsJoined ((room, u) ∷ joined) =
    if-both_eq (IsJoined ((room, u) ∷ joined)) (Dict.has default_room ((room, u) ∷ joined)) (λ h. h)
      (λ h. ground (arith, eq_iff room room))

without-IsJoined :
    (project : Option String) (joined : Dict (Unit {0}))
    → IsJoined joined (without_target project joined)
without-IsJoined none joined = default-IsJoined joined
without-IsJoined (some room) joined =
    if-both_eq (IsJoined joined) (Dict.has room joined) (λ h. h) (λ h. default-IsJoined joined)

without-IsChosen :
    (theirs : Option (Dict (Unit {0}))) (joined : Dict (Unit {0})) (o : Option String)
    → Shares theirs joined none
    → IsJoined joined o
    → IsChosen theirs joined o
without-IsChosen theirs joined none none_shared j = j
without-IsChosen theirs joined (some r) none_shared j =
    (j, λ q here shared. ground (arith, none_shared q here, shared))

or_else-IsChosen :
    (theirs : Option (Dict (Unit {0}))) (joined : Dict (Unit {0})) (o other : Option String)
    → Shares theirs joined o
    → IsJoined joined other
    → IsChosen theirs joined (or_else o other)
or_else-IsChosen theirs joined none other s j = without-IsChosen theirs joined other s j
or_else-IsChosen theirs joined (some r) other (here, shared) j = (here, λ q h t. shared)

-- The room that the client picks for a message to a peer is one that it has joined, and one that it
-- shares with that peer, as far as it knows, where there is such a room; no room is picked only if
-- the client has joined none.
pub resolve_send_room-IsChosen :
    (to : String) (c : MeshClient)
    → IsChosen (Dict.get to c.peer_rooms) c.joined_rooms (resolve_send_room (some to) c)
unfolding resolve_send_room
resolve_send_room-IsChosen to c =
    or_else-IsChosen (Dict.get to c.peer_rooms) c.joined_rooms _ _
      (first_shared-Shares (Dict.get to c.peer_rooms) c.joined_rooms)
      (without-IsJoined c.project_room c.joined_rooms)
