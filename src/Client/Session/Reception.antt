-- ===== src/Client/Session/Reception.antt =====
-- `onFrame` of src/client/client.ts.
use pi_mesh.Prelude.{
  ℕ, String, true, List, [], ◌∷◌, ◌++◌, Option, none, some, ◌==◌, if◌then◌else◌, eqb, get_or_else,
}
use pi_mesh.Dict
use pi_mesh.Dict.{Dict}
use pi_mesh.Protocol.Frame.{
  MeshFrame, MeshPeerInfo, ActivityState, busy, idle, rate_limited, blocked,
}
use pi_mesh.Client.Pending.{cancel}
use pi_mesh.Client.Session.{
  MeshClient, Mission, answered, failed, inbound, dropped_offline, read, presence, every,
  reservations, emit, store, note_inbound_from, apply_peer_reservations,
}

-- A waiter that is found under a key is removed, and its promise is resolved.
abbrev pub resolve_found : Option ℕ → MeshFrame → MeshClient → MeshClient
resolve_found none frame c = c
resolve_found (some promise) frame c = record c { resolved = c.resolved ++ (promise, frame) ∷ [] }

unfoldable pub resolve_lease : MeshFrame → MeshClient → MeshClient
resolve_lease frame c =
    let key = get_or_else frame.reply_to frame.id in
    resolve_found (Dict.get key c.lease_waiters) frame
      (record c { lease_waiters = Dict.delete key c.lease_waiters })

unfoldable pub resolve_ctl : String → MeshFrame → MeshClient → MeshClient
resolve_ctl key frame c =
    resolve_found (Dict.get key c.ctl_waiters) frame
      (record c { ctl_waiters = Dict.delete key c.ctl_waiters })

abbrev pub ctl_ack_to : Option String → MeshFrame → MeshClient → MeshClient
ctl_ack_to none frame c = c
ctl_ack_to (some key) frame c = resolve_ctl key frame c

unfoldable pub resolve_ack : MeshFrame → MeshClient → MeshClient
resolve_ack frame c =
    resolve_found (Dict.get frame.id c.ack_waiters) frame
      (record c { ack_waiters = Dict.delete frame.id c.ack_waiters })

unfoldable pub resolve_status : MeshFrame → MeshClient → MeshClient
resolve_status frame c =
    resolve_found (Dict.get frame.id c.status_waiters) frame
      (record c { status_waiters = Dict.delete frame.id c.status_waiters })

unfoldable pub set_mission : String → (Mission → Mission) → MeshClient → MeshClient
set_mission id change c = elim (Dict.get id c.awaited_missions) [
  | none ↦ c
  | some m ↦ record c { awaited_missions = Dict.set id (change m) c.awaited_missions }
]

abbrev pub fail_mission : Mission → Mission
fail_mission m = record m { status = failed; response = some "dropped_offline" }

abbrev pub answer_mission : String → Mission → Mission
answer_mission body m = record m { status = answered; answered = true; response = some body }

-- A notice that the broker has dropped a message from a mailbox.
unfoldable pub on_dropped : MeshFrame → MeshClient → MeshClient
on_dropped frame c =
    if get_or_else frame.status "" == "dropped_offline"
    then (let cancelled : MeshClient = record c {
      pending = cancel frame.id "dropped_offline" c.pending;
    } in
        emit (dropped_offline frame) (set_mission frame.id fail_mission cancelled))
    else c

unfoldable pub on_ack : MeshFrame → MeshClient → MeshClient
on_ack frame c = if Dict.has frame.id c.ack_waiters then resolve_ack frame c else on_dropped frame c

-- `new Set(rooms)`
unfoldable pub room_set : List String → Dict (Unit {0}) → Dict (Unit {0})
room_set [] rooms = rooms
room_set (r ∷ rs) rooms = room_set rs (Dict.set r tt rooms)

-- The rooms of the peers, but for our own entry.
unfoldable pub learn_rooms :
    String → List MeshPeerInfo → Dict (Dict (Unit {0})) → Dict (Dict (Unit {0}))
learn_rooms self [] known = known
learn_rooms self (p ∷ ps) known =
    learn_rooms self ps
      (if p.alias == self then known else Dict.set p.alias (room_set p.rooms []) known)

unfoldable pub on_status_res : MeshFrame → MeshClient → MeshClient
on_status_res frame c =
    resolve_status frame
      (record c { peer_rooms = learn_rooms c.alias (get_or_else frame.peers []) c.peer_rooms })

unfoldable pub on_message : MeshFrame → MeshClient → MeshClient
on_message frame c = emit (inbound frame none) (note_inbound_from frame (store frame c))

abbrev pub reserve_by : Option String → MeshFrame → MeshClient → MeshClient
reserve_by none frame c = c
reserve_by (some alias) frame c =
    if alias == c.alias
    then c
    else emit (reservations alias (get_or_else frame.reservations []))
        (apply_peer_reservations alias frame.reservations c)

unfoldable pub on_reserve : MeshFrame → MeshClient → MeshClient
on_reserve frame c = reserve_by frame.from frame c

abbrev pub read_by_peer : Option String → Option String → MeshClient → MeshClient
read_by_peer (some msg_id) (some alias) c = record c { read_by = Dict.set msg_id alias c.read_by }
read_by_peer _ _ c = c

unfoldable pub on_read : MeshFrame → MeshClient → MeshClient
on_read frame c = emit (read frame) (read_by_peer frame.reads frame.from c)

abbrev pub turn_state : String → Option ActivityState
turn_state status =
    if status == "busy"
    then some busy
    else if status == "idle"
    then some idle
    else if status == "rate_limited"
    then some rate_limited
    else if status == "blocked"
    then some blocked
    else none

abbrev pub active_peer : Option String → Option ActivityState → MeshClient → MeshClient
active_peer (some alias) (some state) c = record c {
  peer_activity = Dict.set alias state c.peer_activity;
}
active_peer _ _ c = c

unfoldable pub on_activity : MeshFrame → MeshClient → MeshClient
on_activity frame c =
    emit (every frame) (active_peer frame.from (turn_state (get_or_else frame.status "")) c)

abbrev pub leave_all_or : Option String → Dict (Unit {0}) → Dict (Unit {0})
leave_all_or none rooms = []
leave_all_or (some room) rooms = Dict.delete room rooms

-- The rooms of a peer without those that it has left; a peer in no room has no entry.
unfoldable pub drop_rooms : String → Option String → Dict (Dict (Unit {0})) → Dict (Dict (Unit {0}))
drop_rooms alias room known = elim (Dict.get alias known) [
  | none ↦ known
  | some rooms ↦
      let left = leave_all_or room rooms in
      if eqb (Dict.size left) 0 then Dict.delete alias known else Dict.set alias left known
]

unfoldable pub peer_offline : String → Option String → MeshClient → MeshClient
peer_offline alias room c =
    let known = drop_rooms alias room c.peer_rooms in
    let left : MeshClient = record c { peer_rooms = known } in
    if Dict.has alias known then left else record left {
      peer_reservations = Dict.delete alias c.peer_reservations;
      peer_activity = Dict.delete alias c.peer_activity;
      known_peers = Dict.delete alias c.known_peers;
    }

unfoldable pub peer_online : String → Option String → MeshClient → MeshClient
peer_online alias none c = record c { known_peers = Dict.set alias tt c.known_peers }
peer_online alias (some room) c = record c {
  known_peers = Dict.set alias tt c.known_peers;
  peer_rooms =
      Dict.set alias (Dict.set room tt (get_or_else (Dict.get alias c.peer_rooms) [])) c.peer_rooms;
}

abbrev pub peer_present : String → MeshFrame → MeshClient → MeshClient
peer_present alias frame c =
    if get_or_else frame.status "" == "offline"
    then peer_offline alias frame.room c
    else if get_or_else frame.status "" == "online"
    then peer_online alias frame.room c
    else c

abbrev pub presence_of : Option String → MeshFrame → MeshClient → MeshClient
presence_of none frame c = c
presence_of (some alias) frame c = if alias == c.alias then c else peer_present alias frame c

unfoldable pub on_presence : MeshFrame → MeshClient → MeshClient
on_presence frame c = emit (presence frame) (presence_of frame.from frame c)

unfoldable pub on_error : MeshFrame → MeshClient → MeshClient
on_error frame c =
    emit (every frame) (resolve_ctl frame.id frame (resolve_status frame (resolve_ack frame c)))
