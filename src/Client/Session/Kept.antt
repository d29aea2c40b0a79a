-- ===== src/Client/Session/Kept.antt =====
-- What the helpers of `onFrame` of src/client/client.ts leave alone: the table of the answers that
-- were handled, and what was emitted.
use pi_mesh.Prelude.{ℕ, String, List, Option, none, some, ◌≡◌, refl, arith, ◌==◌, if-both}
use pi_mesh.Protocol.Frame.{MeshFrame, FileReservation, ActivityState}
use pi_mesh.Dict.{Dict}
use pi_mesh.Client.Session.{
  Emission, MeshClient, Mission, ring, store, note_inbound_from, apply_peer_reservations,
}
use pi_mesh.Client.Session.Reception.{
  resolve_found, resolve_lease, resolve_ctl, resolve_ack, resolve_status, set_mission, peer_offline,
  peer_online, peer_present, read_by_peer, active_peer, presence_of,
}

abbrev pub View : Type 0
View = Dict ℕ × List Emission

abbrev pub view : MeshClient → View
view c = (c.handled_reply_targets, c.emitted)

pub view-ring : (frame : MeshFrame) (c : MeshClient) → view (ring frame c) ≡ view c
unfolding ring
view-ring frame c = ground arith

pub view-store : (frame : MeshFrame) (c : MeshClient) → view (store frame c) ≡ view c
unfolding store
view-store frame c = ground arith

pub view-note_inbound_from :
    (frame : MeshFrame) (c : MeshClient) → view (note_inbound_from frame c) ≡ view c
unfolding note_inbound_from
view-note_inbound_from frame c = ground arith

pub view-resolve_found :
    (o : Option ℕ) (frame : MeshFrame) (c : MeshClient) → view (resolve_found o frame c) ≡ view c
view-resolve_found none frame c = refl
view-resolve_found (some promise) frame c = refl

pub view-resolve_lease :
    (frame : MeshFrame) (c : MeshClient) → view (resolve_lease frame c) ≡ view c
unfolding resolve_lease
view-resolve_lease frame c = view-resolve_found _ frame _

pub view-resolve_ctl :
    (key : String) (frame : MeshFrame) (c : MeshClient) → view (resolve_ctl key frame c) ≡ view c
unfolding resolve_ctl
view-resolve_ctl key frame c = view-resolve_found _ frame _

pub view-resolve_ack : (frame : MeshFrame) (c : MeshClient) → view (resolve_ack frame c) ≡ view c
unfolding resolve_ack
view-resolve_ack frame c = view-resolve_found _ frame _

pub view-resolve_status :
    (frame : MeshFrame) (c : MeshClient) → view (resolve_status frame c) ≡ view c
unfolding resolve_status
view-resolve_status frame c = view-resolve_found _ frame _

pub view-set_mission :
    (id : String) (change : Mission → Mission) (c : MeshClient)
    → view (set_mission id change c) ≡ view c
unfolding set_mission
view-set_mission id change c = ground arith

pub view-apply_peer_reservations :
    (alias : String) (rs : Option (List FileReservation)) (c : MeshClient)
    → view (apply_peer_reservations alias rs c) ≡ view c
unfolding apply_peer_reservations
view-apply_peer_reservations alias rs c = ground arith

pub view-peer_present :
    (alias : String) (frame : MeshFrame) (c : MeshClient)
    → view (peer_present alias frame c) ≡ view c
unfolding peer_offline peer_online
view-peer_present alias frame c = ground arith

pub view-read_by_peer :
    (msg_id alias : Option String) (c : MeshClient) → view (read_by_peer msg_id alias c) ≡ view c
view-read_by_peer msg_id alias c = ground arith

pub view-active_peer :
    (alias : Option String) (state : Option ActivityState) (c : MeshClient)
    → view (active_peer alias state c) ≡ view c
view-active_peer alias state c = ground arith

pub view-presence_of :
    (alias : Option String) (frame : MeshFrame) (c : MeshClient)
    → view (presence_of alias frame c) ≡ view c
view-presence_of none frame c = refl
view-presence_of (some alias) frame c =
    if-both (λ d. view d ≡ view c) (alias == c.alias) refl (view-peer_present alias frame c)
