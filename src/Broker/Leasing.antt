-- ===== src/Broker/Leasing.antt =====
-- `handleClaim`, `handleRelease` and `handleLeaseStatus` of src/broker/broker.ts: the frames by which
-- a peer uses the table of leases.
use pi_mesh.Prelude.{String, [], Option, none, some, if◌then◌else◌, get_or_else}
use pi_mesh.Dict
use pi_mesh.Protocol.Frame.{MeshFrame, build_frame, lease, not_member}
use pi_mesh.Shared.Config.{default_lease_ttl_ms}
use pi_mesh.Broker.State.{PeerRecord, MeshConfig}
use pi_mesh.Broker.Lease
use pi_mesh.Broker.Lease.{
  LeaseRecord, LeaseTable, ClaimOutcome, granted, held, invalid, InvalidReason, task_required,
  paths_required, ttl_out_of_range, ReleaseOutcome, released, not_held, Stamp,
}
use pi_mesh.Broker.World.{Env, World, send_to, send_error}
use pi_mesh.Broker.Routing.{room_of}

abbrev pub reason_text : InvalidReason → String
reason_text task_required = "task is required"
reason_text paths_required = "paths is required"
reason_text ttl_out_of_range = "ttlMs must be 1000..86400000"

-- The replies; `buildFrame` puts the hash of the body beside it.
module _ (sha256 : String → String) where
  abbrev pub lease_frame : String → String → String → LeaseRecord → MeshFrame
  lease_frame id status body l = record (build_frame lease id) {
    reply_to = some id;
    status = some status;
    task = some l.task;
    owner = some l.owner;
    lease_id = some l.lease_id;
    fence = some l.fence;
    epoch = some l.epoch;
    paths = some l.paths;
    expires_at = some l.expires_at;
    body = some body;
    body_hash = some (sha256 body);
  }

  abbrev pub no_lease_frame : String → String → String → Option String → Option String → MeshFrame
  no_lease_frame id status body task owner = record (build_frame lease id) {
    reply_to = some id;
    status = some status;
    task = task;
    owner = owner;
    body = some body;
    body_hash = some (sha256 body);
  }

  abbrev pub claim_reply : MeshFrame → ClaimOutcome → MeshFrame
  claim_reply frame (granted l reused) =
      lease_frame frame.id "granted" (if reused then "reused" else "granted") l
  claim_reply frame (held holder) = no_lease_frame frame.id "held" "held" frame.task (some holder)
  claim_reply frame (invalid reason) =
      no_lease_frame frame.id "invalid" (reason_text reason) frame.task none

  abbrev pub release_reply : MeshFrame → ReleaseOutcome → MeshFrame
  release_reply frame (released l) = lease_frame frame.id "released" "released" l
  release_reply frame not_held = no_lease_frame frame.id "not_held" "not_held" frame.task none

  abbrev pub status_reply : MeshFrame → Option LeaseRecord → MeshFrame
  status_reply frame none = no_lease_frame frame.id "not_held" "not_held" frame.task none
  status_reply frame (some l) = lease_frame frame.id "current" "current" l

module _ (env : Env) (config : MeshConfig) (peer : PeerRecord) (frame : MeshFrame) where
  abbrev pub stamp : Stamp
  stamp = record { msg_id = env.msg_id; iso_now = env.now }

  abbrev pub claimed : World → ClaimOutcome × LeaseTable
  claimed w =
      Lease.claim env.now stamp (get_or_else frame.task "") peer.alias (get_or_else frame.paths [])
        (get_or_else frame.ttl_ms default_lease_ttl_ms) w.leases

  unfoldable pub handle_claim : World → World
  handle_claim w =
      if Dict.has (room_of frame) peer.rooms
      then (let (outcome, t) = claimed w in
          send_to env config peer (claim_reply env.sha256 frame outcome) (record w { leases = t }))
      else send_error env config peer.socket not_member frame.id w

  unfoldable pub handle_release : World → World
  handle_release w =
      if Dict.has (room_of frame) peer.rooms
      then (let (outcome, t) =
            Lease.release env.now (get_or_else frame.task "") peer.alias
              (get_or_else frame.lease_id "") w.leases in
          send_to env config peer (release_reply env.sha256 frame outcome)
            (record w { leases = t }))
      else send_error env config peer.socket not_member frame.id w

  unfoldable pub handle_lease_status : World → World
  handle_lease_status w =
      let (found, t) = Lease.get env.now (get_or_else frame.task "") w.leases in
      send_to env config peer (status_reply env.sha256 frame found) (record w { leases = t })
