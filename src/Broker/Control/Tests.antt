-- ===== src/Broker/Control/Tests.antt =====
-- A control action and its acknowledgement at concrete tables.
use pi_mesh.Prelude.{String, none, ◌≡◌, ◌≢◌, refl, ap, String, [], length, arith}
use pi_mesh.Dict
use pi_mesh.Broker.State.{PeerRecord}
use pi_mesh.Broker.Ratelimit.{check_rate, check_buckets, refill}
use pi_mesh.Broker.Policy.{evaluate_policy, rule_matches, match_pattern}
use pi_mesh.Broker.World.{World, write_frame}
use pi_mesh.Broker.Control.{handle_ctl, handle_ctl_ack}
use pi_mesh.Broker.Control.Answers.{IsAnswer, handle_ctl_ack-once}
use pi_mesh.Broker.Control.Guards.{MayControl, handle_ctl-guarded}
use pi_mesh.Broker.Samples.{
  sample_env, sample_config, sample_peer, two_peers, world_of, abort_frame, aborted_frame,
  force_policy,
}

abbrev asked : World
asked =
    handle_ctl sample_env sample_config force_policy (sample_peer "ann" 1) abort_frame
      (world_of [] two_peers)

-- The action is pending, and on its way to bob.
ctl_sent : (Dict.size asked.pending_ctl ≡ 1) × (length asked.writes ≡ 1)
unfolding handle_ctl write_frame check_rate check_buckets refill evaluate_policy rule_matches
    match_pattern Dict.get Dict.set Dict.retain
ctl_sent = (refl, refl)

-- The acknowledgement goes to ann, once.
ack_sent :
    let once =
      handle_ctl_ack sample_env sample_config force_policy
        (sample_peer "bob" 2)
        aborted_frame
        asked in
    (Dict.size once.pending_ctl ≡ 0) × (length once.writes ≡ 2)
unfolding handle_ctl handle_ctl_ack write_frame check_rate check_buckets refill evaluate_policy
    rule_matches match_pattern Dict.get Dict.set Dict.retain Dict.delete
ack_sent = (refl, refl)

handle_ctl_ack-once_example :
    let bob = sample_peer "bob" 2 in
    let w' = handle_ctl_ack sample_env sample_config force_policy bob aborted_frame asked in
    (((reply_to : String)
        → ¬ IsAnswer sample_env sample_config force_policy bob aborted_frame reply_to asked)
      → w' ≡ asked)
    × ((reply_to : String)
        → IsAnswer sample_env sample_config force_policy bob aborted_frame reply_to asked
        → Dict.get reply_to w'.pending_ctl ≡ none)
    × (handle_ctl_ack sample_env sample_config force_policy bob aborted_frame w' ≡ w')
handle_ctl_ack-once_example =
    handle_ctl_ack-once sample_env sample_config force_policy (sample_peer "bob" 2) aborted_frame
      asked

pending_grows : asked.pending_ctl ≢ []
pending_grows e = let n = ap Dict.size e in absurd (ground (arith, ctl_sent.0))

handle_ctl-guarded_example :
    (to : String) × (target : PeerRecord) × MayControl sample_env sample_config force_policy
      (sample_peer "ann" 1)
      abort_frame
      to
      target
      (world_of [] two_peers)
handle_ctl-guarded_example =
    handle_ctl-guarded sample_env sample_config force_policy (sample_peer "ann" 1) abort_frame
      (world_of [] two_peers) pending_grows
