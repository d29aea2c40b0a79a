-- ===== src/Broker/Routing/Tests.antt =====
-- Relaying at concrete tables.
use pi_mesh.Prelude.{
  Bool, ◌⊎◌, String, ℕ, Option, String, ◌≡◌, refl, true, false, List, [], ◌∷◌, ◌++◌, none, some,
  map, arith,
}
use pi_mesh.Dict
use pi_mesh.Protocol.Frame.{Activity, busy, MeshFrame, force}
use pi_mesh.Broker.State.{StoredMsg, PeerRecord}
use pi_mesh.Broker.Mailbox.{queue_of}
use pi_mesh.Broker.Policy.{MeshPolicy, default_policy, evaluate_policy, rule_matches, match_pattern}
use pi_mesh.Broker.Ratelimit.{check_rate, check_buckets, refill}
use pi_mesh.Broker.World.{World, Relay, Write, write_frame}
use pi_mesh.Broker.Relay.{after_relay, resolve, update_batch, batch_at}
use pi_mesh.Broker.Routing.{route_msg, fan_out}
use pi_mesh.Broker.Routing.Caps.{rate_checked, route_cap_msg}
use pi_mesh.Broker.Routing.Outcome.{IsSent, IsRefused, route_cap_msg-outcome}
use pi_mesh.Broker.Routing.Stored.{after_relay-stores}
use pi_mesh.Broker.Samples.{sample_env, sample_config, sample_peer, two_peers, world_of, sample_msg}

abbrev to_bob : Relay
to_bob = record {
  sender = record { alias = "ann"; socket = 1 };
  target = record { alias = "bob"; socket = 2 };
  frame = sample_msg "m_1";
  interrupt_status = none;
  routed_to = none;
}

after_relay-stores_example :
    (front : List StoredMsg) × (queue_of "bob"
        (after_relay sample_env sample_config to_bob false (world_of [] two_peers)).state
      ≡ front ++ record { frame = sample_msg "m_1"; enqueued_at = 5000 } ∷ [])
after_relay-stores_example =
    after_relay-stores sample_env sample_config to_bob (world_of [] two_peers) (omega arith)

abbrev downgrading : MeshPolicy
downgrading = record default_policy { force_downgrade = true }

abbrev force_to_all : MeshFrame
force_to_all = record (sample_msg "m_2") { priority = some force; broadcast = some true; to = none }

-- Ann may not use force, and the policy asks for a downgrade, but her broadcast keeps its force.
broadcast_keeps_force :
    map
      (λ (x : Write). x.frame.priority)
      (route_msg sample_env sample_config downgrading
        (sample_peer "ann" 1)
        force_to_all
        (λ _ _. true)
        (world_of [] two_peers)).writes
    ≡ some force ∷ []
unfolding route_msg write_frame fan_out check_rate check_buckets refill evaluate_policy rule_matches
    match_pattern resolve update_batch batch_at Dict.get Dict.set
broadcast_keeps_force = refl

-- Bob is busy since 3000, dan is idle, and both can do `rust`.
abbrev capable : String → ℕ → Option Activity → PeerRecord
capable alias socket doing = record (sample_peer alias socket) {
  caps = some ("rust" ∷ []);
  activity = doing;
}

abbrev dan : PeerRecord
dan = capable "dan" 4 none

abbrev bob : PeerRecord
bob = capable "bob" 2 (some (record { state = busy; since = 3000 }))

abbrev team : World
team =
    world_of []
      (record two_peers { peers = ("ann", sample_peer "ann" 1) ∷ ("bob", bob) ∷ ("dan", dan) ∷ [] })

abbrev ann : PeerRecord
ann = sample_peer "ann" 1

abbrev any_order : String → String → Bool
any_order s t = true

route_cap_msg-outcome_example :
    let before =
      (rate_checked sample_env sample_config default_policy ann (sample_msg "m_3") team).1 in
    let after =
      route_cap_msg sample_env sample_config default_policy ann
        (sample_msg "m_3")
        any_order
        "rust"
        "default"
        team in
    IsSent sample_env sample_config default_policy ann
      (sample_msg "m_3")
      any_order
      "rust"
      "default"
      before
      after
    ⊎ IsRefused sample_env sample_config default_policy ann
        (sample_msg "m_3")
        any_order
        "rust"
        "default"
        before
        after
unfolding pi_mesh.Broker.Ratelimit.check_rate check_buckets refill Dict.get
route_cap_msg-outcome_example =
    route_cap_msg-outcome sample_env sample_config default_policy ann (sample_msg "m_3") any_order
      "rust" "default" team refl
