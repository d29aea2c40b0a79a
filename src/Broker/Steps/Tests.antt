-- ===== src/Broker/Steps/Tests.antt =====
-- A broker that two peers join, over its events.
use pi_mesh.Prelude.{ℕ, ◌≡◌, String, Bool, true, false, List, [], ◌∷◌, none}
use pi_mesh.Broker.Lease
use pi_mesh.Broker.Lease.{Call, empty_table}
use pi_mesh.Broker.Lease.Invariant.{IsValid}
use pi_mesh.Broker.Policy.{default_policy}
use pi_mesh.Broker.Rooms.Bounds.{IsBounded}
use pi_mesh.Broker.World.{Env}
use pi_mesh.Broker.Steps.{Event, accepts, receives, closes, sweeps, new_world, run}
use pi_mesh.Broker.Steps.Rooms.{run-IsBounded}
use pi_mesh.Broker.Steps.Leases.{run-leases}
use pi_mesh.Broker.Samples.{sample_env, sample_config, hello_frame, claim_frame}

abbrev keep_order : String → String → Bool
keep_order a b = true

abbrev a_day : List (Env × Event)
a_day =
    (sample_env, accepts 1 false)
    ∷ (sample_env, receives 1 none (hello_frame "ann" ("docs" ∷ [])))
    ∷ (sample_env, receives 1 none (claim_frame "ann" "docs"))
    ∷ (sample_env, sweeps)
    ∷ (sample_env, closes 1)
    ∷ []

run-IsBounded_example :
    IsBounded sample_config
      (run sample_config default_policy keep_order a_day (new_world 0 7)).state
run-IsBounded_example = run-IsBounded sample_config default_policy keep_order 0 7 a_day

run-leases_example :
    let t = (run sample_config default_policy keep_order a_day (new_world 0 7)).leases in
    ((cs : List (ℕ × Call)) × (Lease.run keep_order cs (empty_table 7) ≡ t)) × IsValid t
run-leases_example = run-leases keep_order sample_config default_policy 0 7 a_day
