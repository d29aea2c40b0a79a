-- ===== src/Broker/Dispatch/Tests.antt =====
-- A frame from a socket that has not said hello.
use pi_mesh.Prelude.{arith, refl, true, none, some, [], ◌∷◌, ◌++◌, ◌≡◌, ◌⊎◌}
use pi_mesh.Dict
use pi_mesh.Protocol.Frame.{FrameType, hello_required}
use pi_mesh.Broker.Policy.{default_policy}
use pi_mesh.Broker.World.{World, Write}
use pi_mesh.Broker.Dispatch.{dispatch}
use pi_mesh.Broker.Dispatch.Strangers.{SameButWrites, dispatch-stranger}
use pi_mesh.Broker.Samples.{sample_env, sample_config, two_peers, world_of, sample_msg}

abbrev refused : World
refused =
    dispatch sample_env sample_config default_policy (λ _ _. true) 9 none (sample_msg "m_1")
      (world_of [] two_peers)

dispatch-stranger_example :
    SameButWrites refused (world_of [] two_peers)
    × ((refused.writes ≡ (world_of [] two_peers).writes)
        ⊎ ((write : Write) × (refused.writes ≡ (world_of [] two_peers).writes ++ write ∷ [])
            × (write.socket ≡ 9)
            × (write.frame.type ≡ FrameType.error)
            × (write.frame.code ≡ some hello_required)
            × (write.frame.id ≡ "m_1")))
unfolding Dict.get
dispatch-stranger_example =
    dispatch-stranger sample_env sample_config default_policy (λ _ _. true) 9 none
      (sample_msg "m_1") (world_of [] two_peers) (λ p e. ground arith) refl
