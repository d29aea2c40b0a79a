-- ===== src/Broker/Mailbox/Tests.antt =====
-- The mailbox at concrete queues.
use mathlib.Core.List.{Perm}
use pi_mesh.Prelude.{
  ℕ, ◌+◌, ◌≤◌, ◌≡◌, ◌≢◌, refl, String, List, [], ◌∷◌, ◌++◌, map, arith, length, select,
}
use pi_mesh.Dict
use pi_mesh.Protocol.Frame.{MeshFrame}
use pi_mesh.Broker.State.{BrokerState, StoredMsg}
use pi_mesh.Broker.Mailbox.{
  queue_of, enqueue_mailbox, flush_mailbox, evict, mailbox_frame, partition_expired, mailbox_size,
}
use pi_mesh.Broker.Mailbox.Queue.{enqueue_mailbox-conserves}
use pi_mesh.Broker.Mailbox.Flush.{flush-enqueue_all, enqueue_all, entry}
use pi_mesh.Broker.Samples.{sample_config, two_peers, sample_msg}

abbrev stored : String → ℕ → StoredMsg
stored id t = record { frame = sample_msg id; enqueued_at = t }

-- One entry that has expired at time 1500, and two that have not.
abbrev waiting : BrokerState
waiting = record two_peers {
  mailbox = ("cat", stored "m_1" 100 ∷ stored "m_2" 600 ∷ stored "m_3" 700 ∷ []) ∷ [];
}

enqueue_full :
    (enqueue_mailbox waiting sample_config "cat" (sample_msg "m_4") 1500).0
    ≡ stored "m_1" 100 ∷ stored "m_2" 600 ∷ []
unfolding enqueue_mailbox partition_expired evict Dict.get Dict.set select
enqueue_full = refl

flush_waiting :
    (flush_mailbox waiting sample_config "cat" 1500).0
    ≡ mailbox_frame (stored "m_2" 600) ∷ mailbox_frame (stored "m_3" 700) ∷ []
unfolding flush_mailbox partition_expired Dict.get Dict.set select
flush_waiting = refl

size_waiting : (mailbox_size waiting sample_config "cat" 1500).0 ≡ 2
unfolding mailbox_size partition_expired Dict.get Dict.set select
size_waiting = refl

enqueue_mailbox-conserves_example :
    let (dropped, s') = enqueue_mailbox waiting sample_config "cat" (sample_msg "m_4") 1500 in
    Perm (queue_of "cat" waiting ++ stored "m_4" 1500 ∷ []) (dropped ++ queue_of "cat" s')
    × (s'.stats.mailbox_dropped ≡ waiting.stats.mailbox_dropped + length dropped)
    × (length (queue_of "cat" s') ≤ sample_config.mailbox_cap)
    × ((other : String) → "cat" ≢ other → queue_of other s' ≡ queue_of other waiting)
enqueue_mailbox-conserves_example =
    enqueue_mailbox-conserves sample_config "cat" waiting 1500 (sample_msg "m_4")

abbrev two_frames : List (ℕ × MeshFrame)
two_frames = (100, sample_msg "m_1") ∷ (900, sample_msg "m_2") ∷ []

flush-enqueue_all_example :
    let sent =
      flush_mailbox
        (enqueue_all sample_config "cat" two_frames two_peers)
        sample_config
        "cat"
        1000 in
    (sent.0 ≡ map mailbox_frame (map (entry sample_config "cat") two_frames)) × (sent.1 ≡ [])
unfolding Dict.get
flush-enqueue_all_example =
    flush-enqueue_all sample_config "cat" 1000 two_frames two_peers refl (omega arith) (omega arith)
