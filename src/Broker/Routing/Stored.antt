-- ===== src/Broker/Routing/Stored.antt =====
-- A message whose write fails is not lost: it is the last in the mailbox of its target.
use pi_mesh.Prelude.{
  ℕ, ◌<◌, ◌≡◌, refl, String, false, List, [], ◌∷◌, ◌++◌, Option, none, some, ltb, length, eq_refl,
  arith, Bool-cases, inl, inr,
}
use pi_mesh.Dict
use pi_mesh.Dict.Laws.{get-set}
use pi_mesh.Protocol.Frame.{MeshFrame}
use pi_mesh.Broker.State.{BrokerState, PeerRecord, StoredMsg, MeshConfig}
use pi_mesh.Broker.Mailbox.{evict, enqueue_mailbox, partition_expired, queue_of}
use pi_mesh.Broker.Rooms.{detach_from_rooms}
use pi_mesh.Broker.World.{Env, World, Relay, close_current}
use pi_mesh.Broker.World.Closing.{close_state, send_ref-keeps, notify_dropped-keeps}
use pi_mesh.Broker.Relay.{store_for, after_relay}

-- The last entry stays, whatever the cap evicts before it.
evict-last {ℓ} :
    {A : Type ℓ} (cap : ℕ) (xs : List A) (x : A)
    → 0 < cap
    → (front : List A) × ((evict cap (xs ++ x ∷ [])).1 ≡ front ++ x ∷ [])
unfolding evict
evict-last cap [] x h = ([], ground arith)
evict-last cap (y ∷ xs) x h =
    let (front, e) = evict-last cap xs x h in
    elim (Bool-cases (ltb cap (length (y ∷ xs ++ x ∷ [])))) [
      | inl b ↦ (front, rw b e)
      | inr b ↦ (y ∷ xs, rw b refl)
    ]

module _ (m : List StoredMsg) (alias : String) where
  HasQueue : BrokerState → Type 0
  HasQueue s = queue_of alias s ≡ m

  close_state-HasQueue :
      (a : String) (s : BrokerState) → HasQueue s → HasQueue (close_state (Dict.get a s.peers) s)
  unfolding HasQueue detach_from_rooms
  close_state-HasQueue a s h = go (Dict.get a s.peers)
    where
      go : (o : Option PeerRecord) → HasQueue (close_state o s)
      go none = h
      go (some p) = h

module _ (env : Env) (config : MeshConfig) where
  enqueue-last :
      (s : BrokerState) (alias : String) (frame : MeshFrame)
      → 0 < config.mailbox_cap
      → (front : List StoredMsg) × (queue_of alias (enqueue_mailbox s config alias frame env.now).1
          ≡ front ++ record { frame = frame; enqueued_at = env.now } ∷ [])
  unfolding enqueue_mailbox partition_expired
  enqueue-last s alias frame cap =
      let (fresh, _, s') = partition_expired s alias config.mailbox_ttl_ms env.now in
      let (front, e) =
        evict-last config.mailbox_cap fresh (record { frame = frame; enqueued_at = env.now }) cap in
      (front, rw (get-set alias alias _ s'.mailbox, eq_refl alias) e)

  -- If the write of a relayed message fails, then, the cap of the mailbox being positive, the frame
  -- stands last in the mailbox of its target, stored at that time, after all that the failure sets
  -- off: the closing of the target, the notices of evicted entries and the acknowledgement.
  pub after_relay-stores :
      (r : Relay) (w : World)
      → 0 < config.mailbox_cap
      → (front : List StoredMsg) × (queue_of r.target.alias (after_relay env config r false w).state
          ≡ front ++ record { frame = r.frame; enqueued_at = env.now } ∷ [])
  unfolding after_relay store_for HasQueue
  after_relay-stores r w cap =
      let closed = close_current env r.target w in
      let (front, e) = enqueue-last closed.state r.target.alias r.frame cap in
      let q = front ++ record { frame = r.frame; enqueued_at = env.now } ∷ [] in
      let P = HasQueue q r.target.alias in
      let closing = close_state-HasQueue q r.target.alias in
      (
        front,
        send_ref-keeps P closing env config r.sender _
            (store_for env config r.target.alias r.frame closed)
            (notify_dropped-keeps P closing env config
              (enqueue_mailbox closed.state config r.target.alias r.frame env.now).0
              (record closed {
                state = (enqueue_mailbox closed.state config r.target.alias r.frame env.now).1;
              })
              e),
      )
