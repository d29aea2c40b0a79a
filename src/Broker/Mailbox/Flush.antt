-- ===== src/Broker/Mailbox/Flush.antt =====
-- The mailbox as a queue: what is stored for an alias comes out at its next hello, in order.
use mathlib.Core.List.{Perm, append_assoc, append-nil}
use pi_mesh.Prelude.{
  length-map, ℕ, ◌+◌, ◌-◌, ◌≤◌, ◌≡◌, ◌≢◌, refl, sym, ◌∙◌, String, List, [], ◌∷◌, ◌++◌, none, eq_iff,
  eq_refl, select, length, map, length-append, arith, All, All-append,
}
use pi_mesh.Dict
use pi_mesh.Dict.{Dict}
use pi_mesh.Dict.Laws.{get-delete}
use pi_mesh.Protocol.Frame.{MeshFrame}
use pi_mesh.Broker.State.{BrokerState, StoredMsg, MeshConfig}
use pi_mesh.Broker.Mailbox.{
  is_fresh, queue_of, fresh_of, expired_of, put_queue, partition_expired, evict, enqueue_mailbox,
  flush_mailbox, mailbox_frame,
}
use pi_mesh.Broker.Mailbox.Queue.{evict_lem, queue_of-enqueue, queue_of-put, select-perm}

module _ (config : MeshConfig) (alias : String) where
  -- A flush at `now` returns every fresh entry of the queue, as a frame of its own kind, in the order
  -- of the queue; every other entry is returned as dropped; nothing stays queued for the alias, the
  -- queues of all others stay, and both counters grow by what was returned.
  pub flush_mailbox-drains :
      (s : BrokerState) (now : ℕ)
      → let (frames, dropped, s') = flush_mailbox s config alias now in
        (frames ≡ map mailbox_frame (fresh_of config.mailbox_ttl_ms now (queue_of alias s)))
        × Perm (queue_of alias s) (dropped ++ fresh_of config.mailbox_ttl_ms now (queue_of alias s))
        × (Dict.get alias s'.mailbox ≡ none)
        × ((other : String) → alias ≢ other → queue_of other s' ≡ queue_of other s)
        × (s'.stats.mailbox_delivered ≡ s.stats.mailbox_delivered + length frames)
        × (s'.stats.mailbox_dropped ≡ s.stats.mailbox_dropped + length dropped)
  unfolding flush_mailbox partition_expired
  flush_mailbox-drains s now =
      let fresh = fresh_of config.mailbox_ttl_ms now (queue_of alias s) in
      (
        refl,
        select-perm (is_fresh config.mailbox_ttl_ms now) (queue_of alias s),
        ground (arith, get-delete alias alias (put_queue alias fresh s.mailbox), eq_refl alias),
        λ other ne. ground (
          arith,
          get-delete other alias (put_queue alias fresh s.mailbox),
          queue_of-put config alias s now other fresh s.mailbox,
          eq_iff alias other,
        ),
        omega (arith, length-map mailbox_frame fresh),
        refl,
      )

  -- Frames stored one after the other, each at its own time.
  pub enqueue_all : List (ℕ × MeshFrame) → BrokerState → BrokerState
  enqueue_all [] s = s
  enqueue_all ((t, f) ∷ rest) s = enqueue_all rest (enqueue_mailbox s config alias f t).1

  abbrev pub entry : ℕ × MeshFrame → StoredMsg
  entry (t, f) = record { frame = f; enqueued_at = t }

  module _ (now : ℕ) where
    -- Stored no later than `now`, and still within the time to live then.
    abbrev pub IsCurrent : StoredMsg → Type 0
    IsCurrent m = (m.enqueued_at ≤ now) × (now ≤ m.enqueued_at + config.mailbox_ttl_ms)

    fresh_of-current :
        (t : ℕ) (q : List StoredMsg)
        → t ≤ now
        → All IsCurrent q
        → fresh_of config.mailbox_ttl_ms t q ≡ q
    unfolding select
    fresh_of-current t [] h a = refl
    fresh_of-current t (m ∷ q) h (p, a) = ground (arith, fresh_of-current t q h a)

    expired_of-current :
        (q : List StoredMsg) → All IsCurrent q → expired_of config.mailbox_ttl_ms now q ≡ []
    unfolding select
    expired_of-current [] a = refl
    expired_of-current (m ∷ q) (p, a) = ground (arith, expired_of-current q a)

    queue_of-enqueue_all :
        (xs : List (ℕ × MeshFrame)) (s : BrokerState)
        → All IsCurrent (queue_of alias s)
        → All IsCurrent (map entry xs)
        → length (queue_of alias s) + length xs ≤ config.mailbox_cap
        → queue_of alias (enqueue_all xs s) ≡ queue_of alias s ++ map entry xs
    unfolding enqueue_all
    queue_of-enqueue_all [] s a b fits = sym (append-nil (queue_of alias s))
    queue_of-enqueue_all ((t, f) ∷ xs) s a (p, b) fits =
        queue_of-enqueue_all xs (enqueue_mailbox s config alias f t).1
          (rw stored (All-append IsCurrent (queue_of alias s) (entry (t, f) ∷ []) a (p, tt))) b
          (rw stored (omega (arith, length-append (queue_of alias s) (entry (t, f) ∷ []))))
        ∙ rw (stored, append_assoc (queue_of alias s) (entry (t, f) ∷ []) (map entry xs))
      where
        kept :
            (q : List StoredMsg)
            → length q ≤ config.mailbox_cap
            → (evict config.mailbox_cap q).1 ≡ q
        kept q h =
            let none_over : length q - config.mailbox_cap ≡ 0 = omega arith in
            rw (evict_lem config.mailbox_cap q, none_over)

        stored :
            queue_of alias (enqueue_mailbox s config alias f t).1
            ≡ queue_of alias s ++ entry (t, f) ∷ []
        stored =
            queue_of-enqueue config alias s t f
            ∙ rw (fresh_of-current t (queue_of alias s) p.0 a) (
                kept (queue_of alias s ++ entry (t, f) ∷ [])
                  (omega (arith, length-append (queue_of alias s) (entry (t, f) ∷ []))))

    -- Frames that are stored for an alias with an empty queue, no more of them than the cap and all
    -- still within the time to live at the flush, are delivered by the flush: all of them, once
    -- each, in the order in which they were stored, and none is dropped.
    pub flush-enqueue_all :
        (xs : List (ℕ × MeshFrame)) (s : BrokerState)
        → queue_of alias s ≡ []
        → All IsCurrent (map entry xs)
        → length xs ≤ config.mailbox_cap
        → let (frames, dropped, s') = flush_mailbox (enqueue_all xs s) config alias now in
          (frames ≡ map mailbox_frame (map entry xs)) × (dropped ≡ [])
    unfolding flush_mailbox partition_expired
    flush-enqueue_all xs s e b fits = (
      rw (queue, fresh_of-current now (map entry xs) (omega arith) b),
      rw (queue, expired_of-current (map entry xs) b),
    )
      where
        queue : queue_of alias (enqueue_all xs s) ≡ map entry xs
        queue = queue_of-enqueue_all xs s (rw e tt) b (rw e (omega arith)) ∙ rw e
