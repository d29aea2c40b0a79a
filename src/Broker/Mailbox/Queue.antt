-- ===== src/Broker/Mailbox/Queue.antt =====
-- What an enqueue and a flush do to the queues: nothing is lost without notice, and the order stays.
use mathlib.Core.List.{Perm, perm_middle, append_assoc}
use mathlib.Core.List.Perm
use pi_mesh.Prelude.{
  eq_refl, ℕ, suc, ◌+◌, ◌-◌, ◌≤◌, ◌≡◌, ◌≢◌, refl, String, Bool, not, List, [], ◌∷◌, ◌++◌, ◌==◌,
  eq_iff, if◌then◌else◌, ltb, select, length, get_or_else, take, drop, take-append-drop,
  length-append, length-drop, arith, Bool-cases, inl, inr,
}
use pi_mesh.Dict
use pi_mesh.Dict.{Dict}
use pi_mesh.Dict.Laws.{get-set, get-delete}
use pi_mesh.Protocol.Frame.{MeshFrame}
use pi_mesh.Broker.State.{BrokerState, StoredMsg, MeshConfig}
use pi_mesh.Broker.Mailbox.{
  is_fresh, queue_of, fresh_of, expired_of, put_queue, partition_expired, evict, enqueue_mailbox,
}

module _ {A : Type 0} (cap : ℕ) where
  -- The loop evicts the oldest entries beyond the cap, and keeps the others in order.
  pub evict_lem :
      (ms : List A) → evict cap ms ≡ (take (length ms - cap) ms, drop (length ms - cap) ms)
  unfolding evict
  evict_lem [] = let none_over : 0 - cap ≡ 0 = omega arith in rw none_over
  evict_lem (m ∷ ms) = elim (Bool-cases (ltb cap (length (m ∷ ms)))) [
    | inl over ↦
        let one_more : suc (length ms) - cap ≡ suc (length ms - cap) = ground arith in
        rw (over, one_more, evict_lem ms)
    | inr fits ↦ let none_over : suc (length ms) - cap ≡ 0 = ground arith in rw (fits, none_over)
  ]

  evict-append : (ms : List A) → (evict cap ms).0 ++ (evict cap ms).1 ≡ ms
  evict-append ms = rw (evict_lem ms) (take-append-drop (length ms - cap) ms)

  length-evict_le : (ms : List A) → length (evict cap ms).1 ≤ cap
  length-evict_le ms = rw (evict_lem ms) (omega (arith, length-drop (length ms - cap) ms))

-- Every entry of a list is kept or dropped.
pub select-perm :
    {A : Type 0} (p : A → Bool) (xs : List A) → Perm xs (select (λ x. not (p x)) xs ++ select p xs)
unfolding select
select-perm p [] = Perm.nil
select-perm p (x ∷ xs) = elim (Bool-cases (p x)) [
  | inl e ↦ rw e (
      Perm.trans (Perm.cons x (select-perm p xs))
        (Perm.symm (perm_middle (select (λ y. not (p y)) xs) (select p xs))))
  | inr e ↦ rw e (Perm.cons x (select-perm p xs))
]

module _ (config : MeshConfig) (alias : String) (s : BrokerState) (now : ℕ) where
  pub queue_of-put :
      (other : String) (q : List StoredMsg) (boxes : Dict (List StoredMsg))
      → get_or_else (Dict.get other (put_queue alias q boxes)) []
        ≡ (if alias == other then q else get_or_else (Dict.get other boxes) [])
  queue_of-put other [] boxes = ground (arith, get-delete other alias boxes)
  queue_of-put other (m ∷ q) boxes = ground (arith, get-set other alias (m ∷ q) boxes)

  module _ (frame : MeshFrame) where
    abbrev new_entry : StoredMsg
    new_entry = record { frame = frame; enqueued_at = now }

    abbrev fresh_and_new : List StoredMsg
    fresh_and_new = fresh_of config.mailbox_ttl_ms now (queue_of alias s) ++ new_entry ∷ []

    abbrev expired : List StoredMsg
    expired = expired_of config.mailbox_ttl_ms now (queue_of alias s)

    -- The queue is what the cap leaves of the fresh entries and the new one, oldest first.
    pub queue_of-enqueue :
        queue_of alias (enqueue_mailbox s config alias frame now).1
        ≡ (evict config.mailbox_cap fresh_and_new).1
    unfolding enqueue_mailbox partition_expired
    queue_of-enqueue = ground (
      arith,
      get-set alias alias (evict config.mailbox_cap fresh_and_new).1
          (put_queue alias (fresh_of config.mailbox_ttl_ms now (queue_of alias s)) s.mailbox),
      eq_refl alias,
    )

    dropped-enqueue :
        (enqueue_mailbox s config alias frame now).0
        ≡ expired ++ (evict config.mailbox_cap fresh_and_new).0
    unfolding enqueue_mailbox partition_expired
    dropped-enqueue = refl

    enqueue-perm : Perm (queue_of alias s ++ new_entry ∷ []) (
        (enqueue_mailbox s config alias frame now).0
        ++ queue_of alias (enqueue_mailbox s config alias frame now).1)
    enqueue-perm =
        rw
          (
            queue_of-enqueue,
            dropped-enqueue,
            append_assoc expired (evict config.mailbox_cap fresh_and_new).0
                (evict config.mailbox_cap fresh_and_new).1,
            evict-append config.mailbox_cap fresh_and_new,
            ← append_assoc expired (fresh_of config.mailbox_ttl_ms now (queue_of alias s))
                (new_entry ∷ []),
          )
          (Perm.append_right (new_entry ∷ [])
            (select-perm (is_fresh config.mailbox_ttl_ms now) (queue_of alias s)))

    counter-enqueue :
        (enqueue_mailbox s config alias frame now).1.stats.mailbox_dropped
        ≡ s.stats.mailbox_dropped + length (enqueue_mailbox s config alias frame now).0
    unfolding enqueue_mailbox partition_expired
    counter-enqueue =
        omega (arith, length-append expired (evict config.mailbox_cap fresh_and_new).0)

    others-enqueue :
        (other : String)
        → alias ≢ other
        → queue_of other (enqueue_mailbox s config alias frame now).1 ≡ queue_of other s
    unfolding enqueue_mailbox partition_expired
    others-enqueue other ne = ground (
      arith,
      get-set other alias (evict config.mailbox_cap fresh_and_new).1
          (put_queue alias (fresh_of config.mailbox_ttl_ms now (queue_of alias s)) s.mailbox),
      queue_of-put other (fresh_of config.mailbox_ttl_ms now (queue_of alias s)) s.mailbox,
      eq_iff alias other,
    )

  -- Nothing is lost without notice: what was queued for the alias, together with the new entry, is
  -- what is now queued and what is returned as dropped, and the counter of drops grows by the latter.
  -- The queue is at most as long as the cap, and the queues of all others stay as they were.
  pub enqueue_mailbox-conserves :
      (frame : MeshFrame)
      → let (dropped, s') = enqueue_mailbox s config alias frame now in
        Perm
          (queue_of alias s ++ record { frame = frame; enqueued_at = now } ∷ [])
          (dropped ++ queue_of alias s')
        × (s'.stats.mailbox_dropped ≡ s.stats.mailbox_dropped + length dropped)
        × (length (queue_of alias s') ≤ config.mailbox_cap)
        × ((other : String) → alias ≢ other → queue_of other s' ≡ queue_of other s)
  enqueue_mailbox-conserves frame = (
    enqueue-perm frame,
    counter-enqueue frame,
    rw (queue_of-enqueue frame) (length-evict_le config.mailbox_cap (fresh_and_new frame)),
    others-enqueue frame,
  )
