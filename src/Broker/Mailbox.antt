-- ===== src/Broker/Mailbox.antt =====
-- src/broker/mailbox.ts: the queue of each offline alias. What leaves a queue undelivered is
-- returned, for a notice to its sender.
pub mod Queue
pub mod Flush
pub mod Purge
pub mod Tests
use pi_mesh.Prelude.{
  ℕ, zero, suc, ◌+◌, String, Bool, true, false, not, List, [], ◌∷◌, ◌++◌, Option, none, some,
  if◌then◌else◌, leb, ltb, select, length, map, get_or_else,
}
use pi_mesh.Dict
use pi_mesh.Dict.{Dict}
use pi_mesh.Protocol.Frame.{MeshFrame, mailbox}
use pi_mesh.Broker.State.{BrokerState, StoredMsg, MeshConfig}

-- `now - m.enqueuedAt <= ttlMs`
abbrev pub is_fresh : ℕ → ℕ → StoredMsg → Bool
is_fresh ttl now m = leb now (m.enqueued_at + ttl)

abbrev pub queue_of : String → BrokerState → List StoredMsg
queue_of alias s = get_or_else (Dict.get alias s.mailbox) []

abbrev pub fresh_of : ℕ → ℕ → List StoredMsg → List StoredMsg
fresh_of ttl now q = select (is_fresh ttl now) q

abbrev pub expired_of : ℕ → ℕ → List StoredMsg → List StoredMsg
expired_of ttl now q = select (λ m. not (is_fresh ttl now m)) q

abbrev pub put_queue : String → List StoredMsg → Dict (List StoredMsg) → Dict (List StoredMsg)
put_queue alias [] boxes = Dict.delete alias boxes
put_queue alias (m ∷ ms) boxes = Dict.set alias (m ∷ ms) boxes

abbrev pub count_dropped : ℕ → BrokerState → BrokerState
count_dropped n s = record s {
  stats = record (s.stats) { mailbox_dropped = s.stats.mailbox_dropped + n };
}

-- The fresh entries, the dropped ones, and the state without the latter.
unfoldable pub partition_expired :
    BrokerState → String → ℕ → ℕ → List StoredMsg × List StoredMsg × BrokerState
partition_expired s alias ttl now =
    let fresh = fresh_of ttl now (queue_of alias s) in
    let dropped = expired_of ttl now (queue_of alias s) in
    (
      fresh,
      dropped,
      count_dropped (length dropped) (record s { mailbox = put_queue alias fresh s.mailbox }),
    )

-- `while (fresh.length > cap) dropped.push(fresh.shift())`: the evicted entries, and the rest.
unfoldable pub evict {ℓ} : {A : Type ℓ} → ℕ → List A → List A × List A
evict cap [] = ([], [])
evict cap (m ∷ ms) =
    let (evicted, kept) = evict cap ms in
    if ltb cap (length (m ∷ ms)) then (m ∷ evicted, kept) else ([], m ∷ ms)

-- Every entry dropped, and the state with the frame queued.
unfoldable pub enqueue_mailbox :
    BrokerState → MeshConfig → String → MeshFrame → ℕ → List StoredMsg × BrokerState
enqueue_mailbox s config alias frame now =
    let (fresh, dropped, s') = partition_expired s alias config.mailbox_ttl_ms now in
    let (evicted, kept) =
      evict config.mailbox_cap (fresh ++ record { frame = frame; enqueued_at = now } ∷ []) in
    (
      dropped ++ evicted,
      count_dropped (length evicted) (record s' { mailbox = Dict.set alias kept s'.mailbox }),
    )

unfoldable pub purge_aliases : List String → ℕ → ℕ → BrokerState → List StoredMsg × BrokerState
purge_aliases [] ttl now s = ([], s)
purge_aliases (alias ∷ rest) ttl now s =
    let (_, dropped, s') = partition_expired s alias ttl now in
    let (more, s'') = purge_aliases rest ttl now s' in (dropped ++ more, s'')

unfoldable pub purge_all_expired : BrokerState → MeshConfig → ℕ → List StoredMsg × BrokerState
purge_all_expired s config now = purge_aliases (Dict.keys s.mailbox) config.mailbox_ttl_ms now s

unfoldable pub mailbox_size : BrokerState → MeshConfig → String → ℕ → ℕ × BrokerState
mailbox_size s config alias now =
    let (fresh, _, s') = partition_expired s alias config.mailbox_ttl_ms now in (length fresh, s')

abbrev pub mailbox_frame : StoredMsg → MeshFrame
mailbox_frame m = record (m.frame) { type = mailbox; queued_at = some m.enqueued_at }

-- The frames to deliver, the entries that expired meanwhile, and the state with an empty queue.
unfoldable pub flush_mailbox :
    BrokerState → MeshConfig → String → ℕ → List MeshFrame × List StoredMsg × BrokerState
flush_mailbox s config alias now =
    let (fresh, dropped, s') = partition_expired s alias config.mailbox_ttl_ms now in
    (
      map mailbox_frame fresh,
      dropped,
      record s' {
        mailbox = Dict.delete alias s'.mailbox;
        stats = record (s'.stats) { mailbox_delivered = s'.stats.mailbox_delivered + length fresh };
      },
    )
