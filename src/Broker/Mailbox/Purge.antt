-- ===== src/Broker/Mailbox/Purge.antt =====
-- The periodic purge of all queues.
use pi_mesh.Prelude.{
  ℕ, ◌+◌, ◌≡◌, refl, ◌∙◌, String, List, [], ◌∷◌, is_some, Option, none, some, ◌==◌, eq_iff,
  if◌then◌else◌, select, length, get_or_else, length-append, arith,
}
use pi_mesh.Dict
use pi_mesh.Dict.{Dict, listed}
use pi_mesh.Dict.Laws.{listed-keys}
use pi_mesh.Broker.State.{BrokerState, StoredMsg, MeshConfig}
use pi_mesh.Broker.Mailbox.{
  queue_of, fresh_of, expired_of, partition_expired, purge_aliases, purge_all_expired,
}
use pi_mesh.Broker.Mailbox.Queue.{queue_of-put}

module _ (config : MeshConfig) (now : ℕ) where
  abbrev ttl : ℕ
  ttl = config.mailbox_ttl_ms

  fresh_of_idem : (q : List StoredMsg) → fresh_of ttl now (fresh_of ttl now q) ≡ fresh_of ttl now q
  unfolding select
  fresh_of_idem [] = refl
  fresh_of_idem (m ∷ q) = ground (arith, fresh_of_idem q)

  queue_of-partition :
      (a alias : String) (s : BrokerState)
      → queue_of a (partition_expired s alias ttl now).2
        ≡ (if alias == a then fresh_of ttl now (queue_of a s) else queue_of a s)
  unfolding partition_expired
  queue_of-partition a alias s = ground (
    arith,
    queue_of-put config alias s now a (fresh_of ttl now (queue_of alias s)) s.mailbox,
    eq_iff alias a,
  )

  queue_of-purge :
      (js : List String) (a : String) (s : BrokerState)
      → queue_of a (purge_aliases js ttl now s).1
        ≡ (if listed a js then fresh_of ttl now (queue_of a s) else queue_of a s)
  unfolding purge_aliases
  queue_of-purge [] a s = refl
  queue_of-purge (j ∷ js) a s =
      let s' = (partition_expired s j ttl now).2 in
      rw (queue_of-purge js a s', queue_of-partition a j s)
        (ground (arith, fresh_of_idem (queue_of a s)))

  fresh_if_stored :
      (a : String) (s : BrokerState)
      → (if listed a (Dict.keys s.mailbox) then fresh_of ttl now (queue_of a s) else queue_of a s)
        ≡ fresh_of ttl now (queue_of a s)
  unfolding select
  fresh_if_stored a s = rw (listed-keys a s.mailbox) (go (Dict.get a s.mailbox))
    where
      go :
          (o : Option (List StoredMsg))
          → (if is_some o then fresh_of ttl now (get_or_else o []) else get_or_else o [])
            ≡ fresh_of ttl now (get_or_else o [])
      go none = refl
      go (some q) = refl

  counter-purge :
      (js : List String) (s : BrokerState)
      → (purge_aliases js ttl now s).1.stats.mailbox_dropped
        ≡ s.stats.mailbox_dropped + length (purge_aliases js ttl now s).0
  unfolding purge_aliases partition_expired
  counter-purge [] s = omega arith
  counter-purge (j ∷ js) s =
      let s' = (partition_expired s j ttl now).2 in
      let more = (purge_aliases js ttl now s').0 in
      omega (arith, counter-purge js s', length-append (expired_of ttl now (queue_of j s)) more)

  -- The purge leaves in every queue the entries that are within the time to live, in their order,
  -- and no others, and the counter of drops grows by the number of the entries that it returns.
  pub purge_all_expired-keeps_fresh :
      (s : BrokerState)
      → let (dropped, s') = purge_all_expired s config now in
        ((a : String) → queue_of a s' ≡ fresh_of ttl now (queue_of a s))
        × (s'.stats.mailbox_dropped ≡ s.stats.mailbox_dropped + length dropped)
  unfolding purge_all_expired
  purge_all_expired-keeps_fresh s = (
    λ a. queue_of-purge (Dict.keys s.mailbox) a s ∙ fresh_if_stored a s,
    counter-purge (Dict.keys s.mailbox) s,
  )
