-- ===== src/Broker/Steps/Runs.antt =====
-- Every event of the broker, and every sequence of them, keeps what Steps/Keeps is about.
use pi_mesh.Prelude.{
  ℕ, ◌≡◌, refl, String, Bool, List, [], ◌∷◌, Option, none, some, ltb, leb, eqb, if-both, length,
}
use pi_mesh.Dict
use pi_mesh.Protocol.Frame.{MeshFrame}
use pi_mesh.Broker.State.{BrokerState, PeerRecord, MeshConfig}
use pi_mesh.Broker.Mailbox.{partition_expired, purge_aliases, purge_all_expired}
use pi_mesh.Broker.Policy.{MeshPolicy}
use pi_mesh.Broker.World.{Env, World}
use pi_mesh.Broker.World.Stable.{
  IsStable, close_peer-stable, send_error-stable, notify_dropped-stable, reservations-stable,
}
use pi_mesh.Broker.Relay.Keeps.{end_write-stable, time_out_write-stable}
use pi_mesh.Broker.Hello.{handle_hello}
use pi_mesh.Broker.Steps.{
  close_all, on_close, is_silent, cut_silent, still_reserved, put_current, expire_one,
  expire_reservations, sweep, purge_mailbox_expired, prune_stale_known_aliases, Event, accepts,
  receives, rejects, cuts, half_closes, closes, write_ends, write_times_out, sweeps, purges, step,
  run,
}
use pi_mesh.Broker.Steps.Keeps.{IsKept, dispatch-keeps}

-- The purge changes the mailbox alone.
purge-tables :
    (rest : List String) (ttl now : ℕ) (s : BrokerState)
    → ((purge_aliases rest ttl now s).1.peers ≡ s.peers)
      × ((purge_aliases rest ttl now s).1.rooms ≡ s.rooms)
unfolding purge_aliases partition_expired
purge-tables [] ttl now s = (refl, refl)
purge-tables (alias ∷ rest) ttl now s =
    let s' = (partition_expired s alias ttl now).2 in purge-tables rest ttl now s'

module _ {ℓ} (Q : World → Type ℓ) (st : IsStable Q) (Held : PeerRecord → World → Type ℓ)
    (config : MeshConfig) (policy : MeshPolicy) (le : String → String → Bool)
    (kept : IsKept config le Held Q)
    (on_hello : (env : Env) (socket : ℕ) (via : Option String) (frame : MeshFrame) (w : World)
      → Q w
      → Q (handle_hello env config socket via frame w))
    (on_tokens : (w : World) (xs : List ℕ) → Q w → Q (record w { token_sockets = xs }))
    (on_half_closed : (w : World) (xs : List ℕ) → Q w → Q (record w { half_closed = xs })) where
  module _ (env : Env) where
    close_all-keeps :
        (socket : ℕ) (ps : List PeerRecord) (w : World) → Q w → Q (close_all env config socket ps w)
    unfolding close_all
    close_all-keeps socket [] w h = h
    close_all-keeps socket (p ∷ ps) w h =
        close_all-keeps socket ps _
          (if-both Q (eqb p.socket socket) (close_peer-stable Q st env p.alias w h) h)

    cut_silent-keeps : (ps : List PeerRecord) (w : World) → Q w → Q (cut_silent env config ps w)
    unfolding cut_silent
    cut_silent-keeps [] w h = h
    cut_silent-keeps (p ∷ ps) w h =
        cut_silent-keeps ps _ (if-both Q (is_silent env config p) (st.on_destroyed w _ h) h)

    put_current-keeps :
        (p : PeerRecord) (o : Option PeerRecord) (w : World)
        → ((q : PeerRecord) → o ≡ some q → Held q w)
        → Q w
        → Q (put_current env config p o w)
    put_current-keeps p none w held h = h
    put_current-keeps p (some current) w held h =
        if-both Q (eqb current.socket p.socket)
          (kept.on_put w current _ (held current refl) refl refl h).1 h

    expire_one-keeps : (p : PeerRecord) (w : World) → Q w → Q (expire_one env config p w)
    expire_one-keeps p w h =
        let rs = still_reserved env config p.reservations in
        let p' = record p { reservations = rs } in
        if-both Q (ltb (length rs) (length p.reservations))
          (reservations-stable Q st env config p' _ (
            put_current-keeps p' (Dict.get p.alias w.state.peers) w
              (λ q e. kept.on_found w p.alias q e h) h))
          h

    expire-keeps :
        (ps : List PeerRecord) (w : World) → Q w → Q (expire_reservations env config ps w)
    unfolding expire_reservations
    expire-keeps [] w h = h
    expire-keeps (p ∷ ps) w h = expire-keeps ps _ (expire_one-keeps p w h)

    sweep-keeps : (w : World) → Q w → Q (sweep env config w)
    unfolding sweep prune_stale_known_aliases
    sweep-keeps w h =
        let cut = cut_silent env config (Dict.values w.state.peers) w in
        let k = cut_silent-keeps (Dict.values w.state.peers) w h in
        let pruned = st.on_state cut (prune_stale_known_aliases env.now cut.state) refl refl k in
        if-both Q (leb config.reservation_ttl_ms 0) pruned
          (expire-keeps (Dict.values cut.state.peers) _ pruned)

    purge-keeps : (w : World) → Q w → Q (purge_mailbox_expired env config w)
    unfolding purge_mailbox_expired purge_all_expired
    purge-keeps w h =
        let (same_peers, same_rooms) =
          purge-tables (Dict.keys w.state.mailbox) config.mailbox_ttl_ms env.now w.state in
        notify_dropped-stable Q st env config (purge_all_expired w.state config env.now).0 _
          (st.on_state w (purge_all_expired w.state config env.now).1 same_peers same_rooms h)

  step-keeps : (e : Env × Event) (w : World) → Q w → Q (step config policy le e w)
  unfolding step on_close
  step-keeps (env, accepts socket token) w h = if-both Q token (on_tokens w _ h) h
  step-keeps (env, receives socket via frame) w h =
      dispatch-keeps Q st Held config policy le kept env (on_hello env) socket via frame w h
  step-keeps (env, rejects socket code) w h = send_error-stable Q st env config socket code _ w h
  step-keeps (env, cuts socket code) w h =
      st.on_destroyed _ _ (send_error-stable Q st env config socket code env.msg_id w h)
  step-keeps (env, half_closes socket) w h = on_half_closed w _ h
  step-keeps (env, closes socket) w h =
      close_all-keeps env socket (Dict.values w.state.peers) _ (st.on_destroyed w _ h)
  step-keeps (env, write_ends n ok) w h = end_write-stable Q st env config n ok w h
  step-keeps (env, write_times_out n) w h = time_out_write-stable Q st env config n w h
  step-keeps (env, sweeps) w h = sweep-keeps env w h
  step-keeps (env, purges) w h = purge-keeps env w h

  pub run-keeps : (es : List (Env × Event)) (w : World) → Q w → Q (run config policy le es w)
  unfolding run
  run-keeps [] w h = h
  run-keeps (e ∷ es) w h = run-keeps es (step config policy le e w) (step-keeps e w h)
