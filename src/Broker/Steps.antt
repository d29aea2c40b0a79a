-- ===== src/Broker/Steps.antt =====
-- The events of src/broker/broker.ts, one step each: a frame arrives, a connection ends, a write
-- ends, and the timers of `createBroker` fire.
pub mod Keeps
pub mod Runs
pub mod Rooms
pub mod Leases
pub mod Tests
use pi_mesh.Prelude.{
  ℕ, ◌+◌, String, Bool, true, false, not, ◌&&◌, ◌||◌, List, [], ◌∷◌, Option, none, some,
  if◌then◌else◌, leb, ltb, eqb, length, select,
}
use pi_mesh.Dict
use pi_mesh.Dict.{Dict}
use pi_mesh.Protocol.Frame.{MeshFrame, MeshErrorCode, FileReservation}
use pi_mesh.Broker.State.{BrokerState, PeerRecord, MeshConfig, new_state}
use pi_mesh.Broker.Lease.{empty_table}
use pi_mesh.Broker.Mailbox.{purge_all_expired}
use pi_mesh.Broker.Policy.{MeshPolicy}
use pi_mesh.Broker.Rooms.{store}
use pi_mesh.Broker.World.{
  Env, World, destroy, close_peer, send_error, notify_dropped, broadcast_reservations,
}
use pi_mesh.Broker.Relay.{end_write, time_out_write}
use pi_mesh.Broker.Dispatch.{dispatch, put_peer}

-- `pruneStaleKnownAliases`, with its default age of a day.
abbrev pub max_alias_age_ms : ℕ
max_alias_age_ms = 86400000

abbrev pub is_known_still : ℕ → BrokerState → String → ℕ → Bool
is_known_still now s alias last_hello =
    Dict.has alias s.peers || Dict.has alias s.mailbox || leb now (last_hello + max_alias_age_ms)

unfoldable pub prune_stale_known_aliases : ℕ → BrokerState → BrokerState
prune_stale_known_aliases now s = record s {
  known_aliases =
      Dict.retain (λ alias last_hello. is_known_still now s alias last_hello) s.known_aliases;
}

-- `createBroker`: nobody is connected. The lease epoch is given.
abbrev pub new_world : ℕ → ℕ → World
new_world now epoch = record {
  state = new_state now;
  destroyed = [];
  half_closed = [];
  token_sockets = [];
  writes = [];
  pending_ctl = [];
  batches = [];
  leases = empty_table epoch;
}

module _ (env : Env) (config : MeshConfig) where
  -- A socket is accepted, over the network or from this machine.
  abbrev pub accept : ℕ → Bool → World → World
  accept socket token_required w =
      if token_required then record w { token_sockets = socket ∷ w.token_sockets } else w

  -- The `end` event: `socket.end()` answers it, and nothing can be written any more.
  abbrev pub half_close : ℕ → World → World
  half_close socket w = record w { half_closed = socket ∷ w.half_closed }

  -- The `close` event: every peer on the socket goes.
  unfoldable pub close_all : ℕ → List PeerRecord → World → World
  close_all socket [] w = w
  close_all socket (p ∷ ps) w =
      close_all socket ps (if eqb p.socket socket then close_peer env p.alias w else w)

  unfoldable pub on_close : ℕ → World → World
  on_close socket w = close_all socket (Dict.values w.state.peers) (destroy socket w)

  -- A line that is no frame, `parseFrameLine` having said why.
  abbrev pub reject : ℕ → MeshErrorCode → World → World
  reject socket code w = send_error env config socket code env.msg_id w

  -- No hello within `HELLO_TIMEOUT_MS`, or a line that is too long: the socket goes.
  abbrev pub cut_socket : ℕ → MeshErrorCode → World → World
  cut_socket socket code w = destroy socket (reject socket code w)

  abbrev pub is_silent : PeerRecord → Bool
  is_silent p = p.hello_done && ltb (p.last_seen_at + config.broker_silence_ms) env.now

  unfoldable pub cut_silent : List PeerRecord → World → World
  cut_silent [] w = w
  cut_silent (p ∷ ps) w = cut_silent ps (if is_silent p then destroy p.socket w else w)

  abbrev pub holds_since : Option ℕ → Bool
  holds_since none = true
  holds_since (some since) = leb env.now (since + config.reservation_ttl_ms)

  abbrev pub still_reserved : List FileReservation → List FileReservation
  still_reserved rs = select (λ r. holds_since r.since) rs

  -- The change of a record, which the table may have let go of meanwhile.
  abbrev pub put_current : PeerRecord → Option PeerRecord → World → World
  put_current p none w = w
  put_current p (some current) w =
      if eqb current.socket p.socket
      then put_peer (record current { reservations = p.reservations }) w
      else w

  abbrev pub expire_one : PeerRecord → World → World
  expire_one p w =
      let kept = still_reserved p.reservations in
      let p' = record p { reservations = kept } in
      if ltb (length kept) (length p.reservations)
      then broadcast_reservations env config p' (put_current p' (Dict.get p.alias w.state.peers) w)
      else w

  unfoldable pub expire_reservations : List PeerRecord → World → World
  expire_reservations [] w = w
  expire_reservations (p ∷ ps) w = expire_reservations ps (expire_one p w)

  unfoldable pub sweep : World → World
  sweep w =
      let cut = cut_silent (Dict.values w.state.peers) w in
      let pruned = record cut { state = prune_stale_known_aliases env.now cut.state } in
      if leb config.reservation_ttl_ms 0
      then pruned
      else expire_reservations (Dict.values pruned.state.peers) pruned

  unfoldable pub purge_mailbox_expired : World → World
  purge_mailbox_expired w =
      let (dropped, s) = purge_all_expired w.state config env.now in
      notify_dropped env config dropped (record w { state = s })

pub data Event : Type 0 where
  accepts : ℕ → Bool → Event
  receives : ℕ → Option String → MeshFrame → Event
  rejects : ℕ → MeshErrorCode → Event
  cuts : ℕ → MeshErrorCode → Event
  half_closes : ℕ → Event
  closes : ℕ → Event
  write_ends : ℕ → Bool → Event
  write_times_out : ℕ → Event
  sweeps : Event
  purges : Event

module _ (config : MeshConfig) (policy : MeshPolicy) (le : String → String → Bool) where
  unfoldable pub step : Env × Event → World → World
  step (env, accepts socket token_required) w = accept env config socket token_required w
  step (env, receives socket via frame) w = dispatch env config policy le socket via frame w
  step (env, rejects socket code) w = reject env config socket code w
  step (env, cuts socket code) w = cut_socket env config socket code w
  step (env, half_closes socket) w = half_close env config socket w
  step (env, closes socket) w = on_close env config socket w
  step (env, write_ends n ok) w = end_write env config n ok w
  step (env, write_times_out n) w = time_out_write env config n w
  step (env, sweeps) w = sweep env config w
  step (env, purges) w = purge_mailbox_expired env config w

  unfoldable pub run : List (Env × Event) → World → World
  run [] w = w
  run (e ∷ es) w = run es (step e w)
