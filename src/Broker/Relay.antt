-- ===== src/Broker/Relay.antt =====
-- Relaying in src/broker/broker.ts: `sendAck`, the storing of a frame for later, and the callbacks of
-- the writes by which the broker relays a frame.
pub mod Keeps
use pi_mesh.Prelude.{
  ℕ, zero, suc, ◌+◌, ◌-◌, String, Bool, true, false, not, ◌&&◌, ◌||◌, List, [], ◌∷◌, Option, none,
  some, if◌then◌else◌, ltb, eqb, get_or_else,
}
use pi_mesh.Dict
use pi_mesh.Dict.{Dict}
use pi_mesh.Protocol.Frame.{MeshFrame, MeshErrorCode, build_frame, ack, unreachable}
use pi_mesh.Broker.State.{BrokerState, PeerRecord, MeshConfig}
use pi_mesh.Broker.Mailbox.{enqueue_mailbox}
use pi_mesh.Broker.World.{
  Env, World, Write, Batch, PeerRef, Relay, Callback, ignore, close_on_failure, relayed,
  relayed_online, controlled, control_acked, fanned_out, fanned_reply, ref_of, destroy, write_frame,
  close_current, send_ref, send_error, notify_dropped,
}

abbrev pub count_relayed : ℕ → World → World
count_relayed n w = record w {
  state = record (w.state) {
    stats = record (w.state.stats) { relayed = w.state.stats.relayed + n };
  };
}

abbrev pub count_refused : World → World
count_refused w = record w {
  state = record (w.state) {
    stats = record (w.state.stats) { refused = w.state.stats.refused + 1 };
  };
}

-- What the end of a write changes in its batch.
abbrev pub one_less : Bool → Batch → Batch
one_less delivered b = record b {
  waiting = b.waiting - 1;
  delivered = if delivered then b.delivered + 1 else b.delivered;
}

abbrev pub one_more : Batch → Batch
one_more b = record b { waiting = b.waiting + 1; total = b.total + 1 }

abbrev pub one_away : Batch → Batch
one_away b = record b { total = b.total + 1 }

unfoldable pub update_batch : ℕ → (Batch → Batch) → List Batch → List Batch
update_batch n f [] = []
update_batch zero f (b ∷ bs) = f b ∷ bs
update_batch (suc n) f (b ∷ bs) = b ∷ update_batch n f bs

unfoldable pub batch_at : ℕ → List Batch → Option Batch
batch_at n [] = none
batch_at zero (b ∷ bs) = some b
batch_at (suc n) (b ∷ bs) = batch_at n bs

module _ (env : Env) (config : MeshConfig) where
  abbrev pub ack_frame :
      String → String → Option String → Option ℕ → Option ℕ → Option String → MeshFrame
  ack_frame id status interrupt_status delivered total routed_to = record (build_frame ack id) {
    status = some status;
    interrupt_status = interrupt_status;
    delivered_count = delivered;
    total_count = total;
    routed_to = routed_to;
  }

  abbrev pub send_ack : PeerRef → String → String → World → World
  send_ack peer id status w = send_ref env config peer (ack_frame id status none none none none) w

  -- `notifyDropped(enqueueMailbox(state, config, alias, frame))`
  unfoldable pub store_for : String → MeshFrame → World → World
  store_for alias frame w =
      let (dropped, s) = enqueue_mailbox w.state config alias frame env.now in
      notify_dropped env config dropped (record w { state = s })

  abbrev pub ack_relay : Relay → String → World → World
  ack_relay r status w =
      send_ref env config r.sender
        (ack_frame r.frame.id status r.interrupt_status none none r.routed_to) w

  -- The end of a write of `routeMsg` to one peer, and of `routeCapMsg`.
  unfoldable pub after_relay : Relay → Bool → World → World
  after_relay r true w = ack_relay r "delivered" (count_relayed 1 w)
  after_relay r false w =
      ack_relay r "queued_offline" (store_for r.target.alias r.frame (close_current env r.target w))

  -- Of `routeOnlineOnly`; the flag is `silentDrop`.
  unfoldable pub after_online : Relay → Bool → Bool → World → World
  after_online r silent true w =
      let w' = count_relayed 1 w in
      if silent then w' else send_ack r.sender r.frame.id "delivered" w'
  after_online r silent false w =
      let w' = close_current env r.target w in
      if silent then w' else send_ack r.sender r.frame.id "dropped_offline" w'

  -- Of `handleCtl`.
  unfoldable pub after_control : Relay → Bool → World → World
  after_control r true w = count_relayed 1 w
  after_control r false w =
      send_error env config r.sender.socket unreachable r.frame.id (
        close_current env r.target
          (record w { pending_ctl = Dict.delete r.frame.id w.pending_ctl }))

  -- The acknowledgement of a fan-out, once all of its writes have ended.
  abbrev pub ack_batch : Batch → String → Option ℕ → Option ℕ → World → World
  ack_batch b status delivered total w =
      send_ref env config b.sender (ack_frame b.id status none delivered total none) w

  unfoldable pub settle_batch : Batch → World → World
  settle_batch b w =
      if b.is_reply
      then (if ltb 0 b.delivered
          then ack_batch b "delivered" (some b.delivered) (some b.total) w
          else ack_batch b "dropped_offline" none none w)
      else ack_batch b (if ltb 0 b.delivered then "delivered" else "queued_offline")
          (some b.delivered) (some b.total) (count_relayed b.delivered w)

  abbrev pub settle_if_done : Option Batch → World → World
  settle_if_done none w = w
  settle_if_done (some b) w = if eqb b.waiting 0 then settle_batch b w else w

  abbrev pub change_batch : ℕ → (Batch → Batch) → World → World
  change_batch n f w = record w { batches = update_batch n f w.batches }

  unfoldable pub resolve : ℕ → Bool → World → World
  resolve n delivered w =
      let w' = change_batch n (one_less delivered) w in settle_if_done (batch_at n w'.batches) w'

  unfoldable pub after_fan_out : ℕ → Relay → Bool → World → World
  after_fan_out n r true w = resolve n true w
  after_fan_out n r false w =
      resolve n false (store_for r.target.alias r.frame (close_current env r.target w))

  unfoldable pub after_fan_reply : ℕ → Relay → Bool → World → World
  after_fan_reply n r true w = resolve n true (count_relayed 1 w)
  after_fan_reply n r false w = resolve n false (close_current env r.target w)

  -- The callback of a write, with its argument.
  unfoldable pub complete : Callback → Bool → World → World
  complete ignore ok w = w
  complete (close_on_failure alias socket) true w = w
  complete (close_on_failure alias socket) false w =
      close_current env (record { alias = alias; socket = socket }) w
  complete (relayed r) ok w = after_relay r ok w
  complete (relayed_online r silent) ok w = after_online r silent ok w
  complete (controlled r) ok w = after_control r ok w
  complete control_acked true w = count_relayed 1 w
  complete control_acked false w = w
  complete (fanned_out n r) ok w = after_fan_out n r ok w
  complete (fanned_reply n r) ok w = after_fan_reply n r ok w

  abbrev pub write_to : PeerRef → MeshFrame → Callback → World → World
  write_to target frame callback w =
      write_frame (complete callback false) env config.max_frame_bytes target.socket frame callback
        w

  unfoldable pub take_write : ℕ → List Write → Option Write × List Write
  take_write n [] = (none, [])
  take_write zero (x ∷ xs) = (some x, xs)
  take_write (suc n) (x ∷ xs) = let (found, rest) = take_write n xs in (found, x ∷ rest)

  abbrev pub ended : Option Write → Bool → World → World
  ended none ok w = w
  ended (some x) ok w = complete x.callback ok w

  -- A write in flight ends, and is forgotten.
  unfoldable pub end_write : ℕ → Bool → World → World
  end_write n ok w =
      let (found, rest) = take_write n w.writes in ended found ok (record w { writes = rest })

  abbrev pub cut_off : Option Write → World → World
  cut_off none w = w
  cut_off (some x) w = complete x.callback false (destroy x.socket w)

  -- It does not end within `WRITE_TIMEOUT_MS`: the socket is destroyed first.
  unfoldable pub time_out_write : ℕ → World → World
  time_out_write n w =
      let (found, rest) = take_write n w.writes in cut_off found (record w { writes = rest })
