-- ===== src/Broker/Relay/Keeps.antt =====
-- The callbacks of the writes keep every stable property.
use pi_mesh.Prelude.{
  ℕ, refl, String, Bool, true, false, ◌||◌, Option, none, some, ltb, eqb, if-both,
}
use pi_mesh.Protocol.Frame.{MeshFrame, unreachable}
use pi_mesh.Broker.State.{MeshConfig}
use pi_mesh.Broker.Mailbox.{enqueue_mailbox, partition_expired}
use pi_mesh.Broker.World.{
  Env, World, Write, Batch, PeerRef, Relay, Callback, ignore, close_on_failure, relayed,
  relayed_online, controlled, control_acked, fanned_out, fanned_reply, cannot_write, destroy,
  write_frame, close_current,
}
use pi_mesh.Broker.World.Stable.{
  IsStable, close_current-stable, send_ref-stable, send_error-stable, notify_dropped-stable,
}
use pi_mesh.Broker.Relay.{
  count_relayed, count_refused, one_less, change_batch, batch_at, store_for, after_relay,
  after_online, after_control, settle_batch, settle_if_done, resolve, after_fan_out,
  after_fan_reply, complete, write_to, take_write, ended, end_write, cut_off, time_out_write,
}

module _ {ℓ} (Q : World → Type ℓ) (st : IsStable Q) (env : Env) (config : MeshConfig) where
  pub relayed-stable : (n : ℕ) (w : World) → Q w → Q (count_relayed n w)
  relayed-stable n w h = st.on_state w _ refl refl h

  pub refused-stable : (w : World) → Q w → Q (count_refused w)
  refused-stable w h = st.on_state w _ refl refl h

  pub batch-stable :
      (n : ℕ) (f : Batch → Batch) (w : World) → Q w → Q (change_batch env config n f w)
  batch-stable n f w h = st.on_batches w _ h

  pub store_for-stable :
      (alias : String) (frame : MeshFrame) (w : World)
      → Q w
      → Q (store_for env config alias frame w)
  unfolding store_for enqueue_mailbox partition_expired
  store_for-stable alias frame w h =
      notify_dropped-stable Q st env config (enqueue_mailbox w.state config alias frame env.now).0 _
        (st.on_state w (enqueue_mailbox w.state config alias frame env.now).1 refl refl h)

  after_relay-keeps : (r : Relay) (ok : Bool) (w : World) → Q w → Q (after_relay env config r ok w)
  unfolding after_relay
  after_relay-keeps r true w h =
      send_ref-stable Q st env config r.sender _ (count_relayed 1 w) (relayed-stable 1 w h)
  after_relay-keeps r false w h =
      let w' = close_current env r.target w in
      send_ref-stable Q st env config r.sender _ (store_for env config r.target.alias r.frame w')
        (store_for-stable r.target.alias r.frame w' (close_current-stable Q st env r.target w h))

  after_online-keeps :
      (r : Relay) (silent ok : Bool) (w : World) → Q w → Q (after_online env config r silent ok w)
  unfolding after_online
  after_online-keeps r silent true w h =
      let k = relayed-stable 1 w h in
      if-both Q silent k (send_ref-stable Q st env config r.sender _ _ k)
  after_online-keeps r silent false w h =
      let k = close_current-stable Q st env r.target w h in
      if-both Q silent k (send_ref-stable Q st env config r.sender _ _ k)

  after_control-keeps :
      (r : Relay) (ok : Bool) (w : World) → Q w → Q (after_control env config r ok w)
  unfolding after_control
  after_control-keeps r true w h = relayed-stable 1 w h
  after_control-keeps r false w h =
      send_error-stable Q st env config r.sender.socket unreachable r.frame.id _
        (close_current-stable Q st env r.target _ (st.on_pending w _ h))

  settle_batch-keeps : (b : Batch) (w : World) → Q w → Q (settle_batch env config b w)
  unfolding settle_batch
  settle_batch-keeps b w h =
      if-both Q b.is_reply
        (if-both Q (ltb 0 b.delivered) (send_ref-stable Q st env config b.sender _ w h)
          (send_ref-stable Q st env config b.sender _ w h))
        (send_ref-stable Q st env config b.sender _ _ (relayed-stable b.delivered w h))

  settle-keeps : (o : Option Batch) (w : World) → Q w → Q (settle_if_done env config o w)
  settle-keeps none w h = h
  settle-keeps (some b) w h = if-both Q (eqb b.waiting 0) (settle_batch-keeps b w h) h

  pub resolve-stable : (n : ℕ) (ok : Bool) (w : World) → Q w → Q (resolve env config n ok w)
  unfolding resolve
  resolve-stable n ok w h =
      let w' = change_batch env config n (one_less ok) w in
      settle-keeps (batch_at n w'.batches) w' (batch-stable n (one_less ok) w h)

  fan_out-keeps :
      (n : ℕ) (r : Relay) (ok : Bool) (w : World) → Q w → Q (after_fan_out env config n r ok w)
  unfolding after_fan_out
  fan_out-keeps n r true w h = resolve-stable n true w h
  fan_out-keeps n r false w h =
      resolve-stable n false _
        (store_for-stable r.target.alias r.frame _ (close_current-stable Q st env r.target w h))

  fan_reply-keeps :
      (n : ℕ) (r : Relay) (ok : Bool) (w : World) → Q w → Q (after_fan_reply env config n r ok w)
  unfolding after_fan_reply
  fan_reply-keeps n r true w h = resolve-stable n true _ (relayed-stable 1 w h)
  fan_reply-keeps n r false w h =
      resolve-stable n false _ (close_current-stable Q st env r.target w h)

  pub complete-stable :
      (cb : Callback) (ok : Bool) (w : World) → Q w → Q (complete env config cb ok w)
  unfolding complete
  complete-stable ignore ok w h = h
  complete-stable (close_on_failure alias socket) true w h = h
  complete-stable (close_on_failure alias socket) false w h = close_current-stable Q st env _ w h
  complete-stable (relayed r) ok w h = after_relay-keeps r ok w h
  complete-stable (relayed_online r silent) ok w h = after_online-keeps r silent ok w h
  complete-stable (controlled r) ok w h = after_control-keeps r ok w h
  complete-stable control_acked true w h = relayed-stable 1 w h
  complete-stable control_acked false w h = h
  complete-stable (fanned_out n r) ok w h = fan_out-keeps n r ok w h
  complete-stable (fanned_reply n r) ok w h = fan_reply-keeps n r ok w h

  pub write_to-stable :
      (target : PeerRef) (frame : MeshFrame) (cb : Callback) (w : World)
      → Q w
      → Q (write_to env config target frame cb w)
  unfolding write_frame
  write_to-stable target frame cb w h =
      if-both Q (ltb config.max_frame_bytes (env.frame_bytes frame) || cannot_write target.socket w)
        (complete-stable cb false w h) (st.on_writes w _ h)

  ended-keeps : (o : Option Write) (ok : Bool) (w : World) → Q w → Q (ended env config o ok w)
  ended-keeps none ok w h = h
  ended-keeps (some x) ok w h = complete-stable x.callback ok w h

  pub end_write-stable : (n : ℕ) (ok : Bool) (w : World) → Q w → Q (end_write env config n ok w)
  unfolding end_write
  end_write-stable n ok w h =
      ended-keeps (take_write env config n w.writes).0 ok _ (st.on_writes w _ h)

  cut_off-keeps : (o : Option Write) (w : World) → Q w → Q (cut_off env config o w)
  cut_off-keeps none w h = h
  cut_off-keeps (some x) w h =
      complete-stable x.callback false (destroy x.socket w) (st.on_destroyed w _ h)

  pub time_out_write-stable : (n : ℕ) (w : World) → Q w → Q (time_out_write env config n w)
  unfolding time_out_write
  time_out_write-stable n w h =
      cut_off-keeps (take_write env config n w.writes).0 _ (st.on_writes w _ h)
