-- ===== src/Broker/Control/Answers.antt =====
-- An acknowledgement of a control action comes back once, and only for an action that is pending.
use pi_mesh.Prelude.{
  ◌≡◌, refl, sym, ap, subst, arith, String, Bool, true, false, eq_iff, get_or_else, Bool-cases, inl,
  inr, ◌||◌, Option, none, some, eq_refl, if-both, if-both_eq, ltb,
}
use pi_mesh.Dict
use pi_mesh.Dict.Laws.{get-delete}
use pi_mesh.Protocol.Frame.{MeshFrame}
use pi_mesh.Broker.State.{PeerRecord, MeshConfig}
use pi_mesh.Broker.Policy.{MeshPolicy}
use pi_mesh.Broker.World.{Env, World, PendingCtl, online, peer_at, cannot_write, write_frame}
use pi_mesh.Broker.Relay.{complete}
use pi_mesh.Broker.Control.{is_named, answers, send_ctl_ack, ack_named, handle_ctl_ack}

module _ (env : Env) (config : MeshConfig) (policy : MeshPolicy) (from : PeerRecord)
    (frame : MeshFrame) where
  pending-send_ctl_ack :
      (o : Option PeerRecord) (w : World)
      → (send_ctl_ack env config policy from frame o w).pending_ctl ≡ w.pending_ctl
  unfolding write_frame complete
  pending-send_ctl_ack none w = refl
  pending-send_ctl_ack (some target) w =
      if-both (λ (v : World). v.pending_ctl ≡ w.pending_ctl)
        (ltb config.max_frame_bytes (env.frame_bytes frame) || cannot_write target.socket w) refl
        refl

  -- The frame names a pending action that it answers.
  abbrev pub matches : Option String → World → Bool
  matches none w = false
  matches (some reply_to) w = answers env config policy from frame (Dict.get reply_to w.pending_ctl)

  unmatched :
      (o : Option String) (w : World)
      → matches o w ≡ false
      → ack_named env config policy from frame o w ≡ w
  unmatched none w e = refl
  unmatched (some reply_to) w e = rw e refl

  unmatched-after :
      (o : Option String) (w : World)
      → matches o (ack_named env config policy from frame o w) ≡ false
  unfolding Dict.get
  unmatched-after none w = refl
  unmatched-after (some reply_to) w =
      let w' = record w { pending_ctl = Dict.delete reply_to w.pending_ctl } in
      if-both_eq (λ (v : World). matches (some reply_to) v ≡ false)
        (answers env config policy from frame (Dict.get reply_to w.pending_ctl))
        (λ _.
          rw
            (
              pending-send_ctl_ack (online env config w' (peer_at env config frame.to w')) w',
              get-delete reply_to reply_to w.pending_ctl,
              eq_refl reply_to,
            )
            refl)
        (λ e. e)

  -- The frame answers a pending action: it names its id, it comes from the peer that was to act, it
  -- goes to the peer that asked, and it names the same action.
  pub record IsAnswer (reply_to : String) (w : World) : Type 0 where
    pub pending : PendingCtl
    pub named : frame.reply_to ≡ some reply_to
    pub is_pending : Dict.get reply_to w.pending_ctl ≡ some pending
    pub from_target : pending.to ≡ from.alias
    pub to_sender : frame.to ≡ some pending.from
    pub same_action : pending.action ≡ get_or_else frame.action ""

  named_lem :
      (to : Option String) (alias : String)
      → is_named env config policy from frame to alias ≡ true
      → to ≡ some alias
  named_lem none alias e = cc
  named_lem (some to) alias e = ap some (sym ((eq_iff alias to).0 e))

  answers-IsAnswer :
      (reply_to : String) (w : World) (p : Option PendingCtl)
      → frame.reply_to ≡ some reply_to
      → Dict.get reply_to w.pending_ctl ≡ p
      → answers env config policy from frame p ≡ true
      → IsAnswer reply_to w
  answers-IsAnswer reply_to w none n e b = absurd (ground arith)
  answers-IsAnswer reply_to w (some p) n e b = record {
    pending = p;
    named = n;
    is_pending = e;
    from_target = ground (arith, eq_iff p.to from.alias);
    to_sender = named_lem frame.to p.from (ground arith);
    same_action = ground (arith, eq_iff p.action (get_or_else frame.action ""));
  }

  IsAnswer-answers :
      (reply_to : String) (w : World)
      → IsAnswer reply_to w
      → answers env config policy from frame (Dict.get reply_to w.pending_ctl) ≡ true
  IsAnswer-answers reply_to w i =
      let p = i.pending in
      rw (i.is_pending, i.to_sender, i.from_target, i.same_action)
        (ground (arith, eq_refl from.alias, eq_refl p.from, eq_refl (get_or_else frame.action "")))

  answered-gone :
      (reply_to : String) (w : World)
      → IsAnswer reply_to w
      → Dict.get reply_to (ack_named env config policy from frame (some reply_to) w).pending_ctl
        ≡ none
  answered-gone reply_to w i =
      let w' = record w { pending_ctl = Dict.delete reply_to w.pending_ctl } in
      rw
        (
          IsAnswer-answers reply_to w i,
          pending-send_ctl_ack (online env config w' (peer_at env config frame.to w')) w',
          get-delete reply_to reply_to w.pending_ctl,
          eq_refl reply_to,
        )
        refl

  not_matched :
      (o : Option String) (w : World)
      → frame.reply_to ≡ o
      → ((reply_to : String) → ¬ IsAnswer reply_to w)
      → matches o w ≡ false
  not_matched none w n never = refl
  not_matched (some reply_to) w n never =
      elim (Bool-cases (answers env config policy from frame (Dict.get reply_to w.pending_ctl))) [
        | inl b ↦ absurd (never reply_to (answers-IsAnswer reply_to w _ n refl b))
        | inr b ↦ b
      ]

  -- An acknowledgement that answers no pending action, by its id, its two peers and the action,
  -- changes nothing; one that does takes that action off the table; and after either, the same
  -- acknowledgement changes nothing.
  pub handle_ctl_ack-once :
      (w : World)
      → let w' = handle_ctl_ack env config policy from frame w in
        (((reply_to : String) → ¬ IsAnswer reply_to w) → w' ≡ w)
        × ((reply_to : String) → IsAnswer reply_to w → Dict.get reply_to w'.pending_ctl ≡ none)
        × (handle_ctl_ack env config policy from frame w' ≡ w')
  unfolding handle_ctl_ack
  handle_ctl_ack-once w = (
    λ never. unmatched frame.reply_to w (not_matched frame.reply_to w refl never),
    λ reply_to i.
        subst
          (λ o. Dict.get reply_to (ack_named env config policy from frame o w).pending_ctl ≡ none)
          (sym i.named) (answered-gone reply_to w i),
    unmatched frame.reply_to (ack_named env config policy from frame frame.reply_to w)
        (unmatched-after frame.reply_to w),
  )
