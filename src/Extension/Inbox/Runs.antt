-- ===== src/Extension/Inbox/Runs.antt =====
-- Runs of `DeferredInbox` of src/extension/deferred-inbox.ts.
use pi_mesh.Prelude.{
  ℕ, ◌+◌, Bool, true, false, List, [], ◌∷◌, ◌++◌, ◌≡◌, refl, arith, if◌then◌else◌,
}
use pi_mesh.Protocol.Frame.{MeshFrame}
use pi_mesh.Extension.Batcher.{follow_up, next_turn}
use pi_mesh.Extension.Inbox.{
  DeferredInbox, Sent, new_inbox, defer, send, queue_for_prompt, agent_starting, flush, InboxEvent,
  deferring, queueing, prompting, starting, flushing, inbox_step, run_inbox,
}

module _ (p : MeshFrame → Bool) where
  -- How many frames satisfy `p`.
  unfoldable pub count : List MeshFrame → ℕ
  count [] = 0
  count (f ∷ fs) = (if p f then 1 else 0) + count fs

  -- Those that `sendMessage` was called with.
  unfoldable pub count_sent : List Sent → ℕ
  count_sent [] = 0
  count_sent (s ∷ ss) = count s.frames + count_sent ss

  unfoldable pub count_deferred : List InboxEvent → ℕ
  count_deferred [] = 0
  count_deferred (deferring f ∷ es) = (if p f then 1 else 0) + count_deferred es
  count_deferred (queueing ∷ es) = count_deferred es
  count_deferred (prompting ∷ es) = count_deferred es
  count_deferred (starting ∷ es) = count_deferred es
  count_deferred (flushing ∷ es) = count_deferred es

  count-append : (fs gs : List MeshFrame) → count (fs ++ gs) ≡ count fs + count gs
  unfolding count
  count-append [] gs = omega arith
  count-append (f ∷ fs) gs = omega (arith, count-append fs gs)

  count_sent-append :
      (ss : List Sent) (s : Sent) → count_sent (ss ++ s ∷ []) ≡ count_sent ss + count s.frames
  unfolding count_sent
  count_sent-append [] s = omega arith
  count_sent-append (t ∷ ss) s = omega (arith, count_sent-append ss s)

  -- A frame was sent once if it is queued or delivered, and not yet if it is pending.
  abbrev IsSentOnce : DeferredInbox → Type 0
  IsSentOnce b = count_sent b.sent ≡ count b.queued + count b.delivered

  abbrev all_of : DeferredInbox → ℕ
  all_of b = count b.pending + count b.queued + count b.delivered

  step_lem :
      (e : InboxEvent) (b : DeferredInbox)
      → IsSentOnce b
      → IsSentOnce (inbox_step e b) × (all_of (inbox_step e b) ≡ all_of b + count_deferred (e ∷ []))
  unfolding inbox_step count_deferred defer send queue_for_prompt agent_starting flush count
  step_lem (deferring f) b s = omega (arith, count-append b.pending (f ∷ []))
  step_lem queueing b s = ground (
    arith,
    count-append b.queued b.pending,
    count_sent-append b.sent
        (record { frames = b.pending; deliver_as = next_turn; trigger_turn = false }),
  )
  step_lem prompting b s = omega arith
  step_lem starting b s = ground (arith, count-append b.delivered b.queued)
  step_lem flushing b s = ground (
    arith,
    count-append b.delivered b.pending,
    count_sent-append b.sent
        (record { frames = b.pending; deliver_as = follow_up; trigger_turn = true }),
  )

  count_deferred-cons :
      (e : InboxEvent) (es : List InboxEvent)
      → count_deferred (e ∷ es) ≡ count_deferred (e ∷ []) + count_deferred es
  unfolding count_deferred
  count_deferred-cons (deferring f) es = omega arith
  count_deferred-cons queueing es = omega arith
  count_deferred-cons prompting es = omega arith
  count_deferred-cons starting es = omega arith
  count_deferred-cons flushing es = omega arith

  run_lem :
      (es : List InboxEvent) (b : DeferredInbox)
      → IsSentOnce b
      → IsSentOnce (run_inbox es b) × (all_of (run_inbox es b) ≡ all_of b + count_deferred es)
  unfolding run_inbox count_deferred
  run_lem [] b s = (s, omega (arith, count_none))
    where
      count_none : count_deferred [] ≡ 0
      count_none = refl
  run_lem (e ∷ es) b s =
      let (s', n) = step_lem e b s in
      let (s'', m) = run_lem es (inbox_step e b) s' in
      (s'', omega (arith, n, m, count_deferred-cons e es))

  -- Of the frames that satisfy any given condition, as many were deferred as are pending, queued for
  -- a prompt or delivered; and as many were sent to the session as are queued or delivered. So no
  -- frame is lost or doubled, and none is sent twice, however deferring, prompts and flushes follow
  -- one another.
  pub run_inbox-conserves :
      (es : List InboxEvent)
      → (count (run_inbox es new_inbox).pending
            + count (run_inbox es new_inbox).queued
            + count (run_inbox es new_inbox).delivered
          ≡ count_deferred es)
        × (count_sent (run_inbox es new_inbox).sent
            ≡ count (run_inbox es new_inbox).queued + count (run_inbox es new_inbox).delivered)
  unfolding count count_sent
  run_inbox-conserves es = let (s, n) = run_lem es new_inbox refl in (omega (arith, n), s)
