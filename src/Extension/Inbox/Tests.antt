-- ===== src/Extension/Inbox/Tests.antt =====
-- `DeferredInbox` of src/extension/deferred-inbox.ts on two frames.
use pi_mesh.Prelude.{◌+◌, Bool, List, [], ◌∷◌, ◌≡◌, refl, ◌==◌}
use pi_mesh.Protocol.Frame.{MeshFrame, build_frame, FrameType}
use pi_mesh.Extension.Inbox.{
  DeferredInbox, new_inbox, InboxEvent, deferring, queueing, prompting, starting, flushing,
  run_inbox, inbox_step,
}
use pi_mesh.Extension.Inbox.Runs.{count, count_sent, count_deferred, run_inbox-conserves}

abbrev first : MeshFrame
first = build_frame FrameType.msg "m_1"

abbrev second : MeshFrame
second = build_frame FrameType.msg "m_2"

abbrev events : List InboxEvent
events = deferring first ∷ queueing ∷ deferring second ∷ prompting ∷ starting ∷ []

-- The first frame rides with the prompt; the second one waits.
first_delivered : (run_inbox events new_inbox).delivered ≡ first ∷ []
unfolding run_inbox inbox_step pi_mesh.Extension.Inbox.agent_starting pi_mesh.Extension.Inbox.defer
    pi_mesh.Extension.Inbox.queue_for_prompt
first_delivered = refl

second_waits : (run_inbox events new_inbox).pending ≡ second ∷ []
unfolding run_inbox inbox_step pi_mesh.Extension.Inbox.agent_starting pi_mesh.Extension.Inbox.defer
    pi_mesh.Extension.Inbox.queue_for_prompt
second_waits = refl

told : (run_inbox events new_inbox).counts ≡ 1 ∷ 2 ∷ 1 ∷ []
unfolding run_inbox inbox_step pi_mesh.Extension.Inbox.agent_starting pi_mesh.Extension.Inbox.defer
    pi_mesh.Extension.Inbox.queue_for_prompt
told = refl

abbrev is_second : MeshFrame → Bool
is_second f = f.id == "m_2"

run_inbox-conserves_example :
    (count is_second (run_inbox events new_inbox).pending
        + count is_second (run_inbox events new_inbox).queued
        + count is_second (run_inbox events new_inbox).delivered
      ≡ count_deferred is_second events)
    × (count_sent is_second (run_inbox events new_inbox).sent
        ≡ count is_second (run_inbox events new_inbox).queued
          + count is_second (run_inbox events new_inbox).delivered)
run_inbox-conserves_example = run_inbox-conserves is_second events
