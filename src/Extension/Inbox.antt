-- ===== src/Extension/Inbox.antt =====
-- `DeferredInbox` of src/extension/deferred-inbox.ts: broadcasts that wait for the next prompt. What
-- is given to the session and to the two callbacks is recorded in order.
pub mod Runs
pub mod Tests
use pi_mesh.Prelude.{ℕ, ◌+◌, Bool, true, false, List, [], ◌∷◌, ◌++◌, if◌then◌else◌, eqb, length}
use pi_mesh.Protocol.Frame.{MeshFrame}
use pi_mesh.Extension.Batcher.{DeliverAs, follow_up, next_turn}

-- One call of `sendMessage`.
pub record Sent : Type 0 where
  pub frames : List MeshFrame
  pub deliver_as : DeliverAs
  pub trigger_turn : Bool

pub record DeferredInbox : Type 0 where
  pub pending : List MeshFrame
  pub queued : List MeshFrame
  pub draining : Bool
  pub sent : List Sent
  pub delivered : List MeshFrame
  pub counts : List ℕ

abbrev pub new_inbox : DeferredInbox
new_inbox = record {
  pending = [];
  queued = [];
  draining = false;
  sent = [];
  delivered = [];
  counts = [];
}

abbrev pub count_of : DeferredInbox → ℕ
count_of b = length b.pending + length b.queued

-- `changed(this.count)`
abbrev pub tell : DeferredInbox → DeferredInbox
tell b = record b { counts = b.counts ++ count_of b ∷ [] }

unfoldable pub defer : MeshFrame → DeferredInbox → DeferredInbox
defer frame b = tell (record b { pending = b.pending ++ frame ∷ [] })

unfoldable pub send : List MeshFrame → Bool → DeferredInbox → DeferredInbox
send frames immediate b = record b {
  sent =
      b.sent
      ++ (if immediate
          then record { frames = frames; deliver_as = follow_up; trigger_turn = true }
          else record { frames = frames; deliver_as = next_turn; trigger_turn = false })
        ∷ [];
}

unfoldable pub queue_for_prompt : DeferredInbox → DeferredInbox
unfolding send
queue_for_prompt b =
    if eqb (length b.pending) 0
    then b
    else record (send b.pending false b) { queued = b.queued ++ b.pending; pending = [] }

abbrev pub prompt_starting : DeferredInbox → DeferredInbox
prompt_starting b = record b { draining = true }

-- What was queued for a prompt is delivered when the agent starts on it.
unfoldable pub agent_starting : DeferredInbox → DeferredInbox
agent_starting b =
    if b.draining
    then record (tell (record b { draining = false; queued = [] })) {
      delivered = b.delivered ++ b.queued;
    }
    else b

unfoldable pub flush : DeferredInbox → DeferredInbox
unfolding send
flush b =
    if eqb (length b.pending) 0
    then b
    else record (tell (record (send b.pending true b) { pending = [] })) {
      delivered = b.delivered ++ b.pending;
    }

abbrev pub clear : DeferredInbox → DeferredInbox
clear b = record b { pending = []; queued = []; draining = false; counts = b.counts ++ 0 ∷ [] }

pub data InboxEvent : Type 0 where
  deferring : MeshFrame → InboxEvent
  queueing prompting starting flushing : InboxEvent

unfoldable pub inbox_step : InboxEvent → DeferredInbox → DeferredInbox
inbox_step (deferring frame) b = defer frame b
inbox_step queueing b = queue_for_prompt b
inbox_step prompting b = prompt_starting b
inbox_step starting b = agent_starting b
inbox_step flushing b = flush b

unfoldable pub run_inbox : List InboxEvent → DeferredInbox → DeferredInbox
run_inbox [] b = b
run_inbox (e ∷ es) b = run_inbox es (inbox_step e b)
