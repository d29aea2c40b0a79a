-- ===== src/Extension/Batcher.antt =====
-- `InboundBatcher` of src/extension/batcher.ts, and the choices of `buildBatchMessage` and
-- `bypassesBatch`. The host tells whether the agent is busy at the moment that a timer fires.
pub mod Runs
pub mod Tests
use pi_mesh.Prelude.{
  ℕ, zero, suc, String, Bool, true, false, not, ◌&&◌, ◌||◌, List, [], ◌∷◌, ◌++◌, Option, none, some,
  if◌then◌else◌, ltb, eqb, any, length, take,
}
use pi_mesh.Protocol.Frame.{MeshFrame, MeshPriority, FrameType, normal, urgent, force}

abbrev pub batch_max_messages : ℕ
batch_max_messages = 12

abbrev pub is_urgent : MeshFrame → Bool
is_urgent f = elim f.priority [ some urgent ↦ true | _ ↦ false ]

abbrev pub is_forced : MeshFrame → Bool
is_forced f = elim f.priority [ some force ↦ true | _ ↦ false ]

abbrev pub is_answer : MeshFrame → Bool
is_answer f = elim f.type [ FrameType.reply ↦ true | _ ↦ false ]

abbrev pub is_remind : MeshFrame → Bool
is_remind f = elim f.type [ FrameType.remind ↦ true | _ ↦ false ]

pub data DeliverAs : Type 0 where
  steer follow_up next_turn : DeliverAs

-- How a batch is delivered: the most pressing of its frames decides.
unfoldable pub deliver_as : List MeshFrame → DeliverAs
deliver_as frames = if any is_urgent frames || any is_answer frames then steer else follow_up

-- The frames of a batch that are shown, and the number of those that are not.
unfoldable pub shown : List MeshFrame → List MeshFrame
shown frames = take batch_max_messages frames

-- Whether a frame does not wait.
unfoldable pub bypasses_batch : MeshFrame → Bool → Bool
bypasses_batch frame busy = is_forced frame || is_remind frame || (is_urgent frame && busy)

-- The frames that wait, whether the short timer and the fallback are armed, and the batches that
-- were given to `onFlush`, the last one at the end.
pub record InboundBatcher : Type 0 where
  pub frames : List MeshFrame
  pub timer : Bool
  pub max_timer : Bool
  pub flushed : List (List MeshFrame)

abbrev pub new_batcher : InboundBatcher
new_batcher = record { frames = []; timer = false; max_timer = false; flushed = [] }

unfoldable pub push : ℕ → MeshFrame → InboundBatcher → InboundBatcher
push window_ms frame b = record b {
  frames = b.frames ++ frame ∷ [];
  timer = b.timer || ltb 0 window_ms;
}

give : List MeshFrame → List (List MeshFrame) → List (List MeshFrame)
give [] flushed = flushed
give (f ∷ fs) flushed = flushed ++ (f ∷ fs) ∷ []

-- Both timers are cleared, also where nothing waits.
unfoldable pub flush_now : InboundBatcher → InboundBatcher
unfolding give
flush_now b = record {
  frames = [];
  timer = false;
  max_timer = false;
  flushed = give b.frames b.flushed;
}

-- The short timer fires.
unfoldable pub on_window : Bool → InboundBatcher → InboundBatcher
on_window busy b =
    let fired : InboundBatcher = record b { timer = false } in
    if eqb (length b.frames) 0
    then fired
    else if busy && not (any is_urgent b.frames)
    then record fired { max_timer = true }
    else flush_now fired

-- What happens: a frame is pushed, the end of a tool call flushes, and the timers fire, each only if
-- it is armed; the flag tells whether the agent is busy.
pub data BatchEvent : Type 0 where
  pushing : MeshFrame → BatchEvent
  flushing : BatchEvent
  window_ends : Bool → BatchEvent
  hold_ends : BatchEvent

unfoldable pub batch_step : ℕ → BatchEvent → InboundBatcher → InboundBatcher
batch_step window_ms (pushing frame) b = push window_ms frame b
batch_step window_ms flushing b = flush_now b
batch_step window_ms (window_ends busy) b = if b.timer then on_window busy b else b
batch_step window_ms hold_ends b =
    if b.max_timer then flush_now (record b { max_timer = false }) else b

unfoldable pub run_batcher : ℕ → List BatchEvent → InboundBatcher → InboundBatcher
run_batcher window_ms [] b = b
run_batcher window_ms (e ∷ es) b = run_batcher window_ms es (batch_step window_ms e b)
