-- ===== src/Extension/Batcher/Tests.antt =====
-- `InboundBatcher` of src/extension/batcher.ts on a few frames.
use pi_mesh.Prelude.{true, false, some, List, [], ◌∷◌, ◌≡◌, refl, arith}
use pi_mesh.Protocol.Frame.{MeshFrame, build_frame, FrameType, urgent}
use pi_mesh.Extension.Batcher.{
  InboundBatcher, new_batcher, BatchEvent, pushing, flushing, window_ends, hold_ends, run_batcher,
  batch_step, deliver_as, steer, follow_up,
}
use pi_mesh.Extension.Batcher.Runs.{contents, joined, pushed, run_batcher-delivers}

abbrev first : MeshFrame
first = build_frame FrameType.msg "m_1"

abbrev second : MeshFrame
second = record (build_frame FrameType.msg "m_2") { priority = some urgent }

-- A busy agent holds the first frame; the urgent one flushes both.
abbrev events : List BatchEvent
events = pushing first ∷ window_ends true ∷ pushing second ∷ window_ends true ∷ hold_ends ∷ []

one_batch : (run_batcher 250 events new_batcher).flushed ≡ (first ∷ second ∷ []) ∷ []
unfolding run_batcher batch_step pi_mesh.Extension.Batcher.push pi_mesh.Extension.Batcher.on_window
    pi_mesh.Extension.Batcher.flush_now
one_batch = refl

steered : deliver_as (first ∷ second ∷ []) ≡ steer
unfolding deliver_as
steered = refl

timer_off : (run_batcher 250 events new_batcher).timer ≡ false
unfolding run_batcher batch_step pi_mesh.Extension.Batcher.push pi_mesh.Extension.Batcher.on_window
    pi_mesh.Extension.Batcher.flush_now
timer_off = refl

run_batcher-delivers_example :
    (contents (run_batcher 250 events new_batcher) ≡ pushed events)
    × ((run_batcher 250 events new_batcher).timer ≡ false
        → (run_batcher 250 events new_batcher).max_timer ≡ false
        → joined (run_batcher 250 events new_batcher).flushed ≡ pushed events)
run_batcher-delivers_example = run_batcher-delivers 250 events (omega arith)
