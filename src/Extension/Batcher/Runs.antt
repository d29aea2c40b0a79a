-- ===== src/Extension/Batcher/Runs.antt =====
-- Runs of `InboundBatcher` of src/extension/batcher.ts.
use mathlib.Core.List.{append-nil, append_assoc}
use pi_mesh.Prelude.{
  ℕ, ◌<◌, Bool, true, false, ◌||◌, List, [], ◌∷◌, ◌++◌, ◌≡◌, refl, ap, sym, ◌∙◌, arith,
  if◌then◌else◌, eqb, length,
}
use pi_mesh.Protocol.Frame.{MeshFrame}
use pi_mesh.Extension.Batcher.{
  InboundBatcher, new_batcher, push, give, flush_now, on_window, BatchEvent, pushing, flushing,
  window_ends, hold_ends, batch_step, run_batcher,
}

-- All batches, one after another.
unfoldable pub joined : List (List MeshFrame) → List MeshFrame
joined [] = []
joined (b ∷ bs) = b ++ joined bs

-- The frames that events push.
unfoldable pub pushed : List BatchEvent → List MeshFrame
pushed [] = []
pushed (pushing f ∷ es) = f ∷ pushed es
pushed (flushing ∷ es) = pushed es
pushed (window_ends busy ∷ es) = pushed es
pushed (hold_ends ∷ es) = pushed es

-- All frames of a batcher, those that were flushed first.
abbrev pub contents : InboundBatcher → List MeshFrame
contents b = joined b.flushed ++ b.frames

joined-append :
    (bs : List (List MeshFrame)) (c : List MeshFrame) → joined (bs ++ c ∷ []) ≡ joined bs ++ c
unfolding joined
joined-append [] c = append-nil c
joined-append (b ∷ bs) c = ap (◌++◌ b) (joined-append bs c) ∙ sym (append_assoc b (joined bs) c)

joined-give :
    (fs : List MeshFrame) (bs : List (List MeshFrame)) → joined (give fs bs) ≡ joined bs ++ fs
unfolding give
joined-give [] bs = sym (append-nil (joined bs))
joined-give (f ∷ fs) bs = joined-append bs (f ∷ fs)

contents-flush_now : (b : InboundBatcher) → contents (flush_now b) ≡ contents b
unfolding flush_now
contents-flush_now b =
    append-nil (joined (give b.frames b.flushed)) ∙ joined-give b.frames b.flushed

contents-on_window : (busy : Bool) (b : InboundBatcher) → contents (on_window busy b) ≡ contents b
unfolding on_window
contents-on_window busy b = ground (arith, contents-flush_now (record b { timer = false }))

contents-push :
    (window_ms : ℕ) (f : MeshFrame) (b : InboundBatcher)
    → contents (push window_ms f b) ≡ contents b ++ f ∷ []
unfolding push
contents-push window_ms f b = sym (append_assoc (joined b.flushed) b.frames (f ∷ []))

contents-run :
    (window_ms : ℕ) (es : List BatchEvent) (b : InboundBatcher)
    → contents (run_batcher window_ms es b) ≡ contents b ++ pushed es
unfolding run_batcher batch_step pushed
contents-run window_ms [] b = sym (append-nil (contents b))
contents-run window_ms (pushing f ∷ es) b =
    contents-run window_ms es (push window_ms f b)
    ∙ ap (λ (fs : List MeshFrame). fs ++ pushed es) (contents-push window_ms f b)
    ∙ append_assoc (contents b) (f ∷ []) (pushed es)
contents-run window_ms (flushing ∷ es) b =
    contents-run window_ms es (flush_now b)
    ∙ ap (λ (fs : List MeshFrame). fs ++ pushed es) (contents-flush_now b)
contents-run window_ms (window_ends busy ∷ es) b =
    let b' = if b.timer then on_window busy b else b in
    contents-run window_ms es b'
    ∙ ap (λ (fs : List MeshFrame). fs ++ pushed es) (ground (arith, contents-on_window busy b))
contents-run window_ms (hold_ends ∷ es) b =
    let b' = if b.max_timer then flush_now (record b { max_timer = false }) else b in
    contents-run window_ms es b'
    ∙ ap (λ (fs : List MeshFrame). fs ++ pushed es)
        (ground (arith, contents-flush_now (record b { max_timer = false })))

-- Whatever waits has a timer that will flush it.
abbrev pub IsTimed : InboundBatcher → Type 0
IsTimed b = (eqb (length b.frames) 0 || b.timer || b.max_timer) ≡ true

step-IsTimed :
    (window_ms : ℕ) (e : BatchEvent) (b : InboundBatcher)
    → 0 < window_ms
    → IsTimed b
    → IsTimed (batch_step window_ms e b)
unfolding batch_step push flush_now on_window
step-IsTimed window_ms (pushing f) b w t = ground arith
step-IsTimed window_ms flushing b w t = refl
step-IsTimed window_ms (window_ends busy) b w t = ground arith
step-IsTimed window_ms hold_ends b w t = ground arith

run-IsTimed :
    (window_ms : ℕ) (es : List BatchEvent) (b : InboundBatcher)
    → 0 < window_ms
    → IsTimed b
    → IsTimed (run_batcher window_ms es b)
unfolding run_batcher
run-IsTimed window_ms [] b w t = t
run-IsTimed window_ms (e ∷ es) b w t =
    run-IsTimed window_ms es (batch_step window_ms e b) w (step-IsTimed window_ms e b w t)

nothing_waits :
    (b : InboundBatcher) → IsTimed b → b.timer ≡ false → b.max_timer ≡ false → b.frames ≡ []
nothing_waits b t off max_off = empty_of b.frames (ground arith)
  where
    empty_of : (fs : List MeshFrame) → eqb (length fs) 0 ≡ true → fs ≡ []
    empty_of [] h = refl
    empty_of (f ∷ fs) h = absurd (ground arith)

-- With a window above zero, no frame is lost, repeated or reordered, however pushes, flushes and
-- timers follow one another, and none waits for ever: the frames that were flushed and then those
-- that wait are the frames that were pushed, in order; and when neither timer is armed, all that was
-- pushed has been flushed.
pub run_batcher-delivers :
    (window_ms : ℕ) (es : List BatchEvent)
    → 0 < window_ms
    → (contents (run_batcher window_ms es new_batcher) ≡ pushed es)
      × ((run_batcher window_ms es new_batcher).timer ≡ false
          → (run_batcher window_ms es new_batcher).max_timer ≡ false
          → joined (run_batcher window_ms es new_batcher).flushed ≡ pushed es)
unfolding joined
run_batcher-delivers window_ms es w =
    let b = run_batcher window_ms es new_batcher in
    let whole : contents b ≡ pushed es = contents-run window_ms es new_batcher in
    let timed : IsTimed b = run-IsTimed window_ms es new_batcher w refl in
    (
      whole,
      λ off max_off.
          sym (append-nil (joined b.flushed))
          ∙ ap (λ (fs : List MeshFrame). joined b.flushed ++ fs)
              (sym (nothing_waits b timed off max_off))
          ∙ whole,
    )
