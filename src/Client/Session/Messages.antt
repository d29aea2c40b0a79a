-- ===== src/Client/Session/Messages.antt =====
-- What `onFrame` of src/client/client.ts hands to the session.
use Prim.Native.String as Text
use mathlib.Core.List.{append-nil, append_assoc}
use pi_mesh.Prelude.{
  ℕ, String, true, false, List, [], ◌∷◌, ◌++◌, none, some, ◌≡◌, ◌⊎◌, inl, inr, refl, sym, ap, ◌∙◌,
  arith, subst, if-both, eqb, ◌&&◌, not, Bool, Option, ltb, ◌+◌, ◌*◌, get_or_else, if◌then◌else◌,
}
use pi_mesh.Dict
use pi_mesh.Protocol.Frame.{MeshFrame, FrameType}
use pi_mesh.Client.Session.{
  MeshClient, Emission, inbound, reply, every, ring, note_inbound_from, mark_reply_handled,
  is_duplicate_reply, is_recent, answer_key,
}
use pi_mesh.Client.Session.Reception.{on_reserve, answer_mission}
use pi_mesh.Client.Session.Replies.{
  ReplyFate, receipt, untargeted, awaited, repeated, orphaned, reply_fate, on_fate, on_reply,
  on_awaited, on_orphaned, on_type, on_frame, is_reply, body_of, taken, fate_to,
}
use pi_mesh.Broker.Routing.{is_set}
use pi_mesh.Client.Pending.{PendingReplies, is_launch, handle_reply}
use pi_mesh.Client.Session.Kept.{
  View, view, view-ring, view-store, view-note_inbound_from, view-resolve_lease, view-set_mission,
}
use pi_mesh.Client.Session.Hands.{
  handed, session_frames, session-append, Hands, same-Hands, emit-Hands, session-Hands, every-Hands,
  hands, ack-Hands, status-Hands, message-Hands, reserve-Hands, read-Hands, activity-Hands,
  presence-Hands, error-Hands, ctl-Hands,
}

-- An answer that comes once more does not reach the session.
abbrev pub frames_of : ReplyFate → MeshFrame → List MeshFrame
frames_of (repeated reply_to) frame = []
frames_of _ frame = frame ∷ []

abbrev last : View → List Emission
last v = v.1

module _ (sha256 : String → String) (now : ℕ) (frame : MeshFrame) where
  abbrev Gets : List MeshFrame → MeshClient → MeshClient → Type 0
  Gets fs c d = session_frames d.emitted ≡ session_frames c.emitted ++ fs

  gets-emit :
      (e : Emission) (c : MeshClient) (es : List Emission)
      → es ≡ c.emitted
      → session_frames (es ++ e ∷ []) ≡ session_frames c.emitted ++ handed e []
  unfolding session_frames
  gets-emit e c es same =
      session-append es (e ∷ []) ∙ ap (λ ds. session_frames ds ++ handed e []) same

  emitted-seen :
      (reply_to : String) (c : MeshClient)
      → (is_duplicate_reply sha256 reply_to (body_of frame) now c).0.emitted ≡ c.emitted
  unfolding is_duplicate_reply mark_reply_handled
  emitted-seen reply_to c = ground arith

  fate-Gets :
      (f : ReplyFate) (c : MeshClient) → Gets (frames_of f frame) c (on_fate sha256 now frame f c)
  unfolding on_awaited on_orphaned mark_reply_handled
  fate-Gets receipt c = gets-emit (inbound frame (some false)) c _ (ap last (view-store frame c))
  fate-Gets untargeted c =
      gets-emit (inbound frame none) c _
        (ap last (view-store frame _ ∙ view-note_inbound_from frame c))
  fate-Gets (awaited reply_to) c =
      let noted = note_inbound_from frame c in
      let marked =
        view-set_mission reply_to (answer_mission (body_of frame))
          (mark_reply_handled sha256 reply_to (body_of frame) now (taken sha256 now frame noted)) in
      let before = ap last (view-note_inbound_from frame c) in
      if-both (Gets (frame ∷ []) c)
        (is_launch reply_to noted.pending && eqb noted.wait_all_in_flight 0)
        (gets-emit (inbound frame (some true)) c _ (ap last (view-store frame _ ∙ marked) ∙ before))
        (gets-emit (reply frame) c _ (ap last marked ∙ before))
  fate-Gets (repeated reply_to) c =
      ap session_frames (ap last (view-note_inbound_from frame c)) ∙ sym (append-nil _)
  fate-Gets (orphaned reply_to) c = gets-emit (inbound frame none) c _ (
      ap last (view-store frame _)
      ∙ emitted-seen reply_to _
      ∙ ap last (view-note_inbound_from frame c))

  -- An answer that nobody awaits, and whose text, by its hash, has answered the same message less
  -- than half an hour ago by the table of the answers that were handled.
  abbrev pub is_late : Option ℕ → Bool
  is_late none = false
  is_late (some ts) = ltb now (ts + 30 * 60 * 1000)

  abbrev pub repeats : Option String → MeshClient → Bool
  repeats none c = false
  repeats (some r) c =
      not (Dict.has r c.pending.entries)
      && is_late (
          Dict.get (Text.◌++◌ r (Text.◌++◌ "|" (sha256 (get_or_else frame.body ""))))
            c.handled_reply_targets)

  -- The frames that the session gets when this frame arrives.
  abbrev pub frames_for : FrameType → MeshClient → List MeshFrame
  frames_for FrameType.msg c = frame ∷ []
  frames_for FrameType.mailbox c = frame ∷ []
  frames_for FrameType.remind c = frame ∷ []
  frames_for FrameType.reply c =
      if not (get_or_else frame.receipt false) && repeats frame.reply_to c then [] else frame ∷ []
  frames_for _ c = []

  same_recent : (o : Option ℕ) → is_recent sha256 o now ≡ is_late o
  same_recent o = ground arith

  pending-note : (c : MeshClient) → (note_inbound_from frame c).pending ≡ c.pending
  unfolding note_inbound_from
  pending-note c = ground arith

  marked_first :
      (r : String) (c : MeshClient)
      → (is_duplicate_reply sha256 r (body_of frame) now c).1
        ≡ is_recent sha256
            (Dict.get
              (Text.◌++◌ r (Text.◌++◌ "|" (sha256 (body_of frame))))
              c.handled_reply_targets)
            now
  unfolding is_duplicate_reply answer_key
  marked_first r c = ground arith

  duplicate_late :
      (r : String) (c : MeshClient)
      → (is_duplicate_reply sha256 r (body_of frame) now (note_inbound_from frame c)).1
        ≡ is_late (
            Dict.get
              (Text.◌++◌ r (Text.◌++◌ "|" (sha256 (get_or_else frame.body ""))))
              c.handled_reply_targets)
  duplicate_late r c =
      let at = Text.◌++◌ r (Text.◌++◌ "|" (sha256 (body_of frame))) in
      let kept =
        ap (λ (v : View). is_recent sha256 (Dict.get at v.0) now)
          (view-note_inbound_from frame c) in
      marked_first r (note_inbound_from frame c)
      ∙ kept
      ∙ same_recent (Dict.get at c.handled_reply_targets)

  awaits :
      (r : String) (p : PendingReplies)
      → frame.reply_to ≡ some r
      → (handle_reply frame p).1 ≡ Dict.has r p.entries
  unfolding handle_reply
  awaits r p n = ground (arith, n)

  chosen_frames :
      (r : String) (b d : Bool)
      → frames_of (if b then awaited r else if d then repeated r else orphaned r) frame
        ≡ (if not b && d then [] else frame ∷ [])
  chosen_frames r true d = refl
  chosen_frames r false true = refl
  chosen_frames r false false = refl

  fate_lem :
      (o : Option String) (c : MeshClient)
      → frame.reply_to ≡ o
      → frames_of (fate_to sha256 now frame o (note_inbound_from frame c)) frame
        ≡ (if repeats o c then [] else frame ∷ [])
  fate_lem none c n = refl
  fate_lem (some r) c n =
      let d = (is_duplicate_reply sha256 r (body_of frame) now (note_inbound_from frame c)).1 in
      chosen_frames r _ d
      ∙ ap (λ b. if not b && d then [] else frame ∷ [])
          (awaits r _ n ∙ ap (λ (p : PendingReplies). Dict.has r p.entries) (pending-note c))
      ∙ ap (λ b. if not (Dict.has r c.pending.entries) && b then [] else frame ∷ [])
          (duplicate_late r c)

  receipt_frames :
      (o : Option Bool) (f : ReplyFate) (b : Bool)
      → frames_of f frame ≡ (if b then [] else frame ∷ [])
      → frames_of (if is_set o then receipt else f) frame
        ≡ (if not (get_or_else o false) && b then [] else frame ∷ [])
  receipt_frames none f b e = e
  receipt_frames (some true) f b e = refl
  receipt_frames (some false) f b e = e

  reply_lem :
      (c : MeshClient)
      → frames_of (reply_fate sha256 now frame c) frame ≡ frames_for FrameType.reply c
  unfolding reply_fate
  reply_lem c =
      receipt_frames frame.receipt
        (fate_to sha256 now frame frame.reply_to (note_inbound_from frame c)) _
        (fate_lem frame.reply_to c refl)

  -- Only a reply changes the table of the answers that were handled.
  pub type-Hands :
      (t : FrameType) (c : MeshClient)
      → (FrameType.reply ≡ t)
        ⊎ ((is_reply t ≡ false)
            × Hands (frames_for t c) (view c) (view (on_type sha256 now frame t c)))
  unfolding on_type on_reserve
  type-Hands FrameType.lease c =
      inr (refl, every-Hands frame [] _ _ (same-Hands _ _ (view-resolve_lease frame c)))
  type-Hands FrameType.ctl_ack c =
      inr (refl, every-Hands frame [] _ _ (ctl-Hands frame c frame.reply_to))
  type-Hands FrameType.ack c = inr (refl, every-Hands frame [] _ _ (ack-Hands frame c))
  type-Hands FrameType.status_res c = inr (refl, every-Hands frame [] _ _ (status-Hands frame c))
  type-Hands FrameType.msg c =
      inr (refl, every-Hands frame (frame ∷ []) _ _ (message-Hands frame c))
  type-Hands FrameType.mailbox c =
      inr (refl, every-Hands frame (frame ∷ []) _ _ (message-Hands frame c))
  type-Hands FrameType.reserve c =
      inr (refl, every-Hands frame [] _ _ (reserve-Hands frame c frame.from))
  type-Hands FrameType.remind c = inr (
    refl,
    every-Hands frame (frame ∷ []) _ _ (emit-Hands (inbound frame none) [] _ _ (hands frame c)),
  )
  type-Hands FrameType.reply c = inl refl
  type-Hands FrameType.read c = inr (refl, every-Hands frame [] _ _ (read-Hands frame c))
  type-Hands FrameType.activity c = inr (refl, every-Hands frame [] _ _ (activity-Hands frame c))
  type-Hands FrameType.presence c = inr (refl, every-Hands frame [] _ _ (presence-Hands frame c))
  type-Hands FrameType.error c = inr (refl, error-Hands frame c)
  type-Hands _ c = inr (refl, every-Hands frame [] _ _ (hands frame c))

  reply-Gets :
      (c : MeshClient)
      → Gets (frames_for FrameType.reply c) c (on_type sha256 now frame FrameType.reply c)
  unfolding on_type on_reply
  reply-Gets c =
      let after = on_fate sha256 now frame (reply_fate sha256 now frame c) c in
      gets-emit (every frame) after after.emitted refl
      ∙ append-nil _
      ∙ fate-Gets (reply_fate sha256 now frame c) c
      ∙ ap (λ fs. session_frames c.emitted ++ fs) (reply_lem c)

  frame-Gets :
      (c : MeshClient) → Gets (frames_for frame.type (ring frame c)) c (on_frame sha256 now frame c)
  unfolding on_frame
  frame-Gets c =
      let r = ring frame c in
      let before =
        ap (λ es. session_frames es ++ frames_for frame.type r) (ap last (view-ring frame c)) in
      elim (type-Hands frame.type r) [
        | inl e ↦
            subst (λ t. Gets (frames_for t r) r (on_type sha256 now frame t r)) e (reply-Gets r)
            ∙ before
        | inr (other, h) ↦ session-Hands (frames_for frame.type r) (view r) _ h ∙ before
      ]

module _ (sha256 : String → String) where
  -- Frames that arrive one after another, each at its time.
  unfoldable pub run_frames : List (ℕ × MeshFrame) → MeshClient → MeshClient
  run_frames [] c = c
  run_frames ((now, frame) ∷ frames) c = run_frames frames (on_frame sha256 now frame c)

  unfoldable pub messages_of : List (ℕ × MeshFrame) → MeshClient → List MeshFrame
  messages_of [] c = []
  messages_of ((now, frame) ∷ frames) c =
      frames_for sha256 now frame frame.type (ring frame c)
      ++ messages_of frames (on_frame sha256 now frame c)

  -- Whatever frames arrive, the session gets, once and in the order of their arrival, every message,
  -- every message from a mailbox, every reminder and every reply but the repeated ones, and nothing
  -- else. A reply is repeated exactly if it is no receipt, names a message whose answer nobody
  -- awaits, and the client's table of handled answers says that the same text, by its hash, has
  -- answered the same message less than half an hour ago.
  pub run_frames-messages :
      (frames : List (ℕ × MeshFrame)) (c : MeshClient)
      → session_frames (run_frames frames c).emitted
        ≡ session_frames c.emitted ++ messages_of frames c
  unfolding run_frames messages_of
  run_frames-messages [] c = sym (append-nil _)
  run_frames-messages ((now, frame) ∷ frames) c =
      run_frames-messages frames (on_frame sha256 now frame c)
      ∙ ap (λ fs. fs ++ messages_of frames (on_frame sha256 now frame c))
          (frame-Gets sha256 now frame c)
      ∙ append_assoc (session_frames c.emitted) _ _
