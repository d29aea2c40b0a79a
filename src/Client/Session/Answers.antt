-- ===== src/Client/Session/Answers.antt =====
-- Which answers `onFrame` of src/client/client.ts takes for a repetition.
use pi_mesh.Prelude.{
  ◌&&◌, get_or_else, drop, length, ◌++◌, refl, ℕ, ◌≤◌, String, false, not, List, [], ◌∷◌, none, ◌≡◌,
  inl, inr, sym, ap, ◌∙◌, subst, All, if-both,
}
use pi_mesh.Dict.Laws.{Unique}
use pi_mesh.Dict.Recent.{All-imp, IsKnown-later}
use pi_mesh.Protocol.Frame.{MeshFrame, FrameType}
use pi_mesh.Client.Session.{MeshClient, ring, handled_reply_window_ms}
use pi_mesh.Client.Session.Replies.{reply_fate, on_fate, on_reply, on_type, on_frame, is_reply}
use pi_mesh.Client.Session.Kept.{view-ring}
use pi_mesh.Client.Session.Messages.{type-Hands, frames_for, repeats}
use pi_mesh.Client.Session.Emitted.{
  Answer, entry_of, IsUnrepeated, Known, IsKept, first, second, drop-length, key_at, key_of,
  add_answers, add_answers-quiet, IsQuiet,
}
use pi_mesh.Client.Session.Handled.{Kept, move, Kept-every, reply-IsKept}

module _ (sha256 : String → String) (now : ℕ) (frame : MeshFrame) where
  frames_for-IsQuiet :
      (t : FrameType) (c : MeshClient)
      → key_of sha256 frame ≡ none
      → All (IsQuiet sha256) (frames_for sha256 now frame t c)
  frames_for-IsQuiet FrameType.msg c q = (q, tt)
  frames_for-IsQuiet FrameType.mailbox c q = (q, tt)
  frames_for-IsQuiet FrameType.remind c q = (q, tt)
  frames_for-IsQuiet FrameType.reply c q =
      if-both (All (IsQuiet sha256))
        (not (get_or_else frame.receipt false) && repeats sha256 now frame frame.reply_to c) tt
        (q, tt)
  frames_for-IsQuiet _ c q = tt

  type-IsKept :
      (t : FrameType) (c : MeshClient) (log : List Answer)
      → t ≡ frame.type
      → IsKept c.handled_reply_targets now log
      → Kept sha256 now frame c log (on_type sha256 now frame t c)
  unfolding on_type on_reply
  type-IsKept t c log same i = elim (type-Hands sha256 now frame t c) [
    | inl e ↦
        subst (λ u. Kept sha256 now frame c log (on_type sha256 now frame u c)) e
          (Kept-every sha256 now frame c
            (on_fate sha256 now frame (reply_fate sha256 now frame c) c) log
            (reply-IsKept sha256 now frame c log (ap is_reply (sym (e ∙ same))) i))
    | inr (other, (h, (es, m, k))) ↦
        let q =
          ap (λ b. key_at sha256 (b && not (get_or_else frame.receipt false)) frame.reply_to frame)
            (ap is_reply (sym same) ∙ other) in
        let quiet = subst (All (IsQuiet sha256)) (sym k) (frames_for-IsQuiet t c q) in
        (
          es,
          m,
          move sha256 now frame _ _ _ h (
              subst (IsKept c.handled_reply_targets now)
                (sym (add_answers-quiet sha256 now es log quiet)) i),
        )
  ]

module _ (sha256 : String → String) where
  -- The answers that the client hands to the session while frames arrive, read off from what it
  -- emits, the last one first.
  unfoldable pub run_answers : List (ℕ × MeshFrame) → MeshClient → List Answer → List Answer
  run_answers [] c log = log
  run_answers ((now, frame) ∷ frames) c log =
      let d = on_frame sha256 now frame c in
      run_answers frames d (add_answers sha256 now (drop (length c.emitted) d.emitted) log)

  -- The frames arrive in the order of their times.
  abbrev pub IsTimed : ℕ → List (ℕ × MeshFrame) → Type 0
  IsTimed start [] = Unit
  IsTimed start ((now, frame) ∷ frames) = (start ≤ now) × IsTimed now frames

  run-IsKept :
      (frames : List (ℕ × MeshFrame)) (start : ℕ) (c : MeshClient) (log : List Answer)
      → IsTimed start frames
      → IsKept c.handled_reply_targets start log
      → IsUnrepeated (run_answers frames c log)
  unfolding run_answers on_frame
  run-IsKept [] start c log t (u, known, fine) = fine
  run-IsKept ((now, frame) ∷ frames) start c log (le, t) (u, known, fine) =
      let later =
        All-imp (Known c.handled_reply_targets start) (Known c.handled_reply_targets now)
          (λ a.
            IsKnown-later handled_reply_window_ms c.handled_reply_targets start now (entry_of a) le)
          log known in
      let r = ring frame c in
      let same = view-ring frame c in
      let d = on_frame sha256 now frame c in
      let (es, m, k) =
        type-IsKept sha256 now frame frame.type r log refl
          (move sha256 now frame log _ _ (ap first same) (u, later, fine)) in
      let new =
        ap (drop (length c.emitted)) (m ∙ ap (λ ds. ds ++ es) (ap second same))
        ∙ drop-length c.emitted es in
      run-IsKept frames now d _ t (
        subst (λ ds. IsKept d.handled_reply_targets now (add_answers sha256 now ds log)) (sym new)
          k)

  -- Whatever frames arrive at a client that has handled no answer, at times that do not go back,
  -- every answer that it emits as one that was not awaited comes half an hour at least after every
  -- answer emitted before it, awaited or not, with the same text, by its hash, to the same message.
  -- (An answer is a reply that is no receipt and names a message.)
  pub run_answers-IsUnrepeated :
      (frames : List (ℕ × MeshFrame)) (c : MeshClient)
      → c.handled_reply_targets ≡ []
      → IsTimed 0 frames
      → IsUnrepeated (run_answers frames c [])
  run_answers-IsUnrepeated frames c none_handled t =
      run-IsKept frames 0 c [] t (subst Unique (sym none_handled) tt, tt, tt)
