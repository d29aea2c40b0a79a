-- ===== src/Client/Session/Handled.antt =====
-- What the case of replies of `onFrame` of src/client/client.ts emits and marks as handled.
use mathlib.Core.List.{append-nil, append_assoc}
use pi_mesh.Prelude.{
  true, ◌&&◌, get_or_else, ◌++◌, refl, ℕ, String, Bool, false, not, List, [], ◌∷◌, Option, none,
  some, ◌≡◌, sym, ap, ◌∙◌, subst, arith, if-both, if-both_eq,
}
use pi_mesh.Dict
use pi_mesh.Dict.{Dict}
use pi_mesh.Dict.Recent.{All-imp, fresh_key}
use pi_mesh.Protocol.Frame.{MeshFrame}
use pi_mesh.Broker.Routing.{is_set}
use pi_mesh.Client.Pending.{handle_reply}
use pi_mesh.Client.Session.{
  MeshClient, store, note_inbound_from, handled_reply_window_ms, answer_key, Emission, inbound,
  reply, every, emit, mark_reply_handled, is_duplicate_reply, is_recent,
}
use pi_mesh.Client.Session.Reception.{answer_mission}
use pi_mesh.Client.Session.Replies.{
  ReplyFate, reply_fate, on_fate, on_awaited, on_orphaned, body_of, taken, targeted_fate, fate_to,
  is_reply,
}
use pi_mesh.Client.Session.Kept.{view, view-store, view-note_inbound_from, view-set_mission}
use pi_mesh.Client.Session.Emitted.{
  Answer, awaited_answer, unawaited_answer, entry_of, IsOld, Known, IsKept, marked, marked-Unique,
  marked-Known, marked-here, first, second, note, key, key_at, key_of, answer_in, add_answers,
  add_answers-every, note-quiet,
}

module _ (sha256 : String → String) (now : ℕ) (frame : MeshFrame) where
  handled-awaited :
      (wake : Bool) (r : String) (c : MeshClient)
      → (on_awaited sha256 now frame wake r c).handled_reply_targets
        ≡ marked (key sha256 r frame) now c.handled_reply_targets
  unfolding on_awaited mark_reply_handled answer_key
  handled-awaited wake r c =
      let seen = mark_reply_handled sha256 r (body_of frame) now c in
      let same = ap first (view-set_mission r (answer_mission (body_of frame)) seen) in
      if-both
        (λ (d : MeshClient).
          d.handled_reply_targets ≡ marked (key sha256 r frame) now c.handled_reply_targets)
        wake (ap first (view-store frame _) ∙ same) same

  handled-orphaned :
      (r : String) (c : MeshClient)
      → is_recent sha256 (Dict.get (key sha256 r frame) c.handled_reply_targets) now ≡ false
      → (on_orphaned sha256 now frame r c).handled_reply_targets
        ≡ marked (key sha256 r frame) now (marked (key sha256 r frame) now c.handled_reply_targets)
  unfolding on_orphaned mark_reply_handled is_duplicate_reply answer_key
  handled-orphaned r c new = ap first (view-store frame _) ∙ ground (arith, new)

  awaited-IsKept :
      (k : String) (h : Dict ℕ) (log : List Answer)
      → IsKept h now log
      → IsKept (marked k now h) now (awaited_answer k now ∷ log)
  awaited-IsKept k h log (u, known, fine) =
      (marked-Unique k now h u, (marked-here k now h u, marked-Known k now h log u known), fine)

  orphaned-IsKept :
      (k : String) (h : Dict ℕ) (log : List Answer)
      → is_recent sha256 (Dict.get k h) now ≡ false
      → IsKept h now log
      → IsKept (marked k now (marked k now h)) now (unawaited_answer k now ∷ log)
  orphaned-IsKept k h log new (u, known, fine) =
      let (u2, (here, known2), _) = awaited-IsKept k h log (u, known, fine) in
      (
        marked-Unique k now _ u2,
        marked-Known k now _ (unawaited_answer k now ∷ log) u2 (here, known2),
        (
          All-imp (Known h now) (IsOld k now)
              (λ a.
                fresh_key handled_reply_window_ms h k now (entry_of a) (λ s e. ground (arith, new)))
              log known,
          fine,
        ),
      )

  -- What was emitted from one state to another is told by the log, and the table knows of it.
  abbrev pub Kept : MeshClient → List Answer → MeshClient → Type 0
  Kept c log d =
      (es : List Emission) × (d.emitted ≡ c.emitted ++ es)
      × IsKept d.handled_reply_targets now (add_answers sha256 now es log)

  pub move : (log : List Answer) (d e : Dict ℕ) → d ≡ e → IsKept e now log → IsKept d now log
  move log d e same k = subst (λ h. IsKept h now log) (sym same) k

  Kept-one :
      (e : Emission) (d c : MeshClient) (log : List Answer)
      → d.emitted ≡ c.emitted ++ e ∷ []
      → IsKept d.handled_reply_targets now (answer_in sha256 now e log)
      → Kept c log d
  unfolding add_answers
  Kept-one e d c log m k = (e ∷ [], m, k)

  pub Kept-every :
      (c d : MeshClient) (log : List Answer) → Kept c log d → Kept c log (emit (every frame) d)
  Kept-every c d log (es, m, k) = (
    es ++ every frame ∷ [],
    ap (λ ds. ds ++ every frame ∷ []) m ∙ append_assoc c.emitted es (every frame ∷ []),
    subst (IsKept d.handled_reply_targets now) (sym (add_answers-every sha256 now frame es log)) k,
  )

  duplicate_recent :
      (r : String) (c : MeshClient)
      → (is_duplicate_reply sha256 r (body_of frame) now c).1
        ≡ is_recent sha256 (Dict.get (key sha256 r frame) c.handled_reply_targets) now
  unfolding is_duplicate_reply answer_key
  duplicate_recent r c = ground arith

  emitted-seen :
      (r : String) (c : MeshClient)
      → (is_duplicate_reply sha256 r (body_of frame) now c).0.emitted ≡ c.emitted
  unfolding is_duplicate_reply mark_reply_handled
  emitted-seen r c = ground arith

  emitted-marked :
      (r : String) (c : MeshClient)
      → (mark_reply_handled sha256 r (body_of frame) now c).emitted ≡ c.emitted
  unfolding mark_reply_handled
  emitted-marked r c = refl

  -- An answer that was awaited is one event.
  awaited-Kept :
      (wake : Bool) (r : String) (x c : MeshClient) (log : List Answer)
      → key_of sha256 frame ≡ some (key sha256 r frame)
      → x.emitted ≡ c.emitted
      → IsKept
          (on_awaited sha256 now frame wake r x).handled_reply_targets
          now
          (awaited_answer (key sha256 r frame) now ∷ log)
      → Kept c log (on_awaited sha256 now frame wake r x)
  unfolding on_awaited
  awaited-Kept true r x c log named same k =
      let marked =
        view-set_mission r (answer_mission (body_of frame))
          (mark_reply_handled sha256 r (body_of frame) now x) in
      Kept-one (inbound frame (some true)) (on_awaited sha256 now frame true r x) c log
        (ap (λ es. es ++ inbound frame (some true) ∷ [])
          (ap second (view-store frame _ ∙ marked) ∙ emitted-marked r x ∙ same))
        (subst
          (λ o.
            IsKept (on_awaited sha256 now frame true r x).handled_reply_targets now
              (note awaited_answer o now log))
          (sym named) k)
  awaited-Kept false r x c log named same k =
      let marked =
        view-set_mission r (answer_mission (body_of frame))
          (mark_reply_handled sha256 r (body_of frame) now x) in
      Kept-one (reply frame) (on_awaited sha256 now frame false r x) c log
        (ap (λ es. es ++ reply frame ∷ []) (ap second marked ∙ emitted-marked r x ∙ same))
        (subst
          (λ o.
            IsKept (on_awaited sha256 now frame false r x).handled_reply_targets now
              (note awaited_answer o now log))
          (sym named) k)

  orphaned-Kept :
      (r : String) (x c : MeshClient) (log : List Answer)
      → key_of sha256 frame ≡ some (key sha256 r frame)
      → x.emitted ≡ c.emitted
      → IsKept
          (on_orphaned sha256 now frame r x).handled_reply_targets
          now
          (unawaited_answer (key sha256 r frame) now ∷ log)
      → Kept c log (on_orphaned sha256 now frame r x)
  unfolding on_orphaned
  orphaned-Kept r x c log named same k =
      Kept-one (inbound frame none) (on_orphaned sha256 now frame r x) c log
        (ap (λ es. es ++ inbound frame none ∷ [])
          (ap second (view-store frame _) ∙ emitted-marked r _ ∙ emitted-seen r x ∙ same))
        (subst
          (λ o.
            IsKept (on_orphaned sha256 now frame r x).handled_reply_targets now
              (note unawaited_answer o now log))
          (sym named) k)

  abbrev Good : MeshClient → List Answer → ReplyFate → Type 0
  Good c log f = Kept c log (on_fate sha256 now frame f c)

  targeted-IsKept :
      (c : MeshClient) (log : List Answer) (r : String)
      → key_of sha256 frame ≡ some (key sha256 r frame)
      → IsKept c.handled_reply_targets now log
      → Good c log (targeted_fate sha256 now frame r (note_inbound_from frame c))
  unfolding add_answers
  targeted-IsKept c log r named i =
      let noted = note_inbound_from frame c in
      let h = noted.handled_reply_targets in
      let k = key sha256 r frame in
      let same = view-note_inbound_from frame c in
      let at : IsKept h now log = move log h c.handled_reply_targets (ap first same) i in
      let after : MeshClient = taken sha256 now frame noted in
      if-both (Good c log) (handle_reply frame noted.pending).1
        (awaited-Kept _ r after c log named (ap second same) (
          move (awaited_answer k now ∷ log) _ _ (handled-awaited _ r after)
            (awaited-IsKept k h log at)))
        (if-both_eq (Good c log) (is_duplicate_reply sha256 r (body_of frame) now noted).1
          (λ _. ([], ap second same ∙ sym (append-nil _), at))
          (λ new.
            let fresh = sym (duplicate_recent r noted) ∙ new in
            orphaned-Kept r after c log named (ap second same) (
              move (unawaited_answer k now ∷ log) _ _ (handled-orphaned r after fresh)
                (orphaned-IsKept k h log fresh at))))

  inbound-quiet :
      (b : Option Bool) (log : List Answer)
      → key_of sha256 frame ≡ none
      → answer_in sha256 now (inbound frame b) log ≡ log
  inbound-quiet none log q = note-quiet sha256 unawaited_answer _ now log q
  inbound-quiet (some true) log q = note-quiet sha256 awaited_answer _ now log q
  inbound-quiet (some false) log q = note-quiet sha256 unawaited_answer _ now log q

  quiet-Kept :
      (b : Option Bool) (x c : MeshClient) (log : List Answer)
      → key_of sha256 frame ≡ none
      → view x ≡ view c
      → IsKept c.handled_reply_targets now log
      → Kept c log (emit (inbound frame b) x)
  quiet-Kept b x c log q same i =
      Kept-one (inbound frame b) (emit (inbound frame b) x) c log
        (ap (λ es. es ++ inbound frame b ∷ []) (ap second same))
        (move _ x.handled_reply_targets c.handled_reply_targets (ap first same)
          (subst (IsKept c.handled_reply_targets now) (sym (inbound-quiet b log q)) i))

  fate_to-IsKept :
      (o : Option String) (c : MeshClient) (log : List Answer)
      → key_of sha256 frame ≡ key_at sha256 true o frame
      → IsKept c.handled_reply_targets now log
      → Good c log (fate_to sha256 now frame o (note_inbound_from frame c))
  fate_to-IsKept none c log q i =
      quiet-Kept none (store frame (note_inbound_from frame c)) c log q
        (view-store frame _ ∙ view-note_inbound_from frame c) i
  fate_to-IsKept (some r) c log named i = targeted-IsKept c log r named i

  set-get : (o : Option Bool) → get_or_else o false ≡ is_set o
  set-get none = refl
  set-get (some b) = refl

  key-receipt :
      (b : Bool)
      → is_reply frame.type ≡ true
      → is_set frame.receipt ≡ b
      → key_of sha256 frame ≡ key_at sha256 (not b) frame.reply_to frame
  key-receipt b e s =
      ap (λ x. key_at sha256 (x && not (get_or_else frame.receipt false)) frame.reply_to frame) e
      ∙ ap (λ x. key_at sha256 (not x) frame.reply_to frame) (set-get frame.receipt ∙ s)

  pub reply-IsKept :
      (c : MeshClient) (log : List Answer)
      → is_reply frame.type ≡ true
      → IsKept c.handled_reply_targets now log
      → Good c log (reply_fate sha256 now frame c)
  unfolding reply_fate
  reply-IsKept c log e i =
      if-both_eq (Good c log) (is_set frame.receipt)
        (λ yes.
          quiet-Kept (some false) (store frame c) c log (key-receipt true e yes)
            (view-store frame c) i)
        (λ no. fate_to-IsKept frame.reply_to c log (key-receipt false e no) i)
