-- ===== src/Client/Session/Hands.antt =====
-- What the cases of `onFrame` of src/client/client.ts hand to the session, but that of replies.
use mathlib.Core.List.{append-nil, append_assoc}
use pi_mesh.Prelude.{
  String, List, [], ◌∷◌, ◌++◌, Option, none, some, ◌≡◌, refl, sym, ap, ◌∙◌, arith, subst, if-both,
  ◌==◌, get_or_else,
}
use pi_mesh.Dict
use pi_mesh.Protocol.Frame.{MeshFrame}
use pi_mesh.Client.Session.{
  MeshClient, Emission, inbound, reply, dropped_offline, read, presence, every, reservations,
}
use pi_mesh.Client.Session.Reception.{
  on_ack, on_dropped, on_status_res, on_message, on_read, on_activity, on_presence, on_error,
  fail_mission, reserve_by, ctl_ack_to, fail_mission,
}
use pi_mesh.Client.Session.Kept.{
  View, view, view-store, view-note_inbound_from, view-resolve_ctl, view-resolve_ack,
  view-resolve_status, view-set_mission, view-apply_peer_reservations, view-read_by_peer,
  view-active_peer, view-presence_of,
}

-- The frames that the session gets, of those that were emitted.
abbrev pub handed : Emission → List MeshFrame → List MeshFrame
handed (inbound frame matched) rest = frame ∷ rest
handed (reply frame) rest = frame ∷ rest
handed _ rest = rest

unfoldable pub session_frames : List Emission → List MeshFrame
session_frames [] = []
session_frames (e ∷ es) = handed e (session_frames es)

handed-append : (e : Emission) (fs gs : List MeshFrame) → handed e (fs ++ gs) ≡ handed e fs ++ gs
handed-append e fs gs = ground arith

pub session-append :
    (es fs : List Emission) → session_frames (es ++ fs) ≡ session_frames es ++ session_frames fs
unfolding session_frames
session-append [] fs = refl
session-append (e ∷ es) fs =
    ap (handed e) (session-append es fs) ∙ handed-append e (session_frames es) (session_frames fs)

-- From one state to another something is emitted of which the session gets these frames, and the
-- table of the answers that were handled stays as it is.
abbrev pub Hands : List MeshFrame → View → View → Type 0
Hands fs v w = (w.0 ≡ v.0) × ((es : List Emission) × (w.1 ≡ v.1 ++ es) × (session_frames es ≡ fs))

pub same-Hands : (v w : View) → w ≡ v → Hands [] v w
unfolding session_frames
same-Hands v w e =
    (ap (λ (u : View). u.0) e, ([], ap (λ (u : View). u.1) e ∙ sym (append-nil v.1), refl))

pub emit-Hands :
    (e : Emission) (fs : List MeshFrame) (v w : View)
    → Hands fs v w
    → Hands (fs ++ handed e []) v (w.0, w.1 ++ e ∷ [])
unfolding session_frames
emit-Hands e fs v w (h, (es, m, k)) = (
  h,
  (
    es ++ e ∷ [],
    ap (λ ds. ds ++ e ∷ []) m ∙ append_assoc v.1 es (e ∷ []),
    session-append es (e ∷ []) ∙ ap (λ gs. gs ++ handed e []) k,
  ),
)

-- What the session has in the end.
pub session-Hands :
    (fs : List MeshFrame) (v w : View)
    → Hands fs v w
    → session_frames w.1 ≡ session_frames v.1 ++ fs
session-Hands fs v w (h, (es, m, k)) =
    ap session_frames m ∙ session-append v.1 es ∙ ap (λ gs. session_frames v.1 ++ gs) k

pub every-Hands :
    (frame : MeshFrame) (fs : List MeshFrame) (v w : View)
    → Hands fs v w
    → Hands fs v (w.0, w.1 ++ every frame ∷ [])
every-Hands frame fs v w h =
    subst (λ gs. Hands gs v (w.0, w.1 ++ every frame ∷ [])) (append-nil fs)
      (emit-Hands (every frame) fs v w h)

module _ (frame : MeshFrame) (c : MeshClient) where
  abbrev From : List MeshFrame → MeshClient → Type 0
  From fs d = Hands fs (view c) (view d)

  pub hands : From [] c
  hands = same-Hands (view c) (view c) refl

  pub ack-Hands : From [] (on_ack frame c)
  unfolding on_ack on_dropped
  ack-Hands =
      if-both (From []) (Dict.has frame.id c.ack_waiters)
        (same-Hands _ _ (view-resolve_ack frame c))
        (if-both (From []) (get_or_else frame.status "" == "dropped_offline")
          (emit-Hands (dropped_offline frame) [] _ _
            (same-Hands _ _ (view-set_mission frame.id fail_mission _)))
          hands)

  pub status-Hands : From [] (on_status_res frame c)
  unfolding on_status_res
  status-Hands = same-Hands _ _ (view-resolve_status frame _)

  pub message-Hands : From (frame ∷ []) (on_message frame c)
  unfolding on_message
  message-Hands =
      emit-Hands (inbound frame none) [] _ _
        (same-Hands _ _ (view-note_inbound_from frame _ ∙ view-store frame c))

  pub reserve-Hands : (from : Option String) → From [] (reserve_by from frame c)
  reserve-Hands none = hands
  reserve-Hands (some alias) =
      let theirs = get_or_else frame.reservations [] in
      if-both (From []) (alias == c.alias) hands (
        emit-Hands (reservations alias theirs) [] _ _
          (same-Hands _ _ (view-apply_peer_reservations alias frame.reservations c)))

  pub read-Hands : From [] (on_read frame c)
  unfolding on_read
  read-Hands =
      emit-Hands (read frame) [] _ _ (same-Hands _ _ (view-read_by_peer frame.reads frame.from c))

  pub activity-Hands : From [] (on_activity frame c)
  unfolding on_activity
  activity-Hands = every-Hands frame [] _ _ (same-Hands _ _ (view-active_peer frame.from _ c))

  pub presence-Hands : From [] (on_presence frame c)
  unfolding on_presence
  presence-Hands =
      emit-Hands (presence frame) [] _ _ (same-Hands _ _ (view-presence_of frame.from frame c))

  pub error-Hands : From [] (on_error frame c)
  unfolding on_error
  error-Hands = every-Hands frame [] _ _ (
      same-Hands _ _ (
        view-resolve_ctl frame.id frame _ ∙ view-resolve_status frame _ ∙ view-resolve_ack frame c))

  pub ctl-Hands : (key : Option String) → From [] (ctl_ack_to key frame c)
  ctl-Hands none = hands
  ctl-Hands (some key) = same-Hands _ _ (view-resolve_ctl key frame c)
