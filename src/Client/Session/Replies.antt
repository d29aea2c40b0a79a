-- ===== src/Client/Session/Replies.antt =====
-- The case of replies of `onFrame` of src/client/client.ts, and the whole of it.
use pi_mesh.Prelude.{
  ℕ, String, Bool, true, false, ◌&&◌, Option, none, some, if◌then◌else◌, eqb, get_or_else,
}
use pi_mesh.Protocol.Frame.{MeshFrame, FrameType}
use pi_mesh.Broker.Routing.{is_set}
use pi_mesh.Client.Pending.{is_launch, handle_reply, unmatched_reply}
use pi_mesh.Client.Session.{
  MeshClient, inbound, reply, every, emit, ring, store, note_inbound_from, mark_reply_handled,
  is_duplicate_reply,
}
use pi_mesh.Client.Session.Reception.{
  resolve_lease, ctl_ack_to, set_mission, answer_mission, on_ack, on_status_res, on_message,
  on_reserve, on_read, on_activity, on_presence, on_error,
}

-- What comes of a reply: the outcome of an interruption, a reply to nothing, an answer that is
-- awaited, the same answer once more, and an answer that nobody awaits.
pub data ReplyFate : Type 0 where
  receipt untargeted : ReplyFate
  awaited repeated orphaned : String → ReplyFate

abbrev pub body_of : MeshFrame → String
body_of frame = get_or_else frame.body ""

abbrev pub is_reply : FrameType → Bool
is_reply FrameType.reply = true
is_reply _ = false

abbrev pub counted : MeshClient → MeshClient
counted c = record c { pending = unmatched_reply c.pending }

module _ (sha256 : String → String) (now : ℕ) (frame : MeshFrame) where
  abbrev pub unmatched_fate : String → MeshClient → ReplyFate
  unmatched_fate reply_to c =
      if (is_duplicate_reply sha256 reply_to (body_of frame) now c).1
      then repeated reply_to
      else orphaned reply_to

  abbrev pub targeted_fate : String → MeshClient → ReplyFate
  targeted_fate reply_to c =
      if (handle_reply frame c.pending).1 then awaited reply_to else unmatched_fate reply_to c

  abbrev pub fate_to : Option String → MeshClient → ReplyFate
  fate_to none c = untargeted
  fate_to (some reply_to) c = targeted_fate reply_to c

  unfoldable pub reply_fate : MeshClient → ReplyFate
  reply_fate c =
      if is_set frame.receipt then receipt else fate_to frame.reply_to (note_inbound_from frame c)

  -- An answer to a message that was launched wakes the session, if nothing waits for it.
  unfoldable pub on_awaited : Bool → String → MeshClient → MeshClient
  on_awaited wake reply_to c =
      let marked : MeshClient =
        set_mission reply_to (answer_mission (body_of frame))
          (mark_reply_handled sha256 reply_to (body_of frame) now c) in
      if wake
      then emit (inbound frame (some true)) (store frame marked)
      else emit (reply frame) marked

  unfoldable pub on_orphaned : String → MeshClient → MeshClient
  on_orphaned reply_to c =
      let seen = (is_duplicate_reply sha256 reply_to (body_of frame) now c).0 in
      emit (inbound frame none)
        (store frame (mark_reply_handled sha256 reply_to (body_of frame) now seen))

  -- `pending.handleReply` removes the entry of an awaited answer, and counts every other.
  abbrev pub taken : MeshClient → MeshClient
  taken c = record c { pending = (handle_reply frame c.pending).0 }

  abbrev pub on_fate : ReplyFate → MeshClient → MeshClient
  on_fate receipt c = emit (inbound frame (some false)) (store frame c)
  on_fate untargeted c = emit (inbound frame none) (store frame (note_inbound_from frame c))
  on_fate (awaited reply_to) c =
      let noted = note_inbound_from frame c in
      on_awaited (is_launch reply_to noted.pending && eqb noted.wait_all_in_flight 0) reply_to
        (taken noted)
  on_fate (repeated reply_to) c = counted (taken (note_inbound_from frame c))
  on_fate (orphaned reply_to) c = on_orphaned reply_to (taken (note_inbound_from frame c))

  unfoldable pub on_reply : MeshClient → MeshClient
  on_reply c = on_fate (reply_fate c) c

  -- The `switch`; an error returns before the last call of `emit`.
  unfoldable pub on_type : FrameType → MeshClient → MeshClient
  on_type FrameType.lease c = emit (every frame) (resolve_lease frame c)
  on_type FrameType.ctl_ack c = emit (every frame) (ctl_ack_to frame.reply_to frame c)
  on_type FrameType.ack c = emit (every frame) (on_ack frame c)
  on_type FrameType.status_res c = emit (every frame) (on_status_res frame c)
  on_type FrameType.msg c = emit (every frame) (on_message frame c)
  on_type FrameType.mailbox c = emit (every frame) (on_message frame c)
  on_type FrameType.reserve c = emit (every frame) (on_reserve frame c)
  on_type FrameType.remind c = emit (every frame) (emit (inbound frame none) c)
  on_type FrameType.reply c = emit (every frame) (on_reply c)
  on_type FrameType.read c = emit (every frame) (on_read frame c)
  on_type FrameType.activity c = emit (every frame) (on_activity frame c)
  on_type FrameType.presence c = emit (every frame) (on_presence frame c)
  on_type FrameType.error c = on_error frame c
  on_type _ c = emit (every frame) c

  unfoldable pub on_frame : MeshClient → MeshClient
  on_frame c = on_type frame.type (ring frame c)
