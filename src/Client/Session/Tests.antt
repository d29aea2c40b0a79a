-- ===== src/Client/Session/Tests.antt =====
-- `onFrame` of src/client/client.ts on a few frames.
use pi_mesh.Prelude.{ℕ, String, List, [], ◌∷◌, ◌++◌, none, some, ◌≡◌, refl, arith}
use pi_mesh.Dict
use pi_mesh.Protocol.Frame.{MeshFrame, build_frame, FrameType}
use pi_mesh.Client.Pending.{new_pending}
use pi_mesh.Client.Session.{MeshClient}
use pi_mesh.Client.Session.Rooms.{IsChosen, resolve_send_room, resolve_send_room-IsChosen}
use pi_mesh.Client.Session.Hands.{session_frames}
use pi_mesh.Client.Session.Messages.{run_frames, messages_of, run_frames-messages}
use pi_mesh.Client.Session.Answers.{run_answers, run_answers-IsUnrepeated}
use pi_mesh.Client.Session.Emitted.{unawaited_answer, IsUnrepeated}

abbrev no_hash : String → String
no_hash s = s

abbrev client : MeshClient
client = record {
  alias = "ann";
  project_room = none;
  joined_rooms = ("default", tt) ∷ ("docs", tt) ∷ [];
  transcript = [];
  inbox = [];
  last_inbound_from = [];
  pending = new_pending;
  awaited_missions = [];
  handled_reply_targets = [];
  wait_all_in_flight = 0;
  read_by = [];
  peer_reservations = [];
  peer_activity = [];
  known_peers = [];
  peer_rooms = ("bob", ("docs", tt) ∷ []) ∷ [];
  ack_waiters = ("m_2", 7) ∷ [];
  status_waiters = [];
  ctl_waiters = [];
  lease_waiters = [];
  resolved = [];
  emitted = [];
}

abbrev message : MeshFrame
message = record (build_frame FrameType.msg "m_1") { from = some "bob" }

abbrev answer : String → String → MeshFrame
answer id text = record (build_frame FrameType.reply id) {
  from = some "bob";
  reply_to = some "m_9";
  body = some text;
}

abbrev frames : List (ℕ × MeshFrame)
frames =
    (1, message)
    ∷ (2, answer "r_1" "done")
    ∷ (3, answer "r_2" "done")
    ∷ (4, answer "r_3" "really done")
    ∷ (5, build_frame FrameType.ack "m_2")
    ∷ []

handed_over :
    session_frames (run_frames no_hash frames client).emitted
    ≡ message ∷ answer "r_1" "done" ∷ answer "r_3" "really done" ∷ []
unfolding session_frames run_frames pi_mesh.Client.Session.Replies.on_frame
    pi_mesh.Client.Session.Replies.on_type pi_mesh.Client.Session.Replies.on_reply
    pi_mesh.Client.Session.Replies.reply_fate pi_mesh.Client.Session.Replies.on_orphaned
    pi_mesh.Client.Session.Reception.on_ack pi_mesh.Client.Session.Reception.resolve_ack
    pi_mesh.Client.Session.Reception.on_message pi_mesh.Client.Session.ring
    pi_mesh.Client.Session.note_inbound_from pi_mesh.Client.Session.store
    pi_mesh.Client.Session.is_duplicate_reply pi_mesh.Client.Session.mark_reply_handled
    pi_mesh.Client.Session.prune_handled_reply_targets pi_mesh.Client.Session.answer_key
    pi_mesh.Client.Pending.handle_reply pi_mesh.Dict.get pi_mesh.Dict.set pi_mesh.Dict.retain
    pi_mesh.Dict.delete pi_mesh.Dict.drop_oldest
handed_over = refl

answers :
    run_answers no_hash frames client []
    ≡ unawaited_answer "m_9|really done" 4 ∷ unawaited_answer "m_9|done" 2 ∷ []
unfolding run_answers pi_mesh.Client.Session.Replies.on_frame pi_mesh.Client.Session.Replies.on_type
    pi_mesh.Client.Session.Replies.on_reply pi_mesh.Client.Session.Replies.reply_fate
    pi_mesh.Client.Session.Replies.on_orphaned pi_mesh.Client.Session.Reception.on_ack
    pi_mesh.Client.Session.Reception.resolve_ack pi_mesh.Client.Session.Reception.on_message
    pi_mesh.Client.Session.ring pi_mesh.Client.Session.note_inbound_from
    pi_mesh.Client.Session.store pi_mesh.Client.Session.is_duplicate_reply
    pi_mesh.Client.Session.mark_reply_handled pi_mesh.Client.Session.prune_handled_reply_targets
    pi_mesh.Client.Session.answer_key pi_mesh.Client.Pending.handle_reply pi_mesh.Dict.get
    pi_mesh.Dict.set pi_mesh.Dict.retain pi_mesh.Dict.delete pi_mesh.Dict.drop_oldest
    pi_mesh.Client.Session.Emitted.add_answers
answers = refl

acknowledged :
    (run_frames no_hash frames client).resolved ≡ (7, build_frame FrameType.ack "m_2") ∷ []
unfolding run_frames pi_mesh.Client.Session.Replies.on_frame pi_mesh.Client.Session.Replies.on_type
    pi_mesh.Client.Session.Replies.on_reply pi_mesh.Client.Session.Replies.reply_fate
    pi_mesh.Client.Session.Replies.on_orphaned pi_mesh.Client.Session.Reception.on_ack
    pi_mesh.Client.Session.Reception.resolve_ack pi_mesh.Client.Session.Reception.on_message
    pi_mesh.Client.Session.ring pi_mesh.Client.Session.note_inbound_from
    pi_mesh.Client.Session.store pi_mesh.Client.Session.is_duplicate_reply
    pi_mesh.Client.Session.mark_reply_handled pi_mesh.Client.Session.prune_handled_reply_targets
    pi_mesh.Client.Session.answer_key pi_mesh.Client.Pending.handle_reply pi_mesh.Dict.get
    pi_mesh.Dict.set pi_mesh.Dict.retain pi_mesh.Dict.delete pi_mesh.Dict.drop_oldest
acknowledged = refl

shared_room : resolve_send_room (some "bob") client ≡ some "docs"
unfolding resolve_send_room pi_mesh.Client.Session.Rooms.first_shared Dict.get
shared_room = refl

run_frames-messages_example :
    session_frames (run_frames no_hash frames client).emitted
    ≡ session_frames client.emitted ++ messages_of no_hash frames client
run_frames-messages_example = run_frames-messages no_hash frames client

run_answers-IsUnrepeated_example : IsUnrepeated (run_answers no_hash frames client [])
run_answers-IsUnrepeated_example = run_answers-IsUnrepeated no_hash frames client refl (omega arith)

resolve_send_room-IsChosen_example :
    IsChosen
      (Dict.get "bob" client.peer_rooms)
      client.joined_rooms
      (resolve_send_room (some "bob") client)
resolve_send_room-IsChosen_example = resolve_send_room-IsChosen "bob" client
