-- ===== src/Client/Session.antt =====
-- The state of `MeshClient` of src/client/client.ts that the frames of the broker change, and the
-- helpers of `onFrame`. The promise of a waiter is told by a number, and calls of `resolve` and
-- `emit` are recorded in order. The fields `at`, which copy the `ts` of a frame, are left out.
pub mod Reception
pub mod Replies
pub mod Kept
pub mod Hands
pub mod Emitted
pub mod Handled
pub mod Answers
pub mod Messages
pub mod Tests
pub mod Rooms
use Prim.Native.String as Text
use pi_mesh.Prelude.{
  ℕ, ◌+◌, ◌-◌, String, Bool, true, false, not, ◌&&◌, ◌||◌, List, [], ◌∷◌, ◌++◌, Option, none, some,
  ◌==◌, if◌then◌else◌, ltb, leb, eqb, length, drop, get_or_else,
}
use pi_mesh.Dict
use pi_mesh.Dict.{Dict}
use pi_mesh.Shared.Config.{transcript_ring_size}
use pi_mesh.Protocol.Frame.{MeshFrame, FrameType, FileReservation, ActivityState}
use pi_mesh.Client.Pending.{PendingReplies}

abbrev pub inbox_cap : ℕ
inbox_cap = 512

abbrev pub last_inbound_cap : ℕ
last_inbound_cap = 64

abbrev pub handled_reply_window_ms : ℕ
handled_reply_window_ms = 1800000

pub data MissionStatus : Type 0 where
  waiting answered expired failed : MissionStatus

pub record Mission : Type 0 where
  pub to : String
  pub room : String
  pub status : MissionStatus
  pub answered : Bool
  pub response : Option String

pub record LastInbound : Type 0 where
  pub msg_id : String
  pub type : FrameType

-- The events of the client, with the frame; that of a reply tells whether it was awaited.
pub data Emission : Type 0 where
  inbound : MeshFrame → Option Bool → Emission
  reply dropped_offline read presence every : MeshFrame → Emission
  reservations : String → List FileReservation → Emission

pub record MeshClient : Type 0 where
  pub alias : String
  pub project_room : Option String
  pub joined_rooms : Dict (Unit {0})
  pub transcript : List MeshFrame
  pub inbox : Dict MeshFrame
  pub last_inbound_from : Dict LastInbound
  pub pending : PendingReplies
  pub awaited_missions : Dict Mission
  pub handled_reply_targets : Dict ℕ
  pub wait_all_in_flight : ℕ
  pub read_by : Dict String
  pub peer_reservations : Dict (List FileReservation)
  pub peer_activity : Dict ActivityState
  pub known_peers : Dict (Unit {0})
  pub peer_rooms : Dict (Dict (Unit {0}))
  pub ack_waiters : Dict ℕ
  pub status_waiters : Dict ℕ
  pub ctl_waiters : Dict ℕ
  pub lease_waiters : Dict ℕ
  pub resolved : List (ℕ × MeshFrame)
  pub emitted : List Emission

abbrev pub emit : Emission → MeshClient → MeshClient
emit e c = record c { emitted = c.emitted ++ e ∷ [] }

abbrev pub is_noise : FrameType → Bool
is_noise FrameType.ping = true
is_noise FrameType.pong = true
is_noise FrameType.ack = true
is_noise FrameType.activity = true
is_noise _ = false

-- The last frames, of those that matter to a session.
unfoldable pub ring : MeshFrame → MeshClient → MeshClient
ring frame c =
    let longer = c.transcript ++ frame ∷ [] in
    if is_noise frame.type
    then c
    else record c { transcript = drop (length longer - transcript_ring_size) longer }

-- `if (frame.id) { this.inbox.set(frame.id, frame); this.pruneInbox(); }`
unfoldable pub store : MeshFrame → MeshClient → MeshClient
store frame c =
    if frame.id == ""
    then c
    else record c { inbox = Dict.drop_oldest inbox_cap (Dict.set frame.id frame c.inbox) }

abbrev pub noted : String → MeshFrame → MeshClient → MeshClient
noted from frame c = if from == c.alias then c else record c {
  last_inbound_from =
      Dict.drop_oldest last_inbound_cap
        (Dict.set from (record { msg_id = frame.id; type = frame.type }) c.last_inbound_from);
}

unfoldable pub note_inbound_from : MeshFrame → MeshClient → MeshClient
note_inbound_from frame c = elim frame.from [ none ↦ c | some from ↦ noted from frame c ]

unfoldable pub apply_peer_reservations :
    String → Option (List FileReservation) → MeshClient → MeshClient
apply_peer_reservations alias (some (r ∷ rs)) c = record c {
  peer_reservations = Dict.set alias (r ∷ rs) c.peer_reservations;
}
apply_peer_reservations alias _ c = record c {
  peer_reservations = Dict.delete alias c.peer_reservations;
}

unfoldable pub prune_handled_reply_targets : ℕ → Dict ℕ → Dict ℕ
prune_handled_reply_targets now handled =
    Dict.retain (λ id ts. not (ltb handled_reply_window_ms (now - ts))) handled

-- The answer is the same if the text has the same hash.
module _ (sha256 : String → String) where
  unfoldable pub answer_key : String → String → String
  answer_key reply_to body = Text.◌++◌ reply_to (Text.◌++◌ "|" (sha256 body))

  unfoldable pub mark_reply_handled : String → String → ℕ → MeshClient → MeshClient
  mark_reply_handled reply_to body now c = record c {
    handled_reply_targets =
        prune_handled_reply_targets now
          (Dict.set (answer_key reply_to body) now c.handled_reply_targets);
  }

  abbrev pub is_recent : Option ℕ → ℕ → Bool
  is_recent none now = false
  is_recent (some ts) now = ltb (now - ts) handled_reply_window_ms

  -- `isDuplicateReply`, which marks an answer that it sees for the first time.
  unfoldable pub is_duplicate_reply : String → String → ℕ → MeshClient → MeshClient × Bool
  is_duplicate_reply reply_to body now c =
      if is_recent (Dict.get (answer_key reply_to body) c.handled_reply_targets) now
      then (c, true)
      else (mark_reply_handled reply_to body now c, false)
