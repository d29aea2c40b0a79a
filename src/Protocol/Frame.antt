-- ===== src/Protocol/Frame.antt =====
-- The frame type of src/protocol/envelope.ts, less its constant version `v`.
-- Times that the program carries as ISO text are the milliseconds that they denote. The time stamp
-- `ts` that `buildFrame` adds is left out.
use pi_mesh.Prelude.{ℕ, String, Bool, List, Option, none}
use pi_mesh.Dict.{Dict}

pub data MeshPriority : Type 0 where
  normal urgent force : MeshPriority

pub data MeshRole : Type 0 where
  member observer : MeshRole

pub data MeshErrorCode : Type 0 where
  invalid_frame oversized hello_required invalid_alias alias_taken invalid_room : MeshErrorCode
  invalid_token not_member observer_readonly last_room peer_not_found rate_limited : MeshErrorCode
  policy_denied no_capable_peer caps_unsupported lease_held lease_not_held lease_stale :
      MeshErrorCode
  force_requires_reason unreachable unsupported hash_mismatch reply_without_target : MeshErrorCode
  timeout expired broker_unavailable shutting_down internal : MeshErrorCode

pub data FrameType : Type 0 where
  hello welcome msg ack reply remind presence mailbox status_req status_res join leave : FrameType
  reserve read ping pong activity claim release lease lease_status ctl ctl_ack error : FrameType

pub record FileReservation : Type 0 where
  pub pattern : String
  pub reason : Option String
  pub since : Option ℕ

pub data ActivityState : Type 0 where
  busy idle rate_limited blocked : ActivityState

pub record Activity : Type 0 where
  pub state : ActivityState
  pub since : ℕ

pub record MeshPeerInfo : Type 0 where
  pub alias : String
  pub rooms : List String
  pub role : Option MeshRole
  pub since : ℕ
  pub last_seen_at : ℕ
  pub reservations : Option (List FileReservation)
  pub client_version : Option String
  pub activity : Option Activity
  pub via : Option String
  pub caps : Option (List String)
  pub proto : Option ℕ

pub record Counters : Type 0 where
  pub relayed : ℕ
  pub refused : ℕ
  pub mailbox_delivered : ℕ
  pub mailbox_dropped : ℕ

pub record BranchBase : Type 0 where
  pub branch : String
  pub base : String

pub record ReplyContract : Type 0 where
  pub to : String
  pub deadline : String
  pub format : String

pub record MeshTaskPackage : Type 0 where
  pub task : String
  pub goal_acceptance : String
  pub paths : List String
  pub branch_base : BranchBase
  pub reply : ReplyContract

pub record MeshFrame : Type 0 where
  pub type : FrameType
  pub id : String
  pub from : Option String
  pub to : Option String
  pub room : Option String
  pub reply_to : Option String
  pub reply_targets : Option (List String)
  pub priority : Option MeshPriority
  pub body : Option String
  pub body_hash : Option String
  pub refs : Option (List String)
  pub task_package : Option MeshTaskPackage
  pub routed_cap : Option String
  pub routed_to : Option String
  pub task : Option String
  pub paths : Option (List String)
  pub ttl_ms : Option ℕ
  pub lease_id : Option String
  pub fence : Option ℕ
  pub epoch : Option ℕ
  pub owner : Option String
  pub reason_hash : Option String
  pub action : Option String
  pub target : Option String
  pub settled : Option Bool
  pub expires_at : Option ℕ
  pub code : Option MeshErrorCode
  pub status : Option String
  pub peers : Option (List MeshPeerInfo)
  pub rooms : Option (List String)
  pub role : Option MeshRole
  pub roles : Option (Dict String)
  pub mailbox_count : Option ℕ
  pub queued_at : Option ℕ
  pub interrupt_status : Option String
  pub reservations : Option (List FileReservation)
  pub broadcast : Option Bool
  pub reply_all : Option Bool
  pub delivered_count : Option ℕ
  pub total_count : Option ℕ
  pub reads : Option String
  pub token : Option String
  pub interrupt : Option Bool
  pub receipt : Option Bool
  pub client_version : Option String
  pub caps : Option (List String)
  pub proto : Option ℕ
  pub stats : Option Counters

-- `buildFrame({type, id})`; the options are added by `record … { … }`.
abbrev pub build_frame : FrameType → String → MeshFrame
build_frame type id = record {
  type = type;
  id = id;
  from = none;
  to = none;
  room = none;
  reply_to = none;
  reply_targets = none;
  priority = none;
  body = none;
  body_hash = none;
  refs = none;
  task_package = none;
  routed_cap = none;
  routed_to = none;
  task = none;
  paths = none;
  ttl_ms = none;
  lease_id = none;
  fence = none;
  epoch = none;
  owner = none;
  reason_hash = none;
  action = none;
  target = none;
  settled = none;
  expires_at = none;
  code = none;
  status = none;
  peers = none;
  rooms = none;
  role = none;
  roles = none;
  mailbox_count = none;
  queued_at = none;
  interrupt_status = none;
  reservations = none;
  broadcast = none;
  reply_all = none;
  delivered_count = none;
  total_count = none;
  reads = none;
  token = none;
  interrupt = none;
  receipt = none;
  client_version = none;
  caps = none;
  proto = none;
  stats = none;
}
