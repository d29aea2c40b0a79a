-- ===== src/Broker/Control.antt =====
-- `handleCtl` and `handleCtlAck` of src/broker/broker.ts: a control action goes to a peer that is
-- online, and its acknowledgement comes back only to who asked for it.
pub mod Keeps
pub mod Answers
pub mod Guards
pub mod Tests
use pi_mesh.Prelude.{
  ℕ, ◌+◌, String, Bool, true, false, not, ◌&&◌, ◌||◌, Option, none, some, ◌==◌, if◌then◌else◌, leb,
  get_or_else,
}
use pi_mesh.Dict
use pi_mesh.Dict.{Dict}
use pi_mesh.Protocol.Frame.{
  MeshFrame, MeshErrorCode, MeshPriority, normal, force, invalid_frame, unreachable, not_member,
  policy_denied,
}
use pi_mesh.Shared.Config.{ctl_pending_ttl_ms}
use pi_mesh.Broker.State.{PeerRecord, MeshConfig}
use pi_mesh.Broker.Ratelimit
use pi_mesh.Broker.Ratelimit.{RateKind, check_rate}
use pi_mesh.Broker.Policy.{MeshPolicy, PolicyDecision, allowed, downgraded, denied, evaluate_policy}
use pi_mesh.Broker.World.{
  Env, World, PendingCtl, Relay, controlled, control_acked, ref_of, send_error, online, peer_at,
}
use pi_mesh.Broker.Relay.{write_to}
use pi_mesh.Broker.Routing.{room_of, room_refusal, relay_to}
use pi_mesh.Broker.Routing.Caps.{refuse_frame}

-- `abort` and `redirect` act on a peer's turn and need force.
abbrev pub is_forced_action : Option String → Bool
is_forced_action none = false
is_forced_action (some action) = action == "abort" || action == "redirect"

-- `now - pending.at <= CTL_PENDING_TTL_MS`
abbrev pub is_pending : ℕ → PendingCtl → Bool
is_pending now pending = leb now (pending.sent_at + ctl_pending_ttl_ms)

module _ (env : Env) (config : MeshConfig) (policy : MeshPolicy) (from : PeerRecord)
    (frame : MeshFrame) where
  abbrev pub ctl_priority : MeshPriority
  ctl_priority = if is_forced_action frame.action then force else normal

  abbrev pub ctl_kind : RateKind
  ctl_kind = if is_forced_action frame.action then Ratelimit.force else Ratelimit.msg

  abbrev pub new_pending : String → PendingCtl
  new_pending to = record {
    from = from.alias;
    to = to;
    action = get_or_else frame.action "";
    sent_at = env.now;
  }

  -- The stale entries go, the new one is added, and the frame is written.
  abbrev pub send_ctl : String → PeerRecord → World → World
  send_ctl to target w =
      let kept = Dict.retain (λ _ pending. is_pending env.now pending) w.pending_ctl in
      let w' = record w { pending_ctl = Dict.set frame.id (new_pending to) kept } in
      let r = relay_to env config policy from frame target frame none in
      write_to env config (ref_of target) frame (controlled r) w'

  abbrev pub ctl_checked : String → PeerRecord → World → World
  ctl_checked to target w =
      let (passed, s) = check_rate w.state from.alias ctl_kind policy.rate_limits env.now in
      let w' = record w { state = s } in
      if passed
      then send_ctl to target w'
      else refuse_frame env config policy from frame MeshErrorCode.rate_limited w'

  -- A downgrade does not do for a control action.
  abbrev pub ctl_if : PolicyDecision → String → PeerRecord → World → World
  ctl_if allowed to target w = ctl_checked to target w
  ctl_if downgraded to target w = refuse_frame env config policy from frame policy_denied w
  ctl_if denied to target w = refuse_frame env config policy from frame policy_denied w

  abbrev pub ctl_decision : String → String → PolicyDecision
  ctl_decision to room =
      evaluate_policy policy
        (record { from = from.alias; to = to; room = room; priority = ctl_priority })

  abbrev pub ctl_target : String → String → Option PeerRecord → World → World
  ctl_target to room none w = send_error env config from.socket unreachable frame.id w
  ctl_target to room (some target) w =
      if Dict.has room target.rooms
      then ctl_if (ctl_decision to room) to target w
      else refuse_frame env config policy from frame not_member w

  abbrev pub ctl_unless : Option MeshErrorCode → String → String → World → World
  ctl_unless (some code) to room w = refuse_frame env config policy from frame code w
  ctl_unless none to room w = ctl_target to room (online env config w (Dict.get to w.state.peers)) w

  abbrev pub ctl_named : Option String → World → World
  ctl_named none w = send_error env config from.socket invalid_frame frame.id w
  ctl_named (some to) w = ctl_unless (room_refusal from (room_of frame)) to (room_of frame) w

  unfoldable pub handle_ctl : World → World
  handle_ctl w = ctl_named frame.to w

  abbrev pub is_named : Option String → String → Bool
  is_named none alias = false
  is_named (some to) alias = alias == to

  -- An acknowledgement answers a pending action of the same pair and of the same kind.
  abbrev pub answers : Option PendingCtl → Bool
  answers none = false
  answers (some pending) =
      pending.to == from.alias
      && is_named frame.to pending.from
      && pending.action == get_or_else frame.action ""

  abbrev pub send_ctl_ack : Option PeerRecord → World → World
  send_ctl_ack none w = w
  send_ctl_ack (some target) w = write_to env config (ref_of target) frame control_acked w

  abbrev pub ack_named : Option String → World → World
  ack_named none w = w
  ack_named (some reply_to) w =
      if answers (Dict.get reply_to w.pending_ctl)
      then (let w' = record w { pending_ctl = Dict.delete reply_to w.pending_ctl } in
          send_ctl_ack (online env config w' (peer_at env config frame.to w')) w')
      else w

  unfoldable pub handle_ctl_ack : World → World
  handle_ctl_ack w = ack_named frame.reply_to w
