-- ===== src/Broker/Control/Guards.antt =====
-- When a control action becomes pending.
use pi_mesh.Prelude.{
  ◌≡◌, ◌≢◌, refl, String, true, false, Bool, Option, ◌⊎◌, ◌↔◌, arith, eq_iff, none, some,
  Bool-cases, inl, inr,
}
use pi_mesh.Dict
use pi_mesh.Protocol.Frame.{
  MeshFrame, MeshErrorCode, MeshRole, member, observer, invalid_frame, unreachable, not_member,
  policy_denied, MeshPriority, normal, force,
}
use pi_mesh.Broker.State.{PeerRecord, MeshConfig}
use pi_mesh.Broker.Ratelimit
use pi_mesh.Broker.Ratelimit.{RateKind, check_rate}
use pi_mesh.Broker.Policy.{MeshPolicy, PolicyDecision, allowed, downgraded, denied, evaluate_policy}
use pi_mesh.Broker.World.{Env, World, online, send_error}
use pi_mesh.Broker.Dispatch.Strangers.{send_error-SameButWrites}
use pi_mesh.Broker.Relay.{count_refused}
use pi_mesh.Broker.Routing.{room_of, role_refusal}
use pi_mesh.Broker.Routing.Caps.{refuse_frame}
use pi_mesh.Broker.Control.{
  is_forced_action, ctl_priority, ctl_kind, ctl_if, ctl_decision, ctl_target, ctl_unless, ctl_named,
  handle_ctl,
}

module _ (env : Env) (config : MeshConfig) (policy : MeshPolicy) (from : PeerRecord)
    (frame : MeshFrame) where
  -- An action on the turn of a peer.
  abbrev pub ActsOnTurn : Type 0
  ActsOnTurn = (frame.action ≡ some "abort") ⊎ (frame.action ≡ some "redirect")

  -- All that lets a control action to an alias pass: an action on the turn is judged as one with
  -- force, and every other as a normal one.
  pub record MayControl (to : String) (target : PeerRecord) (w : World) : Type 0 where
    pub priority : MeshPriority
    pub rate : RateKind
    pub judged :
        (ActsOnTurn × (priority ≡ force) × (rate ≡ Ratelimit.force))
        ⊎ ((¬ ActsOnTurn) × (priority ≡ normal) × (rate ≡ Ratelimit.msg))
    pub named : frame.to ≡ some to
    pub sender_is_member : Dict.get (room_of frame) from.rooms ≡ some member
    pub target_is_online : online env config w (Dict.get to w.state.peers) ≡ some target
    pub target_is_in_room : Dict.has (room_of frame) target.rooms ≡ true
    pub is_allowed :
        evaluate_policy policy
          (record { from = from.alias; to = to; room = room_of frame; priority = priority })
        ≡ allowed
    pub is_in_rate : (check_rate w.state from.alias rate policy.rate_limits env.now).0 ≡ true

  forced_iff :
      (action : Option String)
      → (is_forced_action action ≡ true) ↔ ((action ≡ some "abort") ⊎ (action ≡ some "redirect"))
  forced_iff none = ground arith
  forced_iff (some action) = ground (arith, eq_iff action "abort", eq_iff action "redirect")

  judged_lem :
      (b : Bool)
      → is_forced_action frame.action ≡ b
      → (ActsOnTurn
          × (ctl_priority env config policy from frame ≡ force)
          × (ctl_kind env config policy from frame ≡ Ratelimit.force))
        ⊎ ((¬ ActsOnTurn)
            × (ctl_priority env config policy from frame ≡ normal)
            × (ctl_kind env config policy from frame ≡ Ratelimit.msg))
  judged_lem true e = inl ((forced_iff frame.action).0 e, ground arith, ground arith)
  judged_lem false e =
      inr (λ acts. ground (arith, (forced_iff frame.action).1 acts), ground arith, ground arith)

  abbrev Same : World → World → Type 0
  Same v w = v.pending_ctl ≡ w.pending_ctl

  refuse-Same :
      (code : MeshErrorCode) (w : World) → Same (refuse_frame env config policy from frame code w) w
  refuse-Same code w =
      (send_error-SameButWrites env config from.socket code frame.id (count_refused w)).2

  error-Same :
      (code : MeshErrorCode) (w : World)
      → Same (send_error env config from.socket code frame.id w) w
  error-Same code w = (send_error-SameButWrites env config from.socket code frame.id w).2

  -- If `handleCtl` changes the table of pending actions, then the frame names a peer that is online
  -- and in the room, the sender is a member of the room and no observer, the policy allows the action
  -- outright, and the rate limit passes it, both as an action with force exactly where it aborts or
  -- redirects a turn, and as a normal one else.
  pub handle_ctl-guarded :
      (w : World)
      → (handle_ctl env config policy from frame w).pending_ctl ≢ w.pending_ctl
      → (to : String) × (target : PeerRecord) × MayControl to target w
  unfolding handle_ctl
  handle_ctl-guarded w changed = by_name frame.to refl changed
    where
      Goal : Type 0
      Goal = (to : String) × (target : PeerRecord) × MayControl to target w

      by_decision :
          (to : String) (target : PeerRecord) (d : PolicyDecision)
          → frame.to ≡ some to
          → Dict.get (room_of frame) from.rooms ≡ some member
          → online env config w (Dict.get to w.state.peers) ≡ some target
          → Dict.has (room_of frame) target.rooms ≡ true
          → ctl_decision env config policy from frame to (room_of frame) ≡ d
          → (ctl_if env config policy from frame d to target w).pending_ctl ≢ w.pending_ctl
          → Goal
      by_decision to target denied n m o i d c = absurd (c (refuse-Same policy_denied w))
      by_decision to target downgraded n m o i d c = absurd (c (refuse-Same policy_denied w))
      by_decision to target allowed n m o i d c =
          let (passed, s) =
            check_rate w.state from.alias (ctl_kind env config policy from frame) policy.rate_limits
              env.now in
          elim (Bool-cases passed) [
            | inl b ↦ (
              to,
              target,
              record {
                named = n;
                sender_is_member = m;
                target_is_online = o;
                target_is_in_room = i;
                priority = ctl_priority env config policy from frame;
                rate = ctl_kind env config policy from frame;
                judged = judged_lem (is_forced_action frame.action) refl;
                is_allowed = d;
                is_in_rate = b;
              },
            )
            | inr b ↦
                absurd (c (rw b (refuse-Same MeshErrorCode.rate_limited (record w { state = s }))))
          ]

      by_target :
          (to : String) (o : Option PeerRecord)
          → frame.to ≡ some to
          → Dict.get (room_of frame) from.rooms ≡ some member
          → online env config w (Dict.get to w.state.peers) ≡ o
          → (ctl_target env config policy from frame to (room_of frame) o w).pending_ctl
            ≢ w.pending_ctl
          → Goal
      by_target to none n m o c = absurd (c (error-Same unreachable w))
      by_target to (some target) n m o c =
          elim (Bool-cases (Dict.has (room_of frame) target.rooms)) [
            | inl b ↦
                by_decision to target (ctl_decision env config policy from frame to (room_of frame))
                  n m o b refl (rw b at c)
            | inr b ↦ absurd (c (rw b (refuse-Same not_member w)))
          ]

      by_role :
          (to : String)
          → frame.to ≡ some to
          → (r : Option MeshRole) → Dict.get (room_of frame) from.rooms ≡ r
          → (ctl_unless env config policy from frame
              (role_refusal r)
              to
              (room_of frame)
              w).pending_ctl
            ≢ w.pending_ctl
          → Goal
      by_role to n none m c = absurd (c (refuse-Same not_member w))
      by_role to n (some observer) m c = absurd (c (refuse-Same MeshErrorCode.observer_readonly w))
      by_role to n (some member) m c =
          by_target to (online env config w (Dict.get to w.state.peers)) n m refl c

      by_name :
          (o : Option String)
          → frame.to ≡ o
          → (ctl_named env config policy from frame o w).pending_ctl ≢ w.pending_ctl
          → Goal
      by_name none n c = absurd (c (error-Same invalid_frame w))
      by_name (some to) n c = by_role to n (Dict.get (room_of frame) from.rooms) refl c
