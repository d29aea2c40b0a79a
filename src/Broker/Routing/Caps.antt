-- ===== src/Broker/Routing/Caps.antt =====
-- `routeCapMsg` of src/broker/broker.ts, and the steps that it shares with `routeMsg`.
use pi_mesh.Prelude.{
  ℕ, ◌-◌, ◌*◌, max, String, Bool, true, false, not, ◌&&◌, ◌||◌, List, [], ◌∷◌, Option, none, some,
  ◌==◌, if◌then◌else◌, ltb, eqb, get_or_else,
}
use pi_mesh.Dict
use pi_mesh.Dict.{Dict, listed}
use pi_mesh.Protocol.Frame.{
  MeshFrame, MeshErrorCode, MeshPriority, MeshRole, normal, urgent, force, member, Activity,
  ActivityState, busy, idle, peer_not_found, policy_denied, no_capable_peer, caps_unsupported,
}
use pi_mesh.Broker.State.{PeerRecord, MeshConfig, Members}
use pi_mesh.Broker.Ratelimit
use pi_mesh.Broker.Ratelimit.{RateKind, check_rate}
use pi_mesh.Broker.Policy.{MeshPolicy, PolicyDecision, allowed, downgraded, denied, evaluate_policy}
use pi_mesh.Broker.World.{Env, World, Relay, relayed, ref_of, send_error, online}
use pi_mesh.Broker.Relay.{count_refused, write_to}

abbrev pub priority_of : MeshFrame → MeshPriority
priority_of frame = get_or_else frame.priority normal

abbrev pub kind_of : MeshPriority → RateKind
kind_of force = Ratelimit.force
kind_of urgent = Ratelimit.urgent
kind_of normal = Ratelimit.msg

abbrev pub forced_status : MeshPriority → Option String
forced_status force = some "force_accepted"
forced_status _ = none

-- A downgraded frame loses its force, and the flag `interrupt` with it.
abbrev pub downgrade : MeshFrame → MeshFrame
downgrade frame = record frame { priority = some urgent; interrupt = none }

-- `busyScore`, doubled: a peer that is rate limited or blocked has `Number.MAX_SAFE_INTEGER / 2`.
abbrev pub score_in : ℕ → ℕ → ActivityState → ℕ
score_in now since idle = 0
score_in now since busy = 2 * max 1 (now - since)
score_in now since _ = 9007199254740991

abbrev pub busy_score : ℕ → Option Activity → ℕ
busy_score now none = 0
busy_score now (some activity) = score_in now activity.since activity.state

pub record Candidate : Type 0 where
  pub peer : PeerRecord
  pub score : ℕ

-- What the loop over the members has seen.
pub record Scan : Type 0 where
  pub saw_online : Bool
  pub saw_any_caps : Bool
  pub saw_cap : Bool
  pub candidates : List Candidate

abbrev pub is_denied : PolicyDecision → Bool
is_denied denied = true
is_denied _ = false

abbrev pub has_caps : Option (List String) → Bool
has_caps (some (c ∷ cs)) = true
has_caps _ = false

abbrev pub is_member : Option MeshRole → Bool
is_member (some member) = true
is_member _ = false

-- `localeCompare` orders the aliases of candidates with the same score; `sort` is stable.
module _ (le : String → String → Bool) where
  abbrev pub precedes : Candidate → Candidate → Bool
  precedes a b = ltb a.score b.score || (eqb a.score b.score && le a.peer.alias b.peer.alias)

  unfoldable pub insert_candidate : Candidate → List Candidate → List Candidate
  insert_candidate a [] = a ∷ []
  insert_candidate a (b ∷ bs) =
      let rest = insert_candidate a bs in if precedes a b then a ∷ b ∷ bs else b ∷ rest

  unfoldable pub sort_candidates : List Candidate → List Candidate
  sort_candidates [] = []
  sort_candidates (c ∷ cs) = insert_candidate c (sort_candidates cs)

module _ (env : Env) (config : MeshConfig) (policy : MeshPolicy) (from : PeerRecord)
    (frame : MeshFrame) where
  -- `state.stats.refused += 1; sendError(from.socket, code, frame.id)`
  abbrev pub refuse_frame : MeshErrorCode → World → World
  refuse_frame code w = send_error env config from.socket code frame.id (count_refused w)

  abbrev pub decide : String → String → PolicyDecision
  decide to room =
      evaluate_policy policy
        (record { from = from.alias; to = to; room = room; priority = priority_of frame })

  abbrev pub rate_checked : World → Bool × World
  rate_checked w =
      let (passed, s) =
        check_rate w.state from.alias (kind_of (priority_of frame)) policy.rate_limits env.now in
      (passed, record w { state = s })

  module _ (le : String → String → Bool) (cap room : String) where
    abbrev pub has_cap : PeerRecord → Bool
    has_cap peer = is_member (Dict.get room peer.rooms) && listed cap (get_or_else peer.caps [])

    abbrev pub see : Option PeerRecord → Scan → Scan
    see none rest = rest
    see (some peer) rest = record {
      saw_online = true;
      saw_any_caps = has_caps peer.caps || rest.saw_any_caps;
      saw_cap = has_cap peer || rest.saw_cap;
      candidates =
          if has_cap peer && not (is_denied (decide peer.alias room))
          then record { peer = peer; score = busy_score env.now peer.activity } ∷ rest.candidates
          else rest.candidates;
    }

    unfoldable pub scan : World → Members → Scan
    scan w [] = record {
      saw_online = false;
      saw_any_caps = false;
      saw_cap = false;
      candidates = [];
    }
    scan w ((alias, _) ∷ ms) =
        let rest = scan w ms in
        if alias == from.alias
        then rest
        else see (online env config w (Dict.get alias w.state.peers)) rest

    abbrev pub no_candidate : Scan → MeshErrorCode
    no_candidate seen =
        if seen.saw_cap
        then policy_denied
        else if not seen.saw_online
        then no_capable_peer
        else if not seen.saw_any_caps
        then caps_unsupported
        else no_capable_peer

    abbrev pub routed_relay : PeerRecord → MeshFrame → Option String → Relay
    routed_relay target routed status = record {
      sender = ref_of from;
      target = ref_of target;
      frame = routed;
      interrupt_status = status;
      routed_to = some target.alias;
    }

    abbrev pub send_routed : PeerRecord → MeshFrame → Option String → World → World
    send_routed target routed status w =
        write_to env config (ref_of target) routed (relayed (routed_relay target routed status)) w

    abbrev pub routed_frame : PeerRecord → MeshFrame
    routed_frame target = record frame {
      to = some target.alias;
      routed_cap = some cap;
      routed_to = some target.alias;
    }

    abbrev pub route_chosen : PeerRecord → PolicyDecision → World → World
    route_chosen target denied w = refuse_frame policy_denied w
    route_chosen target downgraded w =
        send_routed target (downgrade (routed_frame target)) (some "force_downgraded") w
    route_chosen target allowed w =
        send_routed target (routed_frame target) (forced_status (priority_of frame)) w

    abbrev pub route_first : Scan → List Candidate → World → World
    route_first seen [] w = refuse_frame (no_candidate seen) w
    route_first seen (c ∷ cs) w = route_chosen c.peer (decide c.peer.alias room) w

    abbrev pub route_members : Option Members → World → World
    route_members none w = refuse_frame peer_not_found w
    route_members (some ms) w =
        let seen = scan w ms in route_first seen (sort_candidates le seen.candidates) w

    unfoldable pub route_cap_msg : World → World
    route_cap_msg w =
        let (passed, w') = rate_checked w in
        if passed
        then route_members (Dict.get room w'.state.rooms) w'
        else refuse_frame MeshErrorCode.rate_limited w'
