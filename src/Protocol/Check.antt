-- ===== src/Protocol/Check.antt =====
-- The results of the rules of `validateFrame` of src/protocol/envelope.ts, and its closed sets.
use pi_mesh.Prelude.{
  String, Bool, true, false, not, ◌||◌, List, [], ◌∷◌, ◌++◌, ◌≡◌, arith, All, if◌then◌else◌,
}
use pi_mesh.Protocol.Frame.{MeshErrorCode}

-- `if (!holds) return { ok: false, code, detail }`
pub record Rule : Type 0 where
  pub holds : Bool
  pub code : MeshErrorCode
  pub detail : String

-- Rules in the order in which they are tried.
abbrev pub Check : Type 0
Check = List Rule

infixl 5 ◌>>◌
abbrev pub ◌>>◌ : Check → Check → Check
rules >> more = rules ++ more

abbrev pub always_refuse : MeshErrorCode → String → Check
always_refuse code detail = record { holds = false; code = code; detail = detail } ∷ []

abbrev pub refuse_if : Bool → MeshErrorCode → String → Check
refuse_if b code detail = record { holds = not b; code = code; detail = detail } ∷ []

abbrev pub refuse_unless : Bool → MeshErrorCode → String → Check
refuse_unless b code detail = record { holds = b; code = code; detail = detail } ∷ []

-- `if (b) { … }`
abbrev pub when : Bool → Check → Check
when b [] = []
when b (r ∷ rules) = record r { holds = not b || r.holds } ∷ when b rules

-- `ValidationResult`, less the frame, which is the value itself.
pub data Verdict : Type 0 where
  accepted : Verdict
  refused : MeshErrorCode → String → Verdict

-- The first rule that does not hold decides.
unfoldable pub verdict : Check → Verdict
verdict [] = accepted
verdict (r ∷ rules) = let rest = verdict rules in if r.holds then rest else refused r.code r.detail

-- All rules hold.
abbrev pub AllHold : Check → Type 0
AllHold [] = Unit
AllHold (r ∷ rules) = (r.holds ≡ true) × AllHold rules

pub verdict-AllHold : (rules : Check) → verdict rules ≡ accepted → AllHold rules
unfolding verdict
verdict-AllHold [] h = tt
verdict-AllHold (r ∷ rules) h = ground (arith, verdict-AllHold rules)

pub AllHold-append : (rules more : Check) → AllHold (rules ++ more) → AllHold rules × AllHold more
AllHold-append [] more h = (tt, h)
AllHold-append (r ∷ rules) more (p, h) = let (q, k) = AllHold-append rules more h in ((p, q), k)

unfoldable pub join : List Check → Check
join [] = []
join (rules ∷ groups) = rules ++ join groups

pub AllHold-join : (groups : List Check) → AllHold (join groups) → All AllHold groups
unfolding join
AllHold-join [] h = tt
AllHold-join (rules ∷ groups) h =
    let (k, more) = AllHold-append rules (join groups) h in (k, AllHold-join groups more)

abbrev pub frame_types : List String
frame_types =
    "hello" ∷ "welcome" ∷ "msg" ∷ "ack" ∷ "reply" ∷ "remind" ∷ "presence" ∷ "mailbox" ∷ "status_req"
    ∷ "status_res" ∷ "join" ∷ "leave" ∷ "reserve" ∷ "read" ∷ "ping" ∷ "pong" ∷ "activity" ∷ "claim"
    ∷ "release" ∷ "lease" ∷ "lease_status" ∷ "ctl" ∷ "ctl_ack" ∷ "error" ∷ []

abbrev pub error_codes : List String
error_codes =
    "invalid_frame" ∷ "oversized" ∷ "hello_required" ∷ "invalid_alias" ∷ "alias_taken"
    ∷ "invalid_room" ∷ "invalid_token" ∷ "not_member" ∷ "observer_readonly" ∷ "last_room"
    ∷ "peer_not_found" ∷ "rate_limited" ∷ "policy_denied" ∷ "no_capable_peer" ∷ "caps_unsupported"
    ∷ "lease_held" ∷ "lease_not_held" ∷ "lease_stale" ∷ "force_requires_reason" ∷ "unreachable"
    ∷ "unsupported" ∷ "hash_mismatch" ∷ "reply_without_target" ∷ "timeout" ∷ "expired"
    ∷ "broker_unavailable" ∷ "shutting_down" ∷ "internal" ∷ []

abbrev pub priorities : List String
priorities = "normal" ∷ "urgent" ∷ "force" ∷ []

abbrev pub roles : List String
roles = "member" ∷ "observer" ∷ []

abbrev pub ack_statuses : List String
ack_statuses = "delivered" ∷ "queued_offline" ∷ "dropped_offline" ∷ "ok" ∷ []

abbrev pub activity_statuses : List String
activity_statuses = "busy" ∷ "idle" ∷ "rate_limited" ∷ "blocked" ∷ []

abbrev pub ctl_actions : List String
ctl_actions =
    "abort" ∷ "redirect" ∷ "job_stop" ∷ "job_pause" ∷ "job_resume" ∷ "run_stop" ∷ "run_steer" ∷ []

-- The actions that name a job or a run.
abbrev pub targeted_actions : List String
targeted_actions = "job_stop" ∷ "job_pause" ∷ "job_resume" ∷ "run_stop" ∷ "run_steer" ∷ []

abbrev pub ctl_statuses : List String
ctl_statuses =
    "aborted" ∷ "redirected" ∷ "stopped" ∷ "paused" ∷ "resumed" ∷ "steered" ∷ "not_busy"
    ∷ "still_busy" ∷ "abort_unavailable" ∷ "not_found" ∷ "not_pausable" ∷ "not_paused"
    ∷ "not_running" ∷ "not_supported" ∷ "unsupported" ∷ "not_authorized" ∷ "identity_mismatch"
    ∷ "timeout" ∷ "error" ∷ []
