-- ===== src/Extension/Guards.antt =====
-- `MeshGuards` of src/extension/guards.ts: what a client checks before it sends.
pub mod Duplicates
pub mod Tests
use Prim.Native.String as Text
use pi_mesh.Prelude.{
  ℕ, suc, ◌-◌, String, Bool, true, false, not, ◌&&◌, List, [], ◌∷◌, ◌++◌, Option, none, some, ◌==◌,
  if◌then◌else◌, ltb, leb, codes, includes,
}
use pi_mesh.Dict
use pi_mesh.Dict.{Dict}
use pi_mesh.Shared.Config.{
  default_rate_msg_per_min, default_rate_urgent_per_min, default_rate_force_per_min,
  rate_bucket_window_ms,
}
use pi_mesh.Protocol.Frame.{MeshPriority, MeshRole, normal, urgent, force, member, observer}
use pi_mesh.Protocol.Shapes.{normalize_alias}

abbrev pub duplicate_window_ms : ℕ
duplicate_window_ms = 10000

abbrev pub reply_repeat_window_ms : ℕ
reply_repeat_window_ms = 600000

pub record GuardRateLimits : Type 0 where
  pub msg_per_min : ℕ
  pub urgent_per_min : ℕ
  pub force_per_min : ℕ

abbrev pub default_guard_limits : GuardRateLimits
default_guard_limits = record {
  msg_per_min = default_rate_msg_per_min;
  urgent_per_min = default_rate_urgent_per_min;
  force_per_min = default_rate_force_per_min;
}

pub record GuardInput : Type 0 where
  pub from : String
  pub to : String
  pub room : String
  pub body : String
  pub priority : MeshPriority
  pub role : Option MeshRole

pub data GuardResult : Type 0 where
  allowed : List String → GuardResult
  blocked : String → GuardResult

pub record SlidingWindow : Type 0 where
  pub count : ℕ
  pub window_start : ℕ

-- The map of windows has one place for each kind, which are those of a priority.
pub record MeshGuards : Type 0 where
  pub recent : Dict ℕ
  pub msg_window : Option SlidingWindow
  pub urgent_window : Option SlidingWindow
  pub force_window : Option SlidingWindow
  pub replied_to : Dict ℕ

abbrev pub new_guards : MeshGuards
new_guards = record {
  recent = [];
  msg_window = none;
  urgent_window = none;
  force_window = none;
  replied_to = [];
}

-- Answering the same message again gives a warning, and never more.
unfoldable pub check_reply : String → ℕ → MeshGuards → MeshGuards × List String
check_reply msg_id now g =
    let again : Bool = elim (Dict.get msg_id g.replied_to) [
      | none ↦ false
      | some last ↦ ltb (now - last) reply_repeat_window_ms
    ] in
    let replied = Dict.set msg_id now g.replied_to in
    let kept =
      if ltb 512 (Dict.size replied)
      then Dict.retain (λ id ts. not (leb reply_repeat_window_ms (now - ts))) replied
      else replied in
    (record g { replied_to = kept }, if again then "already_replied" ∷ [] else [])

-- The window that counts at this time: a new one when there is none, or the old one has passed.
unfoldable pub current_window : Option SlidingWindow → ℕ → SlidingWindow
current_window none now = record { count = 0; window_start = now }
current_window (some w) now =
    if leb rate_bucket_window_ms (now - w.window_start)
    then record { count = 0; window_start = now }
    else w

-- `consumeWindow` on one window.
unfoldable pub consume_window : ℕ → Option SlidingWindow → ℕ → SlidingWindow × Bool
consume_window cap window now =
    let w = current_window window now in
    if leb cap w.count then (w, false) else (record w { count = suc w.count }, true)

unfoldable pub consume_msg : GuardRateLimits → ℕ → MeshGuards → MeshGuards × Bool
consume_msg limits now g =
    let (w, ok) = consume_window limits.msg_per_min g.msg_window now in
    (record g { msg_window = some w }, ok)

-- `consume`: an urgent or a forced message takes from its own window, and then from that of all.
unfoldable pub consume : GuardRateLimits → MeshPriority → ℕ → MeshGuards → MeshGuards × Bool
consume limits normal now g = consume_msg limits now g
consume limits urgent now g =
    let (w, ok) = consume_window limits.urgent_per_min g.urgent_window now in
    let g' = record g { urgent_window = some w } in
    if ok then consume_msg limits now g' else (g', false)
consume limits force now g =
    let (w, ok) = consume_window limits.force_per_min g.force_window now in
    let g' = record g { force_window = some w } in
    if ok then consume_msg limits now g' else (g', false)

unfoldable pub prune_recent : ℕ → Dict ℕ → Dict ℕ
prune_recent now recent =
    if ltb (Dict.size recent) 256
    then recent
    else Dict.retain (λ key ts. not (leb duplicate_window_ms (now - ts))) recent

abbrev pub rate_reason : MeshPriority → String
rate_reason normal = "rate_limited:msg"
rate_reason urgent = "rate_limited:urgent"
rate_reason force = "rate_limited:force"

module _ (sha256 : String → String) where
  unfoldable pub dup_key : GuardInput → String
  dup_key input =
      Text.◌++◌ (normalize_alias input.to)
        (Text.◌++◌ "|" (Text.◌++◌ input.room (Text.◌++◌ "|" (sha256 input.body))))

  abbrev pub is_observer : Option MeshRole → Bool
  is_observer role = elim role [ some observer ↦ true | _ ↦ false ]

  -- Whether the same was sent in the last ten seconds.
  abbrev pub is_duplicate : GuardInput → ℕ → MeshGuards → Bool
  is_duplicate input now g = elim (Dict.get (dup_key input) g.recent) [
    | none ↦ false
    | some last ↦ ltb (now - last) duplicate_window_ms
  ]

  -- The part of `checkSend` after a token is taken.
  abbrev pub remember : GuardInput → ℕ → MeshGuards → MeshGuards
  remember input now g = record g {
    recent = prune_recent now (Dict.set (dup_key input) now g.recent);
  }

  unfoldable pub check_send :
      GuardRateLimits → ℕ → GuardInput → MeshGuards → MeshGuards × GuardResult
  check_send limits now input g =
      if normalize_alias input.to == normalize_alias input.from
      then (g, blocked "self_send")
      else if is_observer input.role
      then (g, blocked "observer_readonly")
      else if is_duplicate input now g
      then (g, blocked "duplicate_in_window")
      else let (g', ok) = consume limits input.priority now g in
        if ok
        then (
          remember input now g',
          allowed (
              if includes (codes input.body) (codes "mesh_send(")
              then "loopGuard:matched" ∷ []
              else []),
        )
        else (g', blocked (rate_reason input.priority))
