-- ===== src/Broker/Policy.antt =====
-- src/broker/policy.ts: what `.mesh/policy.json` allows. The rules are given; reading them from the
-- file is not modelled.
pub mod Patterns
pub mod Decisions
pub mod Tests
use pi_mesh.Prelude.{
  ℕ, String, Bool, true, false, not, ◌&&◌, ◌||◌, List, [], ◌∷◌, Option, none, some, ◌==◌,
  if◌then◌else◌, any, codes, ends_with, without_last, starts_with,
}
use pi_mesh.Dict.{listed}
use pi_mesh.Protocol.Frame.{MeshPriority, normal, urgent, force}
use pi_mesh.Broker.Ratelimit.{RateLimits, default_rate_limits}

pub record PolicyRule : Type 0 where
  pub from : Option String
  pub to : Option String
  pub room : Option String

pub record MeshPolicy : Type 0 where
  pub allow : List PolicyRule
  pub deny : List PolicyRule
  pub force_allowed_from : List String
  pub force_downgrade : Bool
  pub rate_limits : RateLimits

abbrev pub default_policy : MeshPolicy
default_policy = record {
  allow = record { from = some "*"; to = some "*"; room = some "*" } ∷ [];
  deny = [];
  force_allowed_from = [];
  force_downgrade = false;
  rate_limits = default_rate_limits;
}

unfoldable pub match_pattern : Option String → String → Bool
match_pattern none value = true
match_pattern (some pattern) value =
    if pattern == "*"
    then true
    else if ends_with b'*' (codes pattern)
    then starts_with (codes value) (without_last (codes pattern))
    else pattern == value

pub record PolicyContext : Type 0 where
  pub from : String
  pub to : String
  pub room : String
  pub priority : MeshPriority

unfoldable pub rule_matches : PolicyRule → PolicyContext → Bool
rule_matches rule ctx =
    match_pattern rule.from ctx.from
    && match_pattern rule.to ctx.to
    && match_pattern rule.room ctx.room

-- The code of a denial is always `policy_denied`.
pub data PolicyDecision : Type 0 where
  allowed downgraded denied : PolicyDecision

abbrev pub is_force : MeshPriority → Bool
is_force force = true
is_force _ = false

unfoldable pub evaluate_policy : MeshPolicy → PolicyContext → PolicyDecision
evaluate_policy policy ctx =
    if any (λ rule. rule_matches rule ctx) policy.deny
    then denied
    else if not (any (λ rule. rule_matches rule ctx) policy.allow)
    then denied
    else if is_force ctx.priority && not (listed ctx.from policy.force_allowed_from)
    then (if policy.force_downgrade then downgraded else denied)
    else allowed
