-- ===== src/Broker/Policy/Tests.antt =====
-- The policy at concrete rules.
use pi_mesh.Prelude.{
  ◌≡◌, ◌↔◌, refl, true, [], ◌∷◌, none, some, starts_with, ends_with, without_last,
}
use pi_mesh.Protocol.Frame.{normal, force}
use pi_mesh.Broker.Policy.{
  MeshPolicy, PolicyContext, allowed, downgraded, denied, default_policy, match_pattern,
  evaluate_policy, rule_matches,
}
use pi_mesh.Broker.Policy.Patterns.{Fits, match_pattern_iff}
use pi_mesh.Broker.Policy.Decisions.{
  Some, ForceAuthorized, evaluate_policy-allowed_iff, evaluate_policy-downgraded_iff,
}

-- Nobody of the sandbox writes to the leads, and force from others than `lead-1` is made urgent.
abbrev strict : MeshPolicy
strict = record default_policy {
  deny = record { from = some "sandbox-*"; to = some "lead-*"; room = none } ∷ [];
  force_allowed_from = "lead-1" ∷ [];
  force_downgrade = true;
}

abbrev ann_forces : PolicyContext
ann_forces = record { from = "ann"; to = "lead-1"; room = "default"; priority = force }

denied_by_rule :
    evaluate_policy strict (record ann_forces { from = "sandbox-3"; priority = normal }) ≡ denied
unfolding evaluate_policy rule_matches match_pattern starts_with ends_with without_last
denied_by_rule = refl

downgraded_force : evaluate_policy strict ann_forces ≡ downgraded
unfolding evaluate_policy rule_matches match_pattern starts_with ends_with without_last
downgraded_force = refl

match_pattern_iff_example :
    (match_pattern (some "lead-*") "lead-1" ≡ true) ↔ Fits (some "lead-*") "lead-1"
match_pattern_iff_example = match_pattern_iff (some "lead-*") "lead-1"

evaluate_policy-allowed_iff_example : (evaluate_policy strict ann_forces ≡ allowed) ↔ (
    (¬ Some ann_forces strict.deny)
    × Some ann_forces strict.allow
    × ForceAuthorized strict ann_forces)
evaluate_policy-allowed_iff_example = evaluate_policy-allowed_iff strict ann_forces

evaluate_policy-downgraded_iff_example : (evaluate_policy strict ann_forces ≡ downgraded) ↔ (
    (¬ Some ann_forces strict.deny)
    × Some ann_forces strict.allow
    × (¬ ForceAuthorized strict ann_forces)
    × (strict.force_downgrade ≡ true))
evaluate_policy-downgraded_iff_example = evaluate_policy-downgraded_iff strict ann_forces
