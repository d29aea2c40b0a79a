-- ===== src/Broker/Policy/Decisions.antt =====
-- When the policy allows, downgrades or denies a message.
use pi_mesh.Prelude.{
  ◌≡◌, ◌≢◌, ◌↔◌, refl, sym, ◌⊎◌, inl, inr, Bool, true, false, not, ◌&&◌, List, [], ◌∷◌, any, arith,
  Bool-cases,
}
use pi_mesh.Dict.{listed}
use pi_mesh.Protocol.Frame.{MeshPriority, normal, urgent, force}
use pi_mesh.Broker.Policy.{
  PolicyRule, MeshPolicy, PolicyContext, allowed, downgraded, rule_matches, evaluate_policy,
  is_force,
}
use pi_mesh.Broker.Policy.Patterns.{Fits, match_pattern_iff}

-- The rule fits the sender, the recipient and the room.
pub record Applies (rule : PolicyRule) (ctx : PolicyContext) : Type 0 where
  pub from_fits : Fits rule.from ctx.from
  pub to_fits : Fits rule.to ctx.to
  pub room_fits : Fits rule.room ctx.room

-- Some rule of the list applies; the first that does.
pub data Some (ctx : PolicyContext) : List PolicyRule → Type 0 where
  here : {rule : PolicyRule} {rules : List PolicyRule} → Applies rule ctx → Some ctx (rule ∷ rules)
  there : {rule : PolicyRule} {rules : List PolicyRule} → Some ctx rules → Some ctx (rule ∷ rules)

rule_matches_iff :
    (rule : PolicyRule) (ctx : PolicyContext) → (rule_matches rule ctx ≡ true) ↔ Applies rule ctx
unfolding rule_matches
rule_matches_iff rule ctx = (
  λ h. record {
    from_fits = (match_pattern_iff rule.from ctx.from).0 (ground arith);
    to_fits = (match_pattern_iff rule.to ctx.to).0 (ground arith);
    room_fits = (match_pattern_iff rule.room ctx.room).0 (ground arith);
  },
  λ a. rw (
    (match_pattern_iff rule.from ctx.from).1 a.from_fits,
    (match_pattern_iff rule.to ctx.to).1 a.to_fits,
    (match_pattern_iff rule.room ctx.room).1 a.room_fits,
  ),
)

Some-of_any :
    (ctx : PolicyContext) (rules : List PolicyRule)
    → any (λ rule. rule_matches rule ctx) rules ≡ true
    → Some ctx rules
Some-of_any ctx [] h = cc
Some-of_any ctx (rule ∷ rules) h = elim (Bool-cases (rule_matches rule ctx)) [
  | inl e ↦ here ((rule_matches_iff rule ctx).0 e)
  | inr e ↦ there (Some-of_any ctx rules (rw e at h))
]

any_of_Some :
    {ctx : PolicyContext} {rules : List PolicyRule}
    → Some ctx rules
    → any (λ rule. rule_matches rule ctx) rules ≡ true
any_of_Some {ctx} (here {rule = r} a) = rw ((rule_matches_iff r ctx).1 a)
any_of_Some {ctx} (there {rule = r} s) = ground (arith, any_of_Some s)

-- The sender of a message with force is on the list, or the message has no force.
abbrev pub ForceAuthorized : MeshPolicy → PolicyContext → Type 0
ForceAuthorized policy ctx =
    (ctx.priority ≢ force) ⊎ (listed ctx.from policy.force_allowed_from ≡ true)

-- The test of the force, for a sender that is on the list or not.
force_test :
    (p : MeshPriority) (on_list : Bool)
    → ((is_force p && not on_list) ≡ false) ↔ ((p ≢ force) ⊎ (on_list ≡ true))
force_test normal on_list = (λ _. inl (λ e. cc), λ _. refl)
force_test urgent on_list = (λ _. inl (λ e. cc), λ _. refl)
force_test force true = (λ _. inr refl, λ _. refl)
force_test force false = (λ e. cc, λ h. force_absurd h)
  where
    force_absurd : (◌≢◌ {A = MeshPriority} force force) ⊎ (false ≡ true) → true ≡ false
    force_absurd (inl ne) = absurd (ne refl)
    force_absurd (inr e) = sym e

none_of_any :
    (ctx : PolicyContext) (rules : List PolicyRule)
    → (any (λ rule. rule_matches rule ctx) rules ≡ false) ↔ (¬ Some ctx rules)
none_of_any ctx rules = (
  λ e s. let hit = any_of_Some s in cc,
  λ no_rule. elim (Bool-cases (any (λ rule. rule_matches rule ctx) rules)) [
    | inl e ↦ absurd (no_rule (Some-of_any ctx rules e))
    | inr e ↦ e
  ],
)

module _ (policy : MeshPolicy) (ctx : PolicyContext) where
  abbrev denies : Bool
  denies = any (λ rule. rule_matches rule ctx) policy.deny

  abbrev allows : Bool
  allows = any (λ rule. rule_matches rule ctx) policy.allow

  abbrev unauthorized : Bool
  unauthorized = is_force ctx.priority && not (listed ctx.from policy.force_allowed_from)

  -- A message passes exactly if no rule of `deny` applies, some rule of `allow` does, and it has no
  -- force or its sender is on the list of those who may use it.
  pub evaluate_policy-allowed_iff :
      (evaluate_policy policy ctx ≡ allowed)
      ↔ ((¬ Some ctx policy.deny) × Some ctx policy.allow × ForceAuthorized policy ctx)
  unfolding evaluate_policy
  evaluate_policy-allowed_iff = (
    λ e. (
      (none_of_any ctx policy.deny).0 (ground arith),
      Some-of_any ctx policy.allow (ground arith),
      (force_test ctx.priority (listed ctx.from policy.force_allowed_from)).0 (ground arith),
    ),
    λ (no_deny, some_allow, authorized). rw (
      (none_of_any ctx policy.deny).1 no_deny,
      any_of_Some some_allow,
      (force_test ctx.priority (listed ctx.from policy.force_allowed_from)).1 authorized,
    ),
  )

  -- The decision on a message is "downgraded" exactly if the rules let it pass, it has the priority of
  -- force, its sender may not use force, and the policy asks for a lower priority instead of a
  -- denial.
  pub evaluate_policy-downgraded_iff : (evaluate_policy policy ctx ≡ downgraded) ↔ (
      (¬ Some ctx policy.deny)
      × Some ctx policy.allow
      × (¬ ForceAuthorized policy ctx)
      × (policy.force_downgrade ≡ true))
  unfolding evaluate_policy
  evaluate_policy-downgraded_iff = (
    λ e. (
      (none_of_any ctx policy.deny).0 (ground arith),
      Some-of_any ctx policy.allow (ground arith),
      λ authorized.
          let calm =
            (force_test ctx.priority (listed ctx.from policy.force_allowed_from)).1 authorized in
          ground arith,
      ground arith,
    ),
    λ (no_deny, some_allow, unauthorized_force, downgrades). rw (
      (none_of_any ctx policy.deny).1 no_deny,
      any_of_Some some_allow,
      is_unauthorized unauthorized_force,
      downgrades,
    ),
  )
    where
      is_unauthorized : ¬ ForceAuthorized policy ctx → unauthorized ≡ true
      is_unauthorized never = elim (Bool-cases unauthorized) [
        | inl e ↦ e
        | inr e ↦
            absurd
              (never ((force_test ctx.priority (listed ctx.from policy.force_allowed_from)).0 e))
      ]
