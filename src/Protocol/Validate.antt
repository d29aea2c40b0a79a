-- ===== src/Protocol/Validate.antt =====
-- `validateFrame` and `parseFrameLine` of src/protocol/envelope.ts: the rules in their order. The
-- first objection is the verdict.
pub mod Keys
pub mod Terms
pub mod Rules
pub mod Accepted
pub mod Tests
use pi_mesh.Prelude.{ℕ, String, List, [], ◌∷◌, Option, none, some, get_or_else}
use pi_mesh.Shared.Config.{max_body_bytes}
use pi_mesh.Protocol.Frame.{invalid_frame}
use pi_mesh.Protocol.Json.{Json, obj, field}
use pi_mesh.Protocol.TaskPackage.{Host}
use pi_mesh.Protocol.Check.{Check, Verdict, refused, join, verdict}
use pi_mesh.Protocol.Rules.{
  Reader, identity_rules, address_rules, body_rules, priority_rules, reply_rules, file_rules,
  hello_rules,
}
use pi_mesh.Protocol.KindRules.{task_rules, peer_rules, control_rules, fan_out_rules, status_rules}

module _ (host : Host) (max_body : Option ℕ) where
  -- All rules on an object, read by its keys.
  unfoldable pub rule_groups : Reader → List Check
  rule_groups value =
      identity_rules host value
      ∷ address_rules host value
      ∷ body_rules host value (get_or_else max_body max_body_bytes)
      ∷ priority_rules host value
      ∷ reply_rules host value
      ∷ file_rules host value
      ∷ hello_rules host value
      ∷ task_rules host value
      ∷ peer_rules host value
      ∷ control_rules host value
      ∷ fan_out_rules host value
      ∷ status_rules host value
      ∷ []

  unfoldable pub validate_frame : Json → Verdict
  validate_frame (obj o) = verdict (join (rule_groups (λ k. field k o)))
  validate_frame _ = refused invalid_frame "not an object"

  -- The argument is what `JSON.parse` makes of the line, if it does not throw.
  unfoldable pub parse_frame_line : Option Json → Verdict
  parse_frame_line none = refused invalid_frame "JSON parse error"
  parse_frame_line (some v) = validate_frame v
