-- ===== src/Protocol/KindRules.antt =====
-- The rules of `validateFrame` of src/protocol/envelope.ts from the task package on.
use Prim.Native.String as Text
use pi_mesh.Prelude.{
  true, not, ◌&&◌, ◌||◌, List, [], ◌∷◌, Option, none, some, ltb, leb, all, length, is_blank,
}
use pi_mesh.Dict
use pi_mesh.Dict.{listed}
use pi_mesh.Shared.Config.{max_frame_id_chars, max_task_paths}
use pi_mesh.Protocol.Frame.{MeshTaskPackage, invalid_frame, invalid_alias, invalid_room}
use pi_mesh.Protocol.Names.{is_valid_alias}
use pi_mesh.Protocol.Caps.{normalize_caps, is_single}
use pi_mesh.Protocol.Json.{
  Json, arr, elements, entries, field, is_text, is_array, is_record, is_whole, is_bool, is_true,
  is_absent_or, is_present, is_word,
}
use pi_mesh.Protocol.Shapes.{is_bounded, is_valid_iso, is_valid_caps, is_valid_proto, is_ctl_target}
use pi_mesh.Protocol.TaskPackage.{Host, Checked, valid, invalid, validate_task_package}
use pi_mesh.Protocol.Rules.{Reader, is_hash_text, is_cap_route, reads_date}
use pi_mesh.Protocol.Check.{
  Check, always_refuse, ◌>>◌, refuse_if, refuse_unless, when, roles, error_codes, ack_statuses,
  activity_statuses, ctl_actions, targeted_actions, ctl_statuses,
}

refuse_package : Checked MeshTaskPackage → Check
refuse_package (valid pkg) = []
refuse_package (invalid reason) = always_refuse invalid_frame (Text.◌++◌ "bad taskPackage: " reason)

unfoldable pub package_rule : Host → Option Json → Check
unfolding refuse_package
package_rule host none = []
package_rule host (some v) = refuse_package (validate_task_package host v)

-- One entry of `peers`.
peer_rule : Json → Check
peer_rule p = do
  refuse_unless (is_record (λ _. true) (some p)) invalid_frame "bad peer"
  refuse_unless (is_record (λ o. is_absent_or is_valid_caps (field "caps" o)) (some p))
      invalid_frame "bad peer caps"
  refuse_unless (is_record (λ o. is_absent_or is_valid_proto (field "proto" o)) (some p))
      invalid_frame "bad peer proto"

each : (Json → Check) → List Json → Check
each rule [] = []
each rule (x ∷ xs) = rule x >> each rule xs

unfoldable pub peers_rule : Option Json → Check
unfolding each peer_rule
peers_rule none = []
peers_rule (some (arr xs)) = each peer_rule (elements xs)
peers_rule (some _) = always_refuse invalid_frame "bad peers"

-- The rules for `roles`: an object whose values are roles.
unfoldable pub roles_rule : Option Json → Check
roles_rule none = []
roles_rule (some v) = do
  refuse_unless (is_record (λ _. true) (some v)) invalid_frame "bad roles"
  refuse_unless
      (is_record (λ o. all (λ r. is_text (λ s. listed s roles) (some r)) (Dict.values (entries o)))
        (some v))
      invalid_frame "bad role value"

module _ (host : Host) (value : Reader) where
  -- The task package, the route of a capability, and the fields of leases.
  unfoldable pub task_rules : Check
  task_rules = do
    package_rule host (value "taskPackage")
    refuse_unless
        (is_absent_or (is_text (λ s. is_single (normalize_caps (some (s ∷ [])))))
          (value "routedCap"))
        invalid_frame "bad routedCap"
    refuse_unless (is_absent_or (is_text is_valid_alias) (value "routedTo")) invalid_alias
        "bad routedTo"
    refuse_unless (is_absent_or (is_text (is_bounded 128)) (value "task")) invalid_frame "bad task"
    refuse_unless
        (is_absent_or
          (is_array (λ ps.
            ltb 0 (length ps)
            && leb (length ps) max_task_paths
            && all (λ p. is_text (is_bounded 256) (some p)) ps))
          (value "paths"))
        invalid_frame "bad paths"
    refuse_unless (is_absent_or (is_whole (ltb 0)) (value "ttlMs")) invalid_frame "bad ttlMs"
    refuse_unless (is_absent_or (is_text (is_bounded 128)) (value "leaseId")) invalid_frame
        "bad leaseId"
    refuse_unless (is_absent_or (is_whole (leb 1)) (value "fence")) invalid_frame "bad fence"
    refuse_unless (is_absent_or (is_whole (leb 1)) (value "epoch")) invalid_frame "bad epoch"
    refuse_unless (is_absent_or (is_text is_valid_alias) (value "owner")) invalid_alias "bad owner"
    refuse_unless (is_absent_or (is_text (reads_date host)) (value "expiresAt")) invalid_frame
        "bad expiresAt"

  -- The capabilities and the protocol of a peer, the table of peers, and the roles by room.
  unfoldable pub peer_rules : Check
  peer_rules = do
    refuse_unless (is_absent_or is_valid_caps (value "caps")) invalid_frame "bad caps"
    refuse_unless (is_absent_or is_valid_proto (value "proto")) invalid_frame "bad proto"
    peers_rule (value "peers")
    roles_rule (value "roles")

  -- What a control frame requires.
  unfoldable pub ctl_rules : Check
  ctl_rules = do
    refuse_unless (is_present (value "action")) invalid_frame "ctl requires action"
    refuse_if
        (is_text (λ s. listed s targeted_actions) (value "action")
          && not (is_present (value "target")))
        invalid_frame "ctl requires target"
    when (is_word "abort" (value "action") || is_word "redirect" (value "action")) (
        refuse_unless (is_hash_text (value "reasonHash")) invalid_frame
          "ctl abort/redirect requires reasonHash")
    refuse_if (is_cap_route (value "to")) invalid_alias
        "ctl target must be an alias, not a cap route"
    refuse_if
        (is_word "redirect" (value "action")
          && not (is_text (λ s. not (is_blank s)) (value "body")))
        invalid_frame "redirect requires a body"
    refuse_if
        (is_word "run_steer" (value "action")
          && not (is_text (λ s. not (is_blank s)) (value "body")))
        invalid_frame "run_steer requires a body"

  -- Control frames and their acknowledgements.
  unfoldable pub control_rules : Check
  unfolding ctl_rules
  control_rules = do
    refuse_unless (is_absent_or (is_text (λ s. listed s ctl_actions)) (value "action"))
        invalid_frame "bad action"
    refuse_unless (is_absent_or (is_text is_ctl_target) (value "target")) invalid_frame "bad target"
    refuse_unless (is_absent_or is_bool (value "settled")) invalid_frame "bad settled"
    when (is_word "ctl" (value "type")) ctl_rules
    when (is_word "ctl_ack" (value "type")) (do
      refuse_unless (is_present (value "replyTo")) invalid_frame "ctl_ack requires replyTo"
      refuse_unless (is_text (λ s. listed s ctl_statuses) (value "status")) invalid_frame
          "bad ctl_ack status")

  -- Rule 9: broadcasts and replies to all.
  unfoldable pub fan_out_rules : Check
  fan_out_rules = do
    refuse_unless (is_absent_or is_bool (value "broadcast")) invalid_frame "bad broadcast"
    when (is_true (value "broadcast")) (do
      refuse_if (is_present (value "to")) invalid_frame "broadcast with to"
      refuse_unless (is_text (λ _. true) (value "room")) invalid_room "broadcast without room")
    refuse_unless (is_absent_or is_bool (value "replyAll")) invalid_frame "bad replyAll"
    when (is_true (value "replyAll")) (do
      refuse_if (is_present (value "to")) invalid_frame "replyAll with to"
      refuse_unless (is_word "reply" (value "type")) invalid_frame "replyAll on non-reply")

  -- Receipts, counts, activities, acknowledgements and errors.
  unfoldable pub status_rules : Check
  status_rules = do
    when (is_word "read" (value "type")) (do
      refuse_unless (is_text (is_bounded max_frame_id_chars) (value "reads")) invalid_frame
          "bad reads"
      refuse_unless (is_text (λ _. true) (value "to")) invalid_frame "read without to")
    refuse_unless (is_absent_or (is_whole (λ _. true)) (value "deliveredCount")) invalid_frame
        "bad deliveredCount"
    refuse_unless (is_absent_or (is_whole (λ _. true)) (value "totalCount")) invalid_frame
        "bad totalCount"
    when (is_word "activity" (value "type")) (do
      refuse_unless (is_text (λ s. listed s activity_statuses) (value "status")) invalid_frame
          "bad activity status"
      refuse_unless (is_text (λ _. true) (value "from")) invalid_alias "activity without from")
    when (is_word "ack" (value "type") && is_present (value "status")) (
        refuse_unless (is_text (λ s. listed s ack_statuses) (value "status")) invalid_frame
          "bad ack status")
    when (is_word "error" (value "type")) (
        refuse_unless (is_text (λ s. listed s error_codes) (value "code")) invalid_frame
          "bad error code")
    refuse_unless (is_absent_or (is_valid_iso (reads_date host)) (value "expiresAt")) invalid_frame
        "bad expiresAt"
