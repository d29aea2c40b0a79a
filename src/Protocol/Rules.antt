-- ===== src/Protocol/Rules.antt =====
-- The rules of `validateFrame` of src/protocol/envelope.ts, up to the reservations. An object is read
-- by `value`, which tells what stands at a key.
use pi_mesh.Prelude.{
  ℕ, String, Bool, true, not, ◌&&◌, ◌||◌, Option, some, is_some, ltb, leb, eqb, codes, all, length,
  text_length, utf8_bytes,
}
use pi_mesh.Dict.{listed}
use pi_mesh.Shared.Config.{max_frame_id_chars, max_refs, max_reply_targets}
use pi_mesh.Protocol.Frame.{
  invalid_frame, invalid_alias, invalid_room, hash_mismatch, force_requires_reason,
  reply_without_target,
}
use pi_mesh.Protocol.Names.{is_valid_alias, is_valid_room}
use pi_mesh.Protocol.Caps.{cap_target_name}
use pi_mesh.Protocol.Json.{
  Json, is_text, is_array, is_whole, is_true, is_absent_or, is_present, is_word,
}
use pi_mesh.Protocol.Shapes.{
  is_hash, is_bounded, is_valid_ref_path, is_valid_iso, is_valid_reservations,
}
use pi_mesh.Protocol.TaskPackage.{Host}
use pi_mesh.Protocol.Check.{
  Check, ◌>>◌, refuse_if, refuse_unless, when, frame_types, priorities, roles,
}

abbrev pub Reader : Type 0
Reader = String → Option Json

-- `typeof v === "string" && SHA256_HEX_REGEX.test(v)`
abbrev pub is_hash_text : Option Json → Bool
is_hash_text v = is_text is_hash v

-- Whether a text stands there that names a capability.
abbrev pub is_cap_route : Option Json → Bool
is_cap_route v = is_text (λ s. is_some (cap_target_name s)) v

-- `!Number.isNaN(Date.parse(s))`
abbrev pub reads_date : Host → String → Bool
reads_date host s = is_some (host.to_iso s)

module _ (host : Host) (value : Reader) where
  -- Rule 1: v, type, id and ts.
  unfoldable pub identity_rules : Check
  identity_rules = do
    refuse_unless (is_whole (λ n. eqb n 1) (value "v")) invalid_frame "v !== 1"
    refuse_unless (is_text (λ s. listed s frame_types) (value "type")) invalid_frame "unknown type"
    refuse_unless (is_text (is_bounded max_frame_id_chars) (value "id")) invalid_frame "bad id"
    refuse_unless (is_valid_iso (reads_date host) (value "ts")) invalid_frame "bad ts"

  -- Rules 2 and 3: the aliases, of which the addressee may be a capability, and the room.
  unfoldable pub address_rules : Check
  address_rules = do
    refuse_unless (is_absent_or (is_text is_valid_alias) (value "from")) invalid_alias "bad from"
    refuse_unless
        (is_absent_or (is_text (λ s. is_some (cap_target_name s) || is_valid_alias s)) (value "to"))
        invalid_alias "bad to"
    refuse_unless (is_absent_or (is_text is_valid_room) (value "room")) invalid_room "bad room"

  -- Rule 4: the size of the body, and its hash.
  unfoldable pub body_rules : ℕ → Check
  body_rules max_body = do
    when (is_present (value "body")) (do
      refuse_unless (is_text (λ _. true) (value "body")) invalid_frame "body not string"
      refuse_unless (is_text (λ s. leb (utf8_bytes (codes s)) max_body) (value "body"))
          invalid_frame "body too large"
      when (is_present (value "bodyHash")) (do
        refuse_unless (is_hash_text (value "bodyHash")) invalid_frame "bad bodyHash"
        refuse_unless (is_text (λ s. is_word (host.sha256 s) (value "bodyHash")) (value "body"))
            hash_mismatch "bodyHash mismatch"))
    refuse_if (not (is_present (value "body")) && is_present (value "bodyHash")) invalid_frame
        "bodyHash without body"

  -- The priority and the role, and rule 5: what a forced frame must give.
  unfoldable pub priority_rules : Check
  priority_rules = do
    refuse_unless (is_absent_or (is_text (λ s. listed s priorities)) (value "priority"))
        invalid_frame "bad priority"
    refuse_unless (is_absent_or (is_text (λ s. listed s roles)) (value "role")) invalid_frame
        "bad role"
    when (is_word "force" (value "priority")) (
        refuse_unless (is_hash_text (value "reasonHash")) force_requires_reason
          "force without reasonHash")
    refuse_if (is_true (value "interrupt") && not (is_word "force" (value "priority")))
        invalid_frame "interrupt requires priority=force"
    refuse_unless (is_absent_or is_hash_text (value "reasonHash")) invalid_frame "bad reasonHash"

  -- Rules 6 and 6b: what a reply answers, and to whom.
  unfoldable pub reply_rules : Check
  reply_rules = do
    when (is_word "reply" (value "type") || is_word "remind" (value "type")) (
        refuse_unless (is_text (λ s. ltb 0 (text_length s)) (value "replyTo")) reply_without_target
          "missing replyTo")
    refuse_unless (is_absent_or (is_text (λ _. true)) (value "replyTo")) invalid_frame "bad replyTo"
    when (is_present (value "replyTargets")) (do
      refuse_unless
          (is_array (λ ts. ltb 0 (length ts) && leb (length ts) max_reply_targets)
            (value "replyTargets"))
          invalid_frame "bad replyTargets"
      refuse_unless (is_array (all (λ t. is_text is_valid_alias (some t))) (value "replyTargets"))
          invalid_frame "bad replyTarget"
      refuse_unless (is_word "msg" (value "type") || is_word "reply" (value "type")) invalid_frame
          "replyTargets on non-msg/reply"
      refuse_if (is_word "reply" (value "type") && is_present (value "to")) invalid_frame
          "replyTargets with to")

  -- Rules 7 and 8: references to files, and reservations.
  unfoldable pub file_rules : Check
  file_rules = do
    when (is_present (value "refs")) (do
      refuse_unless (is_array (λ rs. leb (length rs) max_refs) (value "refs")) invalid_frame
          "bad refs"
      refuse_unless (is_array (all (λ r. is_text is_valid_ref_path (some r))) (value "refs"))
          invalid_frame "bad ref path")
    refuse_unless (is_absent_or (is_valid_reservations (reads_date host)) (value "reservations"))
        invalid_frame "bad reservations"

  -- Rule 9b and the version: what a hello carries.
  unfoldable pub hello_rules : Check
  hello_rules = do
    when (is_present (value "token")) (do
      refuse_unless (is_word "hello" (value "type")) invalid_frame "token on non-hello"
      refuse_unless (is_text (is_bounded 128) (value "token")) invalid_frame "bad token")
    refuse_unless (is_absent_or (is_text (is_bounded 64)) (value "clientVersion")) invalid_frame
        "bad clientVersion"
