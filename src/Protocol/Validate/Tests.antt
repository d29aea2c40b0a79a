-- ===== src/Protocol/Validate/Tests.antt =====
-- Frames as JSON, and `validateFrame` on them.
use pi_mesh.Prelude.{
  String, List, [], ◌∷◌, none, some, ◌≡◌, refl, arith, true, false, Bool-cases, inl, inr, ◌==◌,
  eq_iff, ap, sym,
}
use pi_mesh.Dict.{Dict, listed}
use pi_mesh.Protocol.Frame.{invalid_frame, force_requires_reason}
use pi_mesh.Protocol.Json.{Json, str, whole, bool, obj, Fields, field, fields}
use pi_mesh.Protocol.TaskPackage.Tests.{sample_host}
use pi_mesh.Protocol.Check.{Verdict, accepted, refused, join, verdict}
use pi_mesh.Protocol.Rules.{
  identity_rules, address_rules, body_rules, priority_rules, reply_rules, file_rules, hello_rules,
}
use pi_mesh.Protocol.KindRules.{
  package_rule, peers_rule, roles_rule, task_rules, peer_rules, control_rules, fan_out_rules,
  status_rules,
}
use pi_mesh.Protocol.Validate.{validate_frame, rule_groups}
use pi_mesh.Protocol.Validate.Terms.{HasAuthority, IsAddressed, HasBody}
use pi_mesh.Protocol.Validate.Keys.{known_keys, validate_frame-known_keys}
use pi_mesh.Protocol.Validate.Accepted.{validate_frame-HasAuthority, validate_frame-IsAddressed}

-- A message with some more fields.
frame_with : String → Dict Json → Fields
frame_with type more = fields (
    ("v", whole 1)
    ∷ ("type", str type)
    ∷ ("id", str "m_1")
    ∷ ("ts", str "2026-01-01T00:00:00Z")
    ∷ ("from", str "ana")
    ∷ more)

abbrev the_hash : String
the_hash = "00000000000000000000000000000000000000000000000000000000000000aa"

forced_message : Fields
forced_message = frame_with "msg" (
    ("to", str "bob")
    ∷ ("body", str "stop")
    ∷ ("bodyHash", str the_hash)
    ∷ ("priority", str "force")
    ∷ ("reasonHash", str the_hash)
    ∷ [])

-- `validateFrame`, with all that a test must compute.
run : Fields → Verdict
unfolding validate_frame rule_groups verdict join frame_with pi_mesh.Dict.get identity_rules
    address_rules body_rules priority_rules reply_rules file_rules hello_rules task_rules peer_rules
    control_rules pi_mesh.Protocol.KindRules.ctl_rules fan_out_rules status_rules package_rule
    peers_rule roles_rule pi_mesh.Prelude.units pi_mesh.Prelude.utf8_bytes
    pi_mesh.Prelude.starts_with pi_mesh.Prelude.lower pi_mesh.Prelude.trim_end
    pi_mesh.Prelude.trim_start pi_mesh.Prelude.drop_text pi_mesh.Prelude.is_blank
    pi_mesh.Protocol.Shapes.is_valid_iso pi_mesh.Protocol.Shapes.is_iso
    pi_mesh.Protocol.Shapes.is_hash pi_mesh.Protocol.Names.is_valid_alias
    pi_mesh.Protocol.Names.is_valid_room pi_mesh.Protocol.Caps.cap_target_name
    pi_mesh.Protocol.Caps.normalize_from pi_mesh.Protocol.Caps.is_cap
run o = validate_frame sample_host none (obj o)

forced_accepted : validate_frame sample_host none (obj forced_message) ≡ accepted
unfolding run forced_message
forced_accepted = refl

-- An interrupt of a message that is not forced.
interrupt_alone :
    validate_frame sample_host none
      (obj (frame_with "msg" (("to", str "bob") ∷ ("interrupt", bool true) ∷ [])))
    ≡ refused invalid_frame "interrupt requires priority=force"
unfolding run
interrupt_alone = refl

unreasoned :
    validate_frame sample_host none
      (obj (frame_with "msg" (("to", str "bob") ∷ ("priority", str "force") ∷ [])))
    ≡ refused force_requires_reason "force without reasonHash"
unfolding run
unreasoned = refl

validate_frame-HasAuthority_example :
    (o : Fields) × (obj forced_message ≡ obj o) × HasAuthority (λ k. field k o)
validate_frame-HasAuthority_example =
    validate_frame-HasAuthority sample_host none (obj forced_message) forced_accepted

validate_frame-IsAddressed_example :
    (o : Fields) × (obj forced_message ≡ obj o)
    × IsAddressed (λ k. field k o)
    × HasBody sample_host 32768 (λ k. field k o)
validate_frame-IsAddressed_example =
    validate_frame-IsAddressed sample_host none (obj forced_message) forced_accepted

-- A hello, and one whose rooms are a number.
hello_with : Dict Json → Fields
unfolding frame_with
hello_with more = frame_with "hello" more

differs : (k : String) → "rooms" ≡ k → listed k known_keys ≡ true → ⊥
differs k e h =
    let same : listed k known_keys ≡ listed "rooms" known_keys =
      ap (λ j. listed j known_keys) (sym e) in
    cc

same_but_rooms :
    (k : String)
    → listed k known_keys ≡ true
    → field k (hello_with (("rooms", whole 5) ∷ [])) ≡ field k (hello_with [])
unfolding hello_with pi_mesh.Dict.get
same_but_rooms k h = elim (Bool-cases ("rooms" == k)) [
  | inl e ↦ absurd (differs k ((eq_iff "rooms" k).0 e) h)
  | inr e ↦ ground arith
]

validate_frame-known_keys_example :
    (validate_frame sample_host none (obj (hello_with (("rooms", whole 5) ∷ [])))
      ≡ validate_frame sample_host none (obj (hello_with [])))
    × (listed "rooms" known_keys ≡ false)
validate_frame-known_keys_example =
    validate_frame-known_keys sample_host none (hello_with (("rooms", whole 5) ∷ []))
      (hello_with []) same_but_rooms
