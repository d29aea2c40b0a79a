-- ===== src/Protocol/Validate/Keys.antt =====
-- `validateFrame` reads the keys that it knows, and no other.
use pi_mesh.Prelude.{String, ℕ, List, [], ◌∷◌, Option, true, ◌≡◌, refl, ap, get_or_else, false}
use pi_mesh.Dict.{listed}
use pi_mesh.Shared.Config.{max_body_bytes}
use pi_mesh.Protocol.Json.{Fields, obj, field}
use pi_mesh.Protocol.TaskPackage.{Host}
use pi_mesh.Protocol.Check.{Check, join, verdict}
use pi_mesh.Protocol.Rules.{
  Reader, identity_rules, address_rules, body_rules, priority_rules, reply_rules, file_rules,
  hello_rules,
}
use pi_mesh.Protocol.KindRules.{task_rules, peer_rules, control_rules, fan_out_rules, status_rules}
use pi_mesh.Protocol.Validate.{rule_groups, validate_frame}

-- The keys that some rule reads.
abbrev pub known_keys : List String
known_keys =
    "v" ∷ "type" ∷ "id" ∷ "ts" ∷ "from" ∷ "to" ∷ "room" ∷ "body" ∷ "bodyHash" ∷ "priority" ∷ "role"
    ∷ "reasonHash" ∷ "interrupt" ∷ "replyTo" ∷ "replyTargets" ∷ "refs" ∷ "reservations" ∷ "token"
    ∷ "clientVersion" ∷ "taskPackage" ∷ "routedCap" ∷ "routedTo" ∷ "task" ∷ "paths" ∷ "ttlMs"
    ∷ "leaseId" ∷ "fence" ∷ "epoch" ∷ "owner" ∷ "expiresAt" ∷ "caps" ∷ "proto" ∷ "peers" ∷ "roles"
    ∷ "action" ∷ "target" ∷ "settled" ∷ "status" ∷ "broadcast" ∷ "replyAll" ∷ "reads"
    ∷ "deliveredCount" ∷ "totalCount" ∷ "code" ∷ []

module _ (host : Host) (f g : Reader)
    (same : (k : String) → listed k known_keys ≡ true → f k ≡ g k) where
  identity_rules-same : identity_rules host f ≡ identity_rules host g
  unfolding identity_rules
  identity_rules-same = simp (same "v" refl, same "type" refl, same "id" refl, same "ts" refl)

  address_rules-same : address_rules host f ≡ address_rules host g
  unfolding address_rules
  address_rules-same = simp (same "from" refl, same "to" refl, same "room" refl)

  body_rules-same : (max_body : ℕ) → body_rules host f max_body ≡ body_rules host g max_body
  unfolding body_rules
  body_rules-same max_body = simp (same "body" refl, same "bodyHash" refl)

  priority_rules-same : priority_rules host f ≡ priority_rules host g
  unfolding priority_rules
  priority_rules-same =
      simp (same "priority" refl, same "role" refl, same "reasonHash" refl, same "interrupt" refl)

  reply_rules-same : reply_rules host f ≡ reply_rules host g
  unfolding reply_rules
  reply_rules-same =
      simp (same "type" refl, same "replyTo" refl, same "replyTargets" refl, same "to" refl)

  file_rules-same : file_rules host f ≡ file_rules host g
  unfolding file_rules
  file_rules-same = simp (same "refs" refl, same "reservations" refl)

  hello_rules-same : hello_rules host f ≡ hello_rules host g
  unfolding hello_rules
  hello_rules-same = simp (same "token" refl, same "type" refl, same "clientVersion" refl)

  task_rules-same : task_rules host f ≡ task_rules host g
  unfolding task_rules
  task_rules-same = simp (
    same "taskPackage" refl,
    same "routedCap" refl,
    same "routedTo" refl,
    same "task" refl,
    same "paths" refl,
    same "ttlMs" refl,
    same "leaseId" refl,
    same "fence" refl,
    same "epoch" refl,
    same "owner" refl,
    same "expiresAt" refl,
  )

  peer_rules-same : peer_rules host f ≡ peer_rules host g
  unfolding peer_rules
  peer_rules-same = simp (same "caps" refl, same "proto" refl, same "peers" refl, same "roles" refl)

  control_rules-same : control_rules host f ≡ control_rules host g
  unfolding control_rules
  control_rules-same = simp (
    same "action" refl,
    same "target" refl,
    same "settled" refl,
    same "type" refl,
    same "replyTo" refl,
    same "status" refl,
    same "reasonHash" refl,
    same "to" refl,
    same "body" refl,
  )

  fan_out_rules-same : fan_out_rules host f ≡ fan_out_rules host g
  unfolding fan_out_rules
  fan_out_rules-same = simp (
    same "broadcast" refl,
    same "to" refl,
    same "room" refl,
    same "replyAll" refl,
    same "type" refl,
  )

  status_rules-same : status_rules host f ≡ status_rules host g
  unfolding status_rules
  status_rules-same = simp (
    same "type" refl,
    same "reads" refl,
    same "to" refl,
    same "deliveredCount" refl,
    same "totalCount" refl,
    same "status" refl,
    same "from" refl,
    same "code" refl,
    same "expiresAt" refl,
  )

  pub rule_groups-same :
      (max_body : Option ℕ) → rule_groups host max_body f ≡ rule_groups host max_body g
  unfolding rule_groups
  rule_groups-same max_body = simp (
    identity_rules-same,
    address_rules-same,
    body_rules-same (get_or_else max_body max_body_bytes),
    priority_rules-same,
    reply_rules-same,
    file_rules-same,
    hello_rules-same,
    task_rules-same,
    peer_rules-same,
    control_rules-same,
    fan_out_rules-same,
    status_rules-same,
  )

-- Two objects that agree on the keys that some rule reads are accepted or refused alike, with the
-- same code and detail, whatever else they hold. The key `rooms`, whose value a hello is joined to
-- rooms by, is not among those keys.
pub validate_frame-known_keys :
    (host : Host) (max_body : Option ℕ) (o p : Fields)
    → ((k : String) → listed k known_keys ≡ true → field k o ≡ field k p)
    → (validate_frame host max_body (obj o) ≡ validate_frame host max_body (obj p))
      × (listed "rooms" known_keys ≡ false)
unfolding validate_frame
validate_frame-known_keys host max_body o p same = (
  ap (λ (groups : List Check). verdict (join groups))
      (rule_groups-same host (λ k. field k o) (λ k. field k p) same max_body),
  refl,
)
