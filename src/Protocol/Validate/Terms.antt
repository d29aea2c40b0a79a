-- ===== src/Protocol/Validate/Terms.antt =====
-- What a frame says, in terms that do not go through the rules.
use pi_mesh.Prelude.{
  String, ℕ, Option, none, some, true, false, ◌≡◌, ◌⊎◌, ◌≤◌, ◌<◌, text_length, codes, utf8_bytes,
  is_some, is_blank,
}
use pi_mesh.Dict.{listed}
use pi_mesh.Protocol.Names.{is_valid_alias, is_valid_room}
use pi_mesh.Protocol.Caps.{cap_target_name}
use pi_mesh.Protocol.Shapes.{is_hash, is_ctl_target}
use pi_mesh.Protocol.Json.{Json, str, bool}
use pi_mesh.Protocol.TaskPackage.{Host}
use pi_mesh.Protocol.Check.{ctl_actions, targeted_actions}
use pi_mesh.Protocol.Rules.{Reader}

-- A text stands there that satisfies `p`.
abbrev pub Says : (String → Type 0) → Option Json → Type 0
Says P v = (s : String) × (v ≡ some (str s)) × P s

abbrev pub SaysHash : Option Json → Type 0
SaysHash v = Says (λ s. is_hash s ≡ true) v

-- What a frame must say to stop or to steer the turn of a peer.
pub record HasAuthority (f : Reader) : Type 0 where
  pub forced : f "priority" ≡ some (str "force") → SaysHash (f "reasonHash")
  pub interrupting : f "interrupt" ≡ some (bool true) → f "priority" ≡ some (str "force")
  pub acting : f "type" ≡ some (str "ctl") → Says (λ s. listed s ctl_actions ≡ true) (f "action")
  pub aborting :
      f "type" ≡ some (str "ctl") → f "action" ≡ some (str "abort") → SaysHash (f "reasonHash")
  pub redirecting :
      f "type" ≡ some (str "ctl")
      → f "action" ≡ some (str "redirect")
      → SaysHash (f "reasonHash") × Says (λ s. is_blank s ≡ false) (f "body")
  pub targeting :
      (action : String)
      → f "type" ≡ some (str "ctl")
      → f "action" ≡ some (str action)
      → listed action targeted_actions ≡ true
      → Says (λ s. is_ctl_target s ≡ true) (f "target")

-- Whom a frame names, and what it answers.
pub record IsAddressed (f : Reader) : Type 0 where
  pub from_alias : (v : Json) → f "from" ≡ some v → Says (λ s. is_valid_alias s ≡ true) (some v)
  pub to_peer :
      (v : Json)
      → f "to" ≡ some v
      → Says (λ s. (is_some (cap_target_name s) ≡ true) ⊎ (is_valid_alias s ≡ true)) (some v)
  pub to_alias :
      (v : Json)
      → f "type" ≡ some (str "ctl")
      → f "to" ≡ some v
      → Says (λ s. is_valid_alias s ≡ true) (some v)
  pub broadcasting :
      f "broadcast" ≡ some (bool true)
      → (f "to" ≡ none) × Says (λ s. is_valid_room s ≡ true) (f "room")
  pub replying : f "type" ≡ some (str "reply") → Says (λ s. 0 < text_length s) (f "replyTo")
  pub replying_to_all :
      f "replyAll" ≡ some (bool true) → (f "to" ≡ none) × (f "type" ≡ some (str "reply"))

-- What a frame carries: a body of at most so many bytes, whose hash is the one that is given.
pub record HasBody (host : Host) (limit : ℕ) (f : Reader) : Type 0 where
  pub bounded : (v : Json) → f "body" ≡ some v → Says (λ s. utf8_bytes (codes s) ≤ limit) (some v)
  pub hashed : (h : Json) → f "bodyHash" ≡ some h → Says (λ s. h ≡ str (host.sha256 s)) (f "body")
