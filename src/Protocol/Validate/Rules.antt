-- ===== src/Protocol/Validate/Rules.antt =====
-- What the rules of a group say when they hold.
use pi_mesh.Prelude.{
  String, ℕ, Option, none, some, true, false, ◌≡◌, ◌⊎◌, inl, inr, ◌≤◌, ◌<◌, not, ◌||◌, text_length,
  ltb, leb, refl, ap, ◌∙◌, Bool, arith, ◌==◌, eq_iff, codes, utf8_bytes, is_some, is_blank, leb→le,
}
use pi_mesh.Dict.{listed}
use pi_mesh.Protocol.Names.{is_valid_alias, is_valid_room}
use pi_mesh.Protocol.Caps.{cap_target_name}
use pi_mesh.Protocol.Shapes.{is_hash, is_ctl_target}
use pi_mesh.Protocol.Json.{
  Json, null, fraction, whole, negative, obj, str, bool, arr, is_text, is_word,
}
use pi_mesh.Protocol.TaskPackage.{Host}
use pi_mesh.Protocol.Check.{AllHold, ctl_actions, targeted_actions}
use pi_mesh.Protocol.Rules.{
  Reader, is_cap_route, address_rules, body_rules, priority_rules, reply_rules,
}
use pi_mesh.Protocol.KindRules.{control_rules, fan_out_rules}
use pi_mesh.Protocol.Validate.Terms.{Says, SaysHash}

or-true : (a b : Bool) → (a || b) ≡ true → (a ≡ true) ⊎ (b ≡ true)
or-true true b h = inl refl
or-true false b h = inr h

is_text-Says : (p : String → Bool) (v : Option Json) → is_text p v ≡ true → Says (λ s. p s ≡ true) v
is_text-Says p none h = cc
is_text-Says p (some null) h = cc
is_text-Says p (some fraction) h = cc
is_text-Says p (some (bool b)) h = cc
is_text-Says p (some (whole n)) h = cc
is_text-Says p (some (negative n)) h = cc
is_text-Says p (some (str s)) h = (s, refl, h)
is_text-Says p (some (arr xs)) h = cc
is_text-Says p (some (obj o)) h = cc

is_word-eq : (w : String) (v : Option Json) → is_word w v ≡ true → v ≡ some (str w)
is_word-eq w v h =
    let said : Says (λ t. (t == w) ≡ true) v = is_text-Says (λ t. t == w) v h in
    said.1 ∙ ap (λ t. some (str t)) ((eq_iff said.0 w).0 said.2)

module _ (host : Host) (f : Reader) where
  pub priority_rules-forced :
      AllHold (priority_rules host f)
      → f "priority" ≡ some (str "force")
      → SaysHash (f "reasonHash")
  unfolding priority_rules
  priority_rules-forced h e = is_text-Says is_hash (f "reasonHash") (ground arith)

  pub priority_rules-interrupting :
      AllHold (priority_rules host f)
      → f "interrupt" ≡ some (bool true)
      → f "priority" ≡ some (str "force")
  unfolding priority_rules
  priority_rules-interrupting h e = is_word-eq "force" (f "priority") (ground arith)

  module _ (ok : AllHold (control_rules host f)) (is_ctl : f "type" ≡ some (str "ctl")) where
    pub control_rules-acting : Says (λ s. listed s ctl_actions ≡ true) (f "action")
    unfolding control_rules
    control_rules-acting = is_text-Says (λ s. listed s ctl_actions) (f "action") (ground arith)

    pub control_rules-aborting : f "action" ≡ some (str "abort") → SaysHash (f "reasonHash")
    unfolding control_rules
    control_rules-aborting e = is_text-Says is_hash (f "reasonHash") (ground arith)

    pub control_rules-redirecting : f "action" ≡ some (str "redirect") → SaysHash (f "reasonHash")
    unfolding control_rules
    control_rules-redirecting e = is_text-Says is_hash (f "reasonHash") (ground arith)

    pub control_rules-redirecting_to :
        f "action" ≡ some (str "redirect") → Says (λ s. not (is_blank s) ≡ true) (f "body")
    unfolding control_rules
    control_rules-redirecting_to e = is_text-Says (λ s. not (is_blank s)) (f "body") (ground arith)

    pub control_rules-targeting :
        (action : String)
        → f "action" ≡ some (str action)
        → listed action targeted_actions ≡ true
        → Says (λ s. is_ctl_target s ≡ true) (f "target")
    unfolding control_rules
    control_rules-targeting action e l = is_text-Says is_ctl_target (f "target") (ground arith)

    pub control_rules-no_route : is_cap_route (f "to") ≡ false
    unfolding control_rules
    control_rules-no_route = ground arith

  module _ (ok : AllHold (address_rules host f)) where
    pub address_rules-from :
        (v : Json) → f "from" ≡ some v → Says (λ s. is_valid_alias s ≡ true) (some v)
    unfolding address_rules
    address_rules-from v e = is_text-Says is_valid_alias (some v) (ground arith)

    pub address_rules-to :
        (v : Json)
        → f "to" ≡ some v
        → Says (λ s. (is_some (cap_target_name s) ≡ true) ⊎ (is_valid_alias s ≡ true)) (some v)
    unfolding address_rules
    address_rules-to v e =
        let said : Says (λ s. (is_some (cap_target_name s) || is_valid_alias s) ≡ true) (some v) =
          is_text-Says (λ s. is_some (cap_target_name s) || is_valid_alias s) (some v)
            (ground arith) in
        (said.0, said.1, or-true _ _ said.2)

    pub address_rules-to_alias :
        (v : Json)
        → is_cap_route (f "to") ≡ false
        → f "to" ≡ some v
        → Says (λ s. is_valid_alias s ≡ true) (some v)
    address_rules-to_alias v no_route e =
        let (s, here, one) = address_rules-to v e in
        elim one [ inl cap ↦ absurd (ground (arith)) | inr alias ↦ (s, here, alias) ]

    pub fan_out_rules-broadcast :
        AllHold (fan_out_rules host f)
        → f "broadcast" ≡ some (bool true)
        → (f "to" ≡ none) × Says (λ s. is_valid_room s ≡ true) (f "room")
    unfolding address_rules fan_out_rules
    fan_out_rules-broadcast h e =
        (ground arith, is_text-Says is_valid_room (f "room") (ground arith))

  pub reply_rules-replying :
      AllHold (reply_rules host f)
      → f "type" ≡ some (str "reply")
      → Says (λ s. 0 < text_length s) (f "replyTo")
  unfolding reply_rules
  reply_rules-replying h e =
      let said : Says (λ s. ltb 0 (text_length s) ≡ true) (f "replyTo") =
        is_text-Says (λ s. ltb 0 (text_length s)) (f "replyTo") (ground arith) in
      (said.0, said.1, ground (arith, said.2))

  pub fan_out_rules-all :
      AllHold (fan_out_rules host f)
      → f "replyAll" ≡ some (bool true)
      → (f "to" ≡ none) × (f "type" ≡ some (str "reply"))
  unfolding fan_out_rules
  fan_out_rules-all h e = (ground arith, is_word-eq "reply" (f "type") (ground arith))

  module _ (limit : ℕ) (ok : AllHold (body_rules host f limit)) where
    pub body_rules-bounded :
        (v : Json) → f "body" ≡ some v → Says (λ s. utf8_bytes (codes s) ≤ limit) (some v)
    unfolding body_rules
    body_rules-bounded v e =
        let said : Says (λ s. leb (utf8_bytes (codes s)) limit ≡ true) (some v) =
          is_text-Says (λ s. leb (utf8_bytes (codes s)) limit) (some v) (ground arith) in
        (said.0, said.1, leb→le _ _ said.2)

    pub body_rules-hashed :
        (h : Json) → f "bodyHash" ≡ some h → Says (λ s. h ≡ str (host.sha256 s)) (f "body")
    unfolding body_rules
    body_rules-hashed h e =
        let said : Says (λ s. is_word (host.sha256 s) (some h) ≡ true) (f "body") =
          is_text-Says (λ s. is_word (host.sha256 s) (some h)) (f "body") (ground arith) in
        let same : some h ≡ some (str (host.sha256 said.0)) =
          is_word-eq (host.sha256 said.0) (some h) said.2 in
        (said.0, said.1, cc (same))
