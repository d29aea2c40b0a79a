-- ===== src/Protocol/Validate/Accepted.antt =====
-- What a frame says that `validateFrame` accepts.
use pi_mesh.Prelude.{ℕ, Option, true, false, ◌≡◌, not, refl, get_or_else, arith, is_blank}
use pi_mesh.Shared.Config.{max_body_bytes}
use pi_mesh.Protocol.Json.{
  Json, null, fraction, whole, negative, Fields, obj, str, bool, arr, field,
}
use pi_mesh.Protocol.TaskPackage.{Host}
use pi_mesh.Protocol.Check.{AllHold, verdict-AllHold, AllHold-join, join, verdict, accepted}
use pi_mesh.Protocol.Rules.{Reader, address_rules, body_rules, priority_rules, reply_rules}
use pi_mesh.Protocol.KindRules.{control_rules, fan_out_rules}
use pi_mesh.Protocol.Validate.{rule_groups, validate_frame}
use pi_mesh.Protocol.Validate.Terms.{Says, HasAuthority, IsAddressed, HasBody}
use pi_mesh.Protocol.Validate.Rules.{
  priority_rules-forced, priority_rules-interrupting, control_rules-acting, control_rules-aborting,
  control_rules-redirecting, control_rules-redirecting_to, control_rules-targeting,
  control_rules-no_route, address_rules-from, address_rules-to, address_rules-to_alias,
  fan_out_rules-broadcast, reply_rules-replying, fan_out_rules-all, body_rules-bounded,
  body_rules-hashed,
}

module _ (host : Host) (max_body : Option ℕ) (f : Reader) where
  record Passes : Type 0 where
    address : AllHold (address_rules host f)
    body : AllHold (body_rules host f (get_or_else max_body max_body_bytes))
    priority : AllHold (priority_rules host f)
    reply : AllHold (reply_rules host f)
    control : AllHold (control_rules host f)
    fan_out_holds : AllHold (fan_out_rules host f)

  passes : verdict (join (rule_groups host max_body f)) ≡ accepted → Passes
  unfolding rule_groups
  passes h =
      let all = AllHold-join (rule_groups host max_body f) (verdict-AllHold _ h) in
      record {
        address = all.1.0;
        body = all.1.1.0;
        priority = all.1.1.1.0;
        reply = all.1.1.1.1.0;
        control = all.1.1.1.1.1.1.1.1.1.0;
        fan_out_holds = all.1.1.1.1.1.1.1.1.1.1.0;
      }

said_not-eq :
    {v : Option Json} → Says (λ s. not (is_blank s) ≡ true) v → Says (λ s. is_blank s ≡ false) v
said_not-eq (s, here, h) = (s, here, ground arith)

-- What is accepted is an object that all rules accept.
accepted_object :
    (host : Host) (max_body : Option ℕ) (v : Json)
    → validate_frame host max_body v ≡ accepted
    → (o : Fields) × (v ≡ obj o) × Passes host max_body (λ k. field k o)
unfolding validate_frame
accepted_object host max_body null h = cc
accepted_object host max_body fraction h = cc
accepted_object host max_body (bool b) h = cc
accepted_object host max_body (whole n) h = cc
accepted_object host max_body (negative n) h = cc
accepted_object host max_body (str s) h = cc
accepted_object host max_body (arr xs) h = cc
accepted_object host max_body (obj o) h = (o, refl, passes host max_body (λ k. field k o) h)

module _ (host : Host) (max_body : Option ℕ) (v : Json)
    (ok : validate_frame host max_body v ≡ accepted) where
  -- A value that is accepted is an object; if its priority is force, it has a `reasonHash` of 64
  -- hexadecimal digits; it interrupts only with priority force; if it is a control frame, its action
  -- is one of the seven; an abort and a redirect have a `reasonHash`, a redirect a body that is not
  -- blank, and an action on a job or a run a well-formed target.
  pub validate_frame-HasAuthority : (o : Fields) × (v ≡ obj o) × HasAuthority (λ k. field k o)
  validate_frame-HasAuthority =
      let (o, here, p) = accepted_object host max_body v ok in
      let f : Reader = λ k. field k o in
      (
        o,
        here,
        record {
          forced = priority_rules-forced host f p.priority;
          interrupting = priority_rules-interrupting host f p.priority;
          acting = control_rules-acting host f p.control;
          aborting = control_rules-aborting host f p.control;
          redirecting = λ ctl redirect. (
            control_rules-redirecting host f p.control ctl redirect,
            said_not-eq (control_rules-redirecting_to host f p.control ctl redirect),
          );
          targeting = λ action ctl. control_rules-targeting host f p.control ctl action;
        },
      )

  -- A value that is accepted is an object; its sender is a valid alias, its addressee is one or
  -- routes to a capability, which a control frame's may not; a broadcast has a valid room and no
  -- addressee; a reply names the message that it answers; a reply to all is a reply without
  -- addressee. Its body is a text within the bound in UTF-8, and a hash that it gives is that of the
  -- body, which is then there.
  pub validate_frame-IsAddressed :
      (o : Fields) × (v ≡ obj o)
      × IsAddressed (λ k. field k o)
      × HasBody host (get_or_else max_body max_body_bytes) (λ k. field k o)
  validate_frame-IsAddressed =
      let (o, here, p) = accepted_object host max_body v ok in
      let f : Reader = λ k. field k o in
      (
        o,
        here,
        record {
          from_alias = address_rules-from host f p.address;
          to_peer = address_rules-to host f p.address;
          to_alias = λ w ctl.
              address_rules-to_alias host f p.address w
                (control_rules-no_route host f p.control ctl);
          broadcasting = fan_out_rules-broadcast host f p.address p.fan_out_holds;
          replying = reply_rules-replying host f p.reply;
          replying_to_all = fan_out_rules-all host f p.fan_out_holds;
        },
        record {
          bounded = body_rules-bounded host f (get_or_else max_body max_body_bytes) p.body;
          hashed = body_rules-hashed host f (get_or_else max_body max_body_bytes) p.body;
        },
      )
