-- ===== src/Broker/Routing/Outcome.antt =====
-- What `routeCapMsg` of src/broker/broker.ts does with a message to a capability.
use pi_mesh.Prelude.{
  ◌≤◌, ◌≡◌, ◌≢◌, ◌⊎◌, inl, inr, refl, sym, String, Bool, true, List, [], ◌∷◌, Option, none, some,
  subst,
}
use pi_mesh.Dict
use pi_mesh.Dict.{listed}
use pi_mesh.Protocol.Frame.{MeshFrame, MeshErrorCode}
use pi_mesh.Broker.State.{PeerRecord, MeshConfig, Members}
use pi_mesh.Broker.Policy.{MeshPolicy, PolicyDecision, allowed, downgraded, denied}
use pi_mesh.Broker.World.{Env, World, Relay, relayed, ref_of}
use pi_mesh.Broker.Relay.{write_to}
use pi_mesh.Broker.Routing.Caps.{
  Candidate, scan, sort_candidates, decide, rate_checked, refuse_frame, route_chosen, route_first,
  route_members, route_cap_msg,
}
use pi_mesh.Broker.Routing.Chosen.{IsCapable, first-IsLeast, nobody}

module _ (env : Env) (config : MeshConfig) (policy : MeshPolicy) (from : PeerRecord)
    (frame : MeshFrame) (le : String → String → Bool) (cap room : String) where
  -- One write to the peer, of the frame with its alias as the addressee.
  pub record IsRouted (target : PeerRecord) (before after : World) : Type 0 where
    pub routed : MeshFrame
    pub relay : Relay
    pub written : after ≡ write_to env config (ref_of target) routed (relayed relay) before
    pub to_target : routed.to ≡ some target.alias
    pub same_id : routed.id ≡ frame.id
    pub same_body : routed.body ≡ frame.body

  -- The alias of a peer that may get the message is among these.
  abbrev pub MayGet : World → Members → Candidate → Type 0
  MayGet w ms d =
      (i : IsCapable env config policy from frame le cap room w d) × (listed i.alias (Dict.keys ms)
        ≡ true)

  pub record IsSent (before after : World) : Type 0 where
    pub members : Members
    pub target : Candidate
    pub is_room : Dict.get room before.state.rooms ≡ some members
    pub is_capable : IsCapable env config policy from frame le cap room before target
    pub is_least : (d : Candidate) → MayGet before members d → target.score ≤ d.score
    pub is_routed : IsRouted target.peer before after

  pub record IsRefused (before after : World) : Type 0 where
    pub code : MeshErrorCode
    pub refused : after ≡ refuse_frame env config policy from frame code before
    pub nobody_in :
        (ms : Members)
        → Dict.get room before.state.rooms ≡ some ms
        → (d : Candidate) → ¬ MayGet before ms d

  chosen-IsRouted :
      (target : PeerRecord) (d : PolicyDecision) (w : World)
      → d ≢ denied
      → IsRouted target w (route_chosen env config policy from frame le cap room target d w)
  chosen-IsRouted target denied w ne = absurd (ne refl)
  chosen-IsRouted target downgraded w ne = record {
    routed = _;
    relay = _;
    written = refl;
    to_target = refl;
    same_id = refl;
    same_body = refl;
  }
  chosen-IsRouted target allowed w ne = record {
    routed = _;
    relay = _;
    written = refl;
    to_target = refl;
    same_id = refl;
    same_body = refl;
  }

  abbrev Outcome : World → World → Type 0
  Outcome w r = IsSent w r ⊎ IsRefused w r

  first-Outcome :
      (w : World) (ms : Members) (cs : List Candidate)
      → Dict.get room w.state.rooms ≡ some ms
      → sort_candidates le (scan env config policy from frame le cap room w ms).candidates ≡ cs
      → Outcome w (
          route_first env config policy from frame le cap room
            (scan env config policy from frame le cap room w ms)
            cs
            w)
  first-Outcome w ms [] here e = inr (record {
    code = _;
    refused = refl;
    nobody_in = λ ns there d m.
        let same : ms ≡ ns = cc in
        nobody env config policy from frame le cap room w ms e d m.0
          (subst (λ (ks : Members). listed m.0.alias (Dict.keys ks) ≡ true) (sym same) m.1);
  })
  first-Outcome w ms (c ∷ cs) here e =
      let (capable, least) = first-IsLeast env config policy from frame le cap room w ms c cs e in
      inl (record {
        members = ms;
        target = c;
        is_room = here;
        is_capable = capable;
        is_least = λ d m. least d m.0 m.1;
        is_routed =
            chosen-IsRouted c.peer (decide env config policy from frame c.peer.alias room) w
              capable.is_not_denied;
      })

  members-Outcome :
      (w : World) (o : Option Members)
      → Dict.get room w.state.rooms ≡ o
      → Outcome w (route_members env config policy from frame le cap room o w)
  members-Outcome w none here =
      inr (record { code = _; refused = refl; nobody_in = λ ms there d m. absurd (cc) })
  members-Outcome w (some ms) here = first-Outcome w ms _ here refl

  -- A message to a capability that the rate limit lets pass is either written to one peer, with its
  -- alias as the addressee and the same id and body, or refused. The peer stands in the set of the
  -- room under an alias other than the sender's, is online, a member and no observer, has the
  -- capability, and is not denied by the policy for the priority of the message; no other such peer
  -- of the room has a lower score of business. It is refused only if there is no such peer.
  pub route_cap_msg-outcome :
      (w : World)
      → (rate_checked env config policy from frame w).0 ≡ true
      → let before = (rate_checked env config policy from frame w).1 in
        let after = route_cap_msg env config policy from frame le cap room w in
        IsSent before after ⊎ IsRefused before after
  unfolding route_cap_msg
  route_cap_msg-outcome w passed =
      rw passed (members-Outcome (rate_checked env config policy from frame w).1 _ refl)
