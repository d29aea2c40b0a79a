-- ===== src/Broker/Routing/Chosen.antt =====
-- Whom `routeCapMsg` of src/broker/broker.ts chooses.
use pi_mesh.Prelude.{
  ℕ, suc, ◌≤◌, ◌≡◌, refl, sym, String, Bool, true, false, not, ◌&&◌, List, [], ◌∷◌, Option, none,
  some, ◌==◌, if-both, if-both_eq, All, arith, get_or_else, subst, ◌≢◌, Bool-cases, inl, inr,
  eq_iff,
}
use pi_mesh.Dict
use pi_mesh.Dict.{listed}
use pi_mesh.Protocol.Frame.{MeshFrame}
use pi_mesh.Broker.State.{PeerRecord, MeshConfig, Members}
use pi_mesh.Protocol.Frame.{normal}
use pi_mesh.Broker.Policy.{MeshPolicy, PolicyDecision, allowed, downgraded, denied, evaluate_policy}
use pi_mesh.Broker.World.{Env, World, online}
use pi_mesh.Broker.Routing.Caps.{
  Candidate, Scan, busy_score, precedes, insert_candidate, sort_candidates, decide, has_cap, see,
  scan, is_denied, is_member,
}

module _ {κ} (le : String → String → Bool) (P : Candidate → Type κ) where
  All-insert :
      (a : Candidate) (bs : List Candidate) → P a → All P bs → All P (insert_candidate le a bs)
  unfolding insert_candidate
  All-insert a [] p h = (p, tt)
  All-insert a (b ∷ bs) p (q, h) =
      if-both (All P) (precedes le a b) (p, (q, h)) (q, All-insert a bs p h)

  insert-All :
      (a : Candidate) (bs : List Candidate) → All P (insert_candidate le a bs) → P a × All P bs
  unfolding insert_candidate
  insert-All a [] (p, h) = (p, tt)
  insert-All a (b ∷ bs) h =
      if-both (λ cs. All P cs → P a × (P b × All P bs)) (precedes le a b) (λ h. h)
        (λ h. let (p, k) = insert-All a bs h.1 in (p, (h.0, k))) h

  All-sort : (cs : List Candidate) → All P cs → All P (sort_candidates le cs)
  unfolding sort_candidates
  All-sort [] h = tt
  All-sort (c ∷ cs) (p, h) = All-insert c (sort_candidates le cs) p (All-sort cs h)

  sort-All : (cs : List Candidate) → All P (sort_candidates le cs) → All P cs
  unfolding sort_candidates
  sort-All [] h = tt
  sort-All (c ∷ cs) h = let (p, k) = insert-All c (sort_candidates le cs) h in (p, sort-All cs k)

abbrev AtLeast : ℕ → Candidate → Type 0
AtLeast n c = n ≤ c.score

weaken : (m n : ℕ) (cs : List Candidate) → m ≤ n → All (AtLeast n) cs → All (AtLeast m) cs
weaken m n [] h k = tt
weaken m n (c ∷ cs) h (p, k) = (omega arith, weaken m n cs h k)

-- The scores do not decrease.
abbrev IsAscending : List Candidate → Type 0
IsAscending [] = Unit
IsAscending (c ∷ cs) = All (AtLeast c.score) cs × IsAscending cs

module _ (le : String → String → Bool) where
  insert-IsAscending :
      (a : Candidate) (bs : List Candidate)
      → IsAscending bs
      → IsAscending (insert_candidate le a bs)
  unfolding insert_candidate
  insert-IsAscending a [] h = (tt, tt)
  insert-IsAscending a (b ∷ bs) (low, h) =
      if-both_eq IsAscending (precedes le a b)
        (λ e.
          let a_low : a.score ≤ b.score = ground arith in
          ((a_low, weaken a.score b.score bs a_low low), (low, h)))
        (λ e. (All-insert le (AtLeast b.score) a bs (ground arith) low, insert-IsAscending a bs h))

  sort-IsAscending : (cs : List Candidate) → IsAscending (sort_candidates le cs)
  unfolding sort_candidates
  sort-IsAscending [] = tt
  sort-IsAscending (c ∷ cs) = insert-IsAscending c (sort_candidates le cs) (sort-IsAscending cs)

module _ (env : Env) (config : MeshConfig) (policy : MeshPolicy) (from : PeerRecord)
    (frame : MeshFrame) (le : String → String → Bool) (cap room : String) (w : World) where
  -- A peer that may get the message: it stands under an alias other than the sender's, is online, a
  -- member of the room and no observer, has the capability, and the policy does not deny it.
  pub record IsCapable (c : Candidate) : Type 0 where
    pub alias : String
    pub other : (alias == from.alias) ≡ false
    pub is_online : online env config w (Dict.get alias w.state.peers) ≡ some c.peer
    pub is_in_room : is_member (Dict.get room c.peer.rooms) ≡ true
    pub has_the_cap : listed cap (get_or_else c.peer.caps []) ≡ true
    pub is_not_denied :
        evaluate_policy policy (record {
          from = from.alias;
          to = c.peer.alias;
          room = room;
          priority = get_or_else frame.priority normal;
        })
        ≢ denied
    pub scored : c.score ≡ busy_score env.now c.peer.activity

  Candidates : Scan → Type 0
  Candidates seen = All IsCapable seen.candidates

  see-Candidates :
      (alias : String) (o : Option PeerRecord) (rest : Scan)
      → (alias == from.alias) ≡ false
      → online env config w (Dict.get alias w.state.peers) ≡ o
      → Candidates rest
      → Candidates (see env config policy from frame le cap room o rest)
  unfolding Candidates
  see-Candidates alias none rest n e h = h
  see-Candidates alias (some p) rest n e h =
      if-both_eq (All IsCapable)
        (has_cap env config policy from frame le cap room p
          && not (is_denied (decide env config policy from frame p.alias room)))
        (λ b. (
          record {
            alias = alias;
            other = n;
            is_online = e;
            is_in_room = ground arith;
            has_the_cap = ground arith;
            is_not_denied = λ e. ground (arith, e);
            scored = refl;
          },
          h,
        ))
        (λ _. h)

  scan-Candidates : (ms : Members) → Candidates (scan env config policy from frame le cap room w ms)
  unfolding scan Candidates
  scan-Candidates [] = tt
  scan-Candidates ((alias, _) ∷ ms) =
      if-both_eq Candidates (alias == from.alias) (λ _. scan-Candidates ms)
        (λ n.
          see-Candidates alias (online env config w (Dict.get alias w.state.peers))
            (scan env config policy from frame le cap room w ms) n refl (scan-Candidates ms))

  see-rest :
      (n : ℕ) (o : Option PeerRecord) (rest : Scan)
      → All (AtLeast n) (see env config policy from frame le cap room o rest).candidates
      → All (AtLeast n) rest.candidates
  see-rest n none rest h = h
  see-rest n (some p) rest h =
      if-both (λ cs. All (AtLeast n) cs → All (AtLeast n) rest.candidates)
        (has_cap env config policy from frame le cap room p
          && not (is_denied (decide env config policy from frame p.alias room)))
        (λ k. k.1) (λ k. k) h

  not_denied : (d : PolicyDecision) → d ≢ denied → not (is_denied d) ≡ true
  not_denied allowed ne = refl
  not_denied downgraded ne = refl
  not_denied denied ne = absurd (ne refl)

  see-capable :
      (n : ℕ) (d : Candidate) (rest : Scan)
      → IsCapable d
      → All (AtLeast n) (see env config policy from frame le cap room (some d.peer) rest).candidates
      → n ≤ d.score
  see-capable n d rest i h =
      let in_room = i.is_in_room in
      let capable = i.has_the_cap in
      let free =
        not_denied (decide env config policy from frame d.peer.alias room) i.is_not_denied in
      let passes : (has_cap env config policy from frame le cap room d.peer
            && not (is_denied (decide env config policy from frame d.peer.alias room)))
          ≡ true =
        rw (in_room, capable, free) refl in
      let here = rw passes at h in omega (arith, here.0, i.scored)

  -- Every peer that may get the message, of those in the set, is seen by the loop.
  scan_complete :
      (n : ℕ) (ms : Members)
      → All (AtLeast n) (scan env config policy from frame le cap room w ms).candidates
      → (d : Candidate) (i : IsCapable d) → listed i.alias (Dict.keys ms) ≡ true
      → n ≤ d.score
  unfolding scan
  scan_complete n [] h d i e = absurd (ground (arith, e))
  scan_complete n ((alias, _) ∷ ms) h d i e =
      let rest = scan env config policy from frame le cap room w ms in
      let o = online env config w (Dict.get alias w.state.peers) in
      elim (Bool-cases (alias == i.alias)) [
        | inl same ↦
            let ours = (eq_iff alias i.alias).0 same in
            let others : (alias == from.alias) ≡ false =
              subst (λ a. (a == from.alias) ≡ false) (sym ours) i.other in
            let there : o ≡ some d.peer =
              subst (λ a. online env config w (Dict.get a w.state.peers) ≡ some d.peer) (sym ours)
                i.is_online in
            see-capable n d rest i (rw (others, there) at h)
        | inr differ ↦
            scan_complete n ms
              (if-both
                (λ (s : Scan). All (AtLeast n) s.candidates → All (AtLeast n) rest.candidates)
                (alias == from.alias) (λ k. k) (see-rest n o rest) h)
              d i (ground (arith, e))
      ]

  -- The first of the sorted candidates, against every peer in the set that may get the message.
  pub first-IsLeast :
      (ms : Members) (c : Candidate) (rest : List Candidate)
      → sort_candidates le (scan env config policy from frame le cap room w ms).candidates
        ≡ c ∷ rest
      → IsCapable c
        × ((d : Candidate) (i : IsCapable d)
            → listed i.alias (Dict.keys ms) ≡ true
            → c.score ≤ d.score)
  unfolding Candidates
  first-IsLeast ms c rest e =
      let cs = (scan env config policy from frame le cap room w ms).candidates in
      let all = All-sort le IsCapable cs (scan-Candidates ms) in
      let ascending = sort-IsAscending le cs in
      let low : All (AtLeast c.score) cs =
        sort-All le (AtLeast c.score) cs (
          subst (All (AtLeast c.score)) (sym e) (omega arith, (subst IsAscending e ascending).0)) in
      ((subst (All IsCapable) e all).0, scan_complete c.score ms low)

  -- Where the loop finds no candidate, nobody in the set may get the message.
  pub nobody :
      (ms : Members)
      → sort_candidates le (scan env config policy from frame le cap room w ms).candidates ≡ []
      → (d : Candidate) (i : IsCapable d) → listed i.alias (Dict.keys ms) ≡ true
      → ⊥
  nobody ms e d i l =
      let cs = (scan env config policy from frame le cap room w ms).candidates in
      let high : All (AtLeast (suc d.score)) cs =
        sort-All le (AtLeast (suc d.score)) cs (subst (All (AtLeast (suc d.score))) (sym e) tt) in
      let over = scan_complete (suc d.score) ms high d i l in absurd (omega arith)
