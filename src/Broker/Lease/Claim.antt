-- ===== src/Broker/Lease/Claim.antt =====
-- The table seen through the leases that are live: what a lookup, a check and a claim answer.
use pi_mesh.Prelude.{
  ℕ, ◌+◌, ◌≤◌, ◌<◌, ◌≢◌, ◌⊎◌, inl, inr, Bool-cases, subst, sym, ◌≡◌, ◌↔◌, refl, String, true, false,
  List, Option, none, some, ◌==◌, eq_iff, arith, is_blank,
}
use pi_mesh.Dict
use pi_mesh.Dict.Laws.{get-set, get-delete, get-retain, keep_if}
use pi_mesh.Shared.Config.{min_lease_ttl_ms, max_lease_ttl_ms}
use pi_mesh.Broker.Lease.{
  LeaseRecord, LeaseTable, Stamp, ClaimOutcome, granted, held, is_live, is_holder, is_empty, prune,
  get, grant, claim, new_lease, verify,
}
use pi_mesh.Broker.Lease.Invariant.{IsValid}

abbrev pub live : ℕ → String → LeaseTable → Option LeaseRecord
live now task t = keep_if (λ _ l. is_live now l) task (Dict.get task t.by_task)

pub get-live : (now : ℕ) (task : String) (t : LeaseTable) → (get now task t).0 ≡ live now task t
unfolding get
get-live now task t = ground arith

-- Time only takes leases away: what a lookup or a pruning at `now` deletes is dead ever after.
pub live-get :
    (now later : ℕ) (task other : String) (t : LeaseTable)
    → now ≤ later
    → live later other (get now task t).1 ≡ live later other t
unfolding get
live-get now later task other t h =
    ground (arith, get-delete other task t.by_task, eq_iff task other)

pub live-prune :
    (now later : ℕ) (other : String) (t : LeaseTable)
    → IsValid t
    → now ≤ later
    → live later other (prune now t) ≡ live later other t
unfolding prune
live-prune now later other t v h =
    ground (arith, get-retain (λ _ l. is_live now l) other t.by_task v.unique)

pub record IsAdmissible (task : String) (paths : List String) (ttl : ℕ) : Type 0 where
  pub named : is_blank task ≡ false
  pub has_paths : is_empty paths ≡ false
  pub long_enough : min_lease_ttl_ms ≤ ttl
  pub short_enough : ttl ≤ max_lease_ttl_ms

module _ (now : ℕ) (stamp : Stamp) (task owner : String) (paths : List String) (ttl : ℕ) where
  claim_admissible :
      (t : LeaseTable)
      → IsAdmissible task paths ttl
      → claim now stamp task owner paths ttl t
        ≡ grant now stamp task owner paths ttl (prune now t) (Dict.get task (prune now t).by_task)
  unfolding claim
  claim_admissible t a = ground arith

  -- A lease as the claim asks for it, with the fence after the last one.
  pub record IsNew (t : LeaseTable) (l : LeaseRecord) : Type 0 where
    pub named : l.lease_id ≡ stamp.msg_id
    pub for_task : l.task ≡ task
    pub for_owner : l.owner ≡ owner
    pub for_paths : l.paths ≡ paths
    pub next_fence : l.fence ≡ t.counter + 1
    pub same_epoch : l.epoch ≡ t.epoch
    pub stamped : l.granted_at ≡ stamp.iso_now
    pub ends : l.expires_at ≡ now + ttl

  -- What a claim answers, by the live lease on the task, and the last fence after it.
  abbrev pub IsAnswer : LeaseTable → Option LeaseRecord → ClaimOutcome × LeaseTable → Type 0
  IsAnswer t (some l) (out, t') =
      ((l.owner ≡ owner) × (out ≡ granted l true) × (t'.counter ≡ t.counter))
      ⊎ ((l.owner ≢ owner) × (out ≡ held l.owner) × (t'.counter ≡ t.counter))
  IsAnswer t none (out, t') =
      (l : LeaseRecord) × (out ≡ granted l false) × IsNew t l × (t'.counter ≡ t.counter + 1)

  get-prune : (t : LeaseTable) → IsValid t → Dict.get task (prune now t).by_task ≡ live now task t
  unfolding prune
  get-prune t v = get-retain (λ _ l. is_live now l) task t.by_task v.unique

  grant-IsAnswer :
      (t : LeaseTable) (o : Option LeaseRecord)
      → IsAnswer t o (grant now stamp task owner paths ttl (prune now t) o)
  unfolding prune
  grant-IsAnswer t none = (
    _,
    refl,
    record {
      named = refl;
      for_task = refl;
      for_owner = refl;
      for_paths = refl;
      next_fence = omega arith;
      same_epoch = refl;
      stamped = refl;
      ends = refl;
    },
    omega arith,
  )
  grant-IsAnswer t (some l) = elim (Bool-cases (l.owner == owner)) [
    | inl e ↦ inl ((eq_iff l.owner owner).0 e, rw e refl, rw e refl)
    | inr e ↦ inr (λ same. ground (arith, eq_iff l.owner owner, same), rw e refl, rw e refl)
  ]

  -- On a valid table a claim with a name, paths and a time to live in range is refused exactly
  -- while another owner's lease is live, and names that owner; the owner of a live lease gets the
  -- same lease again; where no lease is live, a new one is granted, on the task, to the owner and
  -- with the paths of the claim, in the table's epoch, until the time to live has passed, and with
  -- the fence one above the last one, which is then the last one.
  pub claim-IsAnswer :
      (t : LeaseTable)
      → IsValid t
      → IsAdmissible task paths ttl
      → IsAnswer t (live now task t) (claim now stamp task owner paths ttl t)
  claim-IsAnswer t v a = subst (IsAnswer t (live now task t)) (sym (claim_admissible t a)) (
      subst
        (λ o. IsAnswer t o (
          grant now stamp task owner paths ttl (prune now t) (Dict.get task (prune now t).by_task)))
        (get-prune t v) (grant-IsAnswer t (Dict.get task (prune now t).by_task)))

  -- The rival of a live lease learns who holds it.
  pub claim-held :
      (t : LeaseTable) (l : LeaseRecord)
      → IsValid t
      → IsAdmissible task paths ttl
      → live now task t ≡ some l
      → l.owner ≢ owner
      → (claim now stamp task owner paths ttl t).0 ≡ held l.owner
  claim-held t l v a alive rival =
      elim (subst (λ o. IsAnswer t o (claim now stamp task owner paths ttl t)) alive
        (claim-IsAnswer t v a)) [ inl (same, _, _) ↦ absurd (rival same) | inr (_, told, _) ↦ told ]

  live_after_grant :
      (t : LeaseTable) (l : LeaseRecord) (later : ℕ)
      → later < l.expires_at
      → (o : Option LeaseRecord) → o ≡ Dict.get task t.by_task
      → (grant now stamp task owner paths ttl t o).0 ≡ granted l false
      → live later task (grant now stamp task owner paths ttl t o).1 ≡ some l
  live_after_grant t l later h (some m) p e = absurd (ground arith)
  live_after_grant t l later h none p e = ground (
    arith,
    get-set task task (new_lease now stamp task owner paths ttl t) t.by_task,
    eq_iff task task,
  )

-- A check of a fence succeeds exactly for the owner, the epoch and the fence of the live lease.
pub verify-iff-live :
    (now : ℕ) (task owner : String) (epoch fence : ℕ) (t : LeaseTable)
    → ((verify now task owner epoch fence t).0 ≡ true) ↔ (
        (l : LeaseRecord) × (live now task t ≡ some l)
        × (l.owner ≡ owner)
        × (l.epoch ≡ epoch)
        × (l.fence ≡ fence))
unfolding verify
verify-iff-live now task owner epoch fence t = rw (get-live now task t) (go (live now task t))
  where
    go :
        (o : Option LeaseRecord)
        → (is_holder owner epoch fence o ≡ true) ↔ (
            (l : LeaseRecord) × (o ≡ some l)
            × (l.owner ≡ owner)
            × (l.epoch ≡ epoch)
            × (l.fence ≡ fence))
    go none = (λ e. cc, λ (l, e, _, _, _). cc)
    go (some l) = (
      λ e. (l, refl, ground (arith, eq_iff l.owner owner), ground arith, ground arith),
      λ (m, e, p, q, r). ground (arith, eq_iff l.owner owner),
    )
