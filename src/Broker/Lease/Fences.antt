-- ===== src/Broker/Lease/Fences.antt =====
-- A fence that was overtaken is never accepted again.
use pi_mesh.Prelude.{
  ℕ, suc, ◌≤◌, ◌≡◌, String, Bool, false, ◌||◌, not, List, [], ◌∷◌, Option, none, some, ◌==◌,
  if◌then◌else◌, eq_iff, arith, Bool-cases, Option-cases, inl, inr, if-both,
}
use pi_mesh.Dict
use pi_mesh.Dict.{Dict}
use pi_mesh.Dict.Laws.{get-set, get-delete, get-retain}
use pi_mesh.Broker.Lease.{
  LeaseRecord, LeaseTable, Stamp, Call, claims, releases, verifies, looks_up, snapshots,
  ClaimOutcome, ReleaseOutcome, granted, is_live, prune, get, grant, claim, release, released_from,
  new_lease, verify, snapshot, step, run,
}
use pi_mesh.Broker.Lease.Invariant.{IsValid, claim_cases, step-IsValid, claim-IsValid}
use pi_mesh.Broker.Lease.Claim.{verify-iff-live}

-- Every lease that the table holds for the task, now and later, has at least this fence.
pub record IsAhead (fence : ℕ) (task : String) (t : LeaseTable) : Type 0 where
  pub issued : fence ≤ t.counter
  pub newer : (l : LeaseRecord) → Dict.get task t.by_task ≡ some l → fence ≤ l.fence

module _ (f : ℕ) (task : String) where
  prune-IsAhead :
      (now : ℕ) (t : LeaseTable) → IsValid t → IsAhead f task t → IsAhead f task (prune now t)
  unfolding prune
  prune-IsAhead now t v a = record {
    issued = a.issued;
    newer = λ l h.
        a.newer l (ground (arith, get-retain (λ _ m. is_live now m) task t.by_task v.unique));
  }

  delete-IsAhead :
      (other : String) (t : LeaseTable)
      → IsAhead f task t
      → IsAhead f task (record t { by_task = Dict.delete other t.by_task })
  delete-IsAhead other t a = record {
    issued = a.issued;
    newer = λ l h. a.newer l (ground (arith, get-delete task other t.by_task));
  }

  get-IsAhead :
      (now : ℕ) (other : String) (t : LeaseTable)
      → IsAhead f task t
      → IsAhead f task (get now other t).1
  unfolding get
  get-IsAhead now other t a = elim (Option-cases (Dict.get other t.by_task)) [
    | inl e ↦ rw (e, get) a
    | inr (l, e) ↦
        rw (e, get)
          (if-both (λ (r : Option LeaseRecord × LeaseTable). IsAhead f task r.1) (is_live now l) a
            (delete-IsAhead other t a))
  ]

  grant-IsAhead :
      (now : ℕ) (stamp : Stamp) (other owner : String) (paths : List String) (ttl : ℕ)
      (t : LeaseTable) (o : Option LeaseRecord)
      → IsAhead f task t
      → IsAhead f task (grant now stamp other owner paths ttl t o).1
  grant-IsAhead now stamp other owner paths ttl t (some l) a =
      if-both (λ (r : ClaimOutcome × LeaseTable). IsAhead f task r.1) (l.owner == owner) a a
  grant-IsAhead now stamp other owner paths ttl t none a = record {
    issued = let h = a.issued in omega arith;
    newer = λ l h.
        newer_after l
          (rw (get-set task other (new_lease now stamp other owner paths ttl t) t.by_task) at h);
  }
    where
      newer_after :
          (l : LeaseRecord)
          → (if other == task
              then some (new_lease now stamp other owner paths ttl t)
              else Dict.get task t.by_task)
            ≡ some l
          → f ≤ l.fence
      newer_after l h = elim (Bool-cases (other == task)) [
        | inl e ↦ let k = a.issued in ground arith
        | inr e ↦ a.newer l (rw e at h)
      ]

  released_from-IsAhead :
      (other owner lease_id : String) (o : Option LeaseRecord) (t : LeaseTable)
      → IsAhead f task t
      → IsAhead f task (released_from other owner lease_id (o, t)).1
  released_from-IsAhead other owner lease_id none t a = a
  released_from-IsAhead other owner lease_id (some l) t a =
      if-both (λ (r : ReleaseOutcome × LeaseTable). IsAhead f task r.1)
        (not (l.owner == owner) || not (l.lease_id == lease_id)) a (delete-IsAhead other t a)

  module _ (le : String → String → Bool) where
    step-IsAhead :
        (c : ℕ × Call) (t : LeaseTable)
        → IsValid t
        → IsAhead f task t
        → IsAhead f task (step le c t)
    unfolding step verify snapshot release
    step-IsAhead (now, claims stamp other owner paths ttl) t v a =
        claim_cases (λ r. IsAhead f task r.1) now stamp other owner paths ttl t (λ _. a)
          (grant-IsAhead now stamp other owner paths ttl (prune now t)
            (Dict.get other (prune now t).by_task) (prune-IsAhead now t v a))
    step-IsAhead (now, releases other owner lease_id) t v a =
        released_from-IsAhead other owner lease_id (get now other t).0 (get now other t).1
          (get-IsAhead now other t a)
    step-IsAhead (now, verifies other owner epoch fence) t v a = get-IsAhead now other t a
    step-IsAhead (now, looks_up other) t v a = get-IsAhead now other t a
    step-IsAhead (now, snapshots) t v a = prune-IsAhead now t v a

    run-IsAhead :
        (cs : List (ℕ × Call)) (t : LeaseTable)
        → IsValid t
        → IsAhead f task t
        → IsAhead f task (run le cs t)
    unfolding run
    run-IsAhead [] t v a = a
    run-IsAhead (c ∷ cs) t v a =
        run-IsAhead cs (step le c t) (step-IsValid le c t v) (step-IsAhead c t v a)

grant-IsAhead_new :
    (now : ℕ) (stamp : Stamp) (task owner : String) (paths : List String) (ttl : ℕ) (t : LeaseTable)
    (o : Option LeaseRecord) (m : LeaseRecord)
    → (grant now stamp task owner paths ttl t o).0 ≡ granted m false
    → IsAhead (suc t.counter) task (grant now stamp task owner paths ttl t o).1
grant-IsAhead_new now stamp task owner paths ttl t (some l) m e = absurd (ground arith)
grant-IsAhead_new now stamp task owner paths ttl t none m e = record {
  issued = omega arith;
  newer = λ l h. ground (
    arith,
    get-set task task (new_lease now stamp task owner paths ttl t) t.by_task,
    eq_iff task task,
  );
}

claim-IsAhead_new :
    (now : ℕ) (stamp : Stamp) (task owner : String) (paths : List String) (ttl : ℕ) (t : LeaseTable)
    (m : LeaseRecord)
    → (claim now stamp task owner paths ttl t).0 ≡ granted m false
    → IsAhead (suc t.counter) task (claim now stamp task owner paths ttl t).1
unfolding prune
claim-IsAhead_new now stamp task owner paths ttl t m =
    claim_cases (λ r. r.0 ≡ granted m false → IsAhead (suc t.counter) task r.1) now stamp task owner
      paths ttl t (λ _ e. cc)
      (grant-IsAhead_new now stamp task owner paths ttl (prune now t)
        (Dict.get task (prune now t).by_task) m)

-- Once a claim of a task on a valid table is granted anew, no fence that was issued before that
-- passes the check for the task again, whoever presents it with whatever epoch, and whatever is
-- called in between.
pub run-rejects_stale :
    (le : String → String → Bool) (now : ℕ) (stamp : Stamp) (task owner : String)
    (paths : List String) (ttl : ℕ) (t : LeaseTable) (m : LeaseRecord) (cs : List (ℕ × Call))
    (later : ℕ) (holder : String) (epoch fence : ℕ)
    → IsValid t
    → (claim now stamp task owner paths ttl t).0 ≡ granted m false
    → fence ≤ t.counter
    → (verify later task holder epoch fence
        (run le cs (claim now stamp task owner paths ttl t).1)).0
      ≡ false
run-rejects_stale le now stamp task owner paths ttl t m cs later holder epoch fence v e old =
    elim (Bool-cases (verify later task holder epoch fence after).0) [
      | inl hit ↦
          let (l, found, _, _, same) =
            (verify-iff-live later task holder epoch fence after).0 hit in
          absurd (ground (arith, ahead.newer l))
      | inr miss ↦ miss
    ]
  where
    after : LeaseTable
    after = run le cs (claim now stamp task owner paths ttl t).1

    ahead : IsAhead (suc t.counter) task after
    ahead =
        run-IsAhead (suc t.counter) task le cs (claim now stamp task owner paths ttl t).1
          (claim-IsValid now stamp task owner paths ttl t v)
          (claim-IsAhead_new now stamp task owner paths ttl t m e)
