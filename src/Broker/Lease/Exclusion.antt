-- ===== src/Broker/Lease/Exclusion.antt =====
-- One writer at a time: a live lease stays until its owner releases it or it expires, and a fence
-- that was overtaken is never accepted again.
use pi_mesh.Prelude.{
  sym, ℕ, ◌<◌, ◌≡◌, ◌≢◌, refl, String, Bool, true, List, [], ◌∷◌, Option, none, some, eq_iff, arith,
}
use pi_mesh.Dict
use pi_mesh.Dict.{Dict}
use pi_mesh.Dict.Laws.{get-set, get-delete, get-retain}
use pi_mesh.Broker.Lease.{
  LeaseRecord, LeaseTable, Stamp, Call, claims, releases, verifies, looks_up, snapshots, held,
  is_live, prune, get, grant, claim, release, released_from, new_lease, verify, snapshot, step, run,
}
use pi_mesh.Broker.Lease.Invariant.{IsValid, claim_cases, step-IsValid, run-IsValid}
use pi_mesh.Broker.Lease.Claim.{live, verify-iff-live, get-live, IsAdmissible, claim-held}

-- The lease is in the table, whether live or not.
abbrev pub IsStored : LeaseRecord → LeaseTable → Type 0
IsStored l t = Dict.get l.task t.by_task ≡ some l

module _ (now : ℕ) (l : LeaseRecord) (alive : now < l.expires_at) where
  prune-IsStored : (t : LeaseTable) → IsValid t → IsStored l t → IsStored l (prune now t)
  unfolding prune
  prune-IsStored t v s = ground (arith, get-retain (λ _ m. is_live now m) l.task t.by_task v.unique)

  get-IsStored : (task : String) (t : LeaseTable) → IsStored l t → IsStored l (get now task t).1
  unfolding get
  get-IsStored task t s = ground (arith, get-delete l.task task t.by_task, eq_iff task l.task)

  grant-IsStored :
      (stamp : Stamp) (task owner : String) (paths : List String) (ttl : ℕ) (t : LeaseTable)
      (o : Option LeaseRecord)
      → Dict.get task t.by_task ≡ o
      → IsStored l t
      → IsStored l (grant now stamp task owner paths ttl t o).1
  grant-IsStored stamp task owner paths ttl t (some m) e s = ground arith
  grant-IsStored stamp task owner paths ttl t none e s = ground (
    arith,
    get-set l.task task (new_lease now stamp task owner paths ttl t) t.by_task,
    eq_iff task l.task,
  )

  released_from-IsStored :
      (task owner lease_id : String) (o : Option LeaseRecord) (t : LeaseTable)
      → (task ≡ l.task → o ≡ some l)
      → (task ≡ l.task → owner ≡ l.owner → lease_id ≡ l.lease_id → ⊥)
      → IsStored l t
      → IsStored l (released_from task owner lease_id (o, t)).1
  released_from-IsStored task owner lease_id none t found other s = s
  released_from-IsStored task owner lease_id (some m) t found other s = ground (
    arith,
    get-delete l.task task t.by_task,
    eq_iff task l.task,
    eq_iff m.owner owner,
    eq_iff m.lease_id lease_id,
  )

  found_stored :
      (task : String) (t : LeaseTable) → IsStored l t → task ≡ l.task → (get now task t).0 ≡ some l
  found_stored task t s e = rw (get-live now task t, e, s) (ground arith)

  -- The call does not release this lease.
  abbrev pub Spares : Call → Type 0
  Spares (releases task owner lease_id) =
      task ≡ l.task → owner ≡ l.owner → lease_id ≡ l.lease_id → ⊥
  Spares _ = Unit

  module _ (le : String → String → Bool) where
    step-IsStored :
        (c : Call) (t : LeaseTable)
        → IsValid t
        → Spares c
        → IsStored l t
        → IsStored l (step le (now, c) t)
    unfolding step verify snapshot release
    step-IsStored (claims stamp task owner paths ttl) t v p s =
        claim_cases (λ r. IsStored l r.1) now stamp task owner paths ttl t (λ _. s)
          (grant-IsStored stamp task owner paths ttl (prune now t)
            (Dict.get task (prune now t).by_task) refl (prune-IsStored t v s))
    step-IsStored (releases task owner lease_id) t v p s =
        released_from-IsStored task owner lease_id (get now task t).0 (get now task t).1
          (found_stored task t s) p (get-IsStored task t s)
    step-IsStored (verifies task owner epoch fence) t v p s = get-IsStored task t s
    step-IsStored (looks_up task) t v p s = get-IsStored task t s
    step-IsStored snapshots t v p s = prune-IsStored t v s

module _ (le : String → String → Bool) (l : LeaseRecord) where
  -- Every call reads the clock before the lease expires, and none releases the lease.
  abbrev pub LeavesAlone : List (ℕ × Call) → Type 0
  LeavesAlone [] = Unit
  LeavesAlone ((now, c) ∷ cs) =
      ((alive : now < l.expires_at) × Spares now l alive c) × LeavesAlone cs

  run-IsStored :
      (cs : List (ℕ × Call)) (t : LeaseTable)
      → IsValid t
      → LeavesAlone cs
      → IsStored l t
      → IsStored l (run le cs t)
  unfolding run
  run-IsStored [] t v a s = s
  run-IsStored ((now, c) ∷ cs) t v ((alive, spares), a) s =
      run-IsStored cs (step le (now, c) t) (step-IsValid le (now, c) t v) a
        (step-IsStored now l alive le c t v spares s)

  -- From a valid table that holds a lease, run any calls before the lease expires none of which
  -- releases it (its task, its owner and its id): a well-formed claim of the task by anyone else is
  -- then still answered with the holder's name, and the fence of the lease still passes the check.
  pub run-excludes :
      (cs : List (ℕ × Call)) (t : LeaseTable) (now : ℕ) (stamp : Stamp) (rival : String)
      (paths : List String) (ttl : ℕ)
      → IsValid t
      → IsStored l t
      → LeavesAlone cs
      → now < l.expires_at
      → IsAdmissible l.task paths ttl
      → rival ≢ l.owner
      → ((claim now stamp l.task rival paths ttl (run le cs t)).0 ≡ held l.owner)
        × ((verify now l.task l.owner l.epoch l.fence (run le cs t)).0 ≡ true)
  run-excludes cs t now stamp rival paths ttl v s a alive adm other = (
    claim-held now stamp l.task rival paths ttl (run le cs t) l (run-IsValid le cs t v) adm still
        (λ same. other (sym same)),
    (verify-iff-live now l.task l.owner l.epoch l.fence (run le cs t)).1
        (l, still, refl, refl, refl),
  )
    where
      still : live now l.task (run le cs t) ≡ some l
      still = rw (run-IsStored cs t v a s) (ground arith)
