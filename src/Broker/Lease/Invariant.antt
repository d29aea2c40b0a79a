-- ===== src/Broker/Lease/Invariant.antt =====
-- Well-formed lease tables: one lease for a task, filed under its own name, with a fence of its own.
use pi_mesh.Prelude.{
  ℕ, suc, ◌≤◌, ◌≡◌, refl, String, Bool, List, [], ◌∷◌, Option, none, some, ◌==◌, eq_iff,
  if◌then◌else◌, arith, ltb, is_blank, Bool-cases, inl, inr, if-both, not, ◌||◌, Option-cases, sym,
  ◌∙◌,
}
use pi_mesh.Dict
use pi_mesh.Dict.{Dict}
use pi_mesh.Dict.Laws.{
  Unique, set-Unique, delete-Unique, retain-Unique, get-set, get-delete, get-retain,
}
use pi_mesh.Shared.Config.{min_lease_ttl_ms, max_lease_ttl_ms}
use pi_mesh.Broker.Lease.{
  LeaseRecord, LeaseTable, Stamp, ClaimOutcome, ReleaseOutcome, InvalidReason, invalid,
  task_required, paths_required, ttl_out_of_range, is_empty, released_from, Call, claims, releases,
  verifies, looks_up, snapshots, empty_table, is_live, prune, get, grant, claim, release, new_lease,
  verify, snapshot, step, run,
}

pub record IsFiled (t : LeaseTable) (task : String) (l : LeaseRecord) : Type 0 where
  pub own_name : l.task ≡ task
  pub own_epoch : l.epoch ≡ t.epoch
  pub issued : l.fence ≤ t.counter

pub record IsValid (t : LeaseTable) : Type 0 where
  pub unique : Unique t.by_task
  pub filed :
      (task : String) (l : LeaseRecord) → Dict.get task t.by_task ≡ some l → IsFiled t task l
  pub distinct :
      (task other : String) (l m : LeaseRecord)
      → Dict.get task t.by_task ≡ some l
      → Dict.get other t.by_task ≡ some m
      → l.fence ≡ m.fence
      → task ≡ other

pub empty_table-IsValid : (epoch : ℕ) → IsValid (empty_table epoch)
unfolding Dict.get
empty_table-IsValid epoch = record {
  unique = tt;
  filed = λ task l h. cc;
  distinct = λ task other l m h k e. cc;
}

-- A table with fewer leases and the same counter.
shrink :
    (t : LeaseTable) (m : Dict LeaseRecord)
    → IsValid t
    → Unique m
    → ((k : String) (l : LeaseRecord) → Dict.get k m ≡ some l → Dict.get k t.by_task ≡ some l)
    → IsValid (record t { by_task = m })
shrink t m v u sub = record {
  unique = u;
  filed = λ task l h.
      let f = v.filed task l (sub task l h) in
      record { own_name = f.own_name; own_epoch = f.own_epoch; issued = f.issued };
  distinct = λ task other l m' h k e. v.distinct task other l m' (sub task l h) (sub other m' k) e;
}

pub delete-IsValid :
    (task : String) (t : LeaseTable)
    → IsValid t
    → IsValid (record t { by_task = Dict.delete task t.by_task })
delete-IsValid task t v =
    shrink t (Dict.delete task t.by_task) v (delete-Unique task t.by_task v.unique)
      (λ k l h. ground (arith, get-delete k task t.by_task))

pub prune-IsValid : (now : ℕ) (t : LeaseTable) → IsValid t → IsValid (prune now t)
unfolding prune
prune-IsValid now t v =
    shrink t _ v (retain-Unique _ t.by_task v.unique)
      (λ k l h. ground (arith, get-retain (λ _ lease. is_live now lease) k t.by_task v.unique))

get-IsValid : (now : ℕ) (task : String) (t : LeaseTable) → IsValid t → IsValid (get now task t).1
unfolding get
get-IsValid now task t v = elim (Option-cases (Dict.get task t.by_task)) [
  | inl e ↦ rw (e, get) v
  | inr (l, e) ↦
      rw (e, get)
        (elim (Bool-cases (is_live now l)) [
          | inl live ↦ rw live v
          | inr stale ↦ rw stale (delete-IsValid task t v)
        ])
]

-- A new lease takes the next fence.
issue-IsValid :
    (l : LeaseRecord) (t : LeaseTable)
    → IsValid t
    → l.epoch ≡ t.epoch
    → l.fence ≡ suc t.counter
    → IsValid (record t { by_task = Dict.set l.task l t.by_task; counter = suc t.counter })
issue-IsValid l t v ep fe = record {
  unique = set-Unique l.task l t.by_task v.unique;
  filed = λ task m h. filed_after task m (rw (get-set task l.task l t.by_task) at h);
  distinct = λ task other m n h k e.
      distinct_after task other m n (rw (get-set task l.task l t.by_task) at h)
        (rw (get-set other l.task l t.by_task) at k) e;
}
  where
    filed_after :
        (task : String) (m : LeaseRecord)
        → (if l.task == task then some l else Dict.get task t.by_task) ≡ some m
        → IsFiled
            (record t { by_task = Dict.set l.task l t.by_task; counter = suc t.counter })
            task
            m
    filed_after task m h = elim (Bool-cases (l.task == task)) [
      | inl e ↦ record {
        own_name = ground (arith, eq_iff l.task task);
        own_epoch = ground arith;
        issued = ground arith;
      }
      | inr e ↦
          let f = v.filed task m (rw e at h) in
          record { own_name = f.own_name; own_epoch = f.own_epoch; issued = ground arith }
    ]

    distinct_after :
        (task other : String) (m n : LeaseRecord)
        → (if l.task == task then some l else Dict.get task t.by_task) ≡ some m
        → (if l.task == other then some l else Dict.get other t.by_task) ≡ some n
        → m.fence ≡ n.fence
        → task ≡ other
    distinct_after task other m n h k e = elim (Bool-cases (l.task == task)) [
      | inl p ↦ elim (Bool-cases (l.task == other)) [
        | inl q ↦ sym ((eq_iff l.task task).0 p) ∙ (eq_iff l.task other).0 q
        | inr q ↦ let g = v.filed other n (rw q at k) in absurd (ground arith)
      ]
      | inr p ↦ elim (Bool-cases (l.task == other)) [
        | inl q ↦ let g = v.filed task m (rw p at h) in absurd (ground arith)
        | inr q ↦ v.distinct task other m n (rw p at h) (rw q at k) e
      ]
    ]

grant-IsValid :
    (now : ℕ) (stamp : Stamp) (task owner : String) (paths : List String) (ttl : ℕ) (t : LeaseTable)
    (o : Option LeaseRecord)
    → IsValid t
    → IsValid (grant now stamp task owner paths ttl t o).1
grant-IsValid now stamp task owner paths ttl t (some existing) v =
    elim (Bool-cases (existing.owner == owner)) [ inl e ↦ rw e v | inr e ↦ rw e v ]
grant-IsValid now stamp task owner paths ttl t none v =
    issue-IsValid (new_lease now stamp task owner paths ttl t) t v refl refl

module _ {ℓ} (P : ClaimOutcome × LeaseTable → Type ℓ) where
  -- A claim is refused with the table as it was, or decided on the pruned table.
  pub claim_cases :
      (now : ℕ) (stamp : Stamp) (task owner : String) (paths : List String) (ttl : ℕ)
      (t : LeaseTable)
      → ((r : InvalidReason) → P (invalid r, t))
      → P (grant now stamp task owner paths ttl (prune now t) (Dict.get task (prune now t).by_task))
      → P (claim now stamp task owner paths ttl t)
  unfolding claim
  claim_cases now stamp task owner paths ttl t refused decided =
      if-both P (is_blank task) (refused task_required) (
        if-both P (is_empty paths) (refused paths_required) (
          if-both P (ltb ttl min_lease_ttl_ms || ltb max_lease_ttl_ms ttl)
            (refused ttl_out_of_range) decided))

pub claim-IsValid :
    (now : ℕ) (stamp : Stamp) (task owner : String) (paths : List String) (ttl : ℕ) (t : LeaseTable)
    → IsValid t
    → IsValid (claim now stamp task owner paths ttl t).1
claim-IsValid now stamp task owner paths ttl t v =
    claim_cases (λ r. IsValid r.1) now stamp task owner paths ttl t (λ _. v)
      (grant-IsValid now stamp task owner paths ttl (prune now t)
        (Dict.get task (prune now t).by_task) (prune-IsValid now t v))

released_from-IsValid :
    (task owner lease_id : String) (o : Option LeaseRecord) (t : LeaseTable)
    → IsValid t
    → IsValid (released_from task owner lease_id (o, t)).1
released_from-IsValid task owner lease_id none t v = v
released_from-IsValid task owner lease_id (some l) t v =
    if-both (λ (r : ReleaseOutcome × LeaseTable). IsValid r.1)
      (not (l.owner == owner) || not (l.lease_id == lease_id)) v (delete-IsValid task t v)

release-IsValid :
    (now : ℕ) (task owner lease_id : String) (t : LeaseTable)
    → IsValid t
    → IsValid (release now task owner lease_id t).1
unfolding release
release-IsValid now task owner lease_id t v =
    released_from-IsValid task owner lease_id (get now task t).0 (get now task t).1
      (get-IsValid now task t v)

module _ (le : String → String → Bool) where
  pub step-IsValid : (c : ℕ × Call) (t : LeaseTable) → IsValid t → IsValid (step le c t)
  unfolding step verify snapshot
  step-IsValid (now, claims stamp task owner paths ttl) t v =
      claim-IsValid now stamp task owner paths ttl t v
  step-IsValid (now, releases task owner lease_id) t v = release-IsValid now task owner lease_id t v
  step-IsValid (now, verifies task owner epoch fence) t v = get-IsValid now task t v
  step-IsValid (now, looks_up task) t v = get-IsValid now task t v
  step-IsValid (now, snapshots) t v = prune-IsValid now t v

  -- Whatever is called on a valid table, and at whatever times, in the resulting table every lease
  -- stands under its own task, has the epoch of the table and a fence that was issued, no task
  -- occurs twice, and no two tasks have the same fence.
  pub run-IsValid : (cs : List (ℕ × Call)) (t : LeaseTable) → IsValid t → IsValid (run le cs t)
  unfolding run
  run-IsValid [] t v = v
  run-IsValid (c ∷ cs) t v = run-IsValid cs (step le c t) (step-IsValid c t v)
