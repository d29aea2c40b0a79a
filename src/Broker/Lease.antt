-- ===== src/Broker/Lease.antt =====
-- src/broker/lease.ts: leases on tasks, one writer each. Times are milliseconds; a call reads the
-- clock once. `expiresAt` and `grantedAt` hold the time that their ISO text denotes.
pub mod Invariant
pub mod Claim
pub mod Exclusion
pub mod Fences
pub mod Epoch
pub mod Tests
use pi_mesh.Prelude.{
  ℕ, zero, suc, ◌+◌, ◌<◌, max, String, Bool, true, false, ◌&&◌, ◌||◌, not, List, [], ◌∷◌, Option,
  none, some, ◌==◌, if◌then◌else◌, ltb, eqb, is_blank,
}
use pi_mesh.Dict
use pi_mesh.Dict.{Dict}
use pi_mesh.Shared.Config.{min_lease_ttl_ms, max_lease_ttl_ms}

pub record LeaseRecord : Type 0 where
  pub lease_id : String
  pub task : String
  pub owner : String
  pub paths : List String
  pub fence : ℕ
  pub epoch : ℕ
  pub granted_at : ℕ
  pub expires_at : ℕ

pub data InvalidReason : Type 0 where
  task_required paths_required ttl_out_of_range : InvalidReason

pub data ClaimOutcome : Type 0 where
  granted : LeaseRecord → Bool → ClaimOutcome
  held : String → ClaimOutcome
  invalid : InvalidReason → ClaimOutcome

pub data ReleaseOutcome : Type 0 where
  released : LeaseRecord → ReleaseOutcome
  not_held : ReleaseOutcome

pub record LeaseTable : Type 0 where
  pub by_task : Dict LeaseRecord
  pub counter : ℕ
  pub epoch : ℕ

-- `new LeaseTable(epoch)`
abbrev pub empty_table : ℕ → LeaseTable
empty_table epoch = record { by_task = []; counter = 0; epoch = epoch }

abbrev pub is_live : ℕ → LeaseRecord → Bool
is_live now lease = ltb now lease.expires_at

unfoldable pub prune : ℕ → LeaseTable → LeaseTable
prune now t = record t { by_task = Dict.retain (λ _ lease. is_live now lease) t.by_task }

-- A stale lease is deleted by the lookup that meets it.
abbrev pub checked : ℕ → String → LeaseTable → Option LeaseRecord → Option LeaseRecord × LeaseTable
checked now task t none = (none, t)
checked now task t (some lease) =
    if is_live now lease
    then (some lease, t)
    else (none, record t { by_task = Dict.delete task t.by_task })

unfoldable pub get : ℕ → String → LeaseTable → Option LeaseRecord × LeaseTable
get now task t = checked now task t (Dict.get task t.by_task)

-- What a new lease takes from outside the table: `makeMsgId()` and `nowIso()`.
pub record Stamp : Type 0 where
  pub msg_id : String
  pub iso_now : ℕ

abbrev pub new_lease : ℕ → Stamp → String → String → List String → ℕ → LeaseTable → LeaseRecord
new_lease now stamp task owner paths ttl t = record {
  lease_id = stamp.msg_id;
  task = task;
  owner = owner;
  paths = paths;
  fence = suc t.counter;
  epoch = t.epoch;
  granted_at = stamp.iso_now;
  expires_at = now + ttl;
}

-- `claim` after the checks of its arguments and the pruning; the last argument is the lease that
-- the table holds for the task.
abbrev pub grant :
    ℕ
    → Stamp
    → String
    → String
    → List String
    → ℕ
    → LeaseTable
    → Option LeaseRecord
    → ClaimOutcome × LeaseTable
grant now stamp task owner paths ttl t (some existing) =
    if existing.owner == owner then (granted existing true, t) else (held existing.owner, t)
grant now stamp task owner paths ttl t none =
    let lease = new_lease now stamp task owner paths ttl t in
    (
      granted lease false,
      record t { by_task = Dict.set task lease t.by_task; counter = suc t.counter },
    )

abbrev pub is_empty : List String → Bool
is_empty [] = true
is_empty (p ∷ ps) = false

unfoldable pub claim :
    ℕ → Stamp → String → String → List String → ℕ → LeaseTable → ClaimOutcome × LeaseTable
claim now stamp task owner paths ttl t =
    if is_blank task
    then (invalid task_required, t)
    else if is_empty paths
    then (invalid paths_required, t)
    else if ltb ttl min_lease_ttl_ms || ltb max_lease_ttl_ms ttl
    then (invalid ttl_out_of_range, t)
    else (let t' = prune now t in
        grant now stamp task owner paths ttl t' (Dict.get task t'.by_task))

abbrev pub released_from :
    String → String → String → Option LeaseRecord × LeaseTable → ReleaseOutcome × LeaseTable
released_from task owner lease_id (none, t) = (not_held, t)
released_from task owner lease_id (some lease, t) =
    if not (lease.owner == owner) || not (lease.lease_id == lease_id)
    then (not_held, t)
    else (released lease, record t { by_task = Dict.delete task t.by_task })

unfoldable pub release : ℕ → String → String → String → LeaseTable → ReleaseOutcome × LeaseTable
release now task owner lease_id t = released_from task owner lease_id (get now task t)

abbrev pub is_holder : String → ℕ → ℕ → Option LeaseRecord → Bool
is_holder owner epoch fence none = false
is_holder owner epoch fence (some lease) =
    lease.owner == owner && eqb lease.epoch epoch && eqb lease.fence fence

unfoldable pub verify : ℕ → String → String → ℕ → ℕ → LeaseTable → Bool × LeaseTable
verify now task owner epoch fence t =
    let (lease, t') = get now task t in (is_holder owner epoch fence lease, t')

-- `sort` is stable; `le a b` stands for `a.localeCompare(b) <= 0`.
module _ (le : String → String → Bool) where
  unfoldable pub insert_by_task : LeaseRecord → List LeaseRecord → List LeaseRecord
  insert_by_task x [] = x ∷ []
  insert_by_task x (y ∷ ys) = if le x.task y.task then x ∷ y ∷ ys else y ∷ insert_by_task x ys

  unfoldable pub sort_by_task : List LeaseRecord → List LeaseRecord
  unfolding insert_by_task
  sort_by_task [] = []
  sort_by_task (x ∷ xs) = insert_by_task x (sort_by_task xs)

  unfoldable pub snapshot : ℕ → LeaseTable → List LeaseRecord × LeaseTable
  snapshot now t = let t' = prune now t in (sort_by_task (Dict.values t'.by_task), t')

-- The calls that the broker makes.
pub data Call : Type 0 where
  claims : Stamp → String → String → List String → ℕ → Call
  releases : String → String → String → Call
  verifies : String → String → ℕ → ℕ → Call
  looks_up : String → Call
  snapshots : Call

module _ (le : String → String → Bool) where
  unfoldable pub step : ℕ × Call → LeaseTable → LeaseTable
  step (now, claims stamp task owner paths ttl) t = (claim now stamp task owner paths ttl t).1
  step (now, releases task owner lease_id) t = (release now task owner lease_id t).1
  step (now, verifies task owner epoch fence) t = (verify now task owner epoch fence t).1
  step (now, looks_up task) t = (get now task t).1
  step (now, snapshots) t = (snapshot le now t).1

  unfoldable pub run : List (ℕ × Call) → LeaseTable → LeaseTable
  run [] t = t
  run (c ∷ cs) t = run cs (step c t)
