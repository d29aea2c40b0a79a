-- ===== src/Broker/Lease/Tests.antt =====
-- Runs of the lease table, and the theorems at concrete tables.
use pi_mesh.Prelude.{
  ℕ, ◌↔◌, is_blank, ◌≡◌, refl, String, Bool, true, false, List, [], ◌∷◌, none, some, arith, eq_iff,
}
use pi_mesh.Dict
use pi_mesh.Broker.Lease.{
  LeaseRecord, LeaseTable, Stamp, Call, claims, releases, snapshots, granted, held, empty_table,
  claim, verify, run, step, prune,
}
use pi_mesh.Broker.Lease.Invariant.{IsValid, empty_table-IsValid, run-IsValid}
use pi_mesh.Broker.Lease.Claim.{IsAdmissible, claim-IsAnswer, live, IsAnswer, verify-iff-live}
use pi_mesh.Broker.Lease.Exclusion.{run-excludes}
use pi_mesh.Broker.Lease.Fences.{run-rejects_stale}
use pi_mesh.Broker.Lease.Epoch.{Started, IsIncreasing, next_epoch, next_epoch-increases}

-- One collation for the runs: no two tasks are reordered.
abbrev keep_order : String → String → Bool
keep_order a b = true

abbrev stamp : Stamp
stamp = record { msg_id = "m_1"; iso_now = 100 }

abbrev build_lease : LeaseRecord
build_lease = record {
  lease_id = "m_1";
  task = "build";
  owner = "ann";
  paths = "src/" ∷ [];
  fence = 1;
  epoch = 7;
  granted_at = 100;
  expires_at = 5100;
}

abbrev one_lease : LeaseTable
one_lease = record { by_task = ("build", build_lease) ∷ []; counter = 1; epoch = 7 }

claim_first :
    claim 100 stamp "build" "ann" ("src/" ∷ []) 5000 (empty_table 7)
    ≡ (granted build_lease false, one_lease)
unfolding claim prune Dict.retain Dict.get Dict.set is_blank
claim_first = refl

claim_rival : (claim 200 stamp "build" "bob" ("src/" ∷ []) 5000 one_lease).0 ≡ held "ann"
unfolding claim prune Dict.retain Dict.get Dict.set is_blank
claim_rival = refl

claim_expired : (claim 6000 stamp "build" "bob" ("src/" ∷ []) 5000 one_lease).1.counter ≡ 2
unfolding claim prune Dict.retain Dict.get Dict.set is_blank
claim_expired = refl

one_lease-IsValid : IsValid one_lease
unfolding claim prune Dict.retain Dict.get Dict.set is_blank step run
one_lease-IsValid =
    run-IsValid keep_order ((100, claims stamp "build" "ann" ("src/" ∷ []) 5000) ∷ [])
      (empty_table 7) (empty_table-IsValid 7)

admissible : IsAdmissible "build" ("src/" ∷ []) 5000
unfolding is_blank
admissible = record {
  named = refl;
  has_paths = refl;
  long_enough = omega arith;
  short_enough = omega arith;
}

run-IsValid_example :
    IsValid
      (run keep_order ((100, claims stamp "build" "ann" ("src/" ∷ []) 5000) ∷ []) (empty_table 7))
run-IsValid_example =
    run-IsValid keep_order ((100, claims stamp "build" "ann" ("src/" ∷ []) 5000) ∷ [])
      (empty_table 7) (empty_table-IsValid 7)

claim-IsAnswer_example :
    IsAnswer 200 stamp "build" "bob"
      ("src/" ∷ [])
      5000
      one_lease
      (live 200 "build" one_lease)
      (claim 200 stamp "build" "bob" ("src/" ∷ []) 5000 one_lease)
claim-IsAnswer_example =
    claim-IsAnswer 200 stamp "build" "bob" ("src/" ∷ []) 5000 one_lease one_lease-IsValid admissible

abbrev busy_hour : List (ℕ × Call)
busy_hour =
    (200, claims stamp "build" "bob" ("src/" ∷ []) 5000)
    ∷ (300, releases "build" "bob" "m_1")
    ∷ (400, snapshots)
    ∷ []

run-excludes_example :
    ((claim 500 stamp "build" "bob" ("src/" ∷ []) 5000 (run keep_order busy_hour one_lease)).0
      ≡ held "ann")
    × ((verify 500 "build" "ann" 7 1 (run keep_order busy_hour one_lease)).0 ≡ true)
unfolding Dict.get
run-excludes_example =
    run-excludes keep_order build_lease busy_hour one_lease 500 stamp "bob" ("src/" ∷ []) 5000
      one_lease-IsValid refl
      ((omega arith, tt), ((omega arith, λ _ e _. bob_not_ann e), ((omega arith, tt), tt)))
      (omega arith) admissible bob_not_ann
  where
    bob_not_ann : ◌≡◌ {A = String} "bob" "ann" → ⊥
    bob_not_ann e = ground (arith, eq_iff "bob" "ann")

run-rejects_stale_example :
    (verify 7000 "build" "ann" 7 1
      (run keep_order busy_hour (claim 6000 stamp "build" "bob" ("src/" ∷ []) 5000 one_lease).1)).0
    ≡ false
unfolding claim prune Dict.retain Dict.get Dict.set is_blank
run-rejects_stale_example =
    run-rejects_stale keep_order 6000 stamp "build" "bob" ("src/" ∷ []) 5000 one_lease
      (record build_lease { owner = "bob"; fence = 2; expires_at = 11000 }) busy_hour 7000 "ann" 7 1
      one_lease-IsValid refl (omega arith)

next_epoch-increases_example :
    (a : Started) × (b : Started) × (next_epoch none 1700000000000 true ≡ some a)
    × (next_epoch a.file 5 true ≡ some b)
    × IsIncreasing none 0 1700000000000 5 true a b
unfolding pi_mesh.Broker.Lease.Epoch.read_epoch
next_epoch-increases_example =
    next_epoch-increases none 0 1700000000000 5 true true refl (omega arith) (omega arith)
      (omega arith)

verify-iff-live_example : ((verify 500 "build" "ann" 7 1 one_lease).0 ≡ true) ↔ (
    (l : LeaseRecord) × (live 500 "build" one_lease ≡ some l)
    × (l.owner ≡ "ann")
    × (l.epoch ≡ 7)
    × (l.fence ≡ 1))
verify-iff-live_example = verify-iff-live 500 "build" "ann" 7 1 one_lease
