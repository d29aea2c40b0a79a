-- ===== src/Client/Pending/Counts.antt =====
-- How often a promise of `PendingReplies` of src/client/pending.ts is awaited and resolved.
use pi_mesh.Prelude.{
  ℕ, ◌+◌, ◌≤◌, String, List, [], ◌∷◌, ◌++◌, none, some, ◌≡◌, arith, if◌then◌else◌, eqb, eq_iff,
}
use pi_mesh.Dict
use pi_mesh.Dict.{Dict}
use pi_mesh.Dict.Laws.{Unique, delete_absent}
use pi_mesh.Client.Pending.{PendingEntry, PendingResolution}

-- The entries that wait on the promise `n`.
unfoldable pub awaiting : ℕ → Dict PendingEntry → ℕ
awaiting n [] = 0
awaiting n ((k, e) ∷ m) = (if eqb e.promise n then 1 else 0) + awaiting n m

-- The calls of the function `resolve` of the promise `n`.
unfoldable pub resolutions : ℕ → List (ℕ × PendingResolution) → ℕ
resolutions n [] = 0
resolutions n ((p, r) ∷ rs) = (if eqb p n then 1 else 0) + resolutions n rs

pub resolutions-append :
    (n p : ℕ) (r : PendingResolution) (rs : List (ℕ × PendingResolution))
    → resolutions n (rs ++ (p, r) ∷ []) ≡ resolutions n rs + (if eqb p n then 1 else 0)
unfolding resolutions
resolutions-append n p r [] = omega arith
resolutions-append n p r ((q, s) ∷ rs) = ground (arith, resolutions-append n p r rs)

pub awaiting-set :
    (n : ℕ) (k : String) (e : PendingEntry) (m : Dict PendingEntry)
    → Dict.get k m ≡ none
    → awaiting n (Dict.set k e m) ≡ awaiting n m + (if eqb e.promise n then 1 else 0)
unfolding awaiting Dict.get Dict.set
awaiting-set n k e [] h = omega arith
awaiting-set n k e ((j, d) ∷ m) h = ground (arith, awaiting-set n k e m)

pub awaiting-delete :
    (n : ℕ) (k : String) (e : PendingEntry) (m : Dict PendingEntry)
    → Unique m
    → Dict.get k m ≡ some e
    → awaiting n m ≡ awaiting n (Dict.delete k m) + (if eqb e.promise n then 1 else 0)
unfolding awaiting Dict.get Dict.delete
awaiting-delete n k e [] u h = cc
awaiting-delete n k e ((j, d) ∷ m) (f, u) h =
    ground (arith, awaiting-delete n k e m u, eq_iff j k, delete_absent k m)

-- An entry that is there is counted.
pub awaiting-get :
    (k : String) (e : PendingEntry) (m : Dict PendingEntry)
    → Dict.get k m ≡ some e
    → 1 ≤ awaiting e.promise m
unfolding awaiting Dict.get
awaiting-get k e [] h = cc
awaiting-get k e ((j, d) ∷ m) h = ground (arith, awaiting-get k e m)
