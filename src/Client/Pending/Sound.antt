-- ===== src/Client/Pending/Sound.antt =====
-- What `PendingReplies` of src/client/pending.ts keeps true when an entry leaves the table.
use pi_mesh.Prelude.{
  ℕ, ◌+◌, ◌≤◌, String, Bool, true, false, not, ◌&&◌, List, [], ◌∷◌, some, ◌≡◌, refl, arith,
  if◌then◌else◌, ltb, eqb, ◌==◌, eq_iff, any, All, select, Bool-cases, inl, inr, ap,
}
use pi_mesh.Dict
use pi_mesh.Dict.{Dict}
use pi_mesh.Dict.Laws.{Unique, Every, get-delete, delete-Unique}
use pi_mesh.Client.Pending.{
  PendingEntry, PendingResolution, PendingReplies, Timer, reminder, expiry, clear_timers, settle,
}
use pi_mesh.Client.Pending.Counts.{
  awaiting, resolutions, resolutions-append, awaiting-delete, awaiting-get,
}

abbrev pub is_expiry : Timer → Bool
is_expiry t = elim t.kind [ reminder ↦ false | expiry ↦ true ]

-- Some timer will let the promise expire.
abbrev pub will_expire : ℕ → List Timer → Bool
will_expire n armed = any (λ t. is_expiry t && eqb t.promise n) armed

-- The entry under the timer's id is the one that armed it.
abbrev pub IsOwned : Dict PendingEntry → Timer → Type 0
IsOwned m t = (e : PendingEntry) × (Dict.get t.msg_id m ≡ some e) × (e.promise ≡ t.promise)

-- Every promise that was made is awaited or resolved, and once: never both and never twice.
abbrev pub IsOnce : PendingReplies → Type 0
IsOnce p =
    (n : ℕ)
    → resolutions n p.resolved + awaiting n p.entries ≡ (if ltb n p.registered then 1 else 0)

pub record IsSound (p : PendingReplies) : Type 0 where
  pub once : IsOnce p
  pub unique : Unique p.entries
  pub owned : All (IsOwned p.entries) p.armed
  pub expiring : Every (λ k e. will_expire e.promise p.armed ≡ true) p.entries

module _ {ℓ κ μ} {A : Type ℓ} (P : A → Type κ) (Q : A → Type μ) (f : A → Bool) where
  All-select : ((x : A) → f x ≡ true → P x → Q x) → (xs : List A) → All P xs → All Q (select f xs)
  unfolding select
  All-select keep [] h = tt
  All-select keep (x ∷ xs) (p, h) = elim (Bool-cases (f x)) [
    | inl e ↦ rw e (keep x e p, All-select keep xs h)
    | inr e ↦ rw e (All-select keep xs h)
  ]

will_expire-clear :
    (n m : ℕ) (armed : List Timer)
    → eqb m n ≡ false
    → will_expire n (clear_timers m armed) ≡ will_expire n armed
unfolding select
will_expire-clear n m [] h = refl
will_expire-clear n m (t ∷ ts) h = ground (arith, will_expire-clear n m ts h)

-- Two keys do not share a promise.
pub one_key :
    (n : ℕ) (j k : String) (e f : PendingEntry) (m : Dict PendingEntry)
    → Unique m
    → awaiting n m ≤ 1
    → Dict.get j m ≡ some e
    → Dict.get k m ≡ some f
    → (k == j) ≡ false
    → e.promise ≡ n
    → f.promise ≡ n
    → ⊥
one_key n j k e f m u le ej fk ne en fn =
    let there : Dict.get j (Dict.delete k m) ≡ some e = ground (arith, get-delete j k m) in
    ground (
      arith,
      awaiting-delete n k f m u fk,
      awaiting-get j e (Dict.delete k m) there,
      ap (λ (i : ℕ). awaiting i (Dict.delete k m)) en,
    )

module _ (k : String) (e : PendingEntry) (r : PendingResolution) (p : PendingReplies)
    (here : Dict.get k p.entries ≡ some e) (once : IsOnce p) (unique : Unique p.entries) where
  settle-IsOnce : IsOnce (settle k e.promise r p)
  unfolding settle
  settle-IsOnce n = ground (
    arith,
    once n,
    resolutions-append n e.promise r p.resolved,
    awaiting-delete n k e p.entries unique here,
  )

  others-IsOwned :
      (t : Timer)
      → not (eqb t.promise e.promise) ≡ true
      → IsOwned p.entries t
      → IsOwned (Dict.delete k p.entries) t
  others-IsOwned t ne (d, there, same) =
      (d, ground (arith, get-delete t.msg_id k p.entries, eq_iff k t.msg_id), same)

  -- What is left after the deletion was there, under another key and with another promise.
  left_other :
      (j : String) (d : PendingEntry)
      → Dict.get j (Dict.delete k p.entries) ≡ some d
      → (Dict.get j p.entries ≡ some d) × ((k == j) ≡ false) × (eqb e.promise d.promise ≡ false)
  left_other j d there = elim (Bool-cases (k == j)) [
    | inl same ↦ absurd (ground (arith, get-delete j k p.entries))
    | inr other ↦
        let old : Dict.get j p.entries ≡ some d = ground (arith, get-delete j k p.entries) in
        (
          old,
          other,
          elim (Bool-cases (eqb e.promise d.promise)) [
            | inl eq ↦ absurd (
                one_key d.promise j k d e p.entries unique (ground (arith, once d.promise)) old here
                  other refl (ground arith))
            | inr ne ↦ ne
          ],
        )
  ]

  -- An entry that was there leaves.
  pub settle-IsSound :
      All (IsOwned p.entries) p.armed
      → ((j : String) (d : PendingEntry)
          → Dict.get j p.entries ≡ some d
          → (k == j) ≡ false
          → will_expire d.promise p.armed ≡ true)
      → IsSound (settle k e.promise r p)
  unfolding settle
  settle-IsSound owned expiring = record {
    once = settle-IsOnce;
    unique = delete-Unique k p.entries unique;
    owned =
        All-select (IsOwned p.entries) (IsOwned (Dict.delete k p.entries))
          (λ t. not (eqb t.promise e.promise)) others-IsOwned p.armed owned;
    expiring = λ j d there.
        let (old, other, ne) = left_other j d there in
        rw (will_expire-clear d.promise e.promise p.armed ne) (expiring j d old other);
  }
