-- ===== src/Client/Pending/Register.antt =====
-- `register` of `PendingReplies` of src/client/pending.ts adds an entry with its timers.
use pi_mesh.Prelude.{
  ℕ, suc, String, Bool, true, ◌&&◌, ◌||◌, List, [], ◌∷◌, ◌++◌, none, some, ◌≡◌, refl, arith, eqb,
  eq_iff, any, All, All-append, Bool-cases, inl, inr,
}
use pi_mesh.Dict
use pi_mesh.Dict.{Dict}
use pi_mesh.Dict.Laws.{Every-set, set-Unique, get-set}
use pi_mesh.Client.Pending.{PendingEntry, PendingReplies, Timer, timers_of}
use pi_mesh.Client.Pending.Counts.{awaiting-set}
use pi_mesh.Client.Pending.Sound.{is_expiry, will_expire, IsOwned, IsSound}

any-append {ℓ} :
    {A : Type ℓ} (f : A → Bool) (xs ys : List A) → any f (xs ++ ys) ≡ (any f xs || any f ys)
any-append f [] ys = refl
any-append f (x ∷ xs) ys = ground (arith, any-append f xs ys)

All-imp {ℓ κ μ} :
    {A : Type ℓ} (P : A → Type κ) (Q : A → Type μ)
    → ((x : A) → P x → Q x)
    → (xs : List A) → All P xs
    → All Q xs
All-imp P Q imp [] h = tt
All-imp P Q imp (x ∷ xs) (p, h) = (imp x p, All-imp P Q imp xs h)

-- A new entry with its timers.
module _ (k : String) (e : PendingEntry) (now total : ℕ) (p : PendingReplies) (s : IsSound p)
    (absent : Dict.get k p.entries ≡ none) (new : e.promise ≡ p.registered) where
  set-IsOwned : (t : Timer) → IsOwned p.entries t → IsOwned (Dict.set k e p.entries) t
  set-IsOwned t (d, there, same) =
      (d, ground (arith, get-set t.msg_id k e p.entries, eq_iff k t.msg_id, there), same)

  timers-IsOwned : All (IsOwned (Dict.set k e p.entries)) (timers_of k e.promise now total)
  timers-IsOwned =
      let there : Dict.get k (Dict.set k e p.entries) ≡ some e =
        ground (arith, get-set k k e p.entries, eq_iff k k) in
      elim (Bool-cases (eqb total 0)) [
        | inl none_left ↦ rw none_left ((e, there, refl), tt)
        | inr some_left ↦
            rw some_left ((e, there, refl), ((e, there, refl), ((e, there, refl), tt)))
      ]

  abbrev pub added : PendingReplies
  added = record p {
    entries = Dict.set k e p.entries;
    armed = p.armed ++ timers_of k e.promise now total;
    registered = suc p.registered;
  }

  added_expires : will_expire e.promise added.armed ≡ true
  added_expires = ground (
    arith,
    any-append (λ (t : Timer). is_expiry t && eqb t.promise e.promise) p.armed
        (timers_of k e.promise now total),
  )

  pub added-IsSound : IsSound added
  added-IsSound = record {
    once = λ n. ground (arith, s.once n, awaiting-set n k e p.entries absent, new);
    unique = set-Unique k e p.entries s.unique;
    owned =
        All-append (IsOwned added.entries) p.armed (timers_of k e.promise now total)
          (All-imp (IsOwned p.entries) (IsOwned added.entries) set-IsOwned p.armed s.owned)
          timers-IsOwned;
    expiring =
        Every-set (λ j d. will_expire d.promise added.armed ≡ true) k e p.entries added_expires
          (λ j d there. ground (
            arith,
            s.expiring j d there,
            any-append (λ (t : Timer). is_expiry t && eqb t.promise d.promise) p.armed
                (timers_of k e.promise now total),
          ));
  }
