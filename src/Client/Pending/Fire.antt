-- ===== src/Client/Pending/Fire.antt =====
-- A timer of `PendingReplies` of src/client/pending.ts fires.
use pi_mesh.Prelude.{
  ℕ, zero, suc, String, true, false, not, ◌&&◌, ◌||◌, List, [], ◌∷◌, some, ◌≡◌, refl, subst, arith,
  if-both, leb, eqb, ◌==◌, All, Bool-cases, Option-cases, inl, inr,
}
use pi_mesh.Dict
use pi_mesh.Dict.{Dict}
use pi_mesh.Shared.Config.{max_reminds}
use pi_mesh.Client.Pending.{
  PendingEntry, expired, PendingReplies, Timer, TimerKind, reminder, expiry, settle, remind, expire,
  call_back, pick, fire,
}
use pi_mesh.Client.Pending.Sound.{is_expiry, will_expire, IsOwned, IsSound, settle-IsSound, one_key}

All-pick {κ} :
    (P : Timer → Type κ) (n : ℕ) (ts : List Timer) (t : Timer) (us : List Timer)
    → pick n ts ≡ some (t, us)
    → All P ts
    → P t × All P us
unfolding pick
All-pick P n [] t us h a = cc
All-pick P zero (u ∷ ts) t us h (p, a) = (subst P (cc) p, subst (All P) (cc) a)
All-pick P (suc n) (u ∷ ts) t us h (p, a) = elim (Option-cases (pick n ts)) [
  | inl e ↦ absurd (ground arith)
  | inr ((v, vs), e) ↦
      let (q, b) = All-pick P n ts v vs e a in
      let same : v ≡ t = ground arith in
      let others : u ∷ vs ≡ us = ground arith in (subst P same q, subst (All P) others (p, b))
]

will_expire-pick :
    (m n : ℕ) (ts : List Timer) (t : Timer) (us : List Timer)
    → pick n ts ≡ some (t, us)
    → will_expire m ts ≡ ((is_expiry t && eqb t.promise m) || will_expire m us)
unfolding pick
will_expire-pick m n [] t us h = cc
will_expire-pick m zero (u ∷ ts) t us h = ground arith
will_expire-pick m (suc n) (u ∷ ts) t us h = elim (Option-cases (pick n ts)) [
  | inl e ↦ absurd (ground arith)
  | inr ((v, vs), e) ↦ ground (arith, will_expire-pick m n ts v vs e)
]

-- A reminder changes only the counters of reminders.
remind-IsSound : (t : Timer) (p : PendingReplies) → IsSound p → IsSound (remind t p)
unfolding remind
remind-IsSound t p s = if-both IsSound (not (Dict.has t.msg_id p.entries)) s (
    if-both IsSound (leb max_reminds (p.remind_count t.promise)) s
      (record { once = s.once; unique = s.unique; owned = s.owned; expiring = s.expiring }))

-- The timer `t` fires, which is one of those that are armed.
module _ (p : PendingReplies) (s : IsSound p) (n : ℕ) (t : Timer) (others : List Timer)
    (picked : pick n p.armed ≡ some (t, others)) where
  abbrev disarmed : PendingReplies
  disarmed = record p { armed = others }

  others-IsOwned : IsOwned p.entries t × All (IsOwned p.entries) others
  others-IsOwned = All-pick (IsOwned p.entries) n p.armed t others picked s.owned

  others_expire :
      (j : String) (d : PendingEntry)
      → Dict.get j p.entries ≡ some d
      → (is_expiry t && eqb t.promise d.promise) ≡ false
      → will_expire d.promise others ≡ true
  others_expire j d there h =
      ground (arith, s.expiring j d there, will_expire-pick d.promise n p.armed t others picked)

  reminder_fires : t.kind ≡ reminder → IsSound (remind t disarmed)
  reminder_fires k = remind-IsSound t disarmed (record {
    once = s.once;
    unique = s.unique;
    owned = others-IsOwned.1;
    expiring = λ j d there. others_expire j d there (ground arith);
  })

  -- The timer is not that of another key.
  not_this :
      (j : String) (d e : PendingEntry)
      → Dict.get j p.entries ≡ some d
      → Dict.get t.msg_id p.entries ≡ some e
      → (t.msg_id == j) ≡ false
      → e.promise ≡ t.promise
      → (is_expiry t && eqb t.promise d.promise) ≡ false
  not_this j d e here there other same = elim (Bool-cases (eqb t.promise d.promise)) [
    | inl eq ↦ absurd (
        one_key d.promise j t.msg_id d e p.entries s.unique (ground (arith, s.once d.promise)) here
          there other refl (ground arith))
    | inr ne ↦ ground arith
  ]

  expiry_fires : IsSound (expire t disarmed)
  unfolding expire
  expiry_fires =
      let (e, there, same) = others-IsOwned.0 in
      let settled : IsSound (settle t.msg_id e.promise expired disarmed) =
        settle-IsSound t.msg_id e expired disarmed there s.once s.unique others-IsOwned.1
          (λ j d here other. others_expire j d here (not_this j d e here there other same)) in
      rw there (subst (λ i. IsSound (settle t.msg_id i expired disarmed)) same settled)

  call_back-IsSound : (k : TimerKind) → t.kind ≡ k → IsSound (call_back t disarmed)
  unfolding remind expire
  call_back-IsSound reminder e = rw e (reminder_fires e)
  call_back-IsSound expiry e = rw e expiry_fires

pub fire-IsSound : (n : ℕ) (p : PendingReplies) → IsSound p → IsSound (fire n p)
unfolding fire
fire-IsSound n p s = elim (Option-cases (pick n p.armed)) [
  | inl e ↦ rw (e, fire) s
  | inr ((t, others), e) ↦ rw (e, fire) (call_back-IsSound p s n t others e t.kind refl)
]
