-- ===== src/Client/Pending/Runs.antt =====
-- The operations of `PendingReplies` of src/client/pending.ts, and runs of them.
use pi_mesh.Prelude.{
  ℕ, suc, ◌+◌, ◌-◌, ◌<◌, String, Bool, true, List, [], ◌∷◌, Option, none, some, ◌≡◌, refl, arith,
  if◌then◌else◌, ltb, eq_iff, Option-cases, inl, inr,
}
use pi_mesh.Dict
use pi_mesh.Dict.{Dict}
use pi_mesh.Dict.Laws.{get-delete}
use pi_mesh.Protocol.Frame.{MeshFrame}
use pi_mesh.Client.Pending.{
  PendingEntry, PendingResolution, failed, reply, PendingReplies, Timer, new_pending, settle,
  cancel, register, handle_reply, cancel_each, cancel_all, PendingEvent, registering, replying,
  cancelling, cancelling_all, firing, step, run,
}
use pi_mesh.Client.Pending.Counts.{awaiting, resolutions}
use pi_mesh.Client.Pending.Sound.{will_expire, IsSound, settle-IsSound}
use pi_mesh.Client.Pending.Register.{added-IsSound}
use pi_mesh.Client.Pending.Fire.{fire-IsSound}

settle_entry-IsSound :
    (k : String) (e : PendingEntry) (r : PendingResolution) (p : PendingReplies)
    → IsSound p
    → Dict.get k p.entries ≡ some e
    → IsSound (settle k e.promise r p)
settle_entry-IsSound k e r p s here =
    settle-IsSound k e r p here s.once s.unique s.owned (λ j d there _. s.expiring j d there)

cancel-IsSound : (k reason : String) (p : PendingReplies) → IsSound p → IsSound (cancel k reason p)
unfolding cancel
cancel-IsSound k reason p s = elim (Option-cases (Dict.get k p.entries)) [
  | inl e ↦ rw (e, cancel) s
  | inr (d, e) ↦ rw (e, cancel) (settle_entry-IsSound k d (failed reason) p s e)
]

get-cancel :
    (k reason : String) (p : PendingReplies) → Dict.get k (cancel k reason p).entries ≡ none
unfolding cancel settle
get-cancel k reason p = ground (arith, get-delete k k p.entries, eq_iff k k)

cancel_each-IsSound :
    (ks : List String) (reason : String) (p : PendingReplies)
    → IsSound p
    → IsSound (cancel_each ks reason p)
unfolding cancel_each
cancel_each-IsSound [] reason p s = s
cancel_each-IsSound (k ∷ ks) reason p s =
    cancel_each-IsSound ks reason (cancel k reason p) (cancel-IsSound k reason p s)

unmatched-IsSound :
    (p : PendingReplies) → IsSound p → IsSound (record p { unmatched = suc p.unmatched })
unmatched-IsSound p s = record {
  once = s.once;
  unique = s.unique;
  owned = s.owned;
  expiring = s.expiring;
}

handle_reply-IsSound :
    (frame : MeshFrame) (to : Option String) (p : PendingReplies)
    → frame.reply_to ≡ to
    → IsSound p
    → IsSound (handle_reply frame p).0
unfolding handle_reply
handle_reply-IsSound frame none p e s = rw (e, handle_reply) (unmatched-IsSound p s)
handle_reply-IsSound frame (some k) p e s = elim (Option-cases (Dict.get k p.entries)) [
  | inl absent ↦ rw (e, handle_reply) (rw absent (unmatched-IsSound p s))
  | inr (d, here) ↦ rw (e, handle_reply) (rw here (settle_entry-IsSound k d (reply frame) p s here))
]

register-IsSound :
    (k : String) (expires_at : ℕ) (launch : Bool) (now : ℕ) (p : PendingReplies)
    → IsSound p
    → IsSound (register k expires_at launch now p)
unfolding register
register-IsSound k expires_at launch now p s =
    let q = cancel k "superseded" p in
    added-IsSound k (record { promise = q.registered; expires_at = expires_at; launch = launch })
      now (expires_at - now) q (cancel-IsSound k "superseded" p s) (get-cancel k "superseded" p)
      refl

step-IsSound : (e : PendingEvent) (p : PendingReplies) → IsSound p → IsSound (step e p)
unfolding step cancel_all
step-IsSound (registering k expires_at launch now) p s =
    register-IsSound k expires_at launch now p s
step-IsSound (replying frame) p s = handle_reply-IsSound frame frame.reply_to p refl s
step-IsSound (cancelling k reason) p s = cancel-IsSound k reason p s
step-IsSound (cancelling_all reason) p s = cancel_each-IsSound (Dict.keys p.entries) reason p s
step-IsSound (firing n) p s = fire-IsSound n p s

run-IsSound : (es : List PendingEvent) (p : PendingReplies) → IsSound p → IsSound (run es p)
unfolding run
run-IsSound [] p s = s
run-IsSound (e ∷ es) p s = run-IsSound es (step e p) (step-IsSound e p s)

new_pending-IsSound : IsSound new_pending
unfolding resolutions awaiting Dict.get
new_pending-IsSound = record {
  once = λ n. ground arith;
  unique = tt;
  owned = tt;
  expiring = λ j d h. absurd (cc);
}

awaiting-empty :
    (n : ℕ) (m : Dict PendingEntry)
    → ((k : String) (e : PendingEntry) → Dict.get k m ≡ some e → ⊥)
    → awaiting n m ≡ 0
unfolding awaiting Dict.get
awaiting-empty n [] h = refl
awaiting-empty n ((k, e) ∷ m) h = absurd (h k e (ground (arith, eq_iff k k)))

unwatched :
    (e : PendingEntry) (armed : List Timer) → armed ≡ [] → will_expire e.promise armed ≡ true → ⊥
unwatched e [] q h = cc
unwatched e (t ∷ ts) q h = ground arith

-- Whatever is registered, answered and cancelled, and whichever timers fire in whichever order, a
-- promise that was made is, from then on, either awaited by one entry and not resolved, or awaited
-- by none and resolved once.
pub run-resolves_once :
    (es : List PendingEvent) (n : ℕ)
    → resolutions n (run es new_pending).resolved + awaiting n (run es new_pending).entries
      ≡ (if ltb n (run es new_pending).registered then 1 else 0)
run-resolves_once es n = (run-IsSound es new_pending new_pending-IsSound).once n

-- Every promise is resolved in the end: when all timers that a run has armed have fired or been
-- cleared, no entry is left, and each promise that was made is resolved exactly once.
pub run-settles :
    (es : List PendingEvent) (n : ℕ)
    → (run es new_pending).armed ≡ []
    → n < (run es new_pending).registered
    → (resolutions n (run es new_pending).resolved ≡ 1)
      × (awaiting n (run es new_pending).entries ≡ 0)
run-settles es n quiet made =
    let p = run es new_pending in
    let s = run-IsSound es new_pending new_pending-IsSound in
    let none_left : awaiting n p.entries ≡ 0 =
      awaiting-empty n p.entries (λ k e here. unwatched e p.armed quiet (s.expiring k e here)) in
    (ground (arith, s.once n), none_left)
