-- ===== src/Extension/Injection/Bounded.antt =====
-- How often `InjectionGuard` of src/extension/injection-guard.ts lets a batch be sent again.
use pi_mesh.Prelude.{
  ℕ, suc, ◌≤◌, String, Bool, true, false, List, [], ◌∷◌, Option, none, some, ◌≡◌, ◌≢◌, refl, ap,
  ◌∙◌, arith, ◌==◌, eq_iff, leb, length, if◌then◌else◌, if-both_eq,
}
use pi_mesh.Dict
use pi_mesh.Dict.{Dict, listed, get}
use pi_mesh.Dict.Laws.{drop_oldest_few, Unique, Every-set, Every-delete, set-Unique, delete-Unique}
use pi_mesh.Protocol.Frame.{MeshFrame}
use pi_mesh.Extension.Batcher.{DeliverAs}
use pi_mesh.Extension.Injection.Keys.{AllListed, size-listed, tries_of-delete, tries_of-set}
use pi_mesh.Extension.Injection.{
  InjectionGuardTuning, InjectionGuard, Unconfirmed, new_injection_guard, Resend, InjectionEvent,
  noting, turn_ending, settling, timer_firing, batch_key, note, tries_of, take_from, take_pending,
  resend_on, take_for_resend, on_turn_end, on_settled, injection_step, run_injections, add_resend,
  tries_cap, GuardDecision, resend, confirmed, hold, nothing,
}

-- How often the batch of a key is sent again.
unfoldable pub resends_of : String → List Resend → ℕ
resends_of k [] = 0
resends_of k (r ∷ log) =
    let rest = resends_of k log in if batch_key r.frames == k then suc rest else rest

-- Only batches of these keys are sent, and that of the key only while a turn runs.
abbrev pub IsWithin : List String → String → List InjectionEvent → Type 0
IsWithin ks k [] = Unit
IsWithin ks k (noting frames deliver_as busy now ∷ es) =
    (listed (batch_key frames) ks ≡ true) × (busy ≡ false → batch_key frames ≢ k) × IsWithin ks k es
IsWithin ks k (turn_ending reason now ∷ es) = IsWithin ks k es
IsWithin ks k (settling now ∷ es) = IsWithin ks k es
IsWithin ks k (timer_firing ∷ es) = IsWithin ks k es

module _ (t : InjectionGuardTuning) (ks : List String) (few : length ks ≤ tries_cap)
    (k : String) where
  abbrev IsPending : ℕ → Option Unconfirmed → Type 0
  IsPending n none = Unit
  IsPending n (some u) =
      (listed u.key ks ≡ true) × (u.key ≡ k → u.tries ≡ n) × (u.key ≡ batch_key u.frames)

  -- The batch of the key has been sent again as often as the guard has counted.
  abbrev IsCounted : ℕ → InjectionGuard → Type 0
  IsCounted n g =
      Unique g.tries_by_key
      × AllListed ks g.tries_by_key
      × (tries_of k g.tries_by_key ≡ n)
      × (n ≤ t.max_tries)
      × IsPending n g.unconfirmed

  abbrev IsAfter : List Resend → InjectionGuard × Option Resend → Type 0
  IsAfter log r = IsCounted (resends_of k (add_resend r.1 log)) r.0

  note-IsCounted :
      (frames : List MeshFrame) (d : DeliverAs) (busy : Bool) (now n : ℕ) (g : InjectionGuard)
      → listed (batch_key frames) ks ≡ true
      → (busy ≡ false → batch_key frames ≢ k)
      → IsCounted n g
      → IsCounted n (note frames d busy now g)
  unfolding note
  note-IsCounted frames d true now n g l idle (u, ls, same, le, p) =
      (u, ls, same, le, (l, λ e. ap (λ j. tries_of j g.tries_by_key) e ∙ same, refl))
  note-IsCounted frames d false now n g l idle (u, ls, same, le, p) = (
    delete-Unique (batch_key frames) g.tries_by_key u,
    Every-delete (λ j n. listed j ks ≡ true) (batch_key frames) g.tries_by_key ls,
    ground
        (arith, tries_of-delete (batch_key frames) k g.tries_by_key, eq_iff (batch_key frames) k),
    le,
    tt,
  )

  count_resend :
      (u : Unconfirmed) (log : List Resend)
      → IsPending (resends_of k log) (some u)
      → resends_of k
          (record { frames = u.frames; deliver_as = u.deliver_as; tries = suc u.tries } ∷ log)
        ≡ (if u.key == k then suc u.tries else resends_of k log)
  unfolding resends_of
  count_resend u log (l, n, key) = ground (arith, ap (λ j. j == k) key, eq_iff u.key k)

  take-IsAfter :
      (u : Unconfirmed) (log : List Resend) (g : InjectionGuard)
      → IsPending (resends_of k log) (some u)
      → IsCounted (resends_of k log) g
      → IsAfter log (take_from t.max_tries u g)
  unfolding take_from
  take-IsAfter u log g (l, n, key) (uq, ls, same, le, p) =
      let m = Dict.set u.key (suc u.tries) g.tries_by_key in
      let m-uq = set-Unique u.key (suc u.tries) g.tries_by_key uq in
      let m-ls : AllListed ks m =
        Every-set (λ j n. listed j ks ≡ true) u.key (suc u.tries) g.tries_by_key l ls in
      let count = count_resend u log (l, n, key) in
      let whole : Dict.drop_oldest tries_cap m ≡ m =
        drop_oldest_few tries_cap m (omega (arith, few, size-listed m ks m-uq m-ls)) in
      if-both_eq (IsAfter log) (leb t.max_tries u.tries) (λ _. (uq, ls, same, le, p))
        (λ left. rw whole (
          m-uq,
          m-ls,
          tries_of-set u.key k (suc u.tries) g.tries_by_key ∙ ground (arith, count),
          ground (arith, count, eq_iff u.key k),
          tt,
        ))

  pending-IsAfter :
      (o : Option Unconfirmed) (log : List Resend) (g : InjectionGuard)
      → IsPending (resends_of k log) o
      → IsCounted (resends_of k log) g
      → IsAfter log (take_pending t.max_tries o g)
  pending-IsAfter none log g p i = i
  pending-IsAfter (some u) log g p i = take-IsAfter u log g p i

  taken-IsAfter :
      (log : List Resend) (g : InjectionGuard)
      → IsCounted (resends_of k log) g
      → IsAfter log (take_for_resend t g)
  taken-IsAfter log g (u, ls, same, le, p) =
      pending-IsAfter g.unconfirmed log g p (u, ls, same, le, p)

  decided-IsAfter :
      (d : GuardDecision) (log : List Resend) (g : InjectionGuard)
      → IsCounted (resends_of k log) g
      → IsAfter log (resend_on d t g)
  decided-IsAfter resend log g i = taken-IsAfter log g i
  decided-IsAfter confirmed log g i = i
  decided-IsAfter hold log g i = i
  decided-IsAfter nothing log g i = i

  turn-IsCounted :
      (reason : Option String) (now n : ℕ) (g : InjectionGuard)
      → IsCounted n g
      → IsCounted n (on_turn_end t reason now g).0
  unfolding on_turn_end
  turn-IsCounted reason now n g (u, ls, same, le, p) = ground arith

  later :
      (e : InjectionEvent) (es : List InjectionEvent) → IsWithin ks k (e ∷ es) → IsWithin ks k es
  later (noting frames d busy now) es (l, idle, w) = w
  later (turn_ending reason now) es w = w
  later (settling now) es w = w
  later timer_firing es w = w

  step-IsAfter :
      (e : InjectionEvent) (es : List InjectionEvent) (log : List Resend) (g : InjectionGuard)
      → IsWithin ks k (e ∷ es)
      → IsCounted (resends_of k log) g
      → IsAfter log (injection_step t e g)
  unfolding injection_step
  step-IsAfter (noting frames d busy now) es log g (l, idle, w) i =
      note-IsCounted frames d busy now (resends_of k log) g l idle i
  step-IsAfter (turn_ending reason now) es log g w i =
      turn-IsCounted reason now (resends_of k log) g i
  step-IsAfter (settling now) es log g w i = decided-IsAfter (on_settled t now g) log g i
  step-IsAfter timer_firing es log g w i = taken-IsAfter log g i

  run-IsCounted :
      (es : List InjectionEvent) (log : List Resend) (g : InjectionGuard)
      → IsWithin ks k es
      → IsCounted (resends_of k log) g
      → resends_of k (run_injections t es g log).1 ≤ t.max_tries
  unfolding run_injections
  run-IsCounted [] log g w (u, ls, same, le, p) = le
  run-IsCounted (e ∷ es) log g w i =
      run-IsCounted es (add_resend (injection_step t e g).1 log) (injection_step t e g).0
        (later e es w) (step-IsAfter e es log g w i)

  -- Among at most 32 batches, one that is always sent while a turn runs is sent again `max_tries`
  -- times at most, however often it is noted anew, turns end and fail, the session settles and the
  -- timers of failed turns fire.
  pub run_injections-bounded :
      (es : List InjectionEvent)
      → IsWithin ks k es
      → resends_of k (run_injections t es new_injection_guard []).1 ≤ t.max_tries
  unfolding resends_of tries_of get
  run_injections-bounded es w =
      run-IsCounted es [] new_injection_guard w (tt, λ j n e. ground arith, refl, omega arith, tt)
