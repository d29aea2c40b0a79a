-- ===== src/Extension/Guards/Duplicates.antt =====
-- What `MeshGuards` of src/extension/guards.ts lets through twice.
use pi_mesh.Prelude.{
  ℕ, ◌+◌, ◌-◌, ◌≤◌, String, false, not, List, [], ◌∷◌, ◌≡◌, refl, sym, subst, arith, ◌==◌, if-both,
  if-both_eq, ltb, leb, All,
}
use pi_mesh.Dict
use pi_mesh.Dict.{Dict}
use pi_mesh.Dict.Recent.{
  Entry, All-imp, IsKnown, IsKnown-later, IsKnown-set, IsKnown-here, IsKnown-retain, fresh_key,
}
use pi_mesh.Dict.Laws.{Unique, set-Unique, retain-Unique}
use pi_mesh.Protocol.Frame.{MeshPriority, normal, urgent, force}
use pi_mesh.Protocol.Shapes.{normalize_alias}
use pi_mesh.Extension.Guards.{
  GuardRateLimits, GuardInput, GuardResult, allowed, blocked, MeshGuards, new_guards,
  duplicate_window_ms, consume, consume_msg, prune_recent, dup_key, is_duplicate, remember,
  is_observer, check_send,
}

-- The same text does not go to the same peer and room twice within ten seconds. The last entry
-- stands first.
abbrev pub IsSpaced : List Entry → Type 0
IsSpaced [] = Unit
IsSpaced ((k, t) ∷ log) = All (λ e. e.0 ≡ k → e.1 + duplicate_window_ms ≤ t) log × IsSpaced log

IsKnown-prune :
    (recent : Dict ℕ) (now : ℕ) (e : Entry)
    → Unique recent
    → IsKnown duplicate_window_ms recent now e
    → IsKnown duplicate_window_ms (prune_recent now recent) now e
unfolding prune_recent
IsKnown-prune recent now e u known =
    if-both (λ r. IsKnown duplicate_window_ms r now e) (ltb (Dict.size recent) 256) known
      (IsKnown-retain duplicate_window_ms (λ key ts. not (leb duplicate_window_ms (now - ts)))
        recent now e (λ k s old. ground arith) u known)

prune-Unique : (now : ℕ) (recent : Dict ℕ) → Unique recent → Unique (prune_recent now recent)
unfolding prune_recent
prune-Unique now recent u =
    ground (arith, retain-Unique (λ key ts. not (leb duplicate_window_ms (now - ts))) recent u)

consume-recent :
    (limits : GuardRateLimits) (p : MeshPriority) (now : ℕ) (g : MeshGuards)
    → (consume limits p now g).0.recent ≡ g.recent
unfolding consume consume_msg
consume-recent limits normal now g = refl
consume-recent limits urgent now g = ground arith
consume-recent limits force now g = ground arith

module _ (sha256 : String → String) (limits : GuardRateLimits) where
  -- The log of what is let through.
  abbrev pub log_result : String → ℕ → GuardResult → List Entry → List Entry
  log_result key now (allowed warnings) log = (key, now) ∷ log
  log_result key now (blocked reason) log = log

  -- Calls of `checkSend` one after another, each at its time.
  unfoldable pub run_guards :
      List (ℕ × GuardInput) → MeshGuards → List Entry → MeshGuards × List Entry
  run_guards [] g log = (g, log)
  run_guards ((now, input) ∷ calls) g log =
      let (g', result) = check_send sha256 limits now input g in
      run_guards calls g' (log_result (dup_key sha256 input) now result log)

  abbrev pub IsGuarded : MeshGuards → ℕ → List Entry → Type 0
  IsGuarded g now log =
      Unique g.recent × All (IsKnown duplicate_window_ms g.recent now) log × IsSpaced log

  -- The key and the time are remembered, and old keys are forgotten.
  remembered :
      (now : ℕ) (input : GuardInput) (g g' : MeshGuards) (log : List Entry)
      → g'.recent ≡ g.recent
      → is_duplicate sha256 input now g ≡ false
      → IsGuarded g now log
      → IsGuarded (remember sha256 input now g') now ((dup_key sha256 input, now) ∷ log)
  remembered now input g g' log e first (u, known, spaced) =
      let k = dup_key sha256 input in
      let set_u = set-Unique k now g'.recent (subst Unique (sym e) u) in
      let later : (x : Entry)
          → IsKnown duplicate_window_ms g.recent now x
          → IsKnown duplicate_window_ms (remember sha256 input now g').recent now x =
        λ x kx. IsKnown-prune (Dict.set k now g'.recent) now x set_u (
          IsKnown-set duplicate_window_ms k g'.recent now x
            (subst (λ r. IsKnown duplicate_window_ms r now x) (sym e) kx)) in
      let here = IsKnown-here duplicate_window_ms k g'.recent now in
      (
        prune-Unique now (Dict.set k now g'.recent) set_u,
        (
          IsKnown-prune (Dict.set k now g'.recent) now (k, now) set_u here,
          All-imp (IsKnown duplicate_window_ms g.recent now)
              (IsKnown duplicate_window_ms (remember sha256 input now g').recent now) later log
              known,
        ),
        (
          All-imp (IsKnown duplicate_window_ms g.recent now)
              (λ x. x.0 ≡ k → x.1 + duplicate_window_ms ≤ now)
              (λ x kx. fresh_key duplicate_window_ms g.recent k now x (λ s there. ground arith) kx)
              log known,
          spaced,
        ),
      )

  send-IsGuarded :
      (now : ℕ) (input : GuardInput) (g : MeshGuards) (log : List Entry)
      → IsGuarded g now log
      → IsGuarded
          (check_send sha256 limits now input g).0
          now
          (log_result (dup_key sha256 input) now (check_send sha256 limits now input g).1 log)
  unfolding check_send
  send-IsGuarded now input g log i =
      let k = dup_key sha256 input in
      let g' = (consume limits input.priority now g).0 in
      let same : g'.recent ≡ g.recent = consume-recent limits input.priority now g in
      let Good : MeshGuards × GuardResult → Type 0 =
        λ r. IsGuarded r.0 now (log_result k now r.1 log) in
      if-both Good (normalize_alias input.to == normalize_alias input.from) i (
        if-both Good (is_observer sha256 input.role) i (
          if-both_eq Good (is_duplicate sha256 input now g) (λ _. i)
            (λ first.
              if-both Good (consume limits input.priority now g).1
                (remembered now input g g' log same first i)
                (subst (λ r. Unique r × All (IsKnown duplicate_window_ms r now) log × IsSpaced log)
                  (sym same) i))))

  -- The calls come in the order of their times.
  abbrev pub IsAscending : ℕ → List (ℕ × GuardInput) → Type 0
  IsAscending start [] = Unit
  IsAscending start ((now, input) ∷ calls) = (start ≤ now) × IsAscending now calls

  run-IsSpaced :
      (calls : List (ℕ × GuardInput)) (start : ℕ) (g : MeshGuards) (log : List Entry)
      → IsAscending start calls
      → IsGuarded g start log
      → IsSpaced (run_guards calls g log).1
  unfolding run_guards
  run-IsSpaced [] start g log a (u, known, spaced) = spaced
  run-IsSpaced ((now, input) ∷ calls) start g log (le, a) (u, known, spaced) =
      let r = check_send sha256 limits now input g in
      run-IsSpaced calls now r.0 (log_result (dup_key sha256 input) now r.1 log) a (
        send-IsGuarded now input g log (
          u,
          All-imp (IsKnown duplicate_window_ms g.recent start)
              (IsKnown duplicate_window_ms g.recent now)
              (λ x. IsKnown-later duplicate_window_ms g.recent start now x le) log known,
          spaced,
        ))

  -- However often a client tries to send, at times that do not go back, two messages with the same
  -- addressee, room and hash of the body are let through ten seconds apart at least, also after the
  -- table of recent sends was pruned.
  pub run_guards-IsSpaced :
      (calls : List (ℕ × GuardInput))
      → IsAscending 0 calls
      → IsSpaced (run_guards calls new_guards []).1
  run_guards-IsSpaced calls a = run-IsSpaced calls 0 new_guards [] a (tt, tt, tt)
