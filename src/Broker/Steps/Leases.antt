-- ===== src/Broker/Steps/Leases.antt =====
-- The broker uses the table of leases only by its operations, so what holds of every run of them
-- holds of the broker.
use pi_mesh.Prelude.{ℕ, ◌≡◌, refl, ap, ◌∙◌, subst, String, Bool, List, [], ◌∷◌, ◌++◌}
use pi_mesh.Broker.State.{MeshConfig}
use pi_mesh.Broker.Lease
use pi_mesh.Broker.Lease.{LeaseTable, Call, empty_table}
use pi_mesh.Broker.Lease.Invariant.{IsValid, run-IsValid, empty_table-IsValid}
use pi_mesh.Broker.Policy.{MeshPolicy}
use pi_mesh.Broker.World.{Env, World}
use pi_mesh.Broker.World.Stable.{IsStable}
use pi_mesh.Broker.Hello.Stable.{handle_hello-stable}
use pi_mesh.Broker.Steps.{Event, new_world, run}
use pi_mesh.Broker.Steps.Keeps.{IsKept}
use pi_mesh.Broker.Steps.Runs.{run-keeps}

module _ (le : String → String → Bool) where
  run-append :
      (cs ds : List (ℕ × Call)) (t : LeaseTable)
      → Lease.run le (cs ++ ds) t ≡ Lease.run le ds (Lease.run le cs t)
  unfolding Lease.run
  run-append [] ds t = refl
  run-append (c ∷ cs) ds t = run-append cs ds (Lease.step le c t)

  module _ (t : LeaseTable) where
    -- Some calls lead from the table to that of the broker.
    abbrev Reached : World → Type 0
    Reached w = (cs : List (ℕ × Call)) × (Lease.run le cs t ≡ w.leases)

    Reached-IsStable : IsStable Reached
    Reached-IsStable = record {
      on_writes = λ w xs h. h;
      on_destroyed = λ w ds h. h;
      on_batches = λ w bs h. h;
      on_pending = λ w d h. h;
      on_state = λ w s p r h. h;
      on_close = λ w alias h. h;
    }

    one_more :
        (w : World) (c : ℕ × Call)
        → Reached w
        → Reached (record w { leases = Lease.step le c w.leases })
    unfolding Lease.run
    one_more w c (cs, e) = (cs ++ c ∷ [], run-append cs (c ∷ []) t ∙ ap (λ x. Lease.step le c x) e)

    Reached-IsKept : (config : MeshConfig) → IsKept config le (λ _ _. Unit) Reached
    Reached-IsKept config = record {
      on_found = λ w alias p e h. tt;
      on_put = λ w p p' held a r h. (tt, h);
      on_join = λ w p room role held h. h;
      on_leave = λ w p room held h. h;
      on_lease = λ w c h. one_more w c h;
    }

  -- From the start of a broker, whatever happens to it and in whatever order, its table of leases is
  -- one to which calls of claim, release, verify, get and snapshot lead from the empty table of its
  -- epoch; so every lease in it stands under its own task, has that epoch and a fence of its own.
  pub run-leases :
      (config : MeshConfig) (policy : MeshPolicy) (now epoch : ℕ) (es : List (Env × Event))
      → let t = (run config policy le es (new_world now epoch)).leases in
        ((cs : List (ℕ × Call)) × (Lease.run le cs (empty_table epoch) ≡ t)) × IsValid t
  unfolding Lease.run
  run-leases config policy now epoch es =
      let start = empty_table epoch in
      let (cs, e) =
        run-keeps (Reached start) (Reached-IsStable start) (λ _ _. Unit) config policy le
          (Reached-IsKept start config)
          (λ env socket via frame w h.
            handle_hello-stable (Reached start) (Reached-IsStable start) (λ w s h. h) env config
              socket via frame w h)
          (λ w xs h. h) (λ w xs h. h) es (new_world now epoch) ([], refl) in
      ((cs, e), subst IsValid e (run-IsValid le cs start (empty_table-IsValid epoch)))
