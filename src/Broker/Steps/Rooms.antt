-- ===== src/Broker/Steps/Rooms.antt =====
-- The bounds on rooms and peers hold whatever happens to the broker.
use pi_mesh.Prelude.{ℕ, ◌≡◌, String, Bool, List, Option, none, some, arith}
use pi_mesh.Dict
use pi_mesh.Dict.Laws.{Every-set}
use pi_mesh.Protocol.Frame.{MeshFrame, invalid_alias}
use pi_mesh.Broker.State.{BrokerState, MeshConfig}
use pi_mesh.Broker.Policy.{MeshPolicy}
use pi_mesh.Broker.Rooms.Bounds.{IsBounded, IsPeer, join_room-IsBounded, leave_room-IsBounded}
use pi_mesh.Broker.World.{Env, World}
use pi_mesh.Broker.World.Closing.{close_state-IsBounded}
use pi_mesh.Broker.World.Stable.{IsStable, send_error-stable}
use pi_mesh.Broker.Hello.{handle_hello, refuse, hello_as}
use pi_mesh.Broker.Hello.Consistent.{hello_as-IsBounded}
use pi_mesh.Broker.Steps.{Event, new_world, run}
use pi_mesh.Broker.Steps.Keeps.{IsKept}
use pi_mesh.Broker.Steps.Runs.{run-keeps}

module _ (config : MeshConfig) where
  abbrev Limits : World → Type 0
  Limits w = IsBounded config w.state

  same_tables :
      (s t : BrokerState)
      → s.peers ≡ t.peers
      → s.rooms ≡ t.rooms
      → IsBounded config t
      → IsBounded config s
  same_tables s t p r v = record {
    rooms_valid = rw r v.rooms_valid;
    peers_bounded = rw p v.peers_bounded;
  }

  Limits-IsStable : IsStable Limits
  Limits-IsStable = record {
    on_writes = λ w xs h. h;
    on_destroyed = λ w ds h. h;
    on_batches = λ w bs h. h;
    on_pending = λ w d h. h;
    on_state = λ w s p r h. same_tables s w.state p r h;
    on_close = λ w alias h. close_state-IsBounded config alias w.state h;
  }

  Limits-IsKept : (le : String → String → Bool) → IsKept config le (λ p _. IsPeer config p) Limits
  Limits-IsKept le = record {
    on_found = λ w alias p e h. h.peers_bounded alias p e;
    on_put = λ w p p' held a r h. (
      rw r held,
      record {
        rooms_valid = h.rooms_valid;
        peers_bounded =
            Every-set (λ _. IsPeer config) p'.alias p' w.state.peers (rw r held) h.peers_bounded;
      },
    );
    on_join = λ w p room role held h. join_room-IsBounded config p room role w.state held h;
    on_leave = λ w p room held h. leave_room-IsBounded config p room w.state held h;
    on_lease = λ w c h. h;
  }

  hello-Limits :
      (env : Env) (socket : ℕ) (via : Option String) (frame : MeshFrame) (w : World)
      → Limits w
      → Limits (handle_hello env config socket via frame w)
  unfolding handle_hello
  hello-Limits env socket via frame w h = go frame.from
    where
      go :
          (o : Option String)
          → Limits (elim o [
            | none ↦ refuse env config socket invalid_alias frame.id w
            | some alias ↦ hello_as env config alias socket via frame w
          ])
      go none =
          send_error-stable Limits Limits-IsStable env config socket invalid_alias frame.id w h
      go (some alias) = hello_as-IsBounded env config alias socket via frame w h

  -- From the start of a broker, whatever frames arrive, connections end, writes end or time out and
  -- timers fire, in whatever order and with whatever policy: every room has a valid name and between
  -- 1 and `max_peers_per_room` members, none twice, and no peer is in more rooms than configured.
  pub run-IsBounded :
      (policy : MeshPolicy) (le : String → String → Bool) (now epoch : ℕ) (es : List (Env × Event))
      → IsBounded config (run config policy le es (new_world now epoch)).state
  unfolding Dict.get
  run-IsBounded policy le now epoch es =
      run-keeps Limits Limits-IsStable (λ p _. IsPeer config p) config policy le (Limits-IsKept le)
        hello-Limits (λ w xs h. h) (λ w xs h. h) es (new_world now epoch)
        (record {
          rooms_valid = λ j ms e. absurd (ground arith);
          peers_bounded = λ j p e. absurd (ground arith);
        })
