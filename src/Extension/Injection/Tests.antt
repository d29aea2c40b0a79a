-- ===== src/Extension/Injection/Tests.antt =====
-- `InjectionGuard` of src/extension/injection-guard.ts on a few batches.
use pi_mesh.Prelude.{◌≤◌, true, false, String, List, [], ◌∷◌, some, ◌≡◌, ◌≢◌, refl, arith}
use pi_mesh.Protocol.Frame.{MeshFrame, build_frame, FrameType}
use pi_mesh.Extension.Batcher.{follow_up}
use pi_mesh.Extension.Injection.{
  InjectionGuard, new_injection_guard, InjectionEvent, noting, turn_ending, settling, timer_firing,
  default_tuning, run_injections, batch_key, on_turn_end, confirmed, note,
}
use pi_mesh.Extension.Injection.Bounded.{resends_of, run_injections-bounded}

abbrev batch : List MeshFrame
batch = build_frame FrameType.msg "m_1" ∷ build_frame FrameType.msg "m_2" ∷ []

keyed : batch_key batch ≡ "m_1,m_2"
unfolding batch_key
keyed = refl

-- The batch is sent while a turn runs, and the turn is aborted.
abbrev aborted_once : List InjectionEvent → List InjectionEvent
aborted_once es =
    noting batch follow_up true 0 ∷ turn_ending (some "aborted") 100 ∷ timer_firing ∷ es

abbrev aborted : List InjectionEvent
aborted = aborted_once (aborted_once (aborted_once (settling 9000 ∷ [])))

twice : resends_of "m_1,m_2" (run_injections default_tuning aborted new_injection_guard []).1 ≡ 2
unfolding resends_of run_injections pi_mesh.Extension.Injection.injection_step
    pi_mesh.Extension.Injection.on_settled on_turn_end note pi_mesh.Extension.Injection.take_from
    pi_mesh.Extension.Injection.tries_of pi_mesh.Dict.get pi_mesh.Dict.drop_oldest pi_mesh.Dict.set
    batch_key
twice = refl

-- A turn that ends well after eight seconds confirms the batch.
confirms :
    (on_turn_end default_tuning
      (some "stop")
      8000
      (note batch follow_up true 0 new_injection_guard)).1
    ≡ confirmed
unfolding on_turn_end note
confirms = refl

stays : (k : String) → true ≡ false → k ≢ k
stays k e same = ground (arith, e)

run_injections-bounded_example :
    resends_of "m_1,m_2" (run_injections default_tuning aborted new_injection_guard []).1 ≤ 2
unfolding batch_key
run_injections-bounded_example =
    run_injections-bounded default_tuning ("m_1,m_2" ∷ []) (omega arith) "m_1,m_2" aborted
      (refl, stays "m_1,m_2", (refl, stays "m_1,m_2", (refl, stays "m_1,m_2", tt)))
