-- ===== src/Client/Pending/Tests.antt =====
-- Runs of `PendingReplies` of src/client/pending.ts.
use pi_mesh.Prelude.{
  ℕ, ◌+◌, ◌<◌, String, List, [], ◌∷◌, some, true, false, ◌≡◌, refl, arith, map, if◌then◌else◌, ltb,
}
use pi_mesh.Protocol.Frame.{MeshFrame, FrameType, build_frame}
use pi_mesh.Client.Pending.{
  PendingReplies, PendingEvent, registering, replying, firing, failed, expired, reply, new_pending,
  step, run, register, handle_reply, cancel, settle, fire, expire, remind, pick,
}
use pi_mesh.Client.Pending.Counts.{awaiting, resolutions}
use pi_mesh.Client.Pending.Runs.{run-resolves_once, run-settles}

abbrev answer : MeshFrame
answer = record (build_frame FrameType.reply "m_9") { reply_to = some "m_1" }

-- Two messages: the first is answered, the second is reminded of and expires, and then a reply comes
-- late.
abbrev events : List PendingEvent
events =
    registering "m_1" 100 false 0
    ∷ registering "m_2" 100 true 10
    ∷ replying answer
    ∷ firing 0
    ∷ firing 1
    ∷ replying answer
    ∷ []

after : PendingReplies
after = run events new_pending

outcome : after.resolved ≡ (0, reply answer) ∷ (1, expired) ∷ []
unfolding after run step handle_reply pi_mesh.Dict.get fire pick register pi_mesh.Dict.set cancel
    settle pi_mesh.Prelude.select remind pi_mesh.Dict.delete expire
outcome = refl

reminded_once : after.reminded ≡ "m_2" ∷ []
unfolding after run step handle_reply pi_mesh.Dict.get fire pick register pi_mesh.Dict.set cancel
    settle pi_mesh.Prelude.select remind pi_mesh.Dict.delete expire
reminded_once = refl

late_counted : after.unmatched ≡ 1
unfolding after run step handle_reply pi_mesh.Dict.get fire pick register pi_mesh.Dict.set cancel
    settle pi_mesh.Prelude.select remind pi_mesh.Dict.delete expire
late_counted = refl

quiet : (run events new_pending).armed ≡ []
unfolding run step handle_reply pi_mesh.Dict.get fire pick register pi_mesh.Dict.set cancel settle
    pi_mesh.Prelude.select remind pi_mesh.Dict.delete expire
quiet = refl

two_made : (run events new_pending).registered ≡ 2
unfolding run step handle_reply pi_mesh.Dict.get fire pick register pi_mesh.Dict.set cancel settle
    pi_mesh.Prelude.select remind pi_mesh.Dict.delete expire
two_made = refl

superseded :
    (run (registering "m_1" 100 false 0 ∷ registering "m_1" 100 false 5 ∷ []) new_pending).resolved
    ≡ (0, failed "superseded") ∷ []
unfolding run step register cancel pi_mesh.Dict.get pi_mesh.Dict.set settle
superseded = refl

run-resolves_once_example :
    resolutions 1 (run events new_pending).resolved + awaiting 1 (run events new_pending).entries
    ≡ (if ltb 1 (run events new_pending).registered then 1 else 0)
run-resolves_once_example = run-resolves_once events 1

run-settles_example :
    (resolutions 1 (run events new_pending).resolved ≡ 1)
    × (awaiting 1 (run events new_pending).entries ≡ 0)
run-settles_example = run-settles events 1 quiet (omega (arith, two_made))
