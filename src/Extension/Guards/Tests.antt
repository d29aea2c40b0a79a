-- ===== src/Extension/Guards/Tests.antt =====
-- `MeshGuards` of src/extension/guards.ts on a few sends.
use pi_mesh.Prelude.{ℕ, String, List, [], ◌∷◌, none, some, ◌≡◌, refl, arith, false}
use pi_mesh.Protocol.Frame.{normal, urgent}
use pi_mesh.Extension.Guards.{
  GuardInput, GuardRateLimits, MeshGuards, GuardResult, allowed, blocked, new_guards, check_send,
  default_guard_limits, consume, check_reply,
}
use pi_mesh.Extension.Guards.Duplicates.{IsSpaced, run_guards, run_guards-IsSpaced}

abbrev no_hash : String → String
no_hash s = s

abbrev message : String → GuardInput
message body = record {
  from = "ana";
  to = "@Bob ";
  room = "dev";
  body = body;
  priority = normal;
  role = none;
}

abbrev calls : List (ℕ × GuardInput)
calls =
    (5, message "hi") ∷ (6, message "hi") ∷ (7, message "mesh_send(x)") ∷ (10005, message "hi") ∷ []

through :
    (run_guards no_hash default_guard_limits calls new_guards []).1
    ≡ ("bob|dev|hi", 10005) ∷ ("bob|dev|mesh_send(x)", 7) ∷ ("bob|dev|hi", 5) ∷ []
unfolding run_guards check_send pi_mesh.Protocol.Shapes.normalize_alias pi_mesh.Prelude.lower
    pi_mesh.Prelude.trim_end pi_mesh.Prelude.trim_start pi_mesh.Prelude.starts_with pi_mesh.Dict.get
    consume pi_mesh.Extension.Guards.consume_msg pi_mesh.Extension.Guards.consume_window
    pi_mesh.Extension.Guards.current_window pi_mesh.Extension.Guards.prune_recent pi_mesh.Dict.set
    pi_mesh.Extension.Guards.dup_key
through = refl

self_send :
    (check_send no_hash default_guard_limits 0
      (record (message "hi") { from = "bob" })
      new_guards).1
    ≡ blocked "self_send"
unfolding check_send pi_mesh.Protocol.Shapes.normalize_alias pi_mesh.Prelude.lower
    pi_mesh.Prelude.trim_end pi_mesh.Prelude.trim_start pi_mesh.Prelude.starts_with
self_send = refl

abbrev one_each : GuardRateLimits
one_each = record { msg_per_min = 0; urgent_per_min = 5; force_per_min = 1 }

-- An urgent message that the window of all messages refuses has taken from the urgent window.
urgent_spent : (consume one_each urgent 7 new_guards) ≡ (
  record new_guards {
    urgent_window = some (record { count = 1; window_start = 7 });
    msg_window = some (record { count = 0; window_start = 7 });
  },
  false,
)
unfolding consume pi_mesh.Extension.Guards.consume_window pi_mesh.Extension.Guards.current_window
    pi_mesh.Extension.Guards.consume_msg
urgent_spent = refl

run_guards-IsSpaced_example :
    IsSpaced (run_guards no_hash default_guard_limits calls new_guards []).1
run_guards-IsSpaced_example = run_guards-IsSpaced no_hash default_guard_limits calls (omega arith)
