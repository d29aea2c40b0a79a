-- ===== src/Protocol/TaskPackage/Tests.antt =====
-- A task package as JSON, and `validateTaskPackage` on it.
use pi_mesh.Prelude.{List, [], ◌∷◌, some, ◌≡◌, refl}
use pi_mesh.Protocol.Frame.{MeshTaskPackage}
use pi_mesh.Protocol.Json.{Json, str, arr, obj, fields, items}
use pi_mesh.Protocol.TaskPackage.{
  Host, valid, invalid, validate_task_package, validate_package_fields, exact_keys, record_with,
  relative_paths, relative_path, path_entries, text, is_task_id,
}
use pi_mesh.Protocol.TaskPackage.Paths.{IsPackage}
use pi_mesh.Protocol.TaskPackage.Accepted.{validate_task_package-IsPackage}

-- A runtime that reads every date.
abbrev pub sample_host : Host
sample_host = record {
  json_length = λ v. 100;
  to_iso = λ s. some s;
  sha256 = λ s. "00000000000000000000000000000000000000000000000000000000000000aa";
}

sample_json : List Json → Json
sample_json paths = obj (
    fields (
      ("task", str " fix-1 ")
      ∷ ("goalAcceptance", str "tests pass")
      ∷ ("paths", arr (items paths))
      ∷ ("branchBase", obj (fields (("branch", str "fix") ∷ ("base", str "main") ∷ [])))
      ∷ (
        "reply",
        obj (
            fields (
              ("to", str "ana")
              ∷ ("deadline", str "2026-01-01T00:00:00Z")
              ∷ ("format", str "diff")
              ∷ [])),
      )
      ∷ []))

sample_package : MeshTaskPackage
sample_package = record {
  task = "fix-1";
  goal_acceptance = "tests pass";
  paths = "src/a.ts" ∷ "src/b.ts" ∷ [];
  branch_base = record { branch = "fix"; base = "main" };
  reply = record { to = "ana"; deadline = "2026-01-01T00:00:00Z"; format = "diff" };
}

-- The task is trimmed, and a path that comes twice is kept once.
trimmed :
    validate_task_package sample_host
      (sample_json (str "src/a.ts" ∷ str " src/b.ts" ∷ str "src/a.ts " ∷ []))
    ≡ valid sample_package
unfolding validate_task_package validate_package_fields exact_keys record_with relative_paths
    relative_path path_entries text is_task_id sample_json sample_package pi_mesh.Dict.get
    pi_mesh.Prelude.units pi_mesh.Prelude.trim_end pi_mesh.Prelude.trim_start
    pi_mesh.Prelude.starts_with pi_mesh.Prelude.split_on pi_mesh.Prelude.same_codes
trimmed = refl

escaping :
    validate_task_package sample_host (sample_json (str "src/../../x" ∷ []))
    ≡ invalid "paths must be repo-relative (no absolute, no .., no backslash)"
unfolding validate_task_package validate_package_fields exact_keys record_with relative_paths
    relative_path path_entries text is_task_id sample_json pi_mesh.Dict.get pi_mesh.Prelude.units
    pi_mesh.Prelude.trim_end pi_mesh.Prelude.trim_start pi_mesh.Prelude.starts_with
    pi_mesh.Prelude.split_on pi_mesh.Prelude.same_codes
escaping = refl

validate_task_package-IsPackage_example : IsPackage sample_host sample_package
validate_task_package-IsPackage_example =
    validate_task_package-IsPackage sample_host
      (sample_json (str "src/a.ts" ∷ str " src/b.ts" ∷ str "src/a.ts " ∷ [])) sample_package trimmed
