-- ===== src/Protocol/TaskPackage/Accepted.antt =====
-- What a task package says that `validateTaskPackage` of src/protocol/task-package.ts accepts.
use pi_mesh.Prelude.{
  String, Option-cases, true, List, [], ◌∷◌, Option, none, some, ◌≡◌, ◌≤◌, arith, length, inl, inr,
}
use pi_mesh.Shared.Config.{max_task_paths}
use pi_mesh.Protocol.Frame.{MeshTaskPackage}
use pi_mesh.Protocol.Json.{Json, arr, obj, Fields, field}
use pi_mesh.Protocol.TaskPackage.{
  Host, valid, is_task_id, text, relative_paths, path_entries, record_with, deadline_of,
  validate_package_fields, validate_task_package,
}
use pi_mesh.Protocol.TaskPackage.Paths.{
  Within, IsPackage, Result, text-Within, is_task_id-IsTaskId, relative_paths-Result,
}

module _ (host : Host) (o : Fields) (p : MeshTaskPackage)
    (ok : validate_package_fields host o ≡ valid p) where
  accepted-task : is_task_id p.task ≡ true
  unfolding validate_package_fields
  accepted-task = ground arith

  accepted-goal : Within 1024 p.goal_acceptance
  unfolding validate_package_fields
  accepted-goal = text-Within (field "goalAcceptance" o) 1024 p.goal_acceptance (ground arith)

  accepted-paths :
      (raws : List Json) × (path_entries (field "paths" o) ≡ some raws)
      × (relative_paths [] raws ≡ some p.paths)
  unfolding validate_package_fields
  accepted-paths = elim (Option-cases (path_entries (field "paths" o))) [
    | inl e ↦ absurd (ground arith)
    | inr (raws, e) ↦ (raws, e, ground arith)
  ]

  -- The texts of one of the two records.
  accepted-branch_base :
      (r : Fields) × (text (field "branch" r) 128 ≡ some p.branch_base.branch)
      × (text (field "base" r) 256 ≡ some p.branch_base.base)
  unfolding validate_package_fields
  accepted-branch_base =
      elim (Option-cases (record_with (field "branchBase" o) ("branch" ∷ "base" ∷ []))) [
        | inl e ↦ absurd (ground arith)
        | inr (r, e) ↦ (r, ground arith, ground arith)
      ]

  accepted-reply :
      (r : Fields) × (text (field "to" r) 128 ≡ some p.reply.to)
      × (deadline_of host (text (field "deadline" r) 64) ≡ some p.reply.deadline)
      × (text (field "format" r) 256 ≡ some p.reply.format)
  unfolding validate_package_fields
  accepted-reply =
      elim (Option-cases (record_with (field "reply" o) ("to" ∷ "deadline" ∷ "format" ∷ []))) [
        | inl e ↦ absurd (ground arith)
        | inr (r, e) ↦ (r, ground arith, ground arith, ground arith)
      ]

path_entries-bounds :
    (v : Option Json) (raws : List Json)
    → path_entries v ≡ some raws
    → (1 ≤ length raws) × (length raws ≤ max_task_paths)
unfolding path_entries
path_entries-bounds none raws h = cc
path_entries-bounds (some (arr xs)) raws h = ground arith
path_entries-bounds (some _) raws h = cc

deadline_of-read :
    (host : Host) (v : Option String) (d : String)
    → deadline_of host v ≡ some d
    → (raw : String) × (host.to_iso raw ≡ some d)
deadline_of-read host none d h = cc
deadline_of-read host (some raw) d h = (raw, h)

accepted-IsPackage :
    (host : Host) (o : Fields) (p : MeshTaskPackage)
    → validate_package_fields host o ≡ valid p
    → IsPackage host p
accepted-IsPackage host o p ok =
    let (raws, entries, collected) = accepted-paths host o p ok in
    let (n, m) = path_entries-bounds (field "paths" o) raws entries in
    let all : Result [] raws p.paths = relative_paths-Result [] raws p.paths (tt, tt) collected in
    let (b, branch, base) = accepted-branch_base host o p ok in
    let (r, to, deadline, format) = accepted-reply host o p ok in
    record {
      task = is_task_id-IsTaskId p.task (accepted-task host o p ok);
      goal = accepted-goal host o p ok;
      some_paths = all.3 (omega (arith, n));
      bounded_paths = omega (arith, all.1);
      paths_stay = all.0.0;
      distinct_paths = all.0.1;
      branch = text-Within (field "branch" b) 128 p.branch_base.branch branch;
      base = text-Within (field "base" b) 256 p.branch_base.base base;
      to = text-Within (field "to" r) 128 p.reply.to to;
      deadline = deadline_of-read host (text (field "deadline" r) 64) p.reply.deadline deadline;
      format = text-Within (field "format" r) 256 p.reply.format format;
    }

-- A task package that is accepted names a task by an id, which is a letter or digit and at most 127
-- letters, digits and characters of `._:/-` after it, and gives 1 to 32 paths, none
-- twice, each of which is bounded and stays below the repository (it is not absolute, and has no
-- segment `..` and no backslash); its other texts are not empty and within their bounds, and its
-- deadline is the ISO form of a date that was read.
pub validate_task_package-IsPackage :
    (host : Host) (v : Json) (p : MeshTaskPackage)
    → validate_task_package host v ≡ valid p
    → IsPackage host p
unfolding validate_task_package
validate_task_package-IsPackage host (obj o) p ok = accepted-IsPackage host o p ok
validate_task_package-IsPackage host _ p ok = cc
