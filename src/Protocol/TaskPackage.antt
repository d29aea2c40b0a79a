-- ===== src/Protocol/TaskPackage.antt =====
-- `validateTaskPackage` of src/protocol/task-package.ts.
pub mod Paths
pub mod Accepted
pub mod Tests
use pi_mesh.Prelude.{
  ℕ, String, Bool, true, false, not, ◌&&◌, ◌||◌, List, [], ◌∷◌, ◌++◌, Option, none, some, ◌==◌,
  if◌then◌else◌, is_some, ltb, leb, eqb, codes, any, all, length, starts_with, same_codes,
  text_length, split_on, trim,
}
use pi_mesh.Dict
use pi_mesh.Dict.{listed}
use pi_mesh.Shared.Config.{max_task_package_bytes, max_task_paths}
use pi_mesh.Protocol.Names.{is_lower, is_digit}
use pi_mesh.Protocol.Frame.{MeshTaskPackage}
use pi_mesh.Protocol.Json.{Json, str, arr, obj, Fields, entries, elements, field}
use pi_mesh.Protocol.Shapes.{is_letter, is_bounded}

-- What the code takes from the runtime: the length of a value as JSON, a date that `Date.parse`
-- reads in the form of `toISOString`, and the hash of a text.
pub record Host : Type 0 where
  pub json_length : Json → ℕ
  pub to_iso : String → Option String
  pub sha256 : String → String

-- `TaskPackageResult`: a value, or the reason for which there is none.
pub data Checked {ℓ} (A : Type ℓ) : Type ℓ where
  valid : A → Checked A
  invalid : String → Checked A

infixl 5 ◌>>=◌ ◌>>◌
abbrev pub ◌>>=◌ {ℓ κ} : {A : Type ℓ} {B : Type κ} → Checked A → (A → Checked B) → Checked B
valid a >>= next = next a
invalid reason >>= next = invalid reason

abbrev pub ◌>>◌ {ℓ} : {B : Type ℓ} → Checked (Unit {0}) → Checked B → Checked B
m >> k = m >>= λ _. k

-- `if (x === null) return { ok: false, reason }`
abbrev pub need {ℓ} : {A : Type ℓ} → Option A → String → Checked A
need none reason = invalid reason
need (some a) reason = valid a

-- `if (!b) return { ok: false, reason }`
abbrev pub demand : Bool → String → Checked (Unit {0})
demand b reason = if b then valid tt else invalid reason

matches_task_id : List ℕ → Bool
matches_task_id [] = false
matches_task_id (c ∷ s) =
    (is_letter c || is_digit c)
    && leb (length s) 127
    && all (λ d. is_letter d || is_digit d || any (eqb d) (codes "._:/-")) s

-- `TASK_ID_REGEX`
unfoldable pub is_task_id : String → Bool
unfolding matches_task_id
is_task_id s = matches_task_id (codes s)

-- A text of 1 to `most` characters, less the white space around it.
unfoldable pub text : Option Json → ℕ → Option String
text (some (str s)) most = if is_bounded most (trim s) then some (trim s) else none
text _ most = none

abbrev pub is_relative : String → Bool
is_relative p =
    not (starts_with (codes p) (codes "/"))
    && not (any (λ c. eqb c 0x5c) (codes p))
    && not (any (λ part. same_codes part (codes "..")) (split_on b'/' (codes p)))

relative_if : Option String → Option String
relative_if none = none
relative_if (some p) = if is_relative p then some p else none

unfoldable pub relative_path : Json → Option String
unfolding relative_if
relative_path raw = relative_if (text (some raw) 256)

-- The loop over `value.paths`, with the paths so far.
add_path : List String → Option String → (List String → Option (List String)) → Option (List String)
add_path paths none rest = none
add_path paths (some p) rest = rest (if listed p paths then paths else paths ++ p ∷ [])

unfoldable pub relative_paths : List String → List Json → Option (List String)
unfolding add_path
relative_paths paths [] = some paths
relative_paths paths (raw ∷ more) =
    add_path paths (relative_path raw) (λ paths'. relative_paths paths' more)

-- `Array.isArray(v)` with 1 to `MAX_TASK_PATHS` entries.
unfoldable pub path_entries : Option Json → Option (List Json)
path_entries (some (arr xs)) =
    let n = length (elements xs) in
    if ltb 0 n && leb n max_task_paths then some (elements xs) else none
path_entries _ = none

unfoldable pub exact_keys : Fields → List String → Bool
exact_keys o keys =
    let actual = Dict.keys (entries o) in
    eqb (length actual) (length keys) && all (λ k. listed k actual) keys

-- A record that has exactly these keys.
unfoldable pub record_with : Option Json → List String → Option Fields
record_with (some (obj o)) keys = if exact_keys o keys then some o else none
record_with _ keys = none

abbrev pub package_keys : List String
package_keys = "task" ∷ "goalAcceptance" ∷ "paths" ∷ "branchBase" ∷ "reply" ∷ []

-- The task, less white space, if it is an id.
abbrev pub task_id : Option String → Option String
task_id none = none
task_id (some task) = if is_task_id task then some task else none

-- The deadline, if `Date.parse` reads it, as ISO text.
abbrev pub deadline_of : Host → Option String → Option String
deadline_of host none = none
deadline_of host (some deadline) = host.to_iso deadline

-- `validateTaskPackage` on an object.
unfoldable pub validate_package_fields : Host → Fields → Checked MeshTaskPackage
validate_package_fields host o = do
  demand (leb (host.json_length (obj o)) max_task_package_bytes) "taskPackage exceeds 4096 bytes"
  demand (exact_keys o package_keys)
      "taskPackage must have exactly: task, goalAcceptance, paths, branchBase, reply"
  task ←
      need (task_id (text (field "task" o) 128))
        "task must match [A-Za-z0-9][A-Za-z0-9._:/-]{0,127}"
  goal_acceptance ←
      need (text (field "goalAcceptance" o) 1024) "goalAcceptance must be 1..1024 chars"
  raw ← need (path_entries (field "paths" o)) "paths must be an array of 1..32 entries"
  paths ←
      need (relative_paths [] raw) "paths must be repo-relative (no absolute, no .., no backslash)"
  branch_base ←
      need (record_with (field "branchBase" o) ("branch" ∷ "base" ∷ []))
        "branchBase must have exactly: branch, base"
  branch ← need (text (field "branch" branch_base) 128) "branchBase.branch must be 1..128 chars"
  base ← need (text (field "base" branch_base) 256) "branchBase.base must be 1..256 chars"
  reply ←
      need (record_with (field "reply" o) ("to" ∷ "deadline" ∷ "format" ∷ []))
        "reply must have exactly: to, deadline, format"
  to ← need (text (field "to" reply) 128) "reply.to must be 1..128 chars"
  deadline ←
      need (deadline_of host (text (field "deadline" reply) 64))
        "reply.deadline must be an ISO date-time"
  format ← need (text (field "format" reply) 256) "reply.format must be 1..256 chars"
  valid (record {
    task = task;
    goal_acceptance = goal_acceptance;
    paths = paths;
    branch_base = record { branch = branch; base = base };
    reply = record { to = to; deadline = deadline; format = format };
  })

unfoldable pub validate_task_package : Host → Json → Checked MeshTaskPackage
validate_task_package host (obj o) = validate_package_fields host o
validate_task_package host _ = invalid "taskPackage must be an object"
