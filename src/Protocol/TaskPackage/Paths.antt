-- ===== src/Protocol/TaskPackage/Paths.antt =====
-- The texts and the paths of a task package that `validateTaskPackage` of
-- src/protocol/task-package.ts keeps.
use pi_mesh.Prelude.{
  ℕ, String, ◌||◌, subst, Option-cases, true, false, List, [], ◌∷◌, ◌++◌, Option, none, some, ◌≡◌,
  ◌≤◌, ◌+◌, refl, ap, arith, ◌==◌, eq_iff, length, All, All-append, text_length, if◌then◌else◌,
  Bool-cases, inl, inr, length-append, ◌≢◌, ◌⊎◌, Bool, all, any, eqb, codes, split_on, same_codes,
  starts_with,
}
use pi_mesh.Dict.{listed}
use pi_mesh.Shared.Config.{max_task_paths}
use pi_mesh.Protocol.Frame.{MeshTaskPackage}
use pi_mesh.Protocol.Json.{Json, null, fraction, bool, whole, negative, str, arr, obj}
use pi_mesh.Protocol.Names.{is_digit}
use pi_mesh.Protocol.Shapes.{is_letter}
use pi_mesh.Protocol.TaskPackage.{
  matches_task_id, Host, is_task_id, text, is_relative, relative_path, relative_paths,
}

-- The bounds of a text of the package.
abbrev pub Within : ℕ → String → Type 0
Within most s = (1 ≤ text_length s) × (text_length s ≤ most)

-- A path that stays below the repository: it does not start with a slash, holds no backslash, and
-- none of its segments is `..`.
pub record Stays (p : String) : Type 0 where
  pub within : Within 256 p
  pub not_absolute : (rest : List ℕ) → codes p ≢ b'/' ∷ rest
  pub no_backslash : All (λ c. c ≢ 0x5c) (codes p)
  pub no_parent : All (λ segment. segment ≢ b'.' ∷ b'.' ∷ []) (split_on b'/' (codes p))

-- An ASCII letter or digit, and what else may stand in an id after its first character.
abbrev pub IsAlphanumeric : ℕ → Type 0
IsAlphanumeric c = ((b'0' ≤ c) × (c ≤ b'9')) ⊎ ((b'A' ≤ c) × (c ≤ b'Z')) ⊎ ((b'a' ≤ c) × (c ≤ b'z'))

abbrev pub IsIdPart : ℕ → Type 0
IsIdPart c = IsAlphanumeric c ⊎ (c ≡ b'.') ⊎ (c ≡ b'_') ⊎ (c ≡ b':') ⊎ (c ≡ b'/') ⊎ (c ≡ b'-')

-- The id of a task: a letter or digit and at most 127 characters more.
pub record IsTaskId (s : String) : Type 0 where
  pub head : ℕ
  pub tail : List ℕ
  pub spelled : codes s ≡ head ∷ tail
  pub head_fits : IsAlphanumeric head
  pub short : length tail ≤ 127
  pub tail_fits : All IsIdPart tail

all-All :
    (p : ℕ → Bool) (P : ℕ → Type 0)
    → ((c : ℕ) → p c ≡ true → P c)
    → (s : List ℕ) → all p s ≡ true
    → All P s
all-All p P imp [] e = tt
all-All p P imp (c ∷ s) e = (imp c (ground arith), all-All p P imp s (ground arith))

any-All :
    (p : ℕ → Bool) (P : ℕ → Type 0)
    → ((c : ℕ) → p c ≡ false → P c)
    → (s : List ℕ) → any p s ≡ false
    → All P s
any-All p P imp [] e = tt
any-All p P imp (c ∷ s) e = (imp c (ground arith), any-All p P imp s (ground arith))

parents_lem :
    (ss : List (List ℕ))
    → any (λ part. same_codes part (codes "..")) ss ≡ false
    → All (λ part. part ≢ b'.' ∷ b'.' ∷ []) ss
unfolding same_codes
parents_lem [] e = tt
parents_lem (s ∷ ss) e = (
  (λ same. let dots = ap (λ t. same_codes t (codes "..")) same in ground (arith, dots)),
  parents_lem ss (ground arith),
)

alphanumeric : (c : ℕ) → (is_letter c || is_digit c) ≡ true → IsAlphanumeric c
alphanumeric c e = ground arith

id_part : (c : ℕ) → (is_letter c || is_digit c || any (eqb c) (codes "._:/-")) ≡ true → IsIdPart c
id_part c e = ground arith

-- What `TASK_ID_REGEX` accepts.
pub is_task_id-IsTaskId : (s : String) → is_task_id s ≡ true → IsTaskId s
unfolding is_task_id
is_task_id-IsTaskId s e = matched (codes s) refl (ground arith)
  where
    matched : (cs : List ℕ) → codes s ≡ cs → matches_task_id cs ≡ true → IsTaskId s
    matched [] same m = cc
    matched (c ∷ cs) same m = record {
      head = c;
      tail = cs;
      spelled = same;
      head_fits = alphanumeric c (ground arith);
      short = ground arith;
      tail_fits = all-All _ IsIdPart id_part cs (ground arith);
    }

relative-Stays : (p : String) → Within 256 p → is_relative p ≡ true → Stays p
unfolding starts_with
relative-Stays p w e = record {
  within = w;
  not_absolute =
      λ rest same. let slash = ap (λ s. starts_with s (codes "/")) same in ground (arith, slash);
  no_backslash =
      any-All (λ c. eqb c 0x5c) (λ c. c ≢ 0x5c) (λ c ne same. ground arith) (codes p)
        (ground arith);
  no_parent = parents_lem (split_on b'/' (codes p)) (ground arith);
}

abbrev pub Distinct : List String → Type 0
Distinct [] = Unit
Distinct (p ∷ ps) = (listed p ps ≡ false) × Distinct ps

pub record IsPackage (host : Host) (p : MeshTaskPackage) : Type 0 where
  pub task : IsTaskId p.task
  pub goal : Within 1024 p.goal_acceptance
  pub some_paths : 1 ≤ length p.paths
  pub bounded_paths : length p.paths ≤ max_task_paths
  pub paths_stay : All Stays p.paths
  pub distinct_paths : Distinct p.paths
  pub branch : Within 128 p.branch_base.branch
  pub base : Within 256 p.branch_base.base
  pub to : Within 128 p.reply.to
  pub deadline : (raw : String) × (host.to_iso raw ≡ some p.reply.deadline)
  pub format : Within 256 p.reply.format

pub text-Within : (v : Option Json) (most : ℕ) (s : String) → text v most ≡ some s → Within most s
unfolding text
text-Within none most s h = cc
text-Within (some null) most s h = cc
text-Within (some fraction) most s h = cc
text-Within (some (bool b)) most s h = cc
text-Within (some (whole n)) most s h = cc
text-Within (some (negative n)) most s h = cc
text-Within (some (str t)) most s h = ground arith
text-Within (some (arr xs)) most s h = cc
text-Within (some (obj o)) most s h = cc

relative_path-Stays : (raw : Json) (p : String) → relative_path raw ≡ some p → Stays p
unfolding relative_path
relative_path-Stays raw p h = elim (Option-cases (text (some raw) 256)) [
  | inl e ↦ absurd (ground arith)
  | inr (q, e) ↦
      let same : q ≡ p = ground arith in
      let fine : is_relative q ≡ true = ground arith in
      subst Stays same (relative-Stays q (text-Within (some raw) 256 q e) fine)
]

listed-append :
    (x p : String) (xs : List String) → listed x (xs ++ p ∷ []) ≡ (listed x xs || (p == x))
listed-append x p [] = ground arith
listed-append x p (y ∷ xs) = ground (arith, listed-append x p xs)

Distinct-append :
    (p : String) (xs : List String) → listed p xs ≡ false → Distinct xs → Distinct (xs ++ p ∷ [])
Distinct-append p [] h d = (refl, tt)
Distinct-append p (x ∷ xs) h (e, d) =
    ground (arith, listed-append x p xs, Distinct-append p xs, eq_iff x p, eq_iff p x)

-- What the loop keeps.
abbrev pub Collected : List String → Type 0
Collected ps = All Stays ps × Distinct ps

Collected-add :
    (ps : List String) (p : String)
    → Collected ps
    → Stays p
    → Collected (if listed p ps then ps else ps ++ p ∷ [])
Collected-add ps p (a, d) s = elim (Bool-cases (listed p ps)) [
  | inl old ↦ rw old (a, d)
  | inr new ↦ rw new (All-append Stays ps (p ∷ []) a (s, tt), Distinct-append p ps new d)
]

length_added :
    (ps : List String) (p : String)
    → let qs = if listed p ps then ps else ps ++ p ∷ [] in
      (length ps ≤ length qs) × (length qs ≤ length ps + 1) × (1 ≤ length qs)
length_added [] p = omega arith
length_added (q ∷ qs) p = ground (arith, length-append (q ∷ qs) (p ∷ []))

-- The loop's result, for any paths before it.
abbrev pub Result : List String → List Json → List String → Type 0
Result ps raws out =
    Collected out
    × (length out ≤ length ps + length raws)
    × (length ps ≤ length out)
    × (1 ≤ length ps + length raws → 1 ≤ length out)

pub relative_paths-Result :
    (ps : List String) (raws : List Json) (out : List String)
    → Collected ps
    → relative_paths ps raws ≡ some out
    → Result ps raws out
unfolding relative_paths
relative_paths-Result ps [] out c h =
    let same : ps ≡ out = cc in
    subst (Result ps []) same (c, omega arith, omega arith, λ n. omega (arith))
relative_paths-Result ps (raw ∷ raws) out c h = elim (Option-cases (relative_path raw)) [
  | inl e ↦ absurd (ground arith)
  | inr (p, e) ↦
      let qs = if listed p ps then ps else ps ++ p ∷ [] in
      let r : Result qs raws out =
        relative_paths-Result qs raws out (Collected-add ps p c (relative_path-Stays raw p e))
          (ground arith) in
      (
        r.0,
        omega (arith, length_added ps p, r.1),
        omega (arith, length_added ps p, r.2),
        λ n. omega (arith, length_added ps p, r.2),
      )
]
