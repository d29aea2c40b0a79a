-- ===== src/Cli/Args/Read.antt =====
-- What `parseArgs` of src/cli/args.ts keeps of the flags and options of a command line.
use mathlib.Core.List.{append-nil, append_assoc}
use pi_mesh.Prelude.{
  String, Bool, false, ◌||◌, List, [], ◌∷◌, ◌++◌, Option, none, some, ◌≡◌, refl, sym, ap, ◌∙◌,
  arith, ◌==◌, if◌then◌else◌, All, get_or_else, Bool-cases, inl, inr, eq_iff,
}
use pi_mesh.Dict
use pi_mesh.Dict.{get}
use pi_mesh.Dict.Laws.{get-set}
use pi_mesh.Cli.Args.{ArgSpec, ParsedArgs, ArgState, start, parsed, put_flag, put_value, parse_args}
use pi_mesh.Cli.Args.Words.{Item, switch, spaced, inline, words, said, IsItem}
use pi_mesh.Cli.Args.Printed.{items_lem, said_lem}

-- Whether the flag of this name stands on the line, and the values of the option of this name, in
-- their order.
unfoldable pub switched_on : String → List Item → Bool
switched_on n [] = false
switched_on n (switch spec ∷ items) = spec.name == n || switched_on n items
switched_on n (spaced spec v ∷ items) = switched_on n items
switched_on n (inline spec v ∷ items) = switched_on n items

unfoldable pub values_of : String → List Item → List String
values_of n [] = []
values_of n (switch spec ∷ items) = values_of n items
values_of n (spaced spec v ∷ items) =
    let rest = values_of n items in if spec.name == n then v ∷ rest else rest
values_of n (inline spec v ∷ items) =
    let rest = values_of n items in if spec.name == n then v ∷ rest else rest

-- The last of some values, or else this one.
abbrev pub last_or : Option String → List String → Option String
last_or o [] = o
last_or o (v ∷ vs) = last_or (some v) vs

-- The values, if there are any.
abbrev pub any_values : List String → Option (List String)
any_values [] = none
any_values (v ∷ vs) = some (v ∷ vs)

pub record Reads (items : List Item) (operands : List String) (args : ParsedArgs) : Type 0 where
  pub flags : (n : String) → Dict.has n args.flags ≡ switched_on n items
  pub last_value : (n : String) → Dict.get n args.values ≡ last_or none (values_of n items)
  pub all_values : (n : String) → Dict.get n args.repeats ≡ any_values (values_of n items)
  pub the_operands : args.positionals ≡ operands

flags-said :
    (n : String) (items : List Item) (st : ArgState)
    → Dict.has n (said items st).args.flags ≡ (Dict.has n st.args.flags || switched_on n items)
unfolding said switched_on
flags-said n [] st = ground arith
flags-said n (switch spec ∷ items) st =
    flags-said n items (put_flag spec st) ∙ ground (arith, get-set n spec.name tt st.args.flags)
flags-said n (spaced spec v ∷ items) st = flags-said n items (put_value spec v st)
flags-said n (inline spec v ∷ items) st = flags-said n items (put_value spec v st)

values-put :
    (n v : String) (spec : ArgSpec) (items : List Item) (st : ArgState)
    → last_or (Dict.get n (put_value spec v st).args.values) (values_of n items)
      ≡ last_or
          (Dict.get n st.args.values)
          (let rest = values_of n items in if spec.name == n then v ∷ rest else rest)
values-put n v spec items st = elim (Bool-cases (spec.name == n)) [
  | inl e ↦ rw (get-set n spec.name v st.args.values, e) refl
  | inr e ↦ rw (get-set n spec.name v st.args.values, e) refl
]

values-said :
    (n : String) (items : List Item) (st : ArgState)
    → Dict.get n (said items st).args.values
      ≡ last_or (Dict.get n st.args.values) (values_of n items)
unfolding said values_of
values-said n [] st = refl
values-said n (switch spec ∷ items) st = values-said n items (put_flag spec st)
values-said n (spaced spec v ∷ items) st =
    values-said n items (put_value spec v st) ∙ values-put n v spec items st
values-said n (inline spec v ∷ items) st =
    values-said n items (put_value spec v st) ∙ values-put n v spec items st

-- More values after those that are there.
abbrev and_more : Option (List String) → List String → Option (List String)
and_more o [] = o
and_more o (v ∷ vs) = and_more (some (get_or_else o [] ++ v ∷ [])) vs

and_more-some : (vs ws : List String) → and_more (some vs) ws ≡ some (vs ++ ws)
and_more-some vs [] = ap some (sym (append-nil vs))
and_more-some vs (w ∷ ws) = and_more-some (vs ++ w ∷ []) ws ∙ ap some (append_assoc vs (w ∷ []) ws)

and_more-none : (vs : List String) → and_more none vs ≡ any_values vs
and_more-none [] = refl
and_more-none (v ∷ vs) = and_more-some (v ∷ []) vs

repeats-put :
    (n v : String) (spec : ArgSpec) (items : List Item) (st : ArgState)
    → and_more (Dict.get n (put_value spec v st).args.repeats) (values_of n items)
      ≡ and_more
          (Dict.get n st.args.repeats)
          (let rest = values_of n items in if spec.name == n then v ∷ rest else rest)
repeats-put n v spec items st =
    let old = get_or_else (Dict.get spec.name st.args.repeats) [] ++ v ∷ [] in
    elim (Bool-cases (spec.name == n)) [
      | inl e ↦
          let same = (eq_iff spec.name n).0 e in
          rw (get-set n spec.name old st.args.repeats, e)
            (ap
              (λ k.
                and_more (some (get_or_else (Dict.get k st.args.repeats) [] ++ v ∷ []))
                  (values_of n items))
              same)
      | inr e ↦ rw (get-set n spec.name old st.args.repeats, e) refl
    ]

repeats-said :
    (n : String) (items : List Item) (st : ArgState)
    → Dict.get n (said items st).args.repeats
      ≡ and_more (Dict.get n st.args.repeats) (values_of n items)
unfolding said values_of
repeats-said n [] st = refl
repeats-said n (switch spec ∷ items) st = repeats-said n items (put_flag spec st)
repeats-said n (spaced spec v ∷ items) st =
    repeats-said n items (put_value spec v st) ∙ repeats-put n v spec items st
repeats-said n (inline spec v ∷ items) st =
    repeats-said n items (put_value spec v st) ∙ repeats-put n v spec items st

-- A command line is read as it was written: where flags and options of the command stand under
-- their own long names, which are not empty, hold no `=` and are not `help`, each option with its
-- value as the next word or after `=`, and then `--` and the operands, the parser returns exactly
-- the flags that stand there, under every name of an option its last value and all its values in
-- their order, and the operands, for every value and operand, also where they look like options
-- themselves; and no help is asked for.
pub parse_args-words :
    (specs : List ArgSpec) (items : List Item) (operands : List String)
    → All (IsItem specs) items
    → (args : ParsedArgs) × (parse_args (words items operands) specs ≡ parsed args false)
      × Reads items operands args
unfolding parse_args get
parse_args-words specs items operands a = (
  record (said items start).args { positionals = operands },
  items_lem specs items operands start a refl ∙ ground (arith, said_lem items start),
  record {
    flags = λ n. flags-said n items start;
    last_value = λ n. values-said n items start;
    all_values = λ n. repeats-said n items start ∙ and_more-none (values_of n items);
    the_operands = refl;
  },
)
