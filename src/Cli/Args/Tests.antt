-- ===== src/Cli/Args/Tests.antt =====
-- `parseArgs` of src/cli/args.ts on command lines.
use pi_mesh.Prelude.{String, List, [], ◌∷◌, none, some, true, false, ◌≡◌, refl}
use pi_mesh.Dict
use pi_mesh.Cli.Args.{
  ArgSpec, ParsedArgs, flag, value, repeat, parsed, failed, parse_args, parse_from, take_word,
  take_option, spec_named, name_and_value, at_equals,
}
use pi_mesh.Cli.Args.Words.{Item, switch, spaced, inline, words, IsNamed}
use pi_mesh.Cli.Args.Read.{Reads, parse_args-words}

abbrev room : ArgSpec
room = record { name = "room"; kind = value; short = some "R" }

abbrev quiet : ArgSpec
quiet = record { name = "quiet"; kind = flag; short = none }

abbrev ref : ArgSpec
ref = record { name = "ref"; kind = repeat; short = none }

abbrev specs : List ArgSpec
specs = room ∷ quiet ∷ ref ∷ []

-- A value may look like an option.
mixed :
    parse_args
      ("-R" ∷ "dev" ∷ "--quiet" ∷ "--ref=a" ∷ "--ref" ∷ "--b" ∷ "ana" ∷ "--" ∷ "-x" ∷ [])
      specs
    ≡ parsed
        (record {
          flags = ("quiet", tt) ∷ [];
          values = ("room", "dev") ∷ ("ref", "--b") ∷ [];
          repeats = ("room", "dev" ∷ []) ∷ ("ref", "a" ∷ "--b" ∷ []) ∷ [];
          positionals = "ana" ∷ "-x" ∷ [];
        })
        false
unfolding parse_args parse_from take_word pi_mesh.Prelude.starts_with spec_named Dict.get Dict.set
    name_and_value pi_mesh.Prelude.drop_text take_option at_equals
mixed = refl

unknown : parse_args ("--rom" ∷ "dev" ∷ []) specs ≡ failed "unknown option: --rom"
unfolding parse_args parse_from take_word pi_mesh.Prelude.starts_with spec_named Dict.get Dict.set
    name_and_value at_equals pi_mesh.Prelude.drop_text
unknown = refl

no_value : parse_args ("--room" ∷ []) specs ≡ failed "option --room requires a value"
unfolding parse_args parse_from take_word pi_mesh.Prelude.starts_with spec_named Dict.get Dict.set
    name_and_value at_equals pi_mesh.Prelude.drop_text take_option
no_value = refl

abbrev items : List Item
items = switch quiet ∷ spaced room "-dev" ∷ inline ref "x=y" ∷ []

room-IsNamed : IsNamed specs room
unfolding spec_named Dict.get Dict.set
room-IsNamed = record { found = refl; no_equals = refl; not_empty = refl; not_help = refl }

quiet-IsNamed : IsNamed specs quiet
unfolding spec_named Dict.get Dict.set
quiet-IsNamed = record { found = refl; no_equals = refl; not_empty = refl; not_help = refl }

ref-IsNamed : IsNamed specs ref
unfolding spec_named Dict.get Dict.set
ref-IsNamed = record { found = refl; no_equals = refl; not_empty = refl; not_help = refl }

parse_args-words_example :
    (args : ParsedArgs) × (parse_args (words items ("--a" ∷ [])) specs ≡ parsed args false)
    × Reads items ("--a" ∷ []) args
parse_args-words_example =
    parse_args-words specs items ("--a" ∷ [])
      ((quiet-IsNamed, refl), ((room-IsNamed, refl), ((ref-IsNamed, refl), tt)))
