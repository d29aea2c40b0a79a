-- ===== src/Cli/Args.antt =====
-- `parseArgs` of src/cli/args.ts: the words of a command line against the options of a command.
pub mod Words
pub mod Printed
pub mod Read
pub mod Tests
use Prim.Native.Char.{Char, code}
use Prim.Native.String as Text
use pi_mesh.Prelude.{
  ℕ, String, Bool, true, false, not, ◌&&◌, ◌||◌, List, [], ◌∷◌, ◌++◌, Option, none, some, ◌==◌,
  if◌then◌else◌, eqb, codes, starts_with, drop_text, get_or_else,
}
use pi_mesh.Dict
use pi_mesh.Dict.{Dict}

pub data ArgKind : Type 0 where
  flag value repeat : ArgKind

-- The help text and the placeholder are not read by the parser.
pub record ArgSpec : Type 0 where
  pub name : String
  pub kind : ArgKind
  pub short : Option String

pub record ParsedArgs : Type 0 where
  pub flags : Dict (Unit {0})
  pub values : Dict String
  pub repeats : Dict (List String)
  pub positionals : List String

pub data ParseResult : Type 0 where
  parsed : ParsedArgs → Bool → ParseResult
  failed : String → ParseResult

abbrev pub by_long : List ArgSpec → Dict ArgSpec → Dict ArgSpec
by_long [] m = m
by_long (s ∷ specs) m = by_long specs (Dict.set s.name s m)

abbrev pub add_short : ArgSpec → Dict ArgSpec → Dict ArgSpec
add_short s m = elim s.short [ none ↦ m | some c ↦ Dict.set c s m ]

abbrev pub by_short : List ArgSpec → Dict ArgSpec → Dict ArgSpec
by_short [] m = m
by_short (s ∷ specs) m = by_short specs (add_short s m)

-- `byLong.get(name) ?? byShort.get(name)`
unfoldable pub spec_named : List ArgSpec → String → Option ArgSpec
spec_named specs name = elim (Dict.get name (by_long specs [])) [
  | none ↦ Dict.get name (by_short specs [])
  | some s ↦ some s
]

-- The variables of the loop.
pub record ArgState : Type 0 where
  pub args : ParsedArgs
  pub help : Bool
  pub no_more_options : Bool

abbrev pub start : ArgState
start = record {
  args = record { flags = []; values = []; repeats = []; positionals = [] };
  help = false;
  no_more_options = false;
}

abbrev pub dash : String → String
dash s = String.◌∷◌ "-" s

extend : Char → Option (String × String) → Option (String × String)
extend c none = none
extend c (some (before, after)) = some (String.◌∷◌ c before, after)

-- The texts before and after the first `=`, if there is one.
unfoldable pub at_equals : String → Option (String × String)
unfolding extend
at_equals String.[] = none
at_equals (String.◌∷◌ c s) =
    let found = at_equals s in if eqb (code c) b'=' then some (String.[], s) else extend c found

-- The name of an option and the value that stands in the same word.
unfoldable pub name_and_value : String → String × Option String
name_and_value a =
    if starts_with (codes a) (codes "--")
    then elim (at_equals (drop_text 2 a)) [
      | none ↦ (drop_text 2 a, none)
      | some (name, v) ↦ (name, some v)
    ]
    else (drop_text 1 a, none)

-- What one word asks for: the end with an error, to go on, or the next word as a value.
pub data ArgStep : Type 0 where
  stop : String → ArgStep
  next : ArgState → ArgStep
  needs_value : ArgSpec → ArgState → ArgStep

abbrev pub put_positional : String → ArgState → ArgState
put_positional a st = record st {
  args = record st.args { positionals = st.args.positionals ++ a ∷ [] };
}

abbrev pub put_flag : ArgSpec → ArgState → ArgState
put_flag spec st = record st {
  args = record st.args { flags = Dict.set spec.name tt st.args.flags };
}

-- A value is kept as the last one and among all of its option.
abbrev pub put_value : ArgSpec → String → ArgState → ArgState
put_value spec v st = record st {
  args = record st.args {
    values = Dict.set spec.name v st.args.values;
    repeats =
        Dict.set spec.name (get_or_else (Dict.get spec.name st.args.repeats) [] ++ v ∷ [])
          st.args.repeats;
  };
}

option_error : String → ArgSpec → String → String
option_error before spec after = Text.◌++◌ before (Text.◌++◌ spec.name after)

-- An option of the command, with the value that its word gives.
unfoldable pub take_option : ArgSpec → Option String → ArgState → ArgStep
unfolding option_error
take_option spec inline_value st = elim spec.kind [
  | flag ↦ elim inline_value [
    | none ↦ next (put_flag spec st)
    | some v ↦ stop (option_error "option --" spec " takes no value")
  ]
  | value ↦ elim inline_value [ none ↦ needs_value spec st | some v ↦ next (put_value spec v st) ]
  | repeat ↦ elim inline_value [ none ↦ needs_value spec st | some v ↦ next (put_value spec v st) ]
]

unfoldable pub take_word : List ArgSpec → String → ArgState → ArgStep
take_word specs a st =
    if st.no_more_options || a == "-" || not (starts_with (codes a) (codes "-"))
    then next (put_positional a st)
    else if a == "--"
    then next (record st { no_more_options = true })
    else if a == "--help" || a == "-h"
    then next (record st { help = true })
    else elim (spec_named specs (name_and_value a).0) [
      | none ↦ stop (Text.◌++◌ "unknown option: " a)
      | some spec ↦ take_option spec (name_and_value a).1 st
    ]

unfoldable pub parse_from : List ArgSpec → List String → ArgState → ParseResult
unfolding option_error
parse_from specs [] st = parsed st.args st.help
parse_from specs (a ∷ []) st = elim (take_word specs a st) [
  | stop reason ↦ failed reason
  | next st' ↦ parsed st'.args st'.help
  | needs_value spec st' ↦ failed (option_error "option --" spec " requires a value")
]
parse_from specs (a ∷ b ∷ argv) st = elim (take_word specs a st) [
  | stop reason ↦ failed reason
  | next st' ↦ parse_from specs (b ∷ argv) st'
  | needs_value spec st' ↦ parse_from specs argv (put_value spec b st')
]

unfoldable pub parse_args : List String → List ArgSpec → ParseResult
parse_args argv specs = parse_from specs argv start
