-- ===== src/Cli/Args/Printed.antt =====
-- Command lines that are written for `parseArgs` of src/cli/args.ts, and what it reads of them.
use mathlib.Core.List.{append-nil, append_assoc}
use pi_mesh.Prelude.{
  String, true, false, List, [], ◌∷◌, ◌++◌, none, some, ◌≡◌, refl, ◌∙◌, arith, All, starts_with,
}
use pi_mesh.Cli.Args.{
  flag, ArgSpec, parsed, ArgState, dash, next, needs_value, put_positional, put_flag, put_value,
  take_option, take_word, parse_from,
}
use pi_mesh.Cli.Args.Words.{
  Item, switch, spaced, inline, with_equals, words, said, takes_value, IsItem, take_long,
  take_inline,
}

parse-next :
    (specs : List ArgSpec) (a : String) (argv : List String) (st st' : ArgState)
    → take_word specs a st ≡ next st'
    → parse_from specs (a ∷ argv) st ≡ parse_from specs argv st'
unfolding parse_from
parse-next specs a [] st st' e = ground arith
parse-next specs a (b ∷ argv) st st' e = ground arith

parse-value :
    (specs : List ArgSpec) (a b : String) (argv : List String) (spec : ArgSpec) (st st' : ArgState)
    → take_word specs a st ≡ needs_value spec st'
    → parse_from specs (a ∷ b ∷ argv) st ≡ parse_from specs argv (put_value spec b st')
unfolding parse_from
parse-value specs a b argv spec st st' e = ground arith

-- The operands after `--` are taken as they are.
operands_lem :
    (specs : List ArgSpec) (operands : List String) (st : ArgState)
    → st.no_more_options ≡ true
    → parse_from specs operands st
      ≡ parsed (record st.args { positionals = st.args.positionals ++ operands }) st.help
unfolding parse_from take_word
operands_lem specs [] st h = ground (arith, append-nil st.args.positionals)
operands_lem specs (a ∷ operands) st h =
    let put : take_word specs a st ≡ next (put_positional a st) = ground arith in
    parse-next specs a operands st (put_positional a st) put
    ∙ ground (
      arith,
      operands_lem specs operands (put_positional a st) h,
      append_assoc st.args.positionals (a ∷ []) operands,
    )

-- After `--`, which ends the options.
end_lem :
    (specs : List ArgSpec) (operands : List String) (st : ArgState)
    → st.no_more_options ≡ false
    → parse_from specs ("--" ∷ operands) st
      ≡ parsed (record st.args { positionals = st.args.positionals ++ operands }) st.help
unfolding take_word starts_with
end_lem specs operands st h =
    let ended : ArgState = record st { no_more_options = true } in
    let put : take_word specs "--" st ≡ next ended = ground arith in
    parse-next specs "--" operands st ended put ∙ operands_lem specs operands ended refl

-- A kind that takes a value.
taken :
    (spec : ArgSpec) (st : ArgState)
    → takes_value spec.kind ≡ true
    → take_option spec none st ≡ needs_value spec st
unfolding take_option
taken spec st h = ground arith

taken_inline :
    (spec : ArgSpec) (v : String) (st : ArgState)
    → takes_value spec.kind ≡ true
    → take_option spec (some v) st ≡ next (put_value spec v st)
unfolding take_option
taken_inline spec v st h = ground arith

switched :
    (spec : ArgSpec) (st : ArgState)
    → spec.kind ≡ flag
    → take_option spec none st ≡ next (put_flag spec st)
unfolding take_option
switched spec st h = ground arith

-- The items, one after another.
pub items_lem :
    (specs : List ArgSpec) (items : List Item) (operands : List String) (st : ArgState)
    → All (IsItem specs) items
    → st.no_more_options ≡ false
    → parse_from specs (words items operands) st
      ≡ parsed
          (record (said items st).args {
            positionals = (said items st).args.positionals ++ operands;
          })
          (said items st).help
unfolding words said
items_lem specs [] operands st a g = end_lem specs operands st g
items_lem specs (switch spec ∷ items) operands st ((named, k), a) g =
    parse-next specs (dash (dash spec.name)) (words items operands) st (put_flag spec st)
      (take_long specs spec named st g ∙ switched spec st k)
    ∙ items_lem specs items operands (put_flag spec st) a g
items_lem specs (spaced spec v ∷ items) operands st ((named, k), a) g =
    parse-value specs (dash (dash spec.name)) v (words items operands) spec st st
      (take_long specs spec named st g ∙ taken spec st k)
    ∙ items_lem specs items operands (put_value spec v st) a g
items_lem specs (inline spec v ∷ items) operands st ((named, k), a) g =
    parse-next specs (dash (dash (with_equals spec.name v))) (words items operands) st
      (put_value spec v st) (take_inline specs spec named st g v ∙ taken_inline spec v st k)
    ∙ items_lem specs items operands (put_value spec v st) a g

-- Items give no operand and no request for help.
pub said_lem :
    (items : List Item) (st : ArgState)
    → ((said items st).args.positionals ≡ st.args.positionals) × ((said items st).help ≡ st.help)
unfolding said
said_lem [] st = (refl, refl)
said_lem (switch spec ∷ items) st = said_lem items (put_flag spec st)
said_lem (spaced spec v ∷ items) st = said_lem items (put_value spec v st)
said_lem (inline spec v ∷ items) st = said_lem items (put_value spec v st)
