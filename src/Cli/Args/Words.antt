-- ===== src/Cli/Args/Words.antt =====
-- The words of options for `parseArgs` of src/cli/args.ts, and what it makes of one of them.
use pi_mesh.Prelude.{
  String, Bool, true, false, not, List, [], ◌∷◌, Option, none, some, ◌≡◌, refl, ap, arith, ◌==◌,
  eq_iff, eqb, codes, all, starts_with, drop_text, Bool-cases, inl, inr,
}
use pi_mesh.Cli.Args.{
  ArgKind, flag, value, repeat, ArgSpec, ArgState, dash, spec_named, at_equals, name_and_value,
  put_flag, put_value, take_option, take_word,
}

-- What stands on the line: a flag, an option with its value as the next word, or in the same word.
pub data Item : Type 0 where
  switch : ArgSpec → Item
  spaced : ArgSpec → String → Item
  inline : ArgSpec → String → Item

-- `<name>=<value>`
unfoldable pub with_equals : String → String → String
with_equals String.[] v = String.◌∷◌ "=" v
with_equals (String.◌∷◌ c n) v = String.◌∷◌ c (with_equals n v)

-- The words of a line: the items, then `--` and the operands.
unfoldable pub words : List Item → List String → List String
words [] operands = "--" ∷ operands
words (switch spec ∷ items) operands = dash (dash spec.name) ∷ words items operands
words (spaced spec v ∷ items) operands = dash (dash spec.name) ∷ v ∷ words items operands
words (inline spec v ∷ items) operands =
    dash (dash (with_equals spec.name v)) ∷ words items operands

-- What the items say.
unfoldable pub said : List Item → ArgState → ArgState
said [] st = st
said (switch spec ∷ items) st = said items (put_flag spec st)
said (spaced spec v ∷ items) st = said items (put_value spec v st)
said (inline spec v ∷ items) st = said items (put_value spec v st)

-- No `=` stands in a name.
abbrev pub IsPlain : String → Type 0
IsPlain n = all (λ c. not (eqb c b'=')) (codes n) ≡ true

-- An option of the command under its own name, which holds no `=`, is not empty and not `help`.
pub record IsNamed (specs : List ArgSpec) (spec : ArgSpec) : Type 0 where
  pub found : spec_named specs spec.name ≡ some spec
  pub no_equals : IsPlain spec.name
  pub not_empty : (spec.name == "") ≡ false
  pub not_help : (spec.name == "help") ≡ false

abbrev pub takes_value : ArgKind → Bool
takes_value flag = false
takes_value value = true
takes_value repeat = true

abbrev pub IsItem : List ArgSpec → Item → Type 0
IsItem specs (switch spec) = IsNamed specs spec × (spec.kind ≡ flag)
IsItem specs (spaced spec v) = IsNamed specs spec × (takes_value spec.kind ≡ true)
IsItem specs (inline spec v) = IsNamed specs spec × (takes_value spec.kind ≡ true)

at_equals-none : (n : String) → IsPlain n → at_equals n ≡ none
unfolding at_equals
at_equals-none String.[] h = refl
at_equals-none (String.◌∷◌ c n) h = ground (arith, at_equals-none n)

at_equals-with_equals : (n v : String) → IsPlain n → at_equals (with_equals n v) ≡ some (n, v)
unfolding at_equals with_equals
at_equals-with_equals String.[] v h = refl
at_equals-with_equals (String.◌∷◌ c n) v h = ground (arith, at_equals-with_equals n v)

differs : (s t : String) → (s ≡ t → ⊥) → (s == t) ≡ false
differs s t h = elim (Bool-cases (s == t)) [ inl e ↦ absurd (h ((eq_iff s t).0 e)) | inr e ↦ e ]

other : (s t : String) → (s == t) ≡ false → s ≡ t → ⊥
other s t h e = ground (arith, eq_iff s t)

tails : (n m : String) → dash (dash n) ≡ dash (dash m) → n ≡ m
unfolding drop_text
tails n m p = ap (drop_text 2) p

-- A word that starts with two dashes and goes on is none of the special words.
long_word :
    (n : String)
    → (n == "") ≡ false
    → (n == "help") ≡ false
    → ((dash (dash n) == "-") ≡ false)
      × ((dash (dash n) == "--") ≡ false)
      × ((dash (dash n) == "--help") ≡ false)
      × ((dash (dash n) == "-h") ≡ false)
long_word n e h = (
  differs (dash (dash n)) "-" (λ p. let q = ap codes p in ground arith),
  differs (dash (dash n)) "--" (λ p. other n "" e (tails n "" p)),
  differs (dash (dash n)) "--help" (λ p. other n "help" h (tails n "help" p)),
  differs (dash (dash n)) "-h" (λ p. let q = ap codes p in ground arith),
)

starts_dashed :
    (s : String)
    → (starts_with (codes (dash (dash s))) (codes "--") ≡ true)
      × (starts_with (codes (dash (dash s))) (codes "-") ≡ true)
unfolding starts_with
starts_dashed s = (refl, refl)

name_lem : (n : String) → IsPlain n → name_and_value (dash (dash n)) ≡ (n, none)
unfolding name_and_value starts_with drop_text
name_lem n h = rw (at_equals-none n h, name_and_value) refl

name_and_value_lem :
    (n v : String) → IsPlain n → name_and_value (dash (dash (with_equals n v))) ≡ (n, some v)
unfolding name_and_value starts_with drop_text
name_and_value_lem n v h = rw (at_equals-with_equals n v h, name_and_value) refl

take_named :
    (specs : List ArgSpec) (spec : ArgSpec) (st : ArgState) (s n : String)
    (inline_value : Option String)
    → st.no_more_options ≡ false
    → (s == "") ≡ false
    → (s == "help") ≡ false
    → name_and_value (dash (dash s)) ≡ (n, inline_value)
    → spec_named specs n ≡ some spec
    → take_word specs (dash (dash s)) st ≡ take_option spec inline_value st
unfolding take_word
take_named specs spec st s n inline_value o e h nv found =
    let (a, b, c, d) = long_word s e h in
    let (_, dashed) = starts_dashed s in ground (arith, a, b, c, d, dashed)

-- A text with `=` in it is not empty and not `help`.
not_plain :
    (n v : String)
    → IsPlain n
    → ((with_equals n v == "") ≡ false) × ((with_equals n v == "help") ≡ false)
unfolding at_equals
not_plain n v h = (
  differs (with_equals n v) ""
      (λ p. let q = ap at_equals p in ground (arith, at_equals-with_equals n v h)),
  differs (with_equals n v) "help"
      (λ p. let q = ap at_equals p in ground (arith, at_equals-with_equals n v h)),
)

module _ (specs : List ArgSpec) (spec : ArgSpec) (named : IsNamed specs spec) (st : ArgState)
    (going : st.no_more_options ≡ false) where
  pub take_long : take_word specs (dash (dash spec.name)) st ≡ take_option spec none st
  take_long =
      take_named specs spec st spec.name spec.name none going named.not_empty named.not_help
        (name_lem spec.name named.no_equals) named.found

  pub take_inline :
      (v : String)
      → take_word specs (dash (dash (with_equals spec.name v))) st ≡ take_option spec (some v) st
  take_inline v =
      let (e, h) = not_plain spec.name v named.no_equals in
      take_named specs spec st (with_equals spec.name v) spec.name (some v) going e h
        (name_and_value_lem spec.name v named.no_equals) named.found
