-- ===== src/Broker/Lease/Epoch.antt =====
-- `readEpoch` and `nextEpoch` of src/broker/lease.ts. The file is the list of its character codes,
-- `none` where it cannot be read. The numbers of the code are doubles, which are exact up to the
-- largest safe integer, and print in decimal there. The model goes as far as that: where the code
-- comes to a number beyond, which only a file with such a number leads to, the result is `none`, and
-- nothing is said of it.
use pi_mesh.Prelude.{
  ℕ, zero, suc, ◌+◌, ◌-◌, ◌*◌, ◌/◌, ◌%◌, ◌≤◌, ◌<◌, max, ◌≡◌, ◌⊎◌, refl, sym, ap, ◌∙◌, Bool, true,
  false, ◌&&◌, List, [], ◌∷◌, Option, none, some, if◌then◌else◌, eqb, ltb, leb, arith, is_space,
  Bool-cases, inl, inr,
}

-- `parseInt(s, 10)` past the sign; the flag says whether a digit was read.
digits_from : ℕ → Bool → List ℕ → Option ℕ
digits_from n seen [] = if seen then some n else none
digits_from n seen (c ∷ s) =
    let rest = digits_from (n * 10 + (c - b'0')) true s in
    if leb b'0' c && leb c b'9' then rest else if seen then some n else none

-- A negative number is refused by the caller as `NaN` is, so both are `none`.
parse_int : List ℕ → Option ℕ
unfolding digits_from
parse_int [] = none
parse_int (c ∷ s) =
    let rest = parse_int s in
    if is_space c
    then rest
    else if eqb c b'-'
    then none
    else if eqb c b'+'
    then digits_from 0 false s
    else digits_from 0 false (c ∷ s)

abbrev or_zero : Option ℕ → ℕ
or_zero none = 0
or_zero (some n) = n

-- `Number.MAX_SAFE_INTEGER`
abbrev pub max_safe_integer : ℕ
max_safe_integer = 9007199254740991

abbrev pub safe : ℕ → Option ℕ
safe n = if leb n max_safe_integer then some n else none

unfoldable pub read_epoch : Option (List ℕ) → Option ℕ
unfolding parse_int
read_epoch none = some 0
read_epoch (some raw) = safe (or_zero (parse_int raw))

print_from : ℕ → ℕ → List ℕ → List ℕ
print_from zero n rest = rest
print_from (suc fuel) n rest =
    let more = print_from fuel (n / 10) ((b'0' + n % 10) ∷ rest) in
    if ltb n 10 then (b'0' + n) ∷ rest else more

-- `${n}\n`
pub print_line : ℕ → List ℕ
unfolding print_from
print_line n = print_from (suc n) n (10 ∷ [])

-- The epoch of a broker that starts, and the file after it.
pub record Started : Type 0 where
  pub epoch : ℕ
  pub file : Option (List ℕ)

-- The file after the attempt to write the epoch; the flag says whether it succeeds.
abbrev pub written : Option (List ℕ) → Bool → ℕ → Started
written file writable next = record {
  epoch = next;
  file = if writable then some (print_line next) else file;
}

abbrev pub start_with : Option (List ℕ) → Bool → Option ℕ → Option Started
start_with file writable none = none
start_with file writable (some next) = some (written file writable next)

abbrev pub next_after : Option ℕ → ℕ → Option ℕ
next_after none now = none
next_after (some previous) now = safe (max (previous + 1) now)

-- A broker that starts at `now`.
pub next_epoch : Option (List ℕ) → ℕ → Bool → Option Started
next_epoch file now writable = start_with file writable (next_after (read_epoch file) now)

digits_print :
    (fuel n : ℕ) (seen : Bool) (rest : List ℕ)
    → n < fuel
    → digits_from 0 seen (print_from fuel n rest) ≡ digits_from n true rest
unfolding digits_from print_from
digits_print zero n seen rest h = elim h [ ]
digits_print (suc f) n seen rest h = elim (Bool-cases (ltb n 10)) [
  | inl one ↦ ground arith
  | inr more ↦
      rw more (digits_print f (n / 10) seen ((b'0' + n % 10) ∷ rest) (ground arith) ∙ ground arith)
]

starts_with_digit :
    (fuel n : ℕ) (rest : List ℕ)
    → n < fuel
    → (c : ℕ) × (s : List ℕ) × (print_from fuel n rest ≡ c ∷ s) × (b'0' ≤ c) × (c ≤ b'9')
unfolding print_from
starts_with_digit zero n rest h = elim h [ ]
starts_with_digit (suc f) n rest h = elim (Bool-cases (ltb n 10)) [
  | inl one ↦ (b'0' + n, rest, rw one, omega arith, ground arith)
  | inr more ↦ rw more (starts_with_digit f (n / 10) ((b'0' + n % 10) ∷ rest) (ground arith))
]

parse_digits :
    (c : ℕ) (s : List ℕ) → b'0' ≤ c → c ≤ b'9' → parse_int (c ∷ s) ≡ digits_from 0 false (c ∷ s)
unfolding parse_int
parse_digits c s lo hi = ground arith

parse_int-print_line : (n : ℕ) → parse_int (print_line n) ≡ some n
unfolding print_line digits_from
parse_int-print_line n =
    let (c, s, e, lo, hi) = starts_with_digit (suc n) n (10 ∷ []) (omega arith) in
    ap parse_int e
    ∙ parse_digits c s lo hi
    ∙ ap (digits_from 0 false) (sym e)
    ∙ digits_print (suc n) n false (10 ∷ []) (omega arith)

read_epoch-print_line : (n : ℕ) → n ≤ max_safe_integer → read_epoch (some (print_line n)) ≡ some n
unfolding read_epoch
read_epoch-print_line n fits = ap (λ o. safe (or_zero o)) (parse_int-print_line n) ∙ ground arith

-- A start on a file that holds a number, if no number gets too large.
started :
    (file : Option (List ℕ)) (previous now : ℕ) (writable : Bool)
    → read_epoch file ≡ some previous
    → previous < max_safe_integer
    → now ≤ max_safe_integer
    → next_epoch file now writable ≡ some (written file writable (max (previous + 1) now))
unfolding next_epoch
started file previous now writable e p n = rw e (ground arith)

-- What two starts of a broker, one after another on the same file, take as epochs.
pub record IsIncreasing (file : Option (List ℕ)) (previous now later : ℕ) (writable : Bool)
    (a b : Started) : Type 0 where
  pub from_now : now ≤ a.epoch
  pub above_file : previous < a.epoch
  pub from_later : later ≤ b.epoch
  pub above_file_still : previous < b.epoch
  pub kept :
      ((writable ≡ true) × (read_epoch a.file ≡ some a.epoch) × (a.epoch < b.epoch))
      ⊎ ((writable ≡ false) × (a.file ≡ file))

second :
    (file : Option (List ℕ)) (previous now later : ℕ) (writable writable' : Bool)
    → read_epoch file ≡ some previous
    → previous + 1 < max_safe_integer
    → now < max_safe_integer
    → later ≤ max_safe_integer
    → let a = written file writable (max (previous + 1) now) in
      (b : Started) × (next_epoch a.file later writable' ≡ some b)
      × IsIncreasing file previous now later writable a b
second file previous now later true w e p n l =
    let next = max (previous + 1) now in
    let read = read_epoch-print_line next (omega arith) in
    (
      written (some (print_line next)) w (max (next + 1) later),
      started (some (print_line next)) next later w read (omega arith) l,
      record {
        from_now = omega arith;
        above_file = omega arith;
        from_later = omega arith;
        above_file_still = omega arith;
        kept = inl (refl, read, omega arith);
      },
    )
second file previous now later false w e p n l = (
  written file w (max (previous + 1) later),
  started file previous later w e (omega arith) l,
  record {
    from_now = omega arith;
    above_file = omega arith;
    from_later = omega arith;
    above_file_still = omega arith;
    kept = inr (refl, refl);
  },
)

-- Two brokers that start one after another on a file that holds a safe integer, or none, and at
-- times that are safe (with room for the two steps below the largest safe integer), each take an
-- epoch that is at least the time of its start and above the epoch in the file. If the first could
-- write the file, it then holds the first epoch, and the second epoch is above it whatever the
-- clock says; if not, the file is as it was, and nothing more is said of the two epochs.
pub next_epoch-increases :
    (file : Option (List ℕ)) (previous now later : ℕ) (writable writable' : Bool)
    → read_epoch file ≡ some previous
    → previous + 1 < max_safe_integer
    → now < max_safe_integer
    → later ≤ max_safe_integer
    → (a : Started) × (b : Started) × (next_epoch file now writable ≡ some a)
      × (next_epoch a.file later writable' ≡ some b)
      × IsIncreasing file previous now later writable a b
next_epoch-increases file previous now later writable writable' e p n l =
    let (b, next, increasing) = second file previous now later writable writable' e p n l in
    (
      written file writable (max (previous + 1) now),
      b,
      started file previous now writable e (omega arith) (omega arith),
      next,
      increasing,
    )
