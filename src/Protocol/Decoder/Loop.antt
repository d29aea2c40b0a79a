-- ===== src/Protocol/Decoder/Loop.antt =====
-- `push` of src/protocol/frames.ts against the segments of its text.
use mathlib.Core.List.{append-nil, append_assoc}
use pi_mesh.Prelude.{
  ℕ, zero, suc, ◌<◌, List, [], ◌∷◌, ◌++◌, Option, none, some, ◌≡◌, ◌≢◌, refl, ap, arith,
  if◌then◌else◌, length, select, split_on, Option-cases, inl, inr,
}
use pi_mesh.Protocol.Decoder.{
  Text, Pushed, got, threw, out_of_fuel, newline, exceeds, cut, add_line, push_loop, push, Chunk,
  text_of,
}
use pi_mesh.Protocol.Decoder.Split.{decoded, split_on-cons, cut-none, cut-some}

-- What a caller has of `push`: the lines and the buffer, or nothing if it threw.
abbrev pub kept : Pushed → Option (List Text × Text)
kept (got lines buf) = some (lines, buf)
kept (threw buf) = none
kept out_of_fuel = none

abbrev pub prepend : List Text → Option (List Text × Text) → Option (List Text × Text)
prepend lines none = none
prepend lines (some (more, buf)) = some (lines ++ more, buf)

pub prepend-append :
    (xs ys : List Text) (d : Option (List Text × Text))
    → prepend (xs ++ ys) d ≡ prepend xs (prepend ys d)
prepend-append xs ys none = refl
prepend-append xs ys (some (more, buf)) =
    ap (λ (l : List Text). some (l, buf)) (append_assoc xs ys more)

prepend-add_line :
    (xs : List Text) (l : Text) (d : Option (List Text × Text))
    → prepend (add_line xs l) d ≡ prepend xs (prepend (add_line [] l) d)
prepend-add_line xs l none = refl
prepend-add_line xs l (some (more, buf)) = ground (arith, append_assoc xs (l ∷ []) more)

prepend-nil : (xs : List Text) (buf : Text) → prepend xs (some ([], buf)) ≡ some (xs, buf)
prepend-nil xs buf = ap (λ (l : List Text). some (l, buf)) (append-nil xs)

decoded-none :
    (max_bytes : ℕ) (s : Text)
    → cut s ≡ none
    → decoded max_bytes s ≡ (if exceeds max_bytes s then none else some ([], s))
unfolding decoded select
decoded-none max_bytes s h = rw (cut-none s h) (ground arith)

-- A line at the front.
pub decoded-cons :
    (max_bytes : ℕ) (s line rest : Text)
    → split_on newline s ≡ line ∷ split_on newline rest
    → decoded max_bytes s ≡ (
        if exceeds max_bytes line
        then none
        else prepend (add_line [] line) (decoded max_bytes rest))
unfolding decoded select
decoded-cons max_bytes s line rest h =
    let (q, qs, e) = split_on-cons rest in rw (h, e) (ground arith)

module _ (fuel max_bytes : ℕ) (buf : Text) (lines : List Text) where
  push_loop-none :
      cut buf ≡ none
      → push_loop (suc fuel) max_bytes buf lines
        ≡ (if exceeds max_bytes buf then threw buf else got lines buf)
  unfolding push_loop
  push_loop-none e = ground arith

  push_loop-some :
      (line rest : Text)
      → cut buf ≡ some (line, rest)
      → push_loop (suc fuel) max_bytes buf lines ≡ (
          if exceeds max_bytes line
          then threw rest
          else push_loop fuel max_bytes rest (add_line lines line))
  unfolding push_loop
  push_loop-some line rest e = ground arith

-- The loop does what the segments say, and has rounds enough.
pub push_loop-decoded :
    (fuel max_bytes : ℕ) (buf : Text) (lines : List Text)
    → length buf < fuel
    → (kept (push_loop fuel max_bytes buf lines) ≡ prepend lines (decoded max_bytes buf))
      × (push_loop fuel max_bytes buf lines ≢ out_of_fuel)
push_loop-decoded zero max_bytes buf lines h = absurd (omega arith)
push_loop-decoded (suc fuel) max_bytes buf lines h = elim (Option-cases (cut buf)) [
  | inl e ↦
      rw (decoded-none max_bytes buf e, push_loop-none fuel max_bytes buf lines e)
        (ground (arith, prepend-nil lines buf))
  | inr ((line, rest), e) ↦
      let ih =
        push_loop-decoded fuel max_bytes rest (add_line lines line)
          (omega (arith, (cut-some buf line rest e).1)) in
      rw
        (
          decoded-cons max_bytes buf line rest (cut-some buf line rest e).0,
          push_loop-some fuel max_bytes buf lines line rest e,
        )
        (ground (arith, ih.0, ih.1, prepend-add_line lines line (decoded max_bytes rest)))
]

-- The rounds of `push` suffice: its loop ends. It throws exactly if some line, or what is left after
-- the last newline, has too many bytes; else it returns the lines of its buffer and the text of the
-- chunk that are not empty, in order, and keeps what is left.
pub push-decoded :
    (to_string : List ℕ → Text) (max_bytes : ℕ) (buf : Text) (chunk : Chunk)
    → (push to_string max_bytes buf chunk ≢ out_of_fuel)
      × (kept (push to_string max_bytes buf chunk)
          ≡ decoded max_bytes (buf ++ text_of to_string chunk))
unfolding push
push-decoded to_string max_bytes buf chunk =
    let text = buf ++ text_of to_string chunk in
    let (same, ends) = push_loop-decoded (suc (length text)) max_bytes text [] (omega arith) in
    (ends, ground (arith, same))
