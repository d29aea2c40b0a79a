-- ===== src/Protocol/Decoder.antt =====
-- `encodeFrame` and `FrameDecoder` of src/protocol/frames.ts, on texts as lists of characters. What
-- `toString("utf8")` makes of the bytes of a buffer is an argument.
pub mod Split
pub mod Loop
pub mod Append
pub mod Chunks
pub mod Tests
use pi_mesh.Prelude.{
  ℕ, zero, suc, Bool, true, false, not, List, [], ◌∷◌, ◌++◌, Option, none, some, if◌then◌else◌, ltb,
  eqb, length, utf8_bytes,
}

abbrev pub Text : Type 0
Text = List ℕ

abbrev pub newline : ℕ
newline = 10

abbrev pub exceeds : ℕ → Text → Bool
exceeds max_bytes s = ltb max_bytes (utf8_bytes s)

-- The line for a value that `JSON.stringify` writes so; `none` is the `FrameSizeError`.
unfoldable pub encode_frame : Text → ℕ → Option Text
encode_frame json max_bytes =
    let line = json ++ newline ∷ [] in if exceeds max_bytes line then none else some line

-- What `push` does: return lines and keep the rest in the buffer, or throw with this buffer.
pub data Pushed : Type 0 where
  got : List Text → Text → Pushed
  threw : Text → Pushed
  out_of_fuel : Pushed

extend : ℕ → Option (Text × Text) → Option (Text × Text)
extend c none = none
extend c (some (line, rest)) = some (c ∷ line, rest)

-- The text before the first newline and that after it, by `indexOf` and `slice`.
unfoldable pub cut : Text → Option (Text × Text)
unfolding extend
cut [] = none
cut (c ∷ s) = let found = cut s in if eqb c newline then some ([], s) else extend c found

abbrev pub is_empty : Text → Bool
is_empty [] = true
is_empty (c ∷ s) = false

-- `if (line.length > 0) lines.push(line)`
abbrev pub add_line : List Text → Text → List Text
add_line lines line = if is_empty line then lines else lines ++ line ∷ []

-- The loop of `push`, with the lines so far.
unfoldable pub push_loop : ℕ → ℕ → Text → List Text → Pushed
push_loop zero max_bytes buf lines = out_of_fuel
push_loop (suc fuel) max_bytes buf lines = elim (cut buf) [
  | none ↦ if exceeds max_bytes buf then threw buf else got lines buf
  | some (line, rest) ↦
      let next = push_loop fuel max_bytes rest (add_line lines line) in
      if exceeds max_bytes line then threw rest else next
]

-- `chunk: Buffer | string`
pub data Chunk : Type 0 where
  string : Text → Chunk
  buffer : List ℕ → Chunk

-- Each buffer is decoded alone.
abbrev pub text_of : (List ℕ → Text) → Chunk → Text
text_of to_string (string s) = s
text_of to_string (buffer bytes) = to_string bytes

-- One round for each character, and one more to see that no newline is left.
unfoldable pub push : (List ℕ → Text) → ℕ → Text → Chunk → Pushed
push to_string max_bytes buf chunk =
    let text = buf ++ text_of to_string chunk in push_loop (suc (length text)) max_bytes text []
