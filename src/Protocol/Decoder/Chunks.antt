-- ===== src/Protocol/Decoder/Chunks.antt =====
-- Lines that arrive in chunks: `FrameDecoder` and `encodeFrame` of src/protocol/frames.ts together.
use mathlib.Core.List.{append-nil, append_assoc}
use pi_mesh.Prelude.{
  ℕ, ◌+◌, false, List, [], ◌∷◌, ◌++◌, Option, none, some, ◌≡◌, refl, sym, ap, subst, ◌∙◌, arith,
  All, select, utf8_bytes, split_on, Option-cases, inl, inr,
}
use pi_mesh.Protocol.Decoder.{
  Text, newline, exceeds, is_empty, encode_frame, push, Chunk, string, text_of,
}
use pi_mesh.Protocol.Decoder.Split.{last_part, decoded, IsLine, split_on-line, last_part-IsLine}
use pi_mesh.Protocol.Decoder.Loop.{decoded-cons, kept, prepend, push-decoded}
use pi_mesh.Protocol.Decoder.Append.{after_push, whole_split, decoded-append}

unfoldable pub feed : (List ℕ → Text) → ℕ → Text → List Chunk → Option (List Text × Text)
feed to_string max_bytes buf [] = some ([], buf)
feed to_string max_bytes buf (chunk ∷ chunks) =
    after_push (λ buf'. feed to_string max_bytes buf' chunks)
      (kept (push to_string max_bytes buf chunk))

unfoldable pub concat : List Text → Text
concat [] = []
concat (c ∷ cs) = c ++ concat cs

-- The texts of the chunks, each decoded alone, one after another.
abbrev pub texts : (List ℕ → Text) → List Chunk → Text
texts to_string [] = []
texts to_string (chunk ∷ chunks) = text_of to_string chunk ++ texts to_string chunks

left_fits :
    (m : ℕ) (s : Text) (ls : List Text) (p : Text)
    → decoded m s ≡ some (ls, p)
    → (exceeds m (last_part (split_on newline s)) ≡ false) × (last_part (split_on newline s) ≡ p)
left_fits m s ls p h = ground (arith, whole_split s m)

line_decoded : (m : ℕ) (l : Text) → IsLine l → exceeds m l ≡ false → decoded m l ≡ some ([], l)
unfolding decoded select
line_decoded m l h e = rw h (ground arith)

decoded-empty : (m : ℕ) → decoded m [] ≡ some ([], [])
unfolding utf8_bytes split_on
decoded-empty m = line_decoded m [] refl (ground arith)

-- What was left of a text decodes to itself.
decoded-left :
    (m : ℕ) (s : Text) (ls : List Text) (p : Text)
    → decoded m s ≡ some (ls, p)
    → decoded m p ≡ some ([], p)
unfolding decoded select
decoded-left m s ls p h =
    let p0 : Text = last_part (split_on newline s) in
    let line = last_part-IsLine s in
    let fit : (exceeds m p0 ≡ false) × (p0 ≡ p) = left_fits m s ls p h in
    subst (λ t. decoded m t ≡ some ([], t)) fit.1 (line_decoded m p0 line fit.0)

module _ (to_string : List ℕ → Text) (m : ℕ) where
  -- The rest of the chunks, after what was left.
  each_left :
      (cs : List Chunk)
      → ((p : Text)
          → decoded m p ≡ some ([], p)
          → feed to_string m p cs ≡ decoded m (p ++ texts to_string cs))
      → (d : Option (List Text × Text))
      → ((ls : List Text) (p : Text) → d ≡ some (ls, p) → decoded m p ≡ some ([], p))
      → after_push (λ p. feed to_string m p cs) d
        ≡ after_push (λ p. decoded m (p ++ texts to_string cs)) d
  each_left cs ih none left = refl
  each_left cs ih (some (ls, p)) left = ap (prepend ls) (ih p (left ls p refl))

  -- A decoder that is fed chunk after chunk decodes their texts as one.
  feed-decoded :
      (buf : Text) (chunks : List Chunk)
      → decoded m buf ≡ some ([], buf)
      → feed to_string m buf chunks ≡ decoded m (buf ++ texts to_string chunks)
  unfolding feed
  feed-decoded buf [] h = rw (append-nil buf) (sym h)
  feed-decoded buf (c ∷ cs) h =
      let t = text_of to_string c in
      let more = texts to_string cs in
      let rest : Text → Option (List Text × Text) = λ p. decoded m (p ++ more) in
      let whole : decoded m (buf ++ (t ++ more)) ≡ after_push rest (decoded m (buf ++ t)) =
        ap (decoded m) (sym (append_assoc buf t more)) ∙ decoded-append m (buf ++ t) more in
      rw (whole, (push-decoded to_string m buf c).1)
        (each_left cs (λ p k. feed-decoded p cs k) (decoded m (buf ++ t))
          (λ ls p. decoded-left m (buf ++ t) ls p))

  -- Fed from the start, a decoder returns what it would return for the texts of all chunks, each
  -- decoded alone, in one string: it throws in the one case if and only if it throws in the other,
  -- and else the lines and the buffer are the same. So it does not matter where chunks are cut, if
  -- they are strings, or buffers of whole characters.
  pub feed-concat :
      (chunks : List Chunk)
      → feed to_string m [] chunks ≡ kept (push to_string m [] (string (texts to_string chunks)))
  feed-concat chunks =
      feed-decoded [] chunks (decoded-empty m)
      ∙ sym (push-decoded to_string m [] (string (texts to_string chunks))).1

-- The lines for values whose JSON is given, if none is too long.
add_encoded : Option Text → Option (List Text) → Option (List Text)
add_encoded none lines = none
add_encoded (some line) none = none
add_encoded (some line) (some lines) = some (line ∷ lines)

unfoldable pub encode_all : ℕ → List Text → Option (List Text)
unfolding add_encoded
encode_all m [] = some []
encode_all m (json ∷ jsons) = add_encoded (encode_frame json m) (encode_all m jsons)

utf8_bytes-append : (s t : Text) → utf8_bytes (s ++ t) ≡ utf8_bytes s + utf8_bytes t
unfolding utf8_bytes
utf8_bytes-append [] t = omega arith
utf8_bytes-append (c ∷ s) t = omega (arith, utf8_bytes-append s t)

-- `JSON.stringify` writes no newline, and some character.
abbrev pub IsJson : Text → Type 0
IsJson s = IsLine s × (is_empty s ≡ false)

encode_all-nil : (m : ℕ) (lines : List Text) → encode_all m [] ≡ some lines → lines ≡ []
unfolding encode_all
encode_all-nil m lines h = cc

encode_all-cons :
    (m : ℕ) (json : Text) (jsons lines : List Text)
    → encode_all m (json ∷ jsons) ≡ some lines
    → (more : List Text) × (lines ≡ (json ++ newline ∷ []) ∷ more)
      × (encode_all m jsons ≡ some more)
      × (exceeds m (json ++ newline ∷ []) ≡ false)
unfolding encode_all encode_frame
encode_all-cons m json jsons lines h = elim (Option-cases (encode_all m jsons)) [
  | inl e ↦ absurd (ground arith)
  | inr (more, e) ↦ (more, ground arith, e, ground arith)
]

decoded-sent :
    (m : ℕ) (jsons lines : List Text)
    → All IsJson jsons
    → encode_all m jsons ≡ some lines
    → decoded m (concat lines) ≡ some (jsons, [])
unfolding concat
decoded-sent m [] lines a h =
    let none_sent : lines ≡ [] = encode_all-nil m lines h in rw none_sent (decoded-empty m)
decoded-sent m (json ∷ jsons) lines ((line, filled), a) h =
    let (more, e, sent, fit) = encode_all-cons m json jsons lines h in
    let ih = decoded-sent m jsons more a sent in
    let split : split_on newline ((json ++ newline ∷ []) ++ concat more)
        ≡ json ∷ split_on newline (concat more) =
      rw (append_assoc json (newline ∷ []) (concat more)) (split_on-line json (concat more) line) in
    rw (e, decoded-cons m ((json ++ newline ∷ []) ++ concat more) json (concat more) split, ih)
      (ground (arith, utf8_bytes-append json (newline ∷ [])))

-- Frames that are encoded and sent arrive, if the texts of the chunks, each decoded alone, make up
-- the lines, wherever those are cut; buffers must then hold whole characters. A decoder with the same
-- bound, fed the chunks, returns the JSON of every frame in order, and its buffer is empty in the
-- end. (The JSON of a frame holds no newline and is not empty, and no line was too long to be
-- encoded.)
pub feed-encode_all :
    (to_string : List ℕ → Text) (m : ℕ) (jsons lines : List Text) (chunks : List Chunk)
    → All IsJson jsons
    → encode_all m jsons ≡ some lines
    → texts to_string chunks ≡ concat lines
    → feed to_string m [] chunks ≡ some (jsons, [])
feed-encode_all to_string m jsons lines chunks a sent cut =
    feed-decoded to_string m [] chunks (decoded-empty m)
    ∙ ap (decoded m) cut
    ∙ decoded-sent m jsons lines a sent
