-- ===== src/Protocol/Decoder/Tests.antt =====
-- `FrameDecoder` and `encodeFrame` of src/protocol/frames.ts on two short values.
use pi_mesh.Prelude.{ℕ, List, [], ◌∷◌, ◌++◌, Option, none, some, ◌≡◌, ◌≢◌, refl, codes}
use pi_mesh.Protocol.Decoder.{
  Text, Chunk, string, buffer, got, threw, out_of_fuel, newline, encode_frame, push_loop, push, cut,
}
use pi_mesh.Protocol.Decoder.Split.{decoded, IsLine}
use pi_mesh.Protocol.Decoder.Loop.{kept, push-decoded}
use pi_mesh.Protocol.Decoder.Chunks.{feed, concat, texts, encode_all, feed-concat, feed-encode_all}

abbrev jsons : List Text
jsons = codes "{}" ∷ codes "[1]" ∷ []

abbrev lines : List Text
lines = (codes "{}" ++ newline ∷ []) ∷ (codes "[1]" ++ newline ∷ []) ∷ []

-- A decoder of bytes that are those of ASCII.
abbrev ascii : List ℕ → Text
ascii bytes = bytes

abbrev chunks : List Chunk
chunks =
    buffer (codes "{")
    ∷ string (codes "}" ++ newline ∷ codes "[1")
    ∷ buffer (codes "]")
    ∷ buffer (newline ∷ [])
    ∷ []

encoded : encode_all 4 jsons ≡ some lines
unfolding encode_all encode_frame pi_mesh.Prelude.utf8_bytes
encoded = refl

too_long : encode_all 3 jsons ≡ none
unfolding encode_all encode_frame pi_mesh.Prelude.utf8_bytes
too_long = refl

-- The second line throws; what stands after it stays in the buffer.
second_throws :
    push ascii 2 [] (string (codes "{}" ++ newline ∷ (codes "[1]" ++ newline ∷ codes "x")))
    ≡ threw (codes "x")
unfolding push push_loop cut pi_mesh.Prelude.utf8_bytes
second_throws = refl

empty_line :
    push ascii 9 (codes "a") (buffer (newline ∷ newline ∷ codes "b"))
    ≡ got (codes "a" ∷ []) (codes "b")
unfolding push push_loop cut pi_mesh.Prelude.utf8_bytes
empty_line = refl

push-decoded_example :
    (push ascii 9 (codes "a") (buffer (newline ∷ codes "b")) ≢ out_of_fuel)
    × (kept (push ascii 9 (codes "a") (buffer (newline ∷ codes "b")))
        ≡ decoded 9 (codes "a" ++ newline ∷ codes "b"))
push-decoded_example = push-decoded ascii 9 (codes "a") (buffer (newline ∷ codes "b"))

feed-concat_example : feed ascii 4 [] chunks ≡ kept (push ascii 4 [] (string (texts ascii chunks)))
feed-concat_example = feed-concat ascii 4 chunks

first-IsLine : IsLine (codes "{}")
unfolding cut pi_mesh.Prelude.split_on
first-IsLine = refl

second-IsLine : IsLine (codes "[1]")
unfolding cut pi_mesh.Prelude.split_on
second-IsLine = refl

same_text : texts ascii chunks ≡ concat lines
unfolding concat
same_text = refl

feed-encode_all_example : feed ascii 4 [] chunks ≡ some (jsons, [])
feed-encode_all_example =
    feed-encode_all ascii 4 jsons lines chunks ((first-IsLine, refl), ((second-IsLine, refl), tt))
      encoded same_text
