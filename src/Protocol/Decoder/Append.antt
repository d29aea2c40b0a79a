-- ===== src/Protocol/Decoder/Append.antt =====
-- A text and its continuation, as `FrameDecoder` of src/protocol/frames.ts reads them.
use pi_mesh.Prelude.{
  ℕ, ◌≤◌, Bool, not, ◌&&◌, List, [], ◌∷◌, ◌++◌, Option, none, some, ◌≡◌, refl, ap, arith,
  if◌then◌else◌, select, utf8_bytes, split_on,
}
use pi_mesh.Protocol.Decoder.{Text, newline, exceeds, is_empty}
use pi_mesh.Protocol.Decoder.Split.{
  whole_lines, last_part, fits, decoded, split_on-cons, IsLine, last_part-IsLine, split_on-append,
}
use pi_mesh.Protocol.Decoder.Loop.{prepend}

-- A decoder that is fed chunk after chunk, until it throws: all lines, and the buffer.
abbrev pub after_push :
    (Text → Option (List Text × Text)) → Option (List Text × Text) → Option (List Text × Text)
after_push next none = none
after_push next (some (lines, buf)) = prepend lines (next buf)

-- The first segment of a continued line is no shorter.
first-longer :
    (p b q : Text) (qs : List Text)
    → IsLine p
    → split_on newline (p ++ b) ≡ q ∷ qs
    → utf8_bytes p ≤ utf8_bytes q
unfolding split_on utf8_bytes
first-longer [] b q qs h e = omega arith
first-longer (c ∷ p) b q qs h e =
    let (x, xs, e') = split_on-cons p in
    let (y, ys, f) = split_on-cons (p ++ b) in ground (arith, first-longer p b y ys)

fits-append : (m : ℕ) (xs ys : List Text) → fits m (xs ++ ys) ≡ (fits m xs && fits m ys)
fits-append m [] ys = refl
fits-append m (x ∷ xs) ys = ground (arith, fits-append m xs ys)

-- The last segment apart.
whole-last :
    (m : ℕ) (x : Text) (xs : List Text)
    → fits m (x ∷ xs) ≡ (fits m (whole_lines (x ∷ xs)) && not (exceeds m (last_part (x ∷ xs))))
whole-last m x [] = ground arith
whole-last m x (y ∷ ys) = ground (arith, whole-last m y ys)

whole_lines-append :
    (xs : List Text) (q : Text) (qs : List Text)
    → (whole_lines (xs ++ q ∷ qs) ≡ xs ++ whole_lines (q ∷ qs))
      × (last_part (xs ++ q ∷ qs) ≡ last_part (q ∷ qs))
whole_lines-append [] q qs = (refl, refl)
whole_lines-append (x ∷ []) q qs = (refl, refl)
whole_lines-append (x ∷ y ∷ xs) q qs =
    let (e, f) = whole_lines-append (y ∷ xs) q qs in (ap (◌∷◌ x) e, f)

select-append :
    (p : Text → Bool) (xs ys : List Text) → select p (xs ++ ys) ≡ select p xs ++ select p ys
unfolding select
select-append p [] ys = refl
select-append p (x ∷ xs) ys = ground (arith, select-append p xs ys)

abbrev pub of_segments : ℕ → List Text → Option (List Text × Text)
of_segments m ss =
    if fits m ss then some (select (λ l. not (is_empty l)) (whole_lines ss), last_part ss) else none

-- A text that goes on after its last segment `p`, which becomes `q` and what follows.
continued :
    (m : ℕ) (w : List Text) (p q : Text) (qs : List Text) (next : Text → Option (List Text × Text))
    → next p ≡ of_segments m (q ∷ qs)
    → utf8_bytes p ≤ utf8_bytes q
    → of_segments m (w ++ q ∷ qs)
      ≡ after_push next (
          if fits m w && not (exceeds m p)
          then some (select (λ l. not (is_empty l)) w, p)
          else none)
continued m w p q qs next same h =
    let ne : Text → Bool = λ l. not (is_empty l) in
    let (e, f) = whole_lines-append w q qs in
    rw (e, f, fits-append m w (q ∷ qs), select-append ne w (whole_lines (q ∷ qs)))
      (ground (arith, same))

pub whole_split :
    (a : Text) (m : ℕ)
    → decoded m a ≡ (
        if fits m (whole_lines (split_on newline a))
          && not (exceeds m (last_part (split_on newline a)))
        then some (
          select (λ l. not (is_empty l)) (whole_lines (split_on newline a)),
          last_part (split_on newline a),
        )
        else none)
unfolding decoded
whole_split a m = let (x, xs, e) = split_on-cons a in rw e (ground (arith, whole-last m x xs))

-- A text that goes on after another: what the first one leaves is decoded with the second.
pub decoded-append :
    (m : ℕ) (a b : Text) → decoded m (a ++ b) ≡ after_push (λ p. decoded m (p ++ b)) (decoded m a)
unfolding decoded
decoded-append m a b =
    let w = whole_lines (split_on newline a) in
    let p = last_part (split_on newline a) in
    let (q, qs, f) = split_on-cons (p ++ b) in
    let longer = first-longer p b q qs (last_part-IsLine a) f in
    let same : decoded m (p ++ b) ≡ of_segments m (q ∷ qs) = ap (of_segments m) f in
    rw (split_on-append a b, whole_split a m, f)
      (continued m w p q qs (λ s. decoded m (s ++ b)) same longer)
