-- ===== src/Client/Session/Emitted.antt =====
-- The answers that the events of `MeshClient` of src/client/client.ts tell of, and what the table of
-- the answers that were handled knows of them.
use Prim.Native.String as Text
use pi_mesh.Prelude.{
  true, ◌&&◌, get_or_else, drop, length, ◌++◌, refl, ℕ, ◌+◌, ◌-◌, ◌≤◌, String, Bool, false, not,
  List, [], ◌∷◌, Option, none, some, ◌≡◌, ap, ◌∙◌, arith, ltb, All,
}
use pi_mesh.Dict
use pi_mesh.Dict.{Dict}
use pi_mesh.Dict.Laws.{Unique, set-Unique, retain-Unique}
use pi_mesh.Dict.Recent.{Entry, All-imp, IsKnown, IsKnown-set, IsKnown-here, IsKnown-retain}
use pi_mesh.Protocol.Frame.{MeshFrame}
use pi_mesh.Client.Session.{
  handled_reply_window_ms, Emission, inbound, reply, every, prune_handled_reply_targets,
}
use pi_mesh.Client.Session.Replies.{is_reply}
use pi_mesh.Client.Session.Kept.{View}
use pi_mesh.Client.Session.Hands.{session_frames}

-- An answer that reached the session: whether it was awaited, its key, and when.
pub data Answer : Type 0 where
  awaited_answer unawaited_answer : String → ℕ → Answer

abbrev pub entry_of : Answer → Entry
entry_of (awaited_answer k t) = (k, t)
entry_of (unawaited_answer k t) = (k, t)

abbrev pub IsOld : String → ℕ → Answer → Type 0
IsOld k t a = (entry_of a).0 ≡ k → (entry_of a).1 + handled_reply_window_ms ≤ t

-- An answer that nobody awaits comes half an hour after the same answer at least. The last one
-- stands first.
abbrev pub IsUnrepeated : List Answer → Type 0
IsUnrepeated [] = Unit
IsUnrepeated (awaited_answer k t ∷ log) = IsUnrepeated log
IsUnrepeated (unawaited_answer k t ∷ log) = All (IsOld k t) log × IsUnrepeated log

abbrev pub Known : Dict ℕ → ℕ → Answer → Type 0
Known handled now a = IsKnown handled_reply_window_ms handled now (entry_of a)

abbrev pub IsKept : Dict ℕ → ℕ → List Answer → Type 0
IsKept handled now log = Unique handled × All (Known handled now) log × IsUnrepeated log

-- The table after an answer was marked.
abbrev pub marked : String → ℕ → Dict ℕ → Dict ℕ
marked k now handled = prune_handled_reply_targets now (Dict.set k now handled)

pub marked-Unique : (k : String) (now : ℕ) (h : Dict ℕ) → Unique h → Unique (marked k now h)
unfolding prune_handled_reply_targets
marked-Unique k now h u = retain-Unique _ _ (set-Unique k now h u)

prune-Known :
    (now : ℕ) (h : Dict ℕ) (a : Answer)
    → Unique h
    → Known h now a
    → Known (prune_handled_reply_targets now h) now a
unfolding prune_handled_reply_targets
prune-Known now h a u known =
    IsKnown-retain handled_reply_window_ms (λ id ts. not (ltb handled_reply_window_ms (now - ts))) h
      now (entry_of a) (λ k s old. ground arith) u known

-- What is known stays known, and the answer that is marked gets known.
pub marked-Known :
    (k : String) (now : ℕ) (h : Dict ℕ) (log : List Answer)
    → Unique h
    → All (Known h now) log
    → All (Known (marked k now h) now) log
marked-Known k now h log u known =
    All-imp (Known h now) (Known (marked k now h) now)
      (λ a ka.
        prune-Known now (Dict.set k now h) a (set-Unique k now h u)
          (IsKnown-set handled_reply_window_ms k h now (entry_of a) ka))
      log known

pub marked-here :
    (k : String) (now : ℕ) (h : Dict ℕ)
    → Unique h
    → IsKnown handled_reply_window_ms (marked k now h) now (k, now)
marked-here k now h u =
    prune-Known now (Dict.set k now h) (awaited_answer k now) (set-Unique k now h u)
      (IsKnown-here handled_reply_window_ms k h now)

abbrev pub first : View → Dict ℕ
first v = v.0

abbrev pub second : View → List Emission
second v = v.1

pub drop-length : {A : Type 0} (xs ys : List A) → drop (length xs) (xs ++ ys) ≡ ys
drop-length [] ys = refl
drop-length (x ∷ xs) ys = drop-length xs ys

abbrev pub note : (String → ℕ → Answer) → Option String → ℕ → List Answer → List Answer
note kind none now log = log
note kind (some k) now log = kind k now ∷ log

-- What the events of the client tell of answers. A frame is an answer if it is a reply, is no
-- receipt and names a message; its key is that message with the hash of the text.
module _ (sha256 : String → String) where
  abbrev pub key : String → MeshFrame → String
  key r frame = Text.◌++◌ r (Text.◌++◌ "|" (sha256 (get_or_else frame.body "")))

  abbrev pub key_at : Bool → Option String → MeshFrame → Option String
  key_at true (some r) frame = some (key r frame)
  key_at _ _ frame = none

  abbrev pub key_of : MeshFrame → Option String
  key_of frame =
      key_at (is_reply frame.type && not (get_or_else frame.receipt false)) frame.reply_to frame

  abbrev pub answer_in : ℕ → Emission → List Answer → List Answer
  answer_in now (reply frame) log = note awaited_answer (key_of frame) now log
  answer_in now (inbound frame (some true)) log = note awaited_answer (key_of frame) now log
  answer_in now (inbound frame _) log = note unawaited_answer (key_of frame) now log
  answer_in now _ log = log

  unfoldable pub add_answers : ℕ → List Emission → List Answer → List Answer
  add_answers now [] log = log
  add_answers now (e ∷ es) log = add_answers now es (answer_in now e log)

  pub add_answers-every :
      (now : ℕ) (frame : MeshFrame) (es : List Emission) (log : List Answer)
      → add_answers now (es ++ every frame ∷ []) log ≡ add_answers now es log
  unfolding add_answers
  add_answers-every now frame [] log = refl
  add_answers-every now frame (e ∷ es) log = add_answers-every now frame es (answer_in now e log)

  abbrev pub IsQuiet : MeshFrame → Type 0
  IsQuiet frame = key_of frame ≡ none

  pub note-quiet :
      (kind : String → ℕ → Answer) (o : Option String) (now : ℕ) (log : List Answer)
      → o ≡ none
      → note kind o now log ≡ log
  note-quiet kind o now log e = ap (λ p. note kind p now log) e

  -- Events whose frames are no answers add nothing.
  pub add_answers-quiet :
      (now : ℕ) (es : List Emission) (log : List Answer)
      → All IsQuiet (session_frames es)
      → add_answers now es log ≡ log
  unfolding add_answers session_frames
  add_answers-quiet now [] log q = refl
  add_answers-quiet now (reply f ∷ es) log (q, qs) =
      add_answers-quiet now es _ qs ∙ note-quiet awaited_answer _ now log q
  add_answers-quiet now (inbound f (some true) ∷ es) log (q, qs) =
      add_answers-quiet now es _ qs ∙ note-quiet awaited_answer _ now log q
  add_answers-quiet now (inbound f (some false) ∷ es) log (q, qs) =
      add_answers-quiet now es _ qs ∙ note-quiet unawaited_answer _ now log q
  add_answers-quiet now (inbound f none ∷ es) log (q, qs) =
      add_answers-quiet now es _ qs ∙ note-quiet unawaited_answer _ now log q
  add_answers-quiet now (_ ∷ es) log q = add_answers-quiet now es log q
