-- ===== src/Lockstep/Terminal/Answers.antt =====
-- A whole session with Spike's debugger: the answers stay with their commands.
use pipelined_core.Common.{false, List, [], ◌∷◌, ◌++◌, map, ok, err, ◌≡◌, refl}
use pipelined_core.Common.Bytes.{Bytes}
use pipelined_core.Common.Text.{Text}
use pipelined_core.Lockstep.Error.{Checked}
use pipelined_core.Lockstep.Terminal.{Reads, Response, response_lines, command}
use pipelined_core.Lockstep.Terminal.Framing.{Arrives, Shows, response-Shows}
use pipelined_core.Lockstep.Terminal.Session.{Child, start}

-- The answers of commands, one after the other, where Spike goes on running, and what is written to
-- the terminal.
abbrev pub Answers : Type 0
Answers = (Checked (List (List Text)) × (Bytes × Reads)) × Bytes

abbrev pub and_answer : List Text → Bytes → Answers → Answers
and_answer lines written ((ok more, left), others) = ((ok (lines ∷ more), left), written ++ others)
and_answer lines written ((err e, left), others) = ((err e, left), written ++ others)

module _ (encode : Text → Bytes) (decode : Bytes → Text) where
  abbrev pub then_answers : (Reads → Bytes → Answers) → Response × Bytes → Answers
  then_answers more ((ok lines, (pending, reads)), written) =
      and_answer lines written (more reads pending)
  then_answers more ((err e, left), written) = ((err e, left), written)

  unfoldable pub answers_of : List Text → Reads → Bytes → Answers
  unfolding command
  answers_of [] reads pending = ((ok [], (pending, reads)), [])
  answers_of (text ∷ texts) reads pending =
      then_answers (answers_of texts) (command decode encode false text reads pending)

-- A command and the answer to it.
abbrev pub Exchange : Type 0
Exchange = Text × Bytes

-- Each answer arrives with a prompt behind it, and before the next one.
pub data Talks : List Exchange → Reads → Reads → Type 0 where
  silent : {later : Reads} → Talks [] later later
  answer :
      {text : Text} {whole body : Bytes} {exchanges : List Exchange} {reads middle later : Reads}
      → Shows whole body
      → Arrives whole [] reads middle
      → Talks exchanges middle later
      → Talks ((text, body) ∷ exchanges) reads later

-- Every command with its line feed, in order.
abbrev pub all_written : (Text → Bytes) → List Exchange → Bytes
all_written encode [] = []
all_written encode ((text, body) ∷ exchanges) =
    encode (text ++ (10 ∷ [])) ++ all_written encode exchanges

module _ (encode : Text → Bytes) (decode : Bytes → Text) where
  answers_of-Talks :
      (exchanges : List Exchange) {reads later : Reads}
      → Talks exchanges reads later
      → answers_of encode decode (map (λ x. x.0) exchanges) reads [] ≡ (
        (ok (map (λ x. response_lines (decode x.1)) exchanges), ([], later)),
        all_written encode exchanges,
      )
  unfolding answers_of command
  answers_of-Talks [] silent = refl
  answers_of-Talks ((text, body) ∷ exchanges) (answer shows here rest) =
      rw (answers_of, response-Shows decode [] shows here, answers_of-Talks exchanges rest) refl

-- Where Spike shows its first prompt and then answers every command, in whatever chunks, and no part
-- of an answer that ends with a chunk looks like its end, the session starts without closing the
-- child, every command is written with a line feed and gets the lines of its own answer, and nothing
-- is left pending. A prompt is CR LF ": ", LF ": " behind no CR, or ": " where nothing is in front of
-- it.
pub session-Talks :
    (p : Child) (encode : Text → Bytes) (decode : Bytes → Text) (w : p.World)
    (exchanges : List Exchange) {whole banner : Bytes} {reads middle later : Reads}
    → Shows whole banner
    → Arrives whole [] reads middle
    → Talks exchanges middle later
    → (start p decode reads w ≡ (ok ([], middle), w))
      × (answers_of encode decode (map (λ x. x.0) exchanges) middle [] ≡ (
        (ok (map (λ x. response_lines (decode x.1)) exchanges), ([], later)),
        all_written encode exchanges,
      ))
unfolding start
session-Talks p encode decode w exchanges shows first talks =
    (rw (response-Shows decode [] shows first) refl, answers_of-Talks encode decode exchanges talks)
