-- ===== src/Capture.antt =====
-- The capture loops of scripts/capture_checkpoint10.py and scripts/capture_checkpoint9.py. What the
-- serial port brings before the deadline is a list of rounds; it is the argument of the loops.
pub mod Challenge
pub mod Stream
use pipelined_core.Common.{
  ℕ, Bool, true, false, not, ◌&&◌, ◌||◌, Option, none, some, List, [], ◌∷◌, ◌++◌, ◌==◌,
  if◌then◌else◌, Result, ok, err, ◌>>=◌,
}
use pipelined_core.Common.Bytes.{Bytes, find}
use pipelined_core.Board.{verify, ready, markers}

-- One round of the `while` loop: `select` brings nothing, `os.read` raises a BlockingIOError, or it
-- returns a chunk; `written` is then what `os.write` returns if this round sends the challenge.
pub data Round : Type 0 where
  idle : Round
  blocked : Round
  chunk : Bytes → (written : ℕ) → Round

-- `data` and `sent`, what went to the terminal, and what went out at the port.
pub record Capture : Type 0 where
  pub received : Bytes
  pub sent : Bool
  pub shown : Bytes
  pub uart_out : Bytes

abbrev pub started : Capture
started = record { received = []; sent = false; shown = []; uart_out = [] }

-- "UART challenge byte was not written"
pub data Error : Type 0 where
  os_error : Error

-- `p in s`
abbrev pub contains : Bytes → Bytes → Bool
contains p s = elim (find p s 0) [ none ↦ false | some _ ↦ true ]

abbrev pub is_ok : {E : Type 0} → Result E (Unit {0}) → Bool
is_ok (ok _) = true
is_ok (err _) = false

-- The byte goes out once the payload has asked for it.
unfoldable pub challenge : ℕ → Capture → Result Error Capture
challenge written c =
    if not c.sent && contains ready c.received
    then (if written == 1
        then ok (record c { sent = true; uart_out = c.uart_out ++ b'K' ∷ [] })
        else err os_error)
    else ok c

-- A round, and whether the loop goes on.
unfoldable pub round : Bool → Round → Capture → Result Error (Capture × Bool)
unfolding challenge
round trace idle c = ok (c, true)
round trace blocked c = ok (c, true)
round true (chunk bytes written) c = ok (record c { received = c.received ++ bytes }, true)
round false (chunk bytes written) c =
    challenge written (record c { received = c.received ++ bytes; shown = c.shown ++ bytes })
    >>= λ next. ok (next, not (is_ok (verify markers next.received 0)))

-- The `while` loop; the deadline is at the end of the rounds.
unfoldable pub rounds : Bool → List Round → Capture → Result Error Capture
unfolding round
rounds trace [] c = ok c
rounds trace (r ∷ rs) c =
    round trace r c >>= λ next. elim next.1 [ true ↦ rounds trace rs next.0 | false ↦ ok next.0 ]

-- What the command line asks for.
pub record Args : Type 0 where
  pub device : Bool
  pub positive_seconds : Bool
  pub trace : Bool
  -- the content of the file of `--verify`
  pub verify_file : Option Bytes

-- The capture behind the checks of the arguments: the file that is written, and the exit status;
-- the OSError, which `main` does not name, ends the script with 1 and writes no file.
unfoldable pub capture : Bool → List Round → Option Bytes × ℕ
unfolding rounds
capture trace rs = elim (rounds trace rs started) [
  | err e ↦ (none, 1)
  | ok c ↦ (some c.received, if trace || is_ok (verify markers c.received 0) then 0 else 1)
]

unfoldable pub main : Args → List Round → Option Bytes × ℕ
unfolding capture
main args rs = elim args.verify_file [
  | some content ↦ (none, if is_ok (verify markers content 0) then 0 else 1)
  | none ↦ if not args.device || not args.positive_seconds then (none, 2) else capture args.trace rs
]

-- The loop of capture_checkpoint9.py, with `data` so far; the result is what it writes.
unfoldable pub capture9 : List Round → Bytes → Bytes
capture9 [] received = received
capture9 (idle ∷ rs) received = capture9 rs received
capture9 (blocked ∷ rs) received = capture9 rs received
capture9 (chunk bytes _ ∷ rs) received = capture9 rs (received ++ bytes)
