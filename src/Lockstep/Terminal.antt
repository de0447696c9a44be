-- ===== src/Lockstep/Terminal.antt =====
-- `SpikePTY._response` and `SpikePTY.command` of scripts/lockstep.py. What `select` and `os.read` bring
-- until the deadline is a list of reads; the process and `decode` are parameters.
pub mod Framing
pub mod Session
pub mod Answers
use pipelined_core.Common.{
  ℕ, Bool, true, false, ◌||◌, Option, none, some, List, [], ◌∷◌, ◌++◌, map, ◌==◌, if◌then◌else◌, ok,
  err,
}
use pipelined_core.Common.Bytes.{Bytes}
use pipelined_core.Common.Text.{Text, codes}
use pipelined_core.Common.Text.Lines.{after_prefix, splitlines, strip}
use pipelined_core.Lockstep.Error.{Checked, prompt_timeout, terminal_closed, spike_exited}

-- A chunk that `os.read` returns, empty where the terminal is closed; the deadline is at the end.
abbrev pub Reads : Type 0
Reads = List Bytes

-- `$`: the end, or a line feed in front of it.
abbrev pub at_end : Bytes → Bool
at_end [] = true
at_end (c ∷ []) = c == 10
at_end (c ∷ d ∷ s) = false

abbrev pub ended : Option Bytes → Option Bytes
ended none = none
ended (some rest) = if at_end rest then some rest else none

abbrev pub first_of : Option Bytes → Option Bytes → Option Bytes
first_of none other = other
first_of (some rest) other = some rest

-- `(?:^|\r?\n): $` at the front, where `start` says whether this is the start: what follows a match.
unfoldable pub prompt_at : (start : Bool) → Bytes → Option Bytes
prompt_at start s = first_of (if start then ended (after_prefix (codes ": ") s) else none) (
    first_of (ended (after_prefix (13 ∷ 10 ∷ codes ": ") s))
      (ended (after_prefix (10 ∷ codes ": ") s)))

-- `re.search`: what is in front of the prompt, and what follows it.
unfoldable pub split_prompt : (start : Bool) → Bytes → Option (Bytes × Bytes)
unfolding prompt_at
split_prompt start [] = elim (prompt_at start []) [ none ↦ none | some rest ↦ some ([], rest) ]
split_prompt start (c ∷ s) =
    let further = split_prompt false s in
    elim (prompt_at start (c ∷ s)) [
      | some rest ↦ some ([], rest)
      | none ↦ elim further [ none ↦ none | some found ↦ some (c ∷ found.0, found.1) ]
    ]

-- `[line.strip() for line in result.splitlines() if line.strip()]`
abbrev nonempty : List Text → List Text
nonempty [] = []
nonempty ([] ∷ lines) = nonempty lines
nonempty ((c ∷ line) ∷ lines) = (c ∷ line) ∷ nonempty lines

unfoldable pub response_lines : Text → List Text
response_lines result = nonempty (map strip (splitlines result))

-- The result, the bytes that are pending behind it, and the reads that are left.
abbrev pub Response : Type 0
Response = Checked (List Text) × (Bytes × Reads)

module _ (decode : Bytes → Text) where
  abbrev answered : Bytes × Bytes → Reads → Response
  answered found reads = (ok (response_lines (decode found.0)), (found.1, reads))

  -- The loop of `_response`, with the pending bytes.
  unfoldable pub response : Reads → Bytes → Response
  unfolding split_prompt response_lines
  response [] pending = elim (split_prompt true pending) [
    | some found ↦ answered found []
    | none ↦ (err prompt_timeout, (pending, []))
  ]
  response ([] ∷ reads) pending = elim (split_prompt true pending) [
    | some found ↦ answered found ([] ∷ reads)
    | none ↦ (err terminal_closed, (pending, reads))
  ]
  response ((b ∷ chunk) ∷ reads) pending =
      let more = response reads (pending ++ b ∷ chunk) in
      elim (split_prompt true pending) [
        | some found ↦ answered found ((b ∷ chunk) ∷ reads)
        | none ↦ more
      ]

  -- `command`, for a Spike that has exited or has not: what it answers, and what is written to the
  -- terminal. `encode` is `str.encode`.
  unfoldable pub command :
      (encode : Text → Bytes) (exited : Bool) (text : Text) → Reads → Bytes → Response × Bytes
  unfolding response
  command encode true text reads pending = ((err spike_exited, (pending, reads)), [])
  command encode false text reads pending = (response reads pending, encode (text ++ (10 ∷ [])))
