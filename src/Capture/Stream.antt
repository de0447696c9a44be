-- ===== src/Capture/Stream.antt =====
-- The exit status of a capture and the bytes that arrive.
use pipelined_core.Common.{Bool, List, [], ◌∷◌, ◌++◌, ◌≡◌}
use pipelined_core.Common.Bytes.{Bytes}
use pipelined_core.Board.{verify, markers}
use pipelined_core.Board.Milestones.{Milestones}
use pipelined_core.Capture.{Round, idle, blocked, chunk, Capture, is_ok}

-- All the bytes that the rounds bring.
abbrev pub stream : List Round → Bytes
stream [] = []
stream (idle ∷ rs) = stream rs
stream (blocked ∷ rs) = stream rs
stream (chunk bytes _ ∷ rs) = bytes ++ stream rs

-- `os.write` would write the byte in every round.
abbrev pub CanWrite : List Round → Type 0
CanWrite [] = Unit
CanWrite (idle ∷ rs) = CanWrite rs
CanWrite (blocked ∷ rs) = CanWrite rs
CanWrite (chunk bytes written ∷ rs) = (written ≡ 1) × CanWrite rs

-- `verify` passes on the string.
abbrev passes : Bytes → Bool
passes s = is_ok (verify markers s 0)
