-- ===== src/Examples/Captures.antt =====
-- A boot capture in chunks.
use pipelined_core.Common.{
  ℕ, true, false, List, [], ◌∷◌, ◌++◌, take, drop, ok, ◌≡◌, refl, some, none,
}
use pipelined_core.Common.Bytes.{Bytes}
use pipelined_core.Board.Milestones.{Milestones}
use pipelined_core.Capture.{Round, idle, blocked, chunk, Capture, started, rounds}
use pipelined_core.Capture.Challenge.{Disciplined, rounds_discipline}
use pipelined_core.Examples.Tools.{boot_capture}

-- The READY line and the last line come in pieces.
abbrev boot_rounds : List Round
boot_rounds =
    chunk (take 60 boot_capture) 1
    ∷ idle
    ∷ chunk (take 40 (drop 60 boot_capture)) 1
    ∷ blocked
    ∷ chunk (drop 100 boot_capture) 1
    ∷ chunk (0 ∷ []) 1
    ∷ []

abbrev after_boot : Capture
after_boot = record {
  received = boot_capture;
  sent = true;
  shown = boot_capture;
  uart_out = b'K' ∷ [];
}

boot_rounds_end : rounds false boot_rounds started ≡ ok after_boot
unfolding rounds pipelined_core.Common.Bytes.find pipelined_core.Board.verify
boot_rounds_end = refl

rounds_discipline_example : Disciplined after_boot
rounds_discipline_example = rounds_discipline boot_rounds boot_rounds_end
