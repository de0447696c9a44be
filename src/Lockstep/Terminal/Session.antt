-- ===== src/Lockstep/Terminal/Session.antt =====
-- `LineStream._pump` with the queue that `get` reads, and how a `SpikePTY` starts and closes, in
-- scripts/lockstep.py.
use pipelined_core.Common.{
  Bool, ◌||◌, Option, none, some, List, [], ◌∷◌, ◌==◌, if◌then◌else◌, ok, err,
}
use pipelined_core.Common.Bytes.{Bytes}
use pipelined_core.Common.Text.{Text}
use pipelined_core.Common.Text.Lines.{backwards}
use pipelined_core.Lockstep.Error.{Checked}
use pipelined_core.Lockstep.Spike.{Arrival, timeout, closed, line}
use pipelined_core.Lockstep.Terminal.{Reads, Response, response}

abbrev pub lstrip_ends : Text → Text
lstrip_ends [] = []
lstrip_ends (c ∷ s) = let rest = lstrip_ends s in if c == 10 || c == 13 then rest else c ∷ s

-- `line.rstrip("\r\n")`
abbrev pub rstrip_ends : Text → Text
rstrip_ends s = backwards (lstrip_ends (backwards s))

-- What `_pump` puts into the queue for the lines of the file, with `None` behind them.
unfoldable pub pump : List Text → List (Option Text)
pump [] = none ∷ []
pump (s ∷ lines) = some (rstrip_ends s) ∷ pump lines

-- `queue.get(timeout=...)` on what is in the queue until the time is over.
abbrev pub queue_get : List (Option Text) → Arrival × List (Option Text)
queue_get [] = (timeout, [])
queue_get (none ∷ queue) = (closed, queue)
queue_get (some s ∷ queue) = (line s, queue)

-- Spike's process, and the file descriptor of its terminal.
pub record Child : Type 1 where
  pub World : Type 0
  -- `process.poll() is not None`
  pub exited : World → Bool
  pub terminate : World → World
  -- `process.wait(timeout=2)`, `false` where the time is over
  pub wait : World → Bool × World
  -- `process.kill()`, and the wait behind it
  pub kill : World → World
  -- `os.close(self.master)`
  pub close_master : World → World

module _ (p : Child) where
  abbrev pub close : p.World → p.World
  close w =
      let asked = if p.exited w then w else p.terminate w in
      let (ended, w1) = p.wait asked in
      let w2 = if ended then w1 else p.kill w1 in p.close_master w2

  -- The end of `__init__`: the first prompt, and a child that is closed where none comes.
  abbrev pub started : Response → p.World → Checked (Bytes × Reads) × p.World
  started (ok lines, left) w = (ok left, w)
  started (err e, left) w = (err e, close w)

  unfoldable pub start :
      (decode : Bytes → Text) → Reads → p.World → Checked (Bytes × Reads) × p.World
  unfolding response
  start decode reads w = started (response decode reads []) w
