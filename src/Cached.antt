-- ===== src/Cached.antt =====
-- scripts/verify_cached_core.py: the runs of the simulated core with caches, and what is checked of
-- each. The simulator and `json.loads` are the parameter `Simulator`.
pub mod Heard
pub mod Scenarios
pub mod Verified
use pipelined_core.Common.{
  ℕ, zero, suc, Bool, true, false, not, ◌&&◌, Option, none, some, List, [], ◌∷◌, ◌++◌, ok, err,
  or_raise,
}
use pipelined_core.Common.Exec.{Effect, pure, raise, lift, exec_raise_if, ◌>>=◌, ◌>>◌}
use pipelined_core.Common.Text.{Text, codes}
use pipelined_core.Lockstep.Event.{Retire, Event, done, retire}

-- A BrokenPipeError; a line that is no JSON or lacks an entry; the watchdog, the exit status, the
-- missing trap and a check as AssertionErrors; TimeoutExpired; the ValueError of `int`, the KeyError
-- of `by_pc`, and StopIteration; a CalledProcessError.
pub data Error : Type 0 where
  broken_pipe bad_line watchdog timed_out bad_exit no_trap check_failed value_error : Error
  no_such_pc no_such_event tool_failed : Error

pub record Simulator : Type 1 where
  pub World : Type 0
  -- `Popen` with `CACHE_IMAGE` and the other variables
  pub start : Text → List (Text × Text) → World → World
  -- `proc.stdin.write(text)` and the flush: whether the pipe is open
  pub send : Text → World → Bool × World
  pub read_line : World → Text × World
  pub loads : Text → Option Event
  -- `proc.communicate(timeout=10)`: whether the status is 0, and `stderr`; `none` is a timeout
  pub communicate : World → Option (Bool × Text) × World
  -- `proc.poll() is None`
  pub running : World → Bool
  -- `proc.kill()` and the wait behind it
  pub kill : World → World
  -- a run of the simulator with an option, `check=True`: whether the status is 0
  pub self_test : Text → Text → World → Bool × World

abbrev pub line_of : Text → Text
line_of command = command ++ 10 ∷ []

-- `events and events[-1]["trap"]`
unfoldable pub ends_in_trap : List Retire → Bool
ends_in_trap [] = false
ends_in_trap (e ∷ []) = e.trap
ends_in_trap (e ∷ f ∷ es) = ends_in_trap (f ∷ es)

-- `if event["kind"] == "retire": events.append(event)`
abbrev pub keep : Event → List Retire → List Retire
keep (retire e) events = events ++ e ∷ []
keep _ events = events

-- `event["kind"] == "done"`
abbrev pub is_done : Event → Bool
is_done done = true
is_done _ = false

module _ (sim : Simulator) where
  abbrev pub Action : Type 0 → Type 0
  Action A = Effect Error sim.World A

  abbrev pub write : Text → Action (Unit {0})
  write command w =
      let (fine, w') = sim.send (line_of command) w in exec_raise_if (not fine) broken_pipe w'

  -- The answer to one "step".
  unfoldable pub answer : Action Event
  unfolding ◌>>=◌
  answer = do
    write (codes "step")
    line ← λ w. (let (line, w') = sim.read_line w in (ok line, w'))
    lift (or_raise (sim.loads line) bad_line)

  -- The rounds that are left, with `events` so far.
  unfoldable pub rounds : ℕ → List Retire → Action (List Retire)
  unfolding ◌>>=◌ answer
  rounds zero events = raise watchdog
  rounds (suc left) events = do
    event ← answer
    elim (is_done event) [
      | true ↦ pure (keep event events)
      | false ↦ rounds left (keep event events)
    ]

  abbrev exited : Option (Bool × Text) → Action Text
  exited none = raise timed_out
  exited (some (fine, stderr)) = exec_raise_if (not fine) bad_exit >> pure stderr

  -- What follows the loop in the `try` block of `run`.
  unfoldable pub ending : List Retire → Action (List Retire × Text)
  unfolding ◌>>=◌ ends_in_trap
  ending events = do
    write (codes "quit")
    end ← λ w. (let (end, w') = sim.communicate w in (ok end, w'))
    stderr ← exited end
    exec_raise_if (not (ends_in_trap events)) no_trap
    pure (events, stderr)

  abbrev pub stopped : Bool → sim.World → sim.World
  stopped true w = sim.kill w
  stopped false w = w

  unfoldable pub run : Text → List (Text × Text) → Action (List Retire × Text)
  unfolding ◌>>=◌ ending
  run image environment w =
      let (r, w') = (rounds 30000 [] >>= ending) (sim.start image environment w) in
      (r, stopped (sim.running w') w')
