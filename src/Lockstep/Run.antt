-- ===== src/Lockstep/Run.antt =====
-- `run` and `main` of scripts/lockstep.py.
pub mod Terminates
pub mod Passes
pub mod Verdict
pub mod Accepts
pub mod Exact
use pipelined_core.Common.{
  ℕ, zero, suc, ◌+◌, ◌*◌, Bool, true, false, not, ◌&&◌, ◌||◌, List, [], ◌∷◌, ltb, ◌==◌,
  if◌then◌else◌, ok, err,
}
use pipelined_core.Common.Text.{codes}
use pipelined_core.Lockstep.Error.{
  Checked, is_reported, no_retirement, dut_ended, bad_event, no_trap, extra_retirement, dut_failed,
}
use pipelined_core.Lockstep.Event.{Retire, Event, cycle, done, unknown, retire}
use pipelined_core.Lockstep.Compare.{Difference, differences, reference_trap}
use pipelined_core.Lockstep.Reference.{Reference, parse_spike_step}
use pipelined_core.Lockstep.Exec.{pure, raise, lift, exec_if, exec_raise_if, ◌>>=◌, ◌>>◌}
use pipelined_core.Lockstep.Spike.{
  Processes, Action, write_command, dut_event, spike_step, align_spike, spike_registers, spike_csrs,
}
use pipelined_core.Lockstep.State.{Args, Locals, initial, inject_fault, record_event}

pub record Divergence : Type 0 where
  pub at : ℕ
  pub is_trap_event : Bool
  pub fields : List Difference
  pub registers : List ℕ

abbrev pub divergence : Locals → Retire → Reference → List Difference → List ℕ → Divergence
divergence l event reference diff regs = record {
  at = l.retired;
  is_trap_event = event.trap || reference_trap reference;
  fields = diff;
  registers = regs;
}

-- How the loop, or the run, ends without an exception. `stuck` is no end of the code's: the fuel of
-- `loop` ran out.
pub data Ended : Type 0 where
  matched : Locals → Ended
  diverged : Divergence → Ended
  stuck : Ended

-- The exit status, with 3, which the code never returns, for `stuck`; an exception that `main` does not name ends the interpreter with status 1.
abbrev pub status : Checked Ended → ℕ
status (ok (matched l)) = 0
status (ok (diverged d)) = 1
status (ok stuck) = 3
status (err e) = if is_reported e then 2 else 1

-- `if args.until_trap: args.require_done = True`
abbrev pub with_done : Args → Args
with_done args = if args.until_trap then record args { require_done = true } else args

pub data Next : Type 0 where
  again : Locals → Next
  stop : Ended → Next

module _ (p : Processes) where
  -- `if diff:` with the queries for the report.
  unfoldable pub report : Locals → Retire → Reference → List Difference → Action p Next
  unfolding ◌>>=◌
  report l event reference diff = do
    regs ← spike_registers p
    _ ← spike_csrs p
    pure (stop (diverged (divergence l event reference diff regs)))

  abbrev judged : Args → Locals → Retire → Reference → List Difference → Action p Next
  judged args l event reference (d ∷ ds) = report l event reference (d ∷ ds)
  judged args l event reference [] = do
    l' ← lift (record_event l event)
    pure (if args.until_trap && event.trap then stop (matched l') else again l')

  -- The rest of the loop's body for an event of kind "retire".
  unfoldable pub compare_event : Args → Locals → Retire → Action p Next
  unfolding report record_event inject_fault ◌>>=◌
  compare_event args l given = do
    exec_raise_if (not (given.order == l.retired)) bad_event
    event ← lift (inject_fault args.inject l.retired given)
    lines ← spike_step p
    reference ← lift (parse_spike_step lines)
    diff ← lift (differences event reference)
    judged args l event reference diff

  abbrev on_event : Args → Locals → Event → Action p Next
  on_event args l cycle = do
    let waited = l.cycles_without_retire + 1
    exec_raise_if (ltb args.watchdog waited) (no_retirement args.watchdog)
    pure (again (record l { cycles_without_retire = waited }))
  on_event args l done = raise (dut_ended l.retired args.limit)
  on_event args l unknown = raise bad_event
  on_event args l (retire event) = compare_event args l event

  -- One round of `while retired < args.limit`.
  unfoldable pub one_round : Args → Locals → Action p Next
  unfolding compare_event ◌>>=◌
  one_round args l = do event ← dut_event p; on_event args l event

  abbrev pub go_on : (Locals → Action p Ended) → Next → Action p Ended
  go_on rest (again l) = rest l
  go_on rest (stop e) = pure e

  unfoldable pub loop : ℕ → Args → Locals → Action p Ended
  unfolding one_round ◌>>=◌
  loop zero args l = pure stuck
  loop (suc fuel) args l =
      exec_if (ltb l.retired args.limit) (do next ← one_round args l; go_on (loop fuel args) next)
        (pure (matched l))

  -- After at most `watchdog` cycles comes a retirement, of which there are at most `limit`.
  abbrev pub enough : Args → ℕ
  enough args = args.limit * (args.watchdog + 1) + args.watchdog + 1

  abbrev pub is_done : Event → Bool
  is_done done = true
  is_done _ = false

  -- What follows the loop.
  unfoldable pub after_loop : Args → Ended → Action p Ended
  unfolding ◌>>=◌
  after_loop args (matched l) = do
    exec_raise_if (args.until_trap && not (l.traps == 1)) (no_trap args.limit)
    exec_if args.require_done
        (do
          event ← dut_event p
          exec_raise_if (not (is_done event)) (extra_retirement args.limit)
          pure (matched l))
        (pure (matched l))
  after_loop args e = pure e

  unfoldable pub run_body : Args → Action p Ended
  unfolding loop after_loop ◌>>=◌
  run_body args = do
    _ ← align_spike p args.entry
    e ← loop (enough args) args initial
    after_loop args e

  -- `if completed and dut.returncode != 0: raise`
  abbrev pub closing : Checked Ended → Bool → Checked Ended
  closing (ok (matched l)) false = err dut_failed
  closing r clean = r

  -- The `finally` clause but for the check of the return code: the DUT is asked to quit, where an
  -- error is passed over, and killed if it does not; `true` is for a return code of 0.
  unfoldable pub shutdown : p.World → Bool × p.World
  unfolding write_command
  shutdown w =
      let asked = if p.exited w then w else (write_command p (codes "quit") w).1 in
      let (ended, w1) = p.wait asked in
      let w2 = if ended then w1 else p.kill w1 in (p.succeeded w2, p.close w2)

  -- `run`, with the cleanup and the check of the DUT's return code in `finally`.
  unfoldable pub run : Args → Action p Ended
  unfolding run_body shutdown
  run args w =
      let (r, w') = run_body args w in let (clean, w'') = shutdown w' in (closing r clean, w'')

  -- `main` on the parsed arguments; `--limit` and `--watchdog` are natural numbers here.
  unfoldable pub main : Args → p.World → ℕ
  unfolding run
  main given w =
      let args = with_done given in
      if args.limit == 0 || args.watchdog == 0 then 2 else status (run args w).0
