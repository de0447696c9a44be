-- ===== src/Examples/Runs.antt =====
-- A run of scripts/lockstep.py over one instruction, with scripted processes.
use pipelined_core.Common.{
  replicate, ℕ, ◌+◌, Bool, true, false, none, some, List, [], ◌∷◌, ok, err, ◌≡◌, ◌≢◌, refl, ◌==◌,
  if◌then◌else◌,
}
use pipelined_core.Common.Text.{Text, codes, text_eq}
use pipelined_core.Examples.Events.{addi, addi_line, addi_commit, addi_parsed, addi-Agrees}
use pipelined_core.Lockstep.Reference.{commit}
use pipelined_core.Lockstep.Run.Accepts.{Accepted}
use pipelined_core.Lockstep.Run.Passes.{Compared}
use pipelined_core.Lockstep.Event.{Event, done, retire}
use pipelined_core.Lockstep.Run.{stuck, run, main, with_done}
use pipelined_core.Lockstep.Run.Terminates.{run-ne-stuck}
use pipelined_core.Lockstep.Run.Exact.{main_iff}
use pipelined_core.Common.{◌↔◌}
use pipelined_core.Lockstep.Run.Verdict.{Verdict, main-zero}
use pipelined_core.Lockstep.Spike.{Processes, line}
use pipelined_core.Lockstep.State.{Args, Locals}
use mathlib.Core.Option.{Option}

abbrev scripted_event : Text → Option Event
scripted_event (n ∷ []) = some (if n == 0 then retire addi else done)
scripted_event _ = none

-- The world counts the DUT's answers; the first one is the `addi`, then the DUT is done.
abbrev scripted : Processes
scripted = record {
  World = ℕ;
  exited = λ w. false;
  send = λ text w. (ok tt, w);
  receive = λ w. (line (w ∷ []), w + 1);
  loads = scripted_event;
  command = λ text w.
      (ok ((if text_eq text (codes "pc 0") then codes "0x80000000" else addi_line) ∷ []), w);
  wait = λ w. (true, w);
  kill = λ w. w;
  succeeded = λ w. true;
  close = λ w. w;
}

abbrev one_step : Args
one_step = record {
  entry = 2147483648;
  limit = 1;
  watchdog = 1;
  require_done = true;
  until_trap = false;
  inject = [];
}

passes : main scripted one_step 0 ≡ 0
unfolding main pipelined_core.Lockstep.Spike.align_spike pipelined_core.Regex.fullmatch
    pipelined_core.Common.Text.int_16 pipelined_core.Lockstep.Spike.dut_event
    pipelined_core.Lockstep.Reference.parse_spike_step mathlib.Core.List.filter_map
    pipelined_core.Regex.find_all pipelined_core.Common.Text.int_10
    pipelined_core.Lockstep.Compare.differences pipelined_core.Lockstep.Event.dut_effects
    pipelined_core.Common.Dict.dict_eq pipelined_core.Common.Dict.lookup
    pipelined_core.Common.Dict.update pipelined_core.Common.Dict.insert
passes = refl

run-ne-stuck_example : (run scripted one_step 0).0 ≢ ok stuck
run-ne-stuck_example = run-ne-stuck scripted one_step 0

main-zero_example : (l : Locals) × Verdict scripted (with_done one_step) 0 l
main-zero_example = main-zero scripted one_step 0 passes

-- The one comparison of that run, and the variables behind it.
abbrev only : Compared
only = record {
  event = addi;
  lines = addi_line ∷ [];
  reference = commit addi_commit;
  parsed = addi_parsed;
  agrees = addi-Agrees;
}

abbrev behind : Locals
behind = record {
  history = record { order = 0; pc = addi.pc; insn = addi.insn } ∷ [];
  dut_regs = some 0 ∷ none ∷ some 7 ∷ replicate 29 none;
  dut_csrs = [];
  memory = [];
  retired = 1;
  traps = 0;
  cycles_without_retire = 0;
}

main_iff_example : (main scripted one_step 0 ≡ 0) ↔ Accepted scripted (with_done one_step) 0
main_iff_example = main_iff scripted one_step 0 refl refl
