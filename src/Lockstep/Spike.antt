-- ===== src/Lockstep/Spike.antt =====
-- The two child processes as scripts/lockstep.py uses them: `write_command`, `LineStream.get`, and
-- the queries of Spike's debugger. What the processes do is the parameter `Processes`.
use pipelined_core.Common.{
  ℕ, zero, suc, ◌+◌, Bool, Option, none, some, List, [], ◌∷◌, ◌++◌, ◌==◌, if◌then◌else◌, ok, err,
  or_raise,
}
use pipelined_core.Common.Text.{Text, codes, int_16, text_eq}
use pipelined_core.Common.Decimal.{decimal}
use pipelined_core.Regex.{fullmatch}
use pipelined_core.Lockstep.Error.{
  Checked, stream_timeout, stream_closed, process_exited, no_pc_answer, not_aligned,
  no_register_answer, value_error, json_error,
}
use pipelined_core.Lockstep.Event.{Event}
use pipelined_core.Lockstep.Exec.{Exec, pure, raise, lift, exec_if, ◌>>=◌, ◌>>◌}
use pipelined_core.Lockstep.Patterns.{hex_re}

-- What `queue.get(timeout=...)` brings: `queue.Empty`, the `None` behind the last line, or a line.
pub data Arrival : Type 0 where
  timeout closed : Arrival
  line : Text → Arrival

-- The operating system's side. `World` is the state of both processes and of the pipes.
pub record Processes : Type 1 where
  pub World : Type 0
  -- `dut.poll() is not None`
  pub exited : World → Bool
  -- `dut.stdin.write(text)` and the flush; where they fail, by a BrokenPipeError
  pub send : Text → World → Checked (Unit {0}) × World
  pub receive : World → Arrival × World
  -- `json.loads`
  pub loads : Text → Option Event
  -- `spike.command(text)`
  pub command : Text → World → Checked (List Text) × World
  -- `dut.wait(timeout=2)`, `false` where the time is over
  pub wait : World → Bool × World
  -- `dut.kill()`, and the wait behind it
  pub kill : World → World
  -- `dut.returncode == 0`, of a DUT that has ended
  pub succeeded : World → Bool
  -- `spike.close()`
  pub close : World → World

abbrev arrived : Arrival → Checked Text
arrived timeout = err stream_timeout
arrived closed = err stream_closed
arrived (line s) = ok s

-- The answers that are a hexadecimal numeral and nothing else.
abbrev pub hex_lines : List Text → List Text
hex_lines [] = []
hex_lines (s ∷ more) = elim (fullmatch hex_re s) [
  | none ↦ hex_lines more
  | some g ↦ s ∷ hex_lines more
]

abbrev only_hex : Checked ℕ → List Text → Checked ℕ
only_hex other (s ∷ []) = or_raise (int_16 s) value_error
only_hex other _ = other

abbrev without_prompts : List Text → List Text
without_prompts [] = []
without_prompts (s ∷ more) =
    let rest = without_prompts more in if text_eq s (codes ":") then rest else s ∷ rest

abbrev csr_names : List Text
csr_names =
    codes "mstatus"
    ∷ codes "mepc"
    ∷ codes "mcause"
    ∷ codes "mtval"
    ∷ codes "mtvec"
    ∷ codes "sstatus"
    ∷ codes "sepc"
    ∷ codes "scause"
    ∷ codes "stval"
    ∷ codes "satp"
    ∷ []

abbrev some_value : Text → List Text → Checked (List (Text × ℕ))
some_value name (s ∷ []) = elim (int_16 s) [ none ↦ err value_error | some v ↦ ok ((name, v) ∷ []) ]
some_value name _ = ok []

module _ (p : Processes) where
  abbrev pub Action : Type 0 → Type 0
  Action A = Exec p.World A

  unfoldable pub write_command : Text → Action (Unit {0})
  unfolding ◌>>=◌
  write_command text w = exec_if (p.exited w) (raise process_exited) (p.send (text ++ 10 ∷ [])) w

  -- `LineStream.get`
  unfoldable pub get_line : Action Text
  get_line w = let (a, w') = p.receive w in (arrived a, w')

  -- `write_command(dut, "step")` and `json.loads(dut_lines.get("Verilator"))`
  unfoldable pub dut_event : Action Event
  unfolding write_command get_line ◌>>=◌
  dut_event = do write_command (codes "step"); s ← get_line; lift (or_raise (p.loads s) json_error)

  unfoldable pub spike_pc : Action ℕ
  unfolding ◌>>=◌
  spike_pc = do
    lines ← p.command (codes "pc 0")
    lift (only_hex (err (no_pc_answer (hex_lines lines))) (hex_lines lines))

  unfoldable pub spike_step : Action (List Text)
  unfolding ◌>>=◌
  spike_step = do lines ← p.command (codes "run 1"); pure (without_prompts lines)

  -- The loop of `align_spike`, with the rounds that are left.
  unfoldable pub align_from : ℕ → ℕ → ℕ → Action ℕ
  unfolding spike_pc spike_step ◌>>=◌
  align_from zero skipped entry = raise (not_aligned entry)
  align_from (suc rounds) skipped entry = do
    pc ← spike_pc
    exec_if (pc == entry) (pure skipped) (do _ ← spike_step; align_from rounds (skipped + 1) entry)

  unfoldable pub align_spike : ℕ → Action ℕ
  unfolding align_from
  align_spike entry = align_from 32 0 entry

  -- `spike_registers`, from register `reg` on
  unfoldable pub registers_from : ℕ → ℕ → Action (List ℕ)
  unfolding ◌>>=◌
  registers_from zero reg = pure []
  registers_from (suc rounds) reg = do
    lines ← p.command (codes "reg 0 " ++ decimal reg)
    v ← lift (only_hex (err (no_register_answer reg)) (hex_lines lines))
    rest ← registers_from rounds (reg + 1)
    pure (v ∷ rest)

  unfoldable pub spike_registers : Action (List ℕ)
  unfolding registers_from
  spike_registers = registers_from 32 0

  unfoldable pub csrs_of : List Text → Action (List (Text × ℕ))
  unfolding ◌>>=◌
  csrs_of [] = pure []
  csrs_of (name ∷ names) = do
    lines ← p.command (codes "reg 0 " ++ name)
    v ← lift (some_value name (hex_lines lines))
    rest ← csrs_of names
    pure (v ++ rest)

  -- CSRs that this Spike does not answer for are left out.
  unfoldable pub spike_csrs : Action (List (Text × ℕ))
  unfolding csrs_of
  spike_csrs = csrs_of csr_names
