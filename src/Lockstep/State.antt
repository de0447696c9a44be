-- ===== src/Lockstep/State.antt =====
-- The arguments and the variables of `run` in scripts/lockstep.py, and what its loop does with an
-- event apart from the calls of the two processes.
use pipelined_core.Common.{
  ℕ, ◌+◌, ◌-◌, bit_xor, Bool, true, false, Option, none, some, List, [], ◌∷◌, ◌++◌, length, set,
  drop, replicate, ltb, if◌then◌else◌, ok, err, ◌>>=◌,
}
use pipelined_core.Common.Decimal.{decimal}
use pipelined_core.Common.Text.{Text, codes, text_eq, hex_08}
use pipelined_core.Common.Dict.{Dict, update}
use pipelined_core.Lockstep.Error.{Checked, index_error}
use pipelined_core.Lockstep.Event.{Retire, int_hex, dut_effects}

pub record Args : Type 0 where
  pub entry : ℕ
  pub limit : ℕ
  pub watchdog : ℕ
  pub require_done : Bool
  pub until_trap : Bool
  -- `rd@N`, `store@N` or `cause@N`; a text of another form injects nothing
  pub inject : Text

-- `history.append({"order": ..., "pc": ..., "insn": ...})`
pub record Past : Type 0 where
  pub order : ℕ
  pub pc : Text
  pub insn : Text

-- The variables of `run` that the loop changes.
pub record Locals : Type 0 where
  pub history : List Past
  pub dut_regs : List (Option ℕ)
  pub dut_csrs : Dict ℕ
  pub memory : Dict ℕ
  pub retired : ℕ
  pub traps : ℕ
  pub cycles_without_retire : ℕ

abbrev pub initial : Locals
initial = record {
  history = [];
  dut_regs = some 0 ∷ replicate 31 none;
  dut_csrs = [];
  memory = [];
  retired = 0;
  traps = 0;
  cycles_without_retire = 0;
}

-- `f"{(int(text, 16) ^ 1):08x}"`
unfoldable pub flip : Text → Checked Text
flip text = do v ← int_hex text; ok (hex_08 (bit_xor v 1))

abbrev pub with_rd_data : Retire → Text → Retire
with_rd_data event t = record event { rd_data = t }

abbrev pub with_mem_wdata : Retire → Text → Retire
with_mem_wdata event t = record event { mem_wdata = t }

abbrev pub with_cause : Retire → Text → Retire
with_cause event t = record event { cause = t }

-- `args.inject == f"rd@{retired}"` and the like
abbrev pub targets : Text → Text → ℕ → Bool
targets inject kind retired = text_eq inject (kind ++ decimal retired)

-- One of the three `if args.inject == ...`: the field `text`, flipped if it is targeted.
unfoldable pub flip_if : Bool → (Retire → Text → Retire) → Text → Retire → Checked Retire
unfolding flip
flip_if false put text event = ok event
flip_if true put text event = do t ← flip text; ok (put event t)

-- The injected fault at the event of index `retired`.
unfoldable pub inject_fault : Text → ℕ → Retire → Checked Retire
unfolding flip_if
inject_fault inject retired event = do
  e1 ← flip_if (targets inject (codes "rd@") retired) with_rd_data event.rd_data event
  e2 ← flip_if (targets inject (codes "store@") retired) with_mem_wdata e1.mem_wdata e1
  flip_if (targets inject (codes "cause@") retired) with_cause e2.cause e2

-- `for reg, value in regs.items(): dut_regs[reg] = value`
unfoldable pub assign_regs : List (Option ℕ) → Dict ℕ → Checked (List (Option ℕ))
assign_regs regs [] = ok regs
assign_regs regs ((reg, v) ∷ more) =
    let rest = assign_regs (set regs reg (some v)) more in
    if ltb reg (length regs) then rest else err (index_error reg)

-- A `deque` of at most 8 entries drops the oldest.
unfoldable pub remember : List Past → Past → List Past
remember history past = drop (length history + 1 - 8) (history ++ past ∷ [])

abbrev pub bool_int : Bool → ℕ
bool_int true = 1
bool_int false = 0

-- What the loop does with an event that matches.
unfoldable pub record_event : Locals → Retire → Checked Locals
unfolding assign_regs remember
record_event l event = do
  dut ← dut_effects event
  regs ← assign_regs l.dut_regs dut.regs
  ok (record {
    history = remember l.history (record { order = l.retired; pc = event.pc; insn = event.insn });
    dut_regs = regs;
    dut_csrs = update l.dut_csrs dut.csrs;
    memory = update l.memory dut.writes;
    retired = l.retired + 1;
    traps = l.traps + bool_int event.trap;
    cycles_without_retire = 0;
  })
