-- ===== src/Lockstep/Compare.antt =====
-- `differences` of scripts/lockstep.py: the entries in which an event and its reference differ.
pub mod Agreement
use pipelined_core.Common.{
  ℕ, Bool, true, false, not, ◌&&◌, Option, none, some, List, [], ◌∷◌, ◌++◌, ◌==◌, if◌then◌else◌, ok,
  ◌>>=◌,
}
use pipelined_core.Common.Dict.{Dict, dict_eq}
use pipelined_core.Lockstep.Error.{Checked}
use pipelined_core.Lockstep.Event.{Retire, Effects, int_hex, dut_effects}
use pipelined_core.Lockstep.Reference.{Reference, Trap, Commit, trap, commit}

-- The entries of the returned dict: the DUT's value, then Spike's.
pub data Difference : Type 0 where
  pc insn cause tval priv : ℕ → ℕ → Difference
  is_trap : Bool → Bool → Difference
  registers csr_writes memory_writes : Dict ℕ → Dict ℕ → Difference
  memory_reads : List ℕ → List ℕ → Difference

-- `if dut != spike: fields[name] = (dut, spike)`
abbrev pub unless_eq : Bool → Difference → List Difference
unless_eq equal d = if equal then [] else d ∷ []

abbrev pub list_eq : List ℕ → List ℕ → Bool
list_eq [] [] = true
list_eq (a ∷ xs) (b ∷ ys) = a == b && list_eq xs ys
list_eq _ _ = false

abbrev pub bool_eq : Bool → Bool → Bool
bool_eq true b = b
bool_eq false b = not b

-- `reference["pc"]`, `reference["trap"]` and `reference["insn"]`
abbrev pub reference_pc : Reference → ℕ
reference_pc (trap t) = t.pc
reference_pc (commit c) = c.pc

abbrev pub reference_trap : Reference → Bool
reference_trap (trap t) = true
reference_trap (commit c) = false

abbrev pub reference_insn : Reference → Option ℕ
reference_insn (trap t) = t.insn
reference_insn (commit c) = some c.insn

abbrev pub insn_difference : ℕ → Option ℕ → List Difference
insn_difference i none = []
insn_difference i (some j) = unless_eq (i == j) (insn i j)

unfoldable pub trap_differences : Retire → Trap → Checked (List Difference)
trap_differences event t = do
  c ← int_hex event.cause
  v ← int_hex event.tval
  ok (unless_eq (c == t.cause) (cause c t.cause) ++ unless_eq (v == t.tval) (tval v t.tval))

unfoldable pub effect_differences : Effects → Commit → List Difference
effect_differences dut c =
    unless_eq (dict_eq dut.regs c.regs) (registers dut.regs c.regs)
    ++ (unless_eq (dict_eq dut.csrs c.csrs) (csr_writes dut.csrs c.csrs)
        ++ (unless_eq (list_eq dut.reads c.reads) (memory_reads dut.reads c.reads)
            ++ unless_eq (dict_eq dut.writes c.writes) (memory_writes dut.writes c.writes)))

unfoldable pub commit_differences : Retire → Commit → Checked (List Difference)
unfolding effect_differences
commit_differences event c = do
  dut ← dut_effects event
  ok (unless_eq (event.priv == c.priv) (priv event.priv c.priv) ++ effect_differences dut c)

abbrev pub rest_differences : Retire → Reference → Checked (List Difference)
rest_differences event (trap t) = trap_differences event t
rest_differences event (commit c) = commit_differences event c

unfoldable pub differences : Retire → Reference → Checked (List Difference)
unfolding trap_differences commit_differences
differences event reference = do
  dut_pc ← int_hex event.pc
  dut_insn ← int_hex event.insn
  rest ← rest_differences event reference
  ok (
      unless_eq (dut_pc == reference_pc reference) (pc dut_pc (reference_pc reference))
      ++ (unless_eq (bool_eq event.trap (reference_trap reference))
            (is_trap event.trap (reference_trap reference))
          ++ (insn_difference dut_insn (reference_insn reference) ++ rest)))
