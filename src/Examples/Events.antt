-- ===== src/Examples/Events.antt =====
-- Retirements of the DUT beside Spike's reports of the same instructions.
use pipelined_core.Common.{
  ℕ, Bool, true, false, none, some, List, [], ◌∷◌, ◌++◌, ok, ◌≡◌, ◌≢◌, ◌↔◌, refl, arith,
}
use pipelined_core.Common.Decimal.{decimal}
use pipelined_core.Common.Text.{Text, codes}
use pipelined_core.Lockstep.Compare.{differences}
use pipelined_core.Lockstep.Compare.Agreement.{Agrees, differences_iff}
use pipelined_core.Lockstep.Event.{Retire, lane}
use pipelined_core.Lockstep.Injection.{inject_rd_found, inject_cause_found, inject_store_iff}
use pipelined_core.Lockstep.Reference.{Trap, Commit, trap, commit, parse_spike_step}
use pipelined_core.Lockstep.State.{inject_fault, with_rd_data, with_mem_wdata, with_cause}

-- addi x2, x0, 7
abbrev pub addi : Retire
addi = record {
  order = 0;
  pc = codes "80000000";
  insn = codes "00700113";
  priv = 3;
  rd = 2;
  rd_data = codes "00000007";
  mem_addr = codes "00000000";
  mem_rmask = 0;
  mem_wmask = 0;
  mem_wdata = codes "00000000";
  trap = false;
  cause = codes "00000000";
  tval = codes "00000000";
  csr_writes = [];
}

abbrev pub addi_line : Text
addi_line = codes "core   0: 3 0x80000000 (0x00700113) x2  0x00000007"

abbrev pub addi_commit : Commit
addi_commit = record {
  pc = 2147483648;
  insn = 7340307;
  priv = 3;
  regs = (2, 7) ∷ [];
  csrs = [];
  reads = [];
  writes = [];
}

-- sh x2, 0(x1)
abbrev pub sh : Retire
sh = record {
  order = 1;
  pc = codes "80000004";
  insn = codes "00209023";
  priv = 3;
  rd = 0;
  rd_data = codes "00000000";
  mem_addr = codes "80001002";
  mem_rmask = 0;
  mem_wmask = 12;
  mem_wdata = codes "12340000";
  trap = false;
  cause = codes "00000000";
  tval = codes "00000000";
  csr_writes = [];
}

abbrev sh_commit : Commit
sh_commit = record {
  pc = 2147483652;
  insn = 2134051;
  priv = 3;
  regs = [];
  csrs = [];
  reads = [];
  writes = (2147487746, 52) ∷ (2147487747, 18) ∷ [];
}

-- ecall
abbrev ecall : Retire
ecall = record {
  order = 2;
  pc = codes "80000008";
  insn = codes "00000073";
  priv = 3;
  rd = 0;
  rd_data = codes "00000000";
  mem_addr = codes "00000000";
  mem_rmask = 0;
  mem_wmask = 0;
  mem_wdata = codes "00000000";
  trap = true;
  cause = codes "0000000b";
  tval = codes "00000000";
  csr_writes = [];
}

abbrev ecall_trap : Trap
ecall_trap = record { pc = 2147483656; insn = some 115; cause = 11; tval = 0 }

pub addi_parsed : parse_spike_step (addi_line ∷ []) ≡ ok (commit addi_commit)
unfolding parse_spike_step mathlib.Core.List.filter_map pipelined_core.Regex.fullmatch
    pipelined_core.Common.Text.int_16 pipelined_core.Regex.find_all
    pipelined_core.Common.Text.int_10 pipelined_core.Common.Dict.update
    pipelined_core.Common.Dict.insert
addi_parsed = refl

addi_same : differences addi (commit addi_commit) ≡ ok []
unfolding differences pipelined_core.Common.Text.int_16 pipelined_core.Lockstep.Event.dut_effects
    pipelined_core.Common.Dict.dict_eq pipelined_core.Common.Dict.lookup
    pipelined_core.Common.Dict.update
addi_same = refl

sh_same : differences sh (commit sh_commit) ≡ ok []
unfolding differences pipelined_core.Common.Text.int_16 pipelined_core.Lockstep.Event.dut_effects
    pipelined_core.Common.Dict.dict_eq pipelined_core.Common.Dict.update
    pipelined_core.Common.Dict.insert pipelined_core.Common.Dict.lookup
sh_same = refl

ecall_same : differences ecall (trap ecall_trap) ≡ ok []
unfolding differences pipelined_core.Common.Text.int_16
ecall_same = refl

differences_iff_example :
    (differences addi (commit addi_commit) ≡ ok []) ↔ Agrees addi (commit addi_commit)
differences_iff_example = differences_iff addi (commit addi_commit)

pub addi-Agrees : Agrees addi (commit addi_commit)
addi-Agrees = (differences_iff addi (commit addi_commit)).0 addi_same

sh-Agrees : Agrees sh (commit sh_commit)
sh-Agrees = (differences_iff sh (commit sh_commit)).0 sh_same

ecall-Agrees : Agrees ecall (trap ecall_trap)
ecall-Agrees = (differences_iff ecall (trap ecall_trap)).0 ecall_same

addi_injected :
    inject_fault (codes "rd@" ++ decimal 0) 0 addi ≡ ok (with_rd_data addi (codes "00000006"))
unfolding inject_fault decimal pipelined_core.Common.Text.int_16 pipelined_core.Common.Text.hex_08
addi_injected = refl

sh_injected :
    inject_fault (codes "store@" ++ decimal 1) 1 sh ≡ ok (with_mem_wdata sh (codes "12340001"))
unfolding inject_fault decimal pipelined_core.Common.Text.int_16 pipelined_core.Common.Text.hex_08
sh_injected = refl

ecall_injected :
    inject_fault (codes "cause@" ++ decimal 2) 2 ecall ≡ ok (with_cause ecall (codes "0000000a"))
unfolding inject_fault decimal pipelined_core.Common.Text.int_16 pipelined_core.Common.Text.hex_08
ecall_injected = refl

inject_rd_found_example :
    differences (with_rd_data addi (codes "00000006")) (commit addi_commit) ≢ ok []
inject_rd_found_example =
    inject_rd_found 0 addi (with_rd_data addi (codes "00000006")) addi_commit (omega arith)
      addi-Agrees addi_injected

inject_cause_found_example :
    differences (with_cause ecall (codes "0000000a")) (trap ecall_trap) ≢ ok []
inject_cause_found_example =
    inject_cause_found 2 ecall (with_cause ecall (codes "0000000a")) ecall_trap ecall-Agrees
      ecall_injected

inject_store_iff_example :
    (differences (with_mem_wdata sh (codes "12340001")) (commit sh_commit) ≡ ok [])
    ↔ (lane 12 0 ≡ 0)
inject_store_iff_example =
    inject_store_iff 1 sh (with_mem_wdata sh (codes "12340001")) sh_commit sh-Agrees sh_injected
