-- ===== src/Examples/Simulations.antt =====
-- A scripted simulator that passes every scenario of scripts/verify_cached_core.py.
use pipelined_core.Common.{
  ℕ, ◌+◌, Bool, true, false, ◌&&◌, Option, none, some, List, [], ◌∷◌, ◌++◌, ok, ◌≡◌, refl,
  get_elem?, if◌then◌else◌,
}
use pipelined_core.Common.Text.{Text, codes, text_eq}
use pipelined_core.Lockstep.Event.{Retire, Event, done, retire}
use pipelined_core.Cached.{Simulator, run}
use pipelined_core.Cached.Heard.{Ran, run_iff}
use pipelined_core.Cached.Scenarios.{scenarios, image, main}
use pipelined_core.Cached.Verified.{Verified, main-Verified}

abbrev event : (pc insn rd_data mem_wdata : Text) (rmask : ℕ) (trap : Bool) → Retire
event pc insn rd_data mem_wdata rmask trap = record {
  order = 0;
  pc = pc;
  insn = insn;
  priv = 3;
  rd = 0;
  rd_data = rd_data;
  mem_addr = codes "0";
  mem_rmask = rmask;
  mem_wmask = 0;
  mem_wdata = mem_wdata;
  trap = trap;
  cause = codes "b";
  tval = codes "0";
  csr_writes = [];
}

-- An instruction that writes a register, and an `ecall`.
abbrev writes : Text → Text → Retire
writes pc rd_data = event pc (codes "00000013") rd_data (codes "0") 0 false

abbrev ecall : Retire
ecall = event (codes "80000040") (codes "00000073") (codes "0") (codes "0") 0 true

abbrev faulting : (pc cause tval : Text) → Retire
faulting pc cause tval = record ecall { pc = pc; cause = cause; tval = tval }

abbrev nop : Retire
nop = writes (codes "80000000") (codes "0")

-- Image, value of the variable, events and output of a run.
abbrev Row : Type 0
Row = Text × (Text × (List Retire × Text))

abbrev atomic : Text → Text → (sc_pc sc_rd load_pc load_rd : Text) → Row
atomic name mode sc_pc sc_rd load_pc load_rd =
    (name, (mode, (writes sc_pc sc_rd ∷ writes load_pc load_rd ∷ ecall ∷ [], codes "DMA done=1")))

abbrev amo_row : Text → (old written loaded : Text) → Row
amo_row mode old written loaded = (
  codes "amo_contention",
  (
    mode,
    (
      event (codes "8000000c") (codes "0000202f") old written 15 false
          ∷ event (codes "80000010") (codes "0000a003") loaded (codes "0") 15 false
          ∷ ecall
          ∷ [],
      codes "DMA done=1 blocked=1",
    ),
  ),
)

abbrev fault_row : Text → Text → List Retire → Row
fault_row name address events = (name, (address, (events, [])))

abbrev rows : List Row
rows =
    (
      codes "uncached_executable",
      (
        [],
        (
          writes (codes "87800000") (codes "a")
              ∷ writes (codes "87800000") (codes "14")
              ∷ ecall
              ∷ [],
          codes "I misses=1 bypass=4 D misses=0 writebacks=0 bypass=3",
        ),
      ),
    )
    ∷ atomic (codes "atomic_contention") (codes "1") (codes "80000014") (codes "1")
        (codes "80000018") (codes "9")
    ∷ atomic (codes "atomic_contention") (codes "2") (codes "80000014") (codes "0")
        (codes "80000018") (codes "6")
    ∷ atomic (codes "burst_reservation") (codes "4") (codes "80000010") (codes "1")
        (codes "80000014") (codes "9")
    ∷ atomic (codes "reservation_store") (codes "0") (codes "80000014") (codes "1")
        (codes "80000018") (codes "5")
    ∷ amo_row (codes "3") (codes "5") (codes "a") (codes "9")
    ∷ amo_row (codes "5") (codes "9") (codes "e") (codes "e")
    ∷ atomic (codes "atomic_contention") (codes "6") (codes "80000014") (codes "0")
        (codes "80000018") (codes "6")
    ∷ fault_row (codes "smoke") (codes "80000000")
        (faulting (codes "80000000") (codes "1") (codes "80000000") ∷ [])
    ∷ fault_row (codes "fault_load") (codes "80004000")
        (nop ∷ faulting (codes "80000004") (codes "5") (codes "80004000") ∷ [])
    ∷ fault_row (codes "fault_store") (codes "87800000")
        (nop ∷ nop ∷ faulting (codes "80000008") (codes "7") (codes "87800000") ∷ [])
    ∷ fault_row (codes "fault_eviction") (codes "80004000") (
        nop
        ∷ nop
        ∷ nop
        ∷ nop
        ∷ nop
        ∷ nop
        ∷ faulting (codes "80000018") (codes "7") (codes "80006000")
        ∷ [])
    ∷ fault_row (codes "fault_fence") (codes "80004000")
        (nop ∷ nop ∷ nop ∷ faulting (codes "8000000c") (codes "7") (codes "8000000c") ∷ [])
    ∷ []

abbrev value_of : List (Text × Text) → Text
value_of [] = []
value_of ((n, v) ∷ more) = v

-- The place of the run among the rows.
abbrev place : List Row → Text → Text → ℕ
place [] given value = 0
place (r ∷ rs) given value =
    if text_eq (image (codes "/b") r.0) given && text_eq r.1.0 value
    then 0
    else place rs given value + 1

abbrev events_at : ℕ → List Retire
events_at n = elim (get_elem? rows n) [ none ↦ [] | some r ↦ r.1.1.0 ]

abbrev output_at : ℕ → Text
output_at n = elim (get_elem? rows n) [ none ↦ [] | some r ↦ r.1.1.1 ]

abbrev decoded : Text → Option Event
decoded (n ∷ at ∷ []) = elim (get_elem? (events_at n) at) [
  | none ↦ some done
  | some e ↦ some (retire e)
]
decoded _ = none

-- The world is the row that runs and the number of its answers.
abbrev passing : Simulator
passing = record {
  World = ℕ × ℕ;
  start = λ given environment w. (place rows given (value_of environment), 0);
  send = λ text w. (true, w);
  read_line = λ w. (w.0 ∷ w.1 ∷ [], (w.0, w.1 + 1));
  loads = decoded;
  communicate = λ w. (some (true, output_at w.0), w);
  running = λ w. false;
  kill = λ w. w;
  self_test = λ option given w. (true, w);
}

main_ends : (main passing (codes "/b") (0, 0)).0 ≡ ok tt
unfolding main run pipelined_core.Cached.rounds pipelined_core.Cached.Scenarios.uncached_check
    pipelined_core.Common.Text.int_16 pipelined_core.Regex.search_all
    pipelined_core.Common.Text.int_10 pipelined_core.Cached.Scenarios.contention_check
    pipelined_core.Common.Bytes.find pipelined_core.Cached.Scenarios.amo_check
    pipelined_core.Common.Text.Lines.after_prefix pipelined_core.Cached.Scenarios.dma_check
    pipelined_core.Cached.Scenarios.fault_check
main_ends = refl

main-Verified_example : Verified passing (codes "/b") (0, 0) scenarios
main-Verified_example = main-Verified passing (codes "/b") (0, 0) main_ends

smoke_ends :
    (run passing (codes "/b/smoke.hex") ((codes "FAIL_READ_ADDR", codes "80000000") ∷ []) (0, 0)).0
    ≡ ok (events_at 8, [])
unfolding run pipelined_core.Cached.rounds
smoke_ends = refl

run_iff_example :
    Ran passing
      (codes "/b/smoke.hex")
      ((codes "FAIL_READ_ADDR", codes "80000000") ∷ [])
      (0, 0)
      (events_at 8)
      []
run_iff_example =
    (run_iff passing (codes "/b/smoke.hex") ((codes "FAIL_READ_ADDR", codes "80000000") ∷ []) (0, 0)
        (events_at 8) []).0
      smoke_ends
