-- ===== src/Lockstep/Event.antt =====
-- The DUT's JSON events, and `dut_effects` of scripts/lockstep.py.
use pipelined_core.Common.{
  ℕ, ◌+◌, ◌-◌, ◌/◌, ◌%◌, ◌^◌, bit_and, Bool, List, [], ◌∷◌, ◌==◌, if◌then◌else◌, ok, ◌>>=◌,
  or_raise, map_result,
}
use pipelined_core.Common.Text.{Text, int_16}
use pipelined_core.Common.Dict.{Dict, from_pairs}
use pipelined_core.Lockstep.Error.{Checked, value_error}
use pipelined_core.Lockstep.Reference.{byte_of}

pub record CsrWrite : Type 0 where
  pub addr : Text
  pub value : Text

-- An event of kind "retire" with every entry that the DUT prints; the texts are hexadecimal numerals.
-- `csr_writes` is empty where the entry is missing.
pub record Retire : Type 0 where
  pub order : ℕ
  pub pc : Text
  pub insn : Text
  pub priv : ℕ
  pub rd : ℕ
  pub rd_data : Text
  pub mem_addr : Text
  pub mem_rmask : ℕ
  pub mem_wmask : ℕ
  pub mem_wdata : Text
  pub trap : Bool
  pub cause : Text
  pub tval : Text
  pub csr_writes : List CsrWrite

-- By the entry "kind"; `unknown` is any other kind.
pub data Event : Type 0 where
  cycle done unknown : Event
  retire : Retire → Event

-- `int(text, 16)`
abbrev pub int_hex : Text → Checked ℕ
int_hex s = or_raise (int_16 s) value_error

-- `addr & ~3`
abbrev pub align_word : ℕ → ℕ
align_word addr = addr - addr % 4

-- `(mask >> byte) & 1`
abbrev pub lane : ℕ → ℕ → ℕ
lane mask byte = bit_and (mask / 2 ^ byte) 1

abbrev pub lanes : List ℕ
lanes = 0 ∷ 1 ∷ 2 ∷ 3 ∷ []

-- `[aligned + byte for byte in range(4) if (mask >> byte) & 1]`, over the given bytes
unfoldable pub lane_reads : ℕ → ℕ → List ℕ → List ℕ
lane_reads aligned mask [] = []
lane_reads aligned mask (byte ∷ more) =
    let rest = lane_reads aligned mask more in
    if lane mask byte == 0 then rest else (aligned + byte) ∷ rest

-- The pairs of the dict comprehension for the writes.
unfoldable pub lane_writes : ℕ → ℕ → ℕ → List ℕ → List (ℕ × ℕ)
lane_writes aligned value mask [] = []
lane_writes aligned value mask (byte ∷ more) =
    let rest = lane_writes aligned value mask more in
    if lane mask byte == 0 then rest else (aligned + byte, byte_of value byte) ∷ rest

pub record Effects : Type 0 where
  pub reads : List ℕ
  pub writes : Dict ℕ
  pub regs : Dict ℕ
  pub csrs : Dict ℕ

abbrev pub csr_pair : CsrWrite → Checked (ℕ × ℕ)
csr_pair item = do a ← int_hex item.addr; v ← int_hex item.value; ok (a, v)

unfoldable pub rd_write : ℕ → Text → Checked (Dict ℕ)
rd_write rd rd_data = if rd == 0 then ok [] else do v ← int_hex rd_data; ok ((rd, v) ∷ [])

-- The lists and dicts that `dut_effects` returns, from the numbers that it has read.
unfoldable pub effects_of : Retire → ℕ → ℕ → Dict ℕ → List (ℕ × ℕ) → Effects
unfolding lane_reads lane_writes
effects_of event addr value regs csrs =
    let aligned = align_word addr in
    record {
      reads = lane_reads aligned event.mem_rmask lanes;
      writes = from_pairs (lane_writes aligned value event.mem_wmask lanes);
      regs = regs;
      csrs = from_pairs csrs;
    }

unfoldable pub dut_effects : Retire → Checked Effects
unfolding effects_of rd_write
dut_effects event = do
  addr ← int_hex event.mem_addr
  value ← int_hex event.mem_wdata
  regs ← rd_write event.rd event.rd_data
  csrs ← map_result csr_pair event.csr_writes
  ok (effects_of event addr value regs csrs)
