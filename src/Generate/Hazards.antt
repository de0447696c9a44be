-- ===== src/Generate/Hazards.antt =====
-- tests/core/gen_hazard_traps.py: programs that trap behind a hazard, for a stage of the pipeline.
pub mod Targets
pub mod Good
pub mod Total
use pipelined_core.Common.{
  ℕ, zero, suc, ◌+◌, ◌-◌, ◌*◌, ◌^◌, Bool, true, false, ◌&&◌, ◌||◌, Option, none, some, List, [],
  ◌∷◌, ◌++◌, length, replicate, get_elem?, if◌then◌else◌, Result, ok, err, or_raise,
}
use pipelined_core.Common.Exec.{Effect, pure, raise, lift, ◌>>=◌}
use pipelined_core.Common.Int.{ℤ, pos, negsuc}
use pipelined_core.Common.Text.{Text, codes, text_eq}
use pipelined_core.Common.Text.Lines.{startswith, backwards}
use pipelined_core.Generate.{Rng, numbers}

-- `random.Random` with `sample(population, k)`.
pub record Sampler : Type 1 where
  pub rng : Rng
  pub sample : List ℕ → ℕ → rng.State → List ℕ × rng.State

-- A ValueError: of the unpacking of a sample, a target that is excluded, an unknown hazard; and an
-- IndexError of `choice`.
pub data Error : Type 0 where
  bad_sample excluded bad_choice : Error
  unknown_hazard : Text → Error

-- A line, by the values that it shows; registers are numbers.
pub data Item : Type 0 where
  option_norvc section_text globl_start start_label jal_prefix prefix_label : Item
  org : ℕ → Item
  lui : (rd imm : ℕ) → Item
  addi : (rd rs : ℕ) → ℤ → Item
  sw lw : (r offset base : ℕ) → Item
  jalr : (rd offset base : ℕ) → Item
  div mul : (rd rs1 rs2 : ℕ) → Item
  csrrw_mscratch : (rd rs : ℕ) → Item
  word : ℕ → Item
  ebreak ecall : Item

-- The seven registers of a program.
pub record Regs : Type 0 where
  pub b : ℕ
  pub v : ℕ
  pub r : ℕ
  pub src : ℕ
  pub q : ℕ
  pub c : ℕ
  pub tmp : ℕ

abbrev pub unpack : List ℕ → Option Regs
unpack (b ∷ v ∷ r ∷ src ∷ q ∷ c ∷ tmp ∷ []) =
    some (record { b = b; v = v; r = r; src = src; q = q; c = c; tmp = tmp })
unpack _ = none

abbrev pub endswith : Text → Text → Bool
endswith part text = startswith (backwards part) (backwards text)

-- `1 + gap if stage == 'fetch_stage' else gap`
abbrev pub slots : Bool → ℕ → ℕ
slots fetch gap = if fetch then 1 + gap else gap

-- What the exception adds to the setup, by the first two tests.
abbrev pub setup_by : (jumps plain : Bool) → Regs → List Item
setup_by true plain g = lui g.b 524288 ∷ addi g.b g.b (pos 2) ∷ []
setup_by false true g = []
setup_by false false g = lui g.b 524304 ∷ []

unfoldable pub fault_setup : Regs → Text → List Item
fault_setup g exception =
    setup_by (text_eq exception (codes "instruction_misaligned"))
      (text_eq exception (codes "instruction_access")
        || (text_eq exception (codes "illegal_instruction")
            || (text_eq exception (codes "breakpoint")
                || (text_eq exception (codes "machine_ecall")
                    || (text_eq exception (codes "load_misaligned")
                        || text_eq exception (codes "store_misaligned"))))))
      g

-- `0x40001013 | (base << 15) | (result << 7)`, whose parts have no bit in common
abbrev pub illegal : Regs → Item
illegal g = word (1073745939 + g.b * 2 ^ 15 + g.r * 2 ^ 7)

-- The instruction that traps, by the tests in their order; without one the program runs over the end
-- of the memory.
abbrev pub fault_by :
    (jumps runs_over illegal_one breaks calls misaligned loads : Bool) → Regs → Option Item
fault_by true a i bp ec m l g = some (jalr g.r 0 g.b)
fault_by false true i bp ec m l g = none
fault_by false false true bp ec m l g = some (illegal g)
fault_by false false false true ec m l g = some ebreak
fault_by false false false false true m l g = some ecall
fault_by false false false false false true true g = some (lw g.r 2 g.b)
fault_by false false false false false true false g = some (sw g.v 2 g.b)
fault_by false false false false false false true g = some (lw g.r 0 g.b)
fault_by false false false false false false false g = some (sw g.v 0 g.b)

unfoldable pub fault_of : Regs → Text → Option Item
fault_of g exception =
    fault_by (text_eq exception (codes "instruction_misaligned"))
      (text_eq exception (codes "instruction_access"))
      (text_eq exception (codes "illegal_instruction")) (text_eq exception (codes "breakpoint"))
      (text_eq exception (codes "machine_ecall"))
      (text_eq exception (codes "load_misaligned") || text_eq exception (codes "store_misaligned"))
      (startswith (codes "load") exception) g

abbrev pub header : List Item
header = option_norvc ∷ section_text ∷ globl_start ∷ start_label ∷ []

-- `lines` behind the setup.
abbrev pub body_of : Regs → Option Item → List Item → List Item
body_of g none prefix = jal_prefix ∷ org (65536 - 4 * length prefix) ∷ prefix_label ∷ prefix
body_of g (some fault) prefix = prefix ++ (fault ∷ sw g.src 4 g.b ∷ word 4294967295 ∷ [])

abbrev pub no_load : Text → Bool
no_load exception =
    endswith (codes "access") exception || text_eq exception (codes "instruction_misaligned")

-- `exception in ('breakpoint', 'machine_ecall', 'instruction_access')`
abbrev pub no_operand : Text → Bool
no_operand exception =
    text_eq exception (codes "breakpoint")
    || (text_eq exception (codes "machine_ecall") || text_eq exception (codes "instruction_access"))

-- The whole program, of the values that were drawn for it.
abbrev pub program : Regs → Text → (first second : ℤ) → (gaps prefix : List Item) → List Item
program g exception first second gaps prefix =
    header
    ++ ((lui g.b 524289
          ∷ addi g.v 0 first
          ∷ addi g.src 0 second
          ∷ sw g.v 0 g.b
          ∷ (gaps ++ fault_setup g exception))
        ++ body_of g (fault_of g exception) prefix)

module _ (s : Sampler) where
  abbrev pub Gen : Type 0 → Type 0
  Gen A = Effect Error s.rng.State A

  abbrev pub draw : {A : Type 0} → (s.rng.State → A × s.rng.State) → Gen A
  draw f state = let (a, state') = f state in (ok a, state')

  abbrev pub between : ℕ → ℕ → Gen ℤ
  between low high = draw (s.rng.between (pos low) (pos high))

  -- `rng.randrange(-2048, 2048)`
  abbrev pub immediate : Gen ℤ
  immediate = draw (s.rng.between (negsuc 2047) (pos 2048))

  abbrev pub choose : List Item → Gen Item
  choose items =
      draw (s.rng.choice (length items)) >>= λ i. lift (or_raise (get_elem? items i) bad_choice)

  -- The loop over the scheduling gaps in the setup.
  unfoldable pub fillers : ℕ → ℕ → Gen (List Item)
  unfolding ◌>>=◌
  fillers zero tmp = pure []
  fillers (suc left) tmp = do imm ← immediate; rest ← fillers left tmp; pure (addi tmp 0 imm ∷ rest)

  abbrev pub replaced : Bool → Regs → Item → Gen Item
  replaced true g producer = between 1 100 >>= λ imm. pure (addi g.q g.v imm)
  replaced false g producer = pure producer

  -- The last line of the prefix in the fetch stage, which reads what the producer writes.
  abbrev pub consumed : Regs → List Item → Item → Gen (List Item)
  consumed g nops producer =
      between 1 100 >>= λ last. pure (producer ∷ (nops ++ (addi g.c g.q last ∷ [])))

  abbrev pub produced : Regs → Text → List Item → Item → Gen (List Item)
  produced g exception nops chosen = replaced (no_load exception) g chosen >>= consumed g nops

  abbrev pub picked : Regs → Text → List Item → ℤ → Gen (List Item)
  picked g exception nops imm =
      choose (addi g.q g.v imm ∷ mul g.q g.v g.src ∷ lw g.q 0 g.b ∷ [])
      >>= produced g exception nops

  -- The prefix of a RAW dependency in the fetch stage.
  unfoldable pub raw_fetch : Regs → Text → List Item → Gen (List Item)
  raw_fetch g exception nops = between 1 100 >>= picked g exception nops

  abbrev pub chosen_producer : Regs → Gen Item
  chosen_producer g = between 1 100 >>= λ imm. choose (addi g.b g.v imm ∷ mul g.b g.v g.src ∷ [])

  -- The producer of the operand that the fault consumes, by the tests in their order.
  abbrev pub producer_by : (jumps access misaligned : Bool) → Regs → Gen Item
  producer_by true access misaligned g = pure (addi g.b g.b (pos 0))
  producer_by false true misaligned g = pure (lui g.b 524304)
  producer_by false false true g = pure (lui g.b 524289)
  producer_by false false false g = chosen_producer g

  unfoldable pub raw_producer : Regs → Text → Gen Item
  raw_producer g exception =
      producer_by (text_eq exception (codes "instruction_misaligned")) (no_load exception)
        (endswith (codes "misaligned") exception) g

  abbrev pub raw_decode : Bool → Regs → Text → List Item → Gen (List Item)
  raw_decode true g exception nops = raise excluded
  raw_decode false g exception nops =
      raw_producer g exception >>= λ producer. pure (producer ∷ nops)

  abbrev pub raw_prefix : Bool → Regs → Text → List Item → Gen (List Item)
  raw_prefix true g exception nops = raw_fetch g exception nops
  raw_prefix false g exception nops = raw_decode (no_operand exception) g exception nops

  abbrev pub prefix_by :
      (divides serializes raw fetch : Bool)
      → Regs
      → (hazard exception : Text) → (gap : ℕ) → Item
      → Gen (List Item)
  prefix_by true z w fetch g hazard exception gap nop =
      pure (div g.q g.src g.v ∷ replicate (slots fetch gap) nop)
  prefix_by false true w fetch g hazard exception gap nop =
      pure (csrrw_mscratch g.q g.v ∷ replicate (slots fetch gap) nop)
  prefix_by false false true fetch g hazard exception gap nop =
      raw_prefix fetch g exception (replicate gap nop)
  prefix_by false false false fetch g hazard exception gap nop = raise (unknown_hazard hazard)

  unfoldable pub prefix_of : Regs → (hazard exception stage : Text) → ℕ → Item → Gen (List Item)
  unfolding raw_fetch raw_producer
  prefix_of g hazard exception stage gap nop =
      prefix_by (text_eq hazard (codes "divider_busy")) (text_eq hazard (codes "serialization"))
        (text_eq hazard (codes "raw_dependency")) (text_eq stage (codes "fetch_stage")) g hazard
        exception gap nop

  -- The draws behind the registers.
  unfoldable pub drawn : Regs → (hazard exception stage : Text) → Gen (List Item)
  unfolding ◌>>=◌ fillers prefix_of
  drawn g hazard exception stage = do
    first ← between 3 200
    second ← between 201 1000
    count ← draw (s.rng.randrange 5)
    gaps ← fillers count g.tmp
    gap ← draw (s.rng.randrange 3)
    imm ← immediate
    prefix ← prefix_of g hazard exception stage gap (addi g.tmp 0 imm)
    pure (program g exception first second gaps prefix)

  -- The lines of the program; the state is that of `random.Random(seed)`.
  unfoldable pub generate : (hazard exception stage : Text) → Gen (List Item)
  unfolding ◌>>=◌ drawn
  generate hazard exception stage = do
    sampled ← draw (s.sample (numbers 1 27) 7)
    g ← lift (or_raise (unpack sampled) bad_sample)
    drawn g hazard exception stage
