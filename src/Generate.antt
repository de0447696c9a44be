-- ===== src/Generate.antt =====
-- tests/core/gen_rv32i.py and tests/core/gen_m.py: the random programs for the lockstep comparison.
pub mod Draws
pub mod Lines
pub mod Safe
pub mod Hazards
use mathlib.Core.Option.{Option, none, some}
use pipelined_core.Common.{
  ℕ, zero, suc, ◌+◌, ◌-◌, ◌%◌, Bool, true, false, List, [], ◌∷◌, ◌++◌, map, length, get_elem?, ltb,
  ◌==◌, if◌then◌else◌,
}
use pipelined_core.Common.Int.{ℤ, pos, negsuc}

-- `random.Random`, with its state: `randrange(n)`, `randrange(a, b)`, and the place of what
-- `choice` takes from a sequence of `n`.
pub record Rng : Type 1 where
  pub State : Type 0
  pub randrange : ℕ → State → ℕ × State
  pub between : ℤ → ℤ → State → ℤ × State
  pub choice : ℕ → State → ℕ × State

-- The mnemonics, in the order of the source's tuples.
pub data RegReg : Type 0 where
  add sub sll slt sltu xor srl sra or and : RegReg
  mul mulh mulhsu mulhu div divu rem remu : RegReg

pub data RegImm : Type 0 where
  addi slti sltiu xori : RegImm

pub data Shift : Type 0 where
  slli srli srai : Shift

pub data Load : Type 0 where
  lb lbu lh lhu lw : Load

pub data Store : Type 0 where
  sb sh sw : Store

-- A printed line, by the values that it shows; loads and stores are based on x1.
pub data Line : Type 0 where
  prelude : Line
  lui : (rd imm : ℕ) → Line
  reg_reg : RegReg → (rd rs1 rs2 : ℕ) → Line
  reg_imm : RegImm → (rd rs1 : ℕ) → ℤ → Line
  shift : Shift → (rd rs1 amount : ℕ) → Line
  load : Load → (rd offset : ℕ) → Line
  store : Store → (rs2 offset : ℕ) → Line
  beq bne : (rs1 rs2 index : ℕ) → Line
  label : (index : ℕ) → Line
  illegal_word : Line

abbrev pub numbers : ℕ → ℕ → List ℕ
numbers a zero = []
numbers a (suc n) = a ∷ numbers (a + 1) n

-- `list(range(2, 26))`
abbrev pub regs : List ℕ
regs = numbers 2 24

-- `offset &= ~1` for halfwords, `offset &= ~3` for words
abbrev pub load_offset : Load → ℕ → ℕ
load_offset lb n = n
load_offset lbu n = n
load_offset lh n = n - n % 2
load_offset lhu n = n - n % 2
load_offset lw n = n - n % 4

abbrev pub store_offset : Store → ℕ → ℕ
store_offset sb n = n
store_offset sh n = n - n % 2
store_offset sw n = n - n % 4

module _ (g : Rng) where
  -- A use of the generator; `none` is an IndexError.
  abbrev pub Gen : Type 0 → Type 0
  Gen A = g.State → Option (A × g.State)

  abbrev pub ret : {A : Type 0} → A → Gen A
  ret a s = some (a, s)

  abbrev pub draw : {A : Type 0} → (g.State → A × g.State) → Gen A
  draw f s = some (f s)

  infixl 5 ◌>>=◌
  unfoldable pub ◌>>=◌ : {A B : Type 0} → Gen A → (A → Gen B) → Gen B
  (m >>= f) s = elim (m s) [ none ↦ none | some r ↦ f r.0 r.1 ]

  -- `xs[i]`
  unfoldable pub pick : {A : Type 0} → List A → ℕ → Gen A
  pick xs i s = elim (get_elem? xs i) [ none ↦ none | some a ↦ some (a, s) ]

  unfoldable pub choose : {A : Type 0} → List A → Gen A
  unfolding ◌>>=◌ pick
  choose xs = do i ← draw (g.choice (length xs)); pick xs i

  abbrev pub immediate : Gen ℤ
  immediate = draw (g.between (negsuc 2047) (pos 2048))

  -- The line that `op` selects in gen_rv32i.py.
  unfoldable pub rv32i_line : ℕ → ℕ → ℕ → ℕ → Gen Line
  unfolding ◌>>=◌ pick choose
  rv32i_line op rd rs1 rs2 =
      if ltb op 8
      then (do
        name ← pick (add ∷ sub ∷ sll ∷ slt ∷ sltu ∷ xor ∷ srl ∷ sra ∷ []) op
        ret (reg_reg name rd rs1 rs2))
      else if ltb op 10
      then (do name ← pick (or ∷ and ∷ []) (op - 8); ret (reg_reg name rd rs1 rs2))
      else if ltb op 11
      then (do imm ← immediate; ret (reg_imm addi rd rs1 imm))
      else if ltb op 14
      then (do
        name ← pick (slti ∷ sltiu ∷ xori ∷ []) (op - 11)
        imm ← immediate
        ret (reg_imm name rd rs1 imm))
      else if op == 14
      then (do
        name ← choose (slli ∷ srli ∷ srai ∷ [])
        amount ← draw (g.randrange 32)
        ret (shift name rd rs1 amount))
      else if op == 15
      then (do
        name ← choose (lb ∷ lbu ∷ lh ∷ lhu ∷ lw ∷ [])
        offset ← draw (g.randrange 128)
        ret (load name rd (load_offset name offset)))
      else (do
        name ← choose (sb ∷ sh ∷ sw ∷ [])
        offset ← draw (g.randrange 128)
        ret (store name rs2 (store_offset name offset)))

  -- After every 19th line a branch over at most one line.
  unfoldable pub rv32i_branch : ℕ → ℕ → Gen (List Line)
  unfolding ◌>>=◌
  rv32i_branch index rd =
      if index % 19 == 18
      then (do
        taken ← draw (g.randrange 2)
        ret (
            if taken == 0
            then bne rd rd index ∷ label index ∷ []
            else beq rd rd index ∷ reg_imm addi 27 0 (pos 99) ∷ label index ∷ []))
      else ret []

  -- The loop of gen_rv32i.py from `index` on, with the rounds that are left.
  unfoldable pub rv32i_lines : ℕ → ℕ → Gen (List Line)
  unfolding ◌>>=◌ choose rv32i_line rv32i_branch
  rv32i_lines index zero = ret []
  rv32i_lines index (suc left) = do
    rd ← choose regs
    rs1 ← choose regs
    rs2 ← choose regs
    op ← draw (g.randrange 17)
    line ← rv32i_line op rd rs1 rs2
    branch ← rv32i_branch index rd
    rest ← rv32i_lines (index + 1) left
    ret (line ∷ (branch ++ rest))

  unfoldable pub rv32i_program : ℕ → Gen (List Line)
  unfolding ◌>>=◌ rv32i_lines
  rv32i_program count = do
    lines ← rv32i_lines 0 count
    ret (
        prelude
        ∷ lui 1 524289
        ∷ (map (λ reg. reg_imm addi reg 0 (pos 0)) regs ++ (lines ++ (illegal_word ∷ []))))

  -- The line that `choice` selects in gen_m.py.
  unfoldable pub m_line : ℕ → ℕ → ℕ → ℕ → Gen Line
  unfolding ◌>>=◌ pick
  m_line choice rd rs1 rs2 =
      if ltb choice 8
      then (do
        op ← pick (mul ∷ mulh ∷ mulhsu ∷ mulhu ∷ div ∷ divu ∷ rem ∷ remu ∷ []) choice
        ret (reg_reg op rd rs1 rs2))
      else if choice == 8
      then (do imm ← immediate; ret (reg_imm addi rd rs1 imm))
      else if choice == 9
      then ret (reg_reg xor rd rs1 rs2)
      else if choice == 10
      then (do amount ← draw (g.randrange 32); ret (shift srai rd rs1 amount))
      else (do imm ← draw (g.randrange 1048576); ret (lui rd imm))

  unfoldable pub m_lines : ℕ → Gen (List Line)
  unfolding ◌>>=◌ choose m_line
  m_lines zero = ret []
  m_lines (suc left) = do
    rd ← choose regs
    rs1 ← choose regs
    rs2 ← choose regs
    choice ← draw (g.randrange 12)
    line ← m_line choice rd rs1 rs2
    rest ← m_lines left
    ret (line ∷ rest)

  unfoldable pub m_program : ℕ → Gen (List Line)
  unfolding ◌>>=◌ m_lines
  m_program count = do
    lines ← m_lines count
    ret (
        prelude
        ∷ (map (λ reg. reg_imm addi reg 0 (pos 0)) regs
            ++ (lui 2 524288 ∷ reg_imm addi 3 0 (negsuc 0) ∷ (lines ++ (illegal_word ∷ [])))))
