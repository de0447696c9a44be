-- ===== src/Generate/Lines.antt =====
-- The lines of the programs, one by one: each keeps to what `IsSafe` says.
use pipelined_core.Common.{
  ℕ, zero, suc, ◌+◌, ◌-◌, ◌%◌, ◌≤◌, ◌<◌, List, [], ◌∷◌, map, length, ltb, ltb→lt, ◌==◌,
  if◌then◌else◌, Bool-cases, ◌≡◌, refl, inl, inr, arith,
}
use pipelined_core.Common.Int.{pos}
use pipelined_core.Generate.{
  Rng, RegReg, RegImm, Shift, Load, Store, Line, lb, lbu, lh, lhu, lw, sb, sh, sw, lui, reg_reg,
  reg_imm, shift, load, store, beq, bne, label, prelude, illegal_word, add, sub, sll, slt, sltu,
  xor, srl, sra, or, and, mul, mulh, mulhsu, mulhu, div, divu, rem, remu, addi, slti, sltiu, xori,
  slli, srli, srai, numbers, load_offset, store_offset, ret, draw, ◌>>=◌, pick, choose, immediate,
  rv32i_line, rv32i_branch, m_line,
}
use pipelined_core.Generate.Draws.{
  Documented, IsImm12, Each, Ensures, bind-Ensures, randrange-Ensures, immediate-Ensures,
  ret-Ensures, if-Ensures, pick_any, choose_any,
}

-- A register that the programs compute with; x1, the base of the data, is none of them.
abbrev pub IsReg : ℕ → Type 0
IsReg r = (2 ≤ r) × (r ≤ 27)

abbrev pub load_bytes : Load → ℕ
load_bytes lb = 1
load_bytes lbu = 1
load_bytes lh = 2
load_bytes lhu = 2
load_bytes lw = 4

abbrev pub store_bytes : Store → ℕ
store_bytes sb = 1
store_bytes sh = 2
store_bytes sw = 4

-- A line that writes none of x0 and x1, has its operands in their ranges, and reaches, where it
-- is a load or a store, only memory that is aligned and in the 128 bytes behind x1.
abbrev pub IsSafe : Line → Type 0
IsSafe (lui rd imm) = IsReg rd × (imm < 1048576)
IsSafe (reg_reg op rd rs1 rs2) = IsReg rd × IsReg rs1 × IsReg rs2
IsSafe (reg_imm op rd rs1 imm) = IsReg rd × (rs1 ≤ 27) × IsImm12 imm
IsSafe (shift op rd rs1 amount) = IsReg rd × IsReg rs1 × (amount < 32)
IsSafe (load op rd offset) =
    IsReg rd × (offset % load_bytes op ≡ 0) × (offset + load_bytes op ≤ 128)
IsSafe (store op rs2 offset) =
    IsReg rs2 × (offset % store_bytes op ≡ 0) × (offset + store_bytes op ≤ 128)
IsSafe (beq rs1 rs2 index) = IsReg rs1 × IsReg rs2
IsSafe (bne rs1 rs2 index) = IsReg rs1 × IsReg rs2
IsSafe (label index) = Unit
IsSafe prelude = Unit
IsSafe illegal_word = Unit

pub numbers-Each : (a n : ℕ) → 2 ≤ a → a + n ≤ 28 → Each IsReg (numbers a n)
numbers-Each a zero low high = tt
numbers-Each a (suc n) low high =
    ((low, omega arith), numbers-Each (a + 1) n (omega arith) (omega arith))

-- `addi x{reg}, x0, 0` for each register
pub zeros-IsSafe :
    (rs : List ℕ) → Each IsReg rs → Each IsSafe (map (λ reg. reg_imm addi reg 0 (pos 0)) rs)
zeros-IsSafe [] h = tt
zeros-IsSafe (r ∷ rs) h = ((h.0, omega arith, (refl, refl)), zeros-IsSafe rs h.1)

load_offset-aligned :
    (op : Load) (n : ℕ)
    → n < 128
    → (load_offset op n % load_bytes op ≡ 0) × (load_offset op n + load_bytes op ≤ 128)
load_offset-aligned lb n h = (omega arith, omega arith)
load_offset-aligned lbu n h = (omega arith, omega arith)
load_offset-aligned lh n h = (omega arith, omega arith)
load_offset-aligned lhu n h = (omega arith, omega arith)
load_offset-aligned lw n h = (omega arith, omega arith)

store_offset-aligned :
    (op : Store) (n : ℕ)
    → n < 128
    → (store_offset op n % store_bytes op ≡ 0) × (store_offset op n + store_bytes op ≤ 128)
store_offset-aligned sb n h = (omega arith, omega arith)
store_offset-aligned sh n h = (omega arith, omega arith)
store_offset-aligned sw n h = (omega arith, omega arith)

module _ (g : Rng) (d : Documented g) where
  module _ (rd rs1 rs2 : ℕ) (hd : IsReg rd) (h1 : IsReg rs1) (h2 : IsReg rs2) where
    imm_line :
        (op : RegImm)
        → Ensures g d (◌>>=◌ g (immediate g) (λ imm. ret g (reg_imm op rd rs1 imm))) IsSafe
    imm_line op =
        bind-Ensures g d _ _ IsImm12 IsSafe (immediate-Ensures g d)
          (λ imm h. ret-Ensures g d IsSafe (reg_imm op rd rs1 imm) (hd, h1.1, h))

    reg_line :
        (xs : List RegReg) (i : ℕ)
        → i < length xs
        → Ensures g d (◌>>=◌ g (pick g xs i) (λ op. ret g (reg_reg op rd rs1 rs2))) IsSafe
    reg_line xs i h =
        bind-Ensures g d _ _ (λ _. Unit) IsSafe (pick_any g d xs i h)
          (λ op _. ret-Ensures g d IsSafe (reg_reg op rd rs1 rs2) (hd, h1, h2))

    shift_line :
        (xs : List Shift)
        → 0 < length xs
        → Ensures g d
            (◌>>=◌ g
              (choose g xs)
              (λ op. ◌>>=◌ g (draw g (g.randrange 32)) (λ n. ret g (shift op rd rs1 n))))
            IsSafe
    shift_line xs h =
        bind-Ensures g d _ _ (λ _. Unit) IsSafe (choose_any g d xs h)
          (λ op _.
            bind-Ensures g d _ _ (λ n. n < 32) IsSafe (randrange-Ensures g d 32 (omega arith))
              (λ n b. ret-Ensures g d IsSafe (shift op rd rs1 n) (hd, h1, b)))

    load_line :
        (xs : List Load)
        → 0 < length xs
        → Ensures g d
            (◌>>=◌ g (choose g xs) (λ op.
              ◌>>=◌ g (draw g (g.randrange 128)) (λ n. ret g (load op rd (load_offset op n)))))
            IsSafe
    load_line xs h =
        bind-Ensures g d _ _ (λ _. Unit) IsSafe (choose_any g d xs h)
          (λ op _.
            bind-Ensures g d _ _ (λ n. n < 128) IsSafe (randrange-Ensures g d 128 (omega arith))
              (λ n b.
                ret-Ensures g d IsSafe (load op rd (load_offset op n))
                  (let fit = load_offset-aligned op n b in (hd, fit.0, fit.1))))

    store_line :
        (xs : List Store)
        → 0 < length xs
        → Ensures g d
            (◌>>=◌ g (choose g xs) (λ op.
              ◌>>=◌ g (draw g (g.randrange 128)) (λ n. ret g (store op rs2 (store_offset op n)))))
            IsSafe
    store_line xs h =
        bind-Ensures g d _ _ (λ _. Unit) IsSafe (choose_any g d xs h)
          (λ op _.
            bind-Ensures g d _ _ (λ n. n < 128) IsSafe (randrange-Ensures g d 128 (omega arith))
              (λ n b.
                ret-Ensures g d IsSafe (store op rs2 (store_offset op n))
                  (let fit = store_offset-aligned op n b in (h2, fit.0, fit.1))))

    pub rv32i_line-Ensures : (op : ℕ) → op < 17 → Ensures g d (rv32i_line g op rd rs1 rs2) IsSafe
    unfolding rv32i_line
    rv32i_line-Ensures op h =
        if-Ensures g d (ltb op 8) _ _ IsSafe
          (λ b. reg_line (add ∷ sub ∷ sll ∷ slt ∷ sltu ∷ xor ∷ srl ∷ sra ∷ []) op (ltb→lt op 8 b))
          (λ b1.
            if-Ensures g d (ltb op 10) _ _ IsSafe
              (λ b. reg_line (or ∷ and ∷ []) (op - 8) (omega (arith, ltb→lt op 10 b)))
              (λ b2.
                if-Ensures g d (ltb op 11) _ _ IsSafe (λ b. imm_line addi)
                  (λ b3.
                    if-Ensures g d (ltb op 14) _ _ IsSafe
                      (λ b.
                        bind-Ensures g d _ _ (λ _. Unit) IsSafe
                          (pick_any g d (slti ∷ sltiu ∷ xori ∷ []) (op - 11)
                            (omega (arith, ltb→lt op 14 b)))
                          (λ name _. imm_line name))
                      (λ b4.
                        if-Ensures g d (op == 14) _ _ IsSafe
                          (λ b. shift_line (slli ∷ srli ∷ srai ∷ []) (omega arith))
                          (λ b5.
                            if-Ensures g d (op == 15) _ _ IsSafe
                              (λ b. load_line (lb ∷ lbu ∷ lh ∷ lhu ∷ lw ∷ []) (omega arith))
                              (λ b6. store_line (sb ∷ sh ∷ sw ∷ []) (omega arith)))))))

    pub m_line-Ensures :
        (choice : ℕ) → choice < 12 → Ensures g d (m_line g choice rd rs1 rs2) IsSafe
    unfolding m_line
    m_line-Ensures choice h =
        if-Ensures g d (ltb choice 8) _ _ IsSafe
          (λ b.
            reg_line (mul ∷ mulh ∷ mulhsu ∷ mulhu ∷ div ∷ divu ∷ rem ∷ remu ∷ []) choice
              (ltb→lt choice 8 b))
          (λ b1.
            if-Ensures g d (choice == 8) _ _ IsSafe (λ b. imm_line addi)
              (λ b2.
                if-Ensures g d (choice == 9) _ _ IsSafe
                  (λ b. ret-Ensures g d IsSafe (reg_reg xor rd rs1 rs2) (hd, h1, h2))
                  (λ b3.
                    if-Ensures g d (choice == 10) _ _ IsSafe
                      (λ b.
                        bind-Ensures g d _ _ (λ n. n < 32) IsSafe
                          (randrange-Ensures g d 32 (omega arith))
                          (λ n c. ret-Ensures g d IsSafe (shift srai rd rs1 n) (hd, h1, c)))
                      (λ b4.
                        bind-Ensures g d _ _ (λ n. n < 1048576) IsSafe
                          (randrange-Ensures g d 1048576 (omega arith))
                          (λ n c. ret-Ensures g d IsSafe (lui rd n) (hd, c))))))

    branch-IsSafe :
        (index n : ℕ)
        → Each IsSafe (
            if n == 0
            then bne rd rd index ∷ label index ∷ []
            else beq rd rd index ∷ reg_imm addi 27 0 (pos 99) ∷ label index ∷ [])
    branch-IsSafe index n = elim (Bool-cases (n == 0)) [
      | inl e ↦ rw e ((hd, hd), (tt, tt))
      | inr e ↦ rw e ((hd, hd), (((omega arith, omega arith), omega arith, (refl, refl)), (tt, tt)))
    ]

    pub rv32i_branch-Ensures : (index : ℕ) → Ensures g d (rv32i_branch g index rd) (Each IsSafe)
    unfolding rv32i_branch
    rv32i_branch-Ensures index =
        if-Ensures g d (index % 19 == 18) _ _ (Each IsSafe)
          (λ b.
            bind-Ensures g d _ _ (λ n. n < 2) (Each IsSafe) (randrange-Ensures g d 2 (omega arith))
              (λ n c. ret-Ensures g d (Each IsSafe) _ (branch-IsSafe index n)))
          (λ b. ret-Ensures g d (Each IsSafe) [] tt)
