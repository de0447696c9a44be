-- ===== src/Generate/Safe.antt =====
-- What every generated program keeps to, whatever the generator draws.
use mathlib.Core.Option.{some}
use pipelined_core.Common.{ℕ, zero, suc, ◌+◌, ◌<◌, List, [], ◌∷◌, ◌++◌, map, ◌≡◌, refl, arith}
use pipelined_core.Common.Int.{pos, negsuc}
use pipelined_core.Generate.{
  Rng, Line, lui, reg_imm, prelude, illegal_word, addi, regs, ◌>>=◌, choose, rv32i_lines,
  rv32i_program, m_lines, m_program,
}
use pipelined_core.Generate.Draws.{
  Documented, Each, Each-append, Ensures, bind-Ensures, choose-Ensures, randrange-Ensures,
  ret-Ensures,
}
use pipelined_core.Generate.Lines.{
  IsReg, IsSafe, numbers-Each, zeros-IsSafe, rv32i_line-Ensures, m_line-Ensures,
  rv32i_branch-Ensures,
}

module _ (g : Rng) (d : Documented g) where
  IsReg-Ensures : Ensures g d (choose g regs) IsReg
  IsReg-Ensures =
      choose-Ensures g d IsReg regs (numbers-Each 2 24 (omega arith) (omega arith)) (omega arith)

  rv32i_lines-Ensures : (left index : ℕ) → Ensures g d (rv32i_lines g index left) (Each IsSafe)
  unfolding rv32i_lines
  rv32i_lines-Ensures zero index = ret-Ensures g d (Each IsSafe) [] tt
  rv32i_lines-Ensures (suc left) index =
      bind-Ensures g d _ _ IsReg (Each IsSafe) IsReg-Ensures (λ rd hd.
        bind-Ensures g d _ _ IsReg (Each IsSafe) IsReg-Ensures (λ rs1 h1.
          bind-Ensures g d _ _ IsReg (Each IsSafe) IsReg-Ensures (λ rs2 h2.
            bind-Ensures g d _ _ (λ op. op < 17) (Each IsSafe)
              (randrange-Ensures g d 17 (omega arith))
              (λ op h.
                bind-Ensures g d _ _ IsSafe (Each IsSafe)
                  (rv32i_line-Ensures g d rd rs1 rs2 hd h1 h2 op h)
                  (λ line hl.
                    bind-Ensures g d _ _ (Each IsSafe) (Each IsSafe)
                      (rv32i_branch-Ensures g d rd rs1 rs2 hd h1 h2 index)
                      (λ branch hb.
                        bind-Ensures g d _ _ (Each IsSafe) (Each IsSafe)
                          (rv32i_lines-Ensures left (index + 1))
                          (λ rest hr.
                            ret-Ensures g d (Each IsSafe) (line ∷ (branch ++ rest))
                              (hl, Each-append IsSafe branch rest hb hr))))))))

  m_lines-Ensures : (left : ℕ) → Ensures g d (m_lines g left) (Each IsSafe)
  unfolding m_lines
  m_lines-Ensures zero = ret-Ensures g d (Each IsSafe) [] tt
  m_lines-Ensures (suc left) = bind-Ensures g d _ _ IsReg (Each IsSafe) IsReg-Ensures (λ rd hd.
      bind-Ensures g d _ _ IsReg (Each IsSafe) IsReg-Ensures (λ rs1 h1.
        bind-Ensures g d _ _ IsReg (Each IsSafe) IsReg-Ensures (λ rs2 h2.
          bind-Ensures g d _ _ (λ op. op < 12) (Each IsSafe)
            (randrange-Ensures g d 12 (omega arith))
            (λ op h.
              bind-Ensures g d _ _ IsSafe (Each IsSafe)
                (m_line-Ensures g d rd rs1 rs2 hd h1 h2 op h)
                (λ line hl.
                  bind-Ensures g d _ _ (Each IsSafe) (Each IsSafe) (m_lines-Ensures left)
                    (λ rest hr. ret-Ensures g d (Each IsSafe) (line ∷ rest) (hl, hr)))))))

-- gen_rv32i.py prints a program whatever is drawn, with no IndexError: x1 is set once, to the data's base, and no line
-- behind that writes x0 or x1, has an operand out of range, or reaches memory that is not
-- aligned or lies outside the 128 bytes behind x1.
pub rv32i_program-IsSafe :
    (g : Rng) (d : Documented g) (count : ℕ) (s : g.State)
    → (lines : List Line) × (t : g.State) × (rv32i_program g count s
        ≡ some (prelude ∷ lui 1 524289 ∷ lines, t))
      × Each IsSafe lines
unfolding rv32i_program ◌>>=◌
rv32i_program-IsSafe g d count s =
    let (lines, t, e, h) = rv32i_lines-Ensures g d count 0 s in
    let zeros = map (λ reg. reg_imm addi reg 0 (pos 0)) regs in
    (
      zeros ++ (lines ++ (illegal_word ∷ [])),
      t,
      rw (rv32i_program, ◌>>=◌, e) refl,
      Each-append IsSafe zeros (lines ++ (illegal_word ∷ []))
          (zeros-IsSafe regs (numbers-Each 2 24 (omega arith) (omega arith)))
          (Each-append IsSafe lines (illegal_word ∷ []) h (tt, tt)),
    )

-- gen_m.py prints a program whatever is drawn, with no IndexError, and no line of it writes x0 or
-- x1 or has an operand out of range.
pub m_program-IsSafe :
    (g : Rng) (d : Documented g) (count : ℕ) (s : g.State)
    → (lines : List Line) × (t : g.State) × (m_program g count s ≡ some (lines, t))
      × Each IsSafe lines
unfolding m_program ◌>>=◌
m_program-IsSafe g d count s =
    let (lines, t, e, h) = m_lines-Ensures g d count s in
    let zeros = map (λ reg. reg_imm addi reg 0 (pos 0)) regs in
    let first : IsSafe (lui 2 524288) = ((omega arith, omega arith), omega arith) in
    let second : IsSafe (reg_imm addi 3 0 (negsuc 0)) =
      ((omega arith, omega arith), omega arith, (refl, refl)) in
    (
      prelude
          ∷ (zeros
              ++ (lui 2 524288 ∷ reg_imm addi 3 0 (negsuc 0) ∷ (lines ++ (illegal_word ∷ [])))),
      t,
      rw (m_program, ◌>>=◌, e) refl,
      (
        tt,
        Each-append IsSafe zeros
            (lui 2 524288 ∷ reg_imm addi 3 0 (negsuc 0) ∷ (lines ++ (illegal_word ∷ [])))
            (zeros-IsSafe regs (numbers-Each 2 24 (omega arith) (omega arith)))
            (first, (second, Each-append IsSafe lines (illegal_word ∷ []) h (tt, tt))),
      ),
    )
