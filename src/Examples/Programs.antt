-- ===== src/Examples/Programs.antt =====
-- Programs of a generator that always draws the least value.
use mathlib.Core.Option.{some}
use pipelined_core.Common.{ℕ, false, List, ◌∷◌, ◌≡◌, arith}
use pipelined_core.Common.Int.{ℤ, pos, negsuc, ltz}
use pipelined_core.Generate.{Rng, Line, prelude, lui, rv32i_program, m_program}
use pipelined_core.Generate.Draws.{Documented, Each}
use pipelined_core.Generate.Lines.{IsSafe}
use pipelined_core.Generate.Safe.{rv32i_program-IsSafe, m_program-IsSafe}

abbrev pub least : Rng
least = record {
  State = ℕ;
  randrange = λ n s. (0, s);
  between = λ a b s. (a, s);
  choice = λ n s. (0, s);
}

ltz_self : (a : ℤ) → ltz a a ≡ false
ltz_self (pos n) = ground arith
ltz_self (negsuc n) = ground arith

pub least-Documented : Documented least
least-Documented = record {
  randrange-lt = λ n s h. h;
  between-ge = λ a b s h. ltz_self a;
  between-lt = λ a b s h. h;
  choice-lt = λ n s h. h;
}

rv32i_program-IsSafe_example :
    (lines : List Line) × (t : ℕ) × (rv32i_program least 20 0
      ≡ some (prelude ∷ lui 1 524289 ∷ lines, t))
    × Each IsSafe lines
rv32i_program-IsSafe_example = rv32i_program-IsSafe least least-Documented 20 0

m_program-IsSafe_example :
    (lines : List Line) × (t : ℕ) × (m_program least 3 0 ≡ some (lines, t)) × Each IsSafe lines
m_program-IsSafe_example = m_program-IsSafe least least-Documented 3 0
