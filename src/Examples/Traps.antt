-- ===== src/Examples/Traps.antt =====
-- A targeted trap program of a generator that always draws the least value.
use pipelined_core.Common.{
  ℕ, zero, suc, ◌+◌, ◌<◌, ◌≤◌, true, false, [], ◌∷◌, length, ok, ◌≡◌, refl, arith, take,
}
use pipelined_core.Common.Exec.{Post}
use pipelined_core.Common.Int.{pos}
use pipelined_core.Common.Text.{codes}
use pipelined_core.Generate.{numbers}
use pipelined_core.Generate.Draws.{Each}
use pipelined_core.Generate.Hazards.{
  Sampler, fault_setup, fault_of, option_norvc, section_text, globl_start, start_label, lui, addi,
  sw, div, word, ebreak, generate,
}
use pipelined_core.Generate.Hazards.Targets.{is_target, refusal, IsProgram, Samples}
use pipelined_core.Generate.Hazards.Total.{generate-Program}
use pipelined_core.Examples.Programs.{least, least-Documented}

abbrev least_sampler : Sampler
least_sampler = record { rng = least; sample = λ xs k s. (take k xs, s) }

length-take-numbers : (low count k : ℕ) → k ≤ count → length (take k (numbers low count)) ≡ k
length-take-numbers low count zero h = refl
length-take-numbers low zero (suc k) h = omega (arith, h)
length-take-numbers low (suc count) (suc k) h =
    omega (arith, length-take-numbers (low + 1) count k (omega (arith, h)))

take-numbers-Each :
    (a z low count k : ℕ)
    → a ≤ low
    → low + count ≤ z
    → Each (λ n. (a ≤ n) × (n < z)) (take k (numbers low count))
take-numbers-Each a z low count zero h h' = tt
take-numbers-Each a z low zero (suc k) h h' = tt
take-numbers-Each a z low (suc count) (suc k) h h' = (
  (h, omega (arith, h')),
  take-numbers-Each a z (low + 1) count k (omega (arith, h)) (omega (arith, h')),
)

least_sampler-Samples : Samples least_sampler
least_sampler-Samples = record {
  length-sample = λ low count k state h. length-take-numbers low count k h;
  sample-Each = λ low count k state.
      take-numbers-Each low (low + count) low count k (omega arith) (omega arith);
}

-- A program that runs over the end of the memory behind a division in the fetch stage.
generate-Program_example :
    Post
      (λ items _.
        (is_target (codes "divider_busy") (codes "instruction_access") (codes "fetch_stage") ≡ true)
        × IsProgram items)
      (λ e _.
        (is_target (codes "divider_busy") (codes "instruction_access") (codes "fetch_stage")
          ≡ false)
        × (e ≡ refusal (codes "divider_busy")))
      (generate least_sampler
        (codes "divider_busy")
        (codes "instruction_access")
        (codes "fetch_stage")
        0)
generate-Program_example =
    generate-Program least_sampler least-Documented (codes "divider_busy")
      (codes "instruction_access") (codes "fetch_stage") least_sampler-Samples 0

breakpoint_program :
    generate least_sampler (codes "divider_busy") (codes "breakpoint") (codes "decode_stage") 0 ≡ (
      ok (
          option_norvc
          ∷ section_text
          ∷ globl_start
          ∷ start_label
          ∷ lui 1 524289
          ∷ addi 2 0 (pos 3)
          ∷ addi 4 0 (pos 201)
          ∷ sw 2 0 1
          ∷ div 5 4 2
          ∷ ebreak
          ∷ sw 4 4 1
          ∷ word 4294967295
          ∷ []),
      0,
    )
unfolding generate fault_setup fault_of
breakpoint_program = refl
