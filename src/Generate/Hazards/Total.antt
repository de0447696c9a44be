-- ===== src/Generate/Hazards/Total.antt =====
-- A program for each target, from every seed.
use pipelined_core.Common.{
  ℕ, ◌<◌, ◌≤◌, true, false, some, List, [], ◌∷◌, ◌++◌, length, ok, ◌≡◌, refl, arith,
}
use pipelined_core.Common.Exec.{pure, ◌>>=◌, Post}
use pipelined_core.Common.Int.{ℤ}
use pipelined_core.Common.Text.{Text}
use pipelined_core.Generate.{numbers}
use pipelined_core.Generate.Draws.{Documented, IsImm12, Each, Each-append}
use pipelined_core.Generate.Hazards.{
  Sampler, Error, Item, lui, addi, sw, Regs, unpack, fault_setup, fault_of, header, body_of, Gen,
  draw, between, immediate, fillers, prefix_of, program, drawn, generate,
}
use pipelined_core.Generate.Hazards.Targets.{
  is_target, refusal, IsItem, Short, IsProgram, Samples, Makes, bind-Makes, between-Makes,
  immediate-Makes,
}
use pipelined_core.Generate.Hazards.Good.{
  append-IsProgram, IsRegs, setup_by-Each, IsFault, fault_by-IsFault, body_of-IsProgram, Program,
  prefix_by-Makes, fillers-Makes,
}

fault_setup-Each : (g : Regs) (exception : Text) → IsRegs g → Each IsItem (fault_setup g exception)
unfolding fault_setup
fault_setup-Each g exception h = setup_by-Each _ _ g h

fault_of-IsFault : (g : Regs) (exception : Text) → IsRegs g → IsFault (fault_of g exception)
unfolding fault_of
fault_of-IsFault g exception h = fault_by-IsFault _ _ _ _ _ _ _ g h

program-IsProgram :
    (g : Regs) (exception : Text) (first second : ℤ) (gaps prefix : List Item)
    → IsRegs g
    → IsImm12 first
    → IsImm12 second
    → Each IsItem gaps
    → Short 4 prefix
    → IsProgram (program g exception first second gaps prefix)
program-IsProgram g exception first second gaps prefix h a b gs ps =
    let setup =
      lui g.b 524289
      ∷ addi g.v 0 first
      ∷ addi g.src 0 second
      ∷ sw g.v 0 g.b
      ∷ (gaps ++ fault_setup g exception) in
    let gaps-Each =
      Each-append IsItem gaps (fault_setup g exception) gs (fault_setup-Each g exception h) in
    let setup-Each : Each IsItem setup = (
      (h.b, omega arith),
      (
        (h.v, (omega arith, a)),
        ((h.src, (omega arith, b)), ((h.v, (omega arith, h.b)), gaps-Each)),
      ),
    ) in
    let header-Each : Each IsItem header = (tt, (tt, (tt, (tt, tt)))) in
    append-IsProgram header (setup ++ body_of g (fault_of g exception) prefix) header-Each (
      append-IsProgram setup (body_of g (fault_of g exception) prefix) setup-Each
        (body_of-IsProgram g (fault_of g exception) prefix h (fault_of-IsFault g exception h) ps))

-- Seven numbers from 1 to 27 are the registers.
unpack-IsRegs :
    (xs : List ℕ)
    → length xs ≡ 7
    → Each (λ n. (1 ≤ n) × (n < 28)) xs
    → (g : Regs) × ((unpack xs ≡ some g) × IsRegs g)
unpack-IsRegs (b ∷ v ∷ r ∷ src ∷ q ∷ c ∷ tmp ∷ []) h (pb, (pv, (pr, (ps, (pq, (pc, (pt, pu))))))) =
    (_, (refl, record { b = pb; v = pv; r = pr; src = ps; q = pq; c = pc; tmp = pt }))
unpack-IsRegs [] h ps = absurd (omega (arith, h))
unpack-IsRegs (b ∷ []) h ps = absurd (omega (arith, h))
unpack-IsRegs (b ∷ v ∷ []) h ps = absurd (omega (arith, h))
unpack-IsRegs (b ∷ v ∷ r ∷ []) h ps = absurd (omega (arith, h))
unpack-IsRegs (b ∷ v ∷ r ∷ src ∷ []) h ps = absurd (omega (arith, h))
unpack-IsRegs (b ∷ v ∷ r ∷ src ∷ q ∷ []) h ps = absurd (omega (arith, h))
unpack-IsRegs (b ∷ v ∷ r ∷ src ∷ q ∷ c ∷ []) h ps = absurd (omega (arith, h))
unpack-IsRegs (b ∷ v ∷ r ∷ src ∷ q ∷ c ∷ tmp ∷ x ∷ rest) h ps = absurd (omega (arith, h))

module _ (s : Sampler) (d : Documented s.rng) (hazard exception stage : Text) where
  abbrev Refuses : Error → s.rng.State → Type 0
  Refuses e _ = (is_target hazard exception stage ≡ false) × (e ≡ refusal hazard)

  abbrev HasProgram : List Item → Type 0
  HasProgram items = (is_target hazard exception stage ≡ true) × IsProgram items

  -- The draws of `drawn` behind the first n of them.
  abbrev behind_imm : Regs → (first second : ℤ) → List Item → ℕ → ℤ → Gen s (List Item)
  behind_imm g first second gaps gap imm =
      prefix_of s g hazard exception stage gap (addi g.tmp 0 imm) >>= λ prefix.
      pure (program g exception first second gaps prefix)

  abbrev behind_gaps : Regs → (first second : ℤ) → List Item → Gen s (List Item)
  behind_gaps g first second gaps =
      draw s (s.rng.randrange 3) >>= λ gap. immediate s >>= behind_imm g first second gaps gap

  abbrev behind_second : Regs → (first second : ℤ) → Gen s (List Item)
  behind_second g first second =
      draw s (s.rng.randrange 5) >>= λ count. fillers s count g.tmp >>= behind_gaps g first second

  behind_imm-Makes :
      (g : Regs) (first second : ℤ) (gaps : List Item) (gap : ℕ) (imm : ℤ)
      → IsRegs g
      → IsImm12 first
      → IsImm12 second
      → Each IsItem gaps
      → gap < 3
      → IsImm12 imm
      → Makes s d Refuses (behind_imm g first second gaps gap imm) HasProgram
  unfolding prefix_of
  behind_imm-Makes g first second gaps gap imm h a b gs few i =
      bind-Makes s d Refuses (prefix_of s g hazard exception stage gap (addi g.tmp 0 imm))
        (λ prefix state. (ok (program g exception first second gaps prefix), state))
        (Program (is_target hazard exception stage)) HasProgram
        (prefix_by-Makes g h s d Refuses _ _ _ _ hazard exception gap (addi g.tmp 0 imm) few
          (h.tmp, (omega arith, i)) (λ state r. (r, refl)))
        (λ prefix ps state.
          (ps.0, program-IsProgram g exception first second gaps prefix h a b gs ps.1))

  behind_gaps-Makes :
      (g : Regs) (first second : ℤ) (gaps : List Item)
      → IsRegs g
      → IsImm12 first
      → IsImm12 second
      → Each IsItem gaps
      → Makes s d Refuses (behind_gaps g first second gaps) HasProgram
  behind_gaps-Makes g first second gaps h a b gs =
      bind-Makes s d Refuses (draw s (s.rng.randrange 3))
        (λ gap. immediate s >>= behind_imm g first second gaps gap) (λ gap. gap < 3) HasProgram
        (λ state. d.randrange-lt 3 state (omega arith))
        (λ gap few.
          bind-Makes s d Refuses (immediate s) (behind_imm g first second gaps gap) IsImm12
            HasProgram (immediate-Makes s d Refuses)
            (λ imm i. behind_imm-Makes g first second gaps gap imm h a b gs few i))

  behind_second-Makes :
      (g : Regs) (first second : ℤ)
      → IsRegs g
      → IsImm12 first
      → IsImm12 second
      → Makes s d Refuses (behind_second g first second) HasProgram
  behind_second-Makes g first second h a b =
      bind-Makes s d Refuses (draw s (s.rng.randrange 5))
        (λ count. fillers s count g.tmp >>= behind_gaps g first second) (λ count. Unit) HasProgram
        (λ state. tt)
        (λ count u.
          bind-Makes s d Refuses (fillers s count g.tmp) (behind_gaps g first second) (Each IsItem)
            HasProgram (fillers-Makes g h s d Refuses count g.tmp h.tmp)
            (λ gaps gs. behind_gaps-Makes g first second gaps h a b gs))

  drawn-Makes :
      (g : Regs) → IsRegs g → Makes s d Refuses (drawn s g hazard exception stage) HasProgram
  unfolding drawn ◌>>=◌
  drawn-Makes g h =
      bind-Makes s d Refuses (between s 3 200)
        (λ first. between s 201 1000 >>= behind_second g first) IsImm12 HasProgram
        (between-Makes s d Refuses 3 200 (omega arith) refl)
        (λ first a.
          bind-Makes s d Refuses (between s 201 1000) (behind_second g first) IsImm12 HasProgram
            (between-Makes s d Refuses 201 1000 (omega arith) refl)
            (λ second b. behind_second-Makes g first second h a b))

  -- For a target with a program, from every state the lines are made, each with registers,
  -- immediates and words in their ranges, and the instructions behind an `.org` end at 65536; for
  -- another, the error of its hazard is raised.
  pub generate-Program :
      (p : Samples s) (state : s.rng.State)
      → Post (λ items _. HasProgram items) Refuses (generate s hazard exception stage state)
  unfolding generate ◌>>=◌
  generate-Program p state =
      let sampled = s.sample (numbers 1 27) 7 state in
      let (g, made) =
        unpack-IsRegs sampled.0 (p.length-sample 1 27 7 state (omega arith))
          (p.sample-Each 1 27 7 state) in
      rw (made.0) (drawn-Makes g made.1 sampled.1)
