-- ===== src/Generate/Hazards/Good.antt =====
-- The lines of a program.
use pipelined_core.Common.{
  length-append, length-replicate, Each-replicate, append-nil, ◌++◌, ◌<◌, ◌≤◌, ℕ, zero, suc, Bool,
  true, false, not, ◌&&◌, ◌||◌, Option, none, some, List, [], ◌∷◌, replicate, ok, ◌≡◌, refl, arith,
}
use pipelined_core.Common.Exec.{◌>>=◌, Post-map}
use pipelined_core.Common.Int.{ℤ}
use pipelined_core.Common.Text.{Text, codes, text_eq}
use pipelined_core.Generate.Draws.{Documented, IsImm12, Each, Each-append}
use pipelined_core.Generate.Hazards.{
  Sampler, Error, excluded, Item, addi, sw, word, lw, div, mul, csrrw_mscratch, Regs, slots,
  setup_by, fault_by, body_of, between, immediate, choose, fillers, no_load, replaced, consumed,
  produced, picked, raw_fetch, chosen_producer, producer_by, raw_producer, no_operand, raw_decode,
  raw_prefix, prefix_by,
}
use pipelined_core.Generate.Hazards.Targets.{
  refusal_by, IsReg, IsItem, Short, IsProgram, IsItem-IsLine, Makes, bind-Makes, between-Makes,
  immediate-Makes, choose-Makes,
}

pub record IsRegs (g : Regs) : Type 0 where
  pub b : IsReg g.b
  pub v : IsReg g.v
  pub r : IsReg g.r
  pub src : IsReg g.src
  pub q : IsReg g.q
  pub c : IsReg g.c
  pub tmp : IsReg g.tmp

pub setup_by-Each :
    (jumps plain : Bool) (g : Regs) → IsRegs g → Each IsItem (setup_by jumps plain g)
setup_by-Each true plain g h =
    ((h.b, omega arith), ((h.b, (omega (arith, h.b.1), (refl, refl))), tt))
setup_by-Each false true g h = tt
setup_by-Each false false g h = ((h.b, omega arith), tt)

-- The instruction that traps, if there is one.
abbrev pub IsFault : Option Item → Type 0
IsFault none = Unit
IsFault (some item) = IsItem item

pub fault_by-IsFault :
    (j a i bp ec m l : Bool) (g : Regs) → IsRegs g → IsFault (fault_by j a i bp ec m l g)
fault_by-IsFault true a i bp ec m l g h = (h.r, (omega arith, h.b))
fault_by-IsFault false true i bp ec m l g h = tt
fault_by-IsFault false false true bp ec m l g h = omega (arith, h.b.1, h.r.1)
fault_by-IsFault false false false true ec m l g h = tt
fault_by-IsFault false false false false true m l g h = tt
fault_by-IsFault false false false false false true true g h = (h.r, (omega arith, h.b))
fault_by-IsFault false false false false false true false g h = (h.v, (omega arith, h.b))
fault_by-IsFault false false false false false false true g h = (h.r, (omega arith, h.b))
fault_by-IsFault false false false false false false false g h = (h.v, (omega arith, h.b))

pub append-IsProgram : (xs ys : List Item) → Each IsItem xs → IsProgram ys → IsProgram (xs ++ ys)
append-IsProgram [] ys ps h = h
append-IsProgram (x ∷ xs) ys ps h = (IsItem-IsLine x (xs ++ ys) ps.0, append-IsProgram xs ys ps.1 h)

pub body_of-IsProgram :
    (g : Regs) (o : Option Item) (prefix : List Item)
    → IsRegs g
    → IsFault o
    → Short 4 prefix
    → IsProgram (body_of g o prefix)
body_of-IsProgram g none prefix h f (ps, short) =
    let p = append-IsProgram prefix [] ps tt in
    (tt, (omega (arith, short), (tt, rw (append-nil prefix) at p)))
body_of-IsProgram g (some fault) prefix h f (ps, short) =
    append-IsProgram prefix (fault ∷ sw g.src 4 g.b ∷ word 4294967295 ∷ []) ps (
      IsItem-IsLine fault (sw g.src 4 g.b ∷ word 4294967295 ∷ []) f,
      ((h.src, (omega arith, h.b)), (omega arith, tt)),
    )

-- A prefix of well-formed lines, where `t` says that there is a program.
abbrev pub Program : Bool → List Item → Type 0
Program t items = (t ≡ true) × Short 4 items

module _ (g : Regs) (h : IsRegs g) (s : Sampler) (d : Documented s.rng)
    (R : Error → s.rng.State → Type 0) where
  replaced-Makes :
      (bad : Bool) (producer : Item)
      → IsItem producer
      → Makes s d R (replaced s bad g producer) IsItem
  replaced-Makes true producer p =
      bind-Makes s d R (between s 1 100) _ IsImm12 IsItem
        (between-Makes s d R 1 100 (omega arith) refl) (λ imm i state. (h.q, (h.v.1, i)))
  replaced-Makes false producer p = λ state. p

  consumed-Makes :
      (nops : List Item) (producer : Item)
      → Short 2 nops
      → IsItem producer
      → Makes s d R (consumed s g nops producer) (Short 4)
  consumed-Makes nops producer ns p =
      bind-Makes s d R (between s 1 100) _ IsImm12 (Short 4)
        (between-Makes s d R 1 100 (omega arith) refl)
        (λ last l state. (
          (p, Each-append IsItem nops (addi g.c g.q last ∷ []) ns.0 ((h.c, (h.q.1, l)), tt)),
          omega (arith, ns.1, length-append nops (addi g.c g.q last ∷ [])),
        ))

  produced-Makes :
      (exception : Text) (nops : List Item) (chosen : Item)
      → Short 2 nops
      → IsItem chosen
      → Makes s d R (produced s g exception nops chosen) (Short 4)
  produced-Makes exception nops chosen ns p =
      bind-Makes s d R (replaced s (no_load exception) g chosen) (consumed s g nops) IsItem
        (Short 4) (replaced-Makes (no_load exception) chosen p)
        (λ producer p'. consumed-Makes nops producer ns p')

  picked-Makes :
      (exception : Text) (nops : List Item) (imm : ℤ)
      → Short 2 nops
      → IsImm12 imm
      → Makes s d R (picked s g exception nops imm) (Short 4)
  picked-Makes exception nops imm ns i =
      let items = addi g.q g.v imm ∷ mul g.q g.v g.src ∷ lw g.q 0 g.b ∷ [] in
      let ps : Each IsItem items =
        ((h.q, (h.v.1, i)), ((h.q, (h.v, h.src)), ((h.q, (omega arith, h.b)), tt))) in
      bind-Makes s d R (choose s items) (produced s g exception nops) IsItem (Short 4)
        (choose-Makes s d R IsItem items (omega arith) ps)
        (λ chosen p. produced-Makes exception nops chosen ns p)

  raw_fetch-Makes :
      (exception : Text) (nops : List Item)
      → Short 2 nops
      → Makes s d R (raw_fetch s g exception nops) (Short 4)
  unfolding raw_fetch
  raw_fetch-Makes exception nops ns =
      bind-Makes s d R (between s 1 100) (picked s g exception nops) IsImm12 (Short 4)
        (between-Makes s d R 1 100 (omega arith) refl)
        (λ imm i. picked-Makes exception nops imm ns i)

  chosen_producer-Makes : Makes s d R (chosen_producer s g) IsItem
  chosen_producer-Makes =
      bind-Makes s d R (between s 1 100) _ IsImm12 IsItem
        (between-Makes s d R 1 100 (omega arith) refl)
        (λ imm i.
          let ps : Each IsItem (addi g.b g.v imm ∷ mul g.b g.v g.src ∷ []) =
            ((h.b, (h.v.1, i)), ((h.b, (h.v, h.src)), tt)) in
          choose-Makes s d R IsItem (addi g.b g.v imm ∷ mul g.b g.v g.src ∷ []) (omega arith) ps)

  producer_by-Makes :
      (jumps access misaligned : Bool)
      → Makes s d R (producer_by s jumps access misaligned g) IsItem
  producer_by-Makes true access misaligned = λ state. (h.b, (h.b.1, (refl, refl)))
  producer_by-Makes false true misaligned = λ state. (h.b, omega arith)
  producer_by-Makes false false true = λ state. (h.b, omega arith)
  producer_by-Makes false false false = chosen_producer-Makes

  nops-Short :
      (n : ℕ) (first nop : Item)
      → n ≤ 3
      → IsItem first
      → IsItem nop
      → Short 4 (first ∷ replicate n nop)
  nops-Short n first nop few p ns =
      ((p, Each-replicate IsItem n nop ns), omega (arith, few, length-replicate {0} n nop))

  slots_le : (fetch : Bool) (gap : ℕ) → gap < 3 → slots fetch gap ≤ 3
  slots_le true gap few = omega (arith, few)
  slots_le false gap few = omega (arith, few)

  -- `R` of the error of a target without a program.
  abbrev pub Refused : Bool → Error → Type 0
  Refused t e = (state : s.rng.State) → t ≡ false → R e state

  raw_decode-Makes :
      (e : Bool) (exception : Text) (nops : List Item)
      → Short 2 nops
      → Refused (not e) excluded
      → Makes s d R (raw_decode s e g exception nops) (Program (not e))
  unfolding raw_producer
  raw_decode-Makes true exception nops ns r = λ state. r state refl
  raw_decode-Makes false exception nops ns r =
      bind-Makes s d R (raw_producer s g exception)
        (λ producer state. (ok (producer ∷ nops), state)) IsItem (Program true)
        (producer_by-Makes (text_eq exception (codes "instruction_misaligned")) (no_load exception)
          _)
        (λ producer p state. (refl, ((p, ns.0), omega (arith, ns.1))))

  raw_prefix-Makes :
      (fetch : Bool) (exception : Text) (nops : List Item)
      → Short 2 nops
      → Refused (fetch || not (no_operand exception)) excluded
      → Makes s d R
          (raw_prefix s fetch g exception nops)
          (Program (fetch || not (no_operand exception)))
  raw_prefix-Makes true exception nops ns r state =
      Post-map (λ a _. Short 4 a) (λ a _. Program true a) R R (raw_fetch s g exception nops state)
        (λ a w p. (refl, p)) (λ e w p. p) (raw_fetch-Makes exception nops ns state)
  raw_prefix-Makes false exception nops ns r state =
      raw_decode-Makes (no_operand exception) exception nops ns r state

  pub prefix_by-Makes :
      (z w a fetch : Bool) (hazard exception : Text) (gap : ℕ) (nop : Item)
      → gap < 3
      → IsItem nop
      → Refused (z || (w || (a && (fetch || not (no_operand exception))))) (refusal_by a hazard)
      → Makes s d R
          (prefix_by s z w a fetch g hazard exception gap nop)
          (Program (z || (w || (a && (fetch || not (no_operand exception))))))
  prefix_by-Makes true w a fetch hazard exception gap nop few n r state = (
    refl,
    nops-Short (slots fetch gap) (div g.q g.src g.v) nop (slots_le fetch gap few)
        (h.q, (h.src, h.v)) n,
  )
  prefix_by-Makes false true a fetch hazard exception gap nop few n r state = (
    refl,
    nops-Short (slots fetch gap) (csrrw_mscratch g.q g.v) nop (slots_le fetch gap few) (h.q, h.v) n,
  )
  prefix_by-Makes false false true fetch hazard exception gap nop few n r state =
      raw_prefix-Makes fetch exception (replicate gap nop)
        (Each-replicate IsItem gap nop n, omega (arith, few, length-replicate {0} gap nop)) r state
  prefix_by-Makes false false false fetch hazard exception gap nop few n r state = r state refl

  pub fillers-Makes : (left tmp : ℕ) → IsReg tmp → Makes s d R (fillers s left tmp) (Each IsItem)
  unfolding fillers ◌>>=◌
  fillers-Makes zero tmp p = λ state. tt
  fillers-Makes (suc left) tmp p =
      bind-Makes s d R (immediate s)
        (λ imm. fillers s left tmp >>= λ rest. λ state. (ok (addi tmp 0 imm ∷ rest), state)) IsImm12
        (Each IsItem) (immediate-Makes s d R)
        (λ imm i.
          bind-Makes s d R (fillers s left tmp) (λ rest state. (ok (addi tmp 0 imm ∷ rest), state))
            (Each IsItem) (Each IsItem) (fillers-Makes left tmp p)
            (λ rest ps state. ((p, (omega arith, i)), ps)))
