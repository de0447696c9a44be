-- ===== src/Generate/Hazards/Targets.antt =====
-- Which targets have a program, and what its lines keep to.
use pipelined_core.Common.{
  ℕ, zero, suc, ◌+◌, ◌-◌, ◌*◌, ◌^◌, ◌<◌, ◌≤◌, Bool, true, false, not, ◌&&◌, ◌||◌, List, [], ◌∷◌,
  length, get_elem?, or_raise, ◌≡◌, refl, arith,
}
use pipelined_core.Common.Exec.{lift, ◌>>=◌, Post, Post-bind}
use pipelined_core.Common.Int.{ℤ, pos, negsuc, ltz}
use pipelined_core.Common.Text.{Text, codes, text_eq}
use pipelined_core.Generate.{numbers}
use pipelined_core.Generate.Draws.{Documented, IsImm12, Each}
use pipelined_core.Generate.Hazards.{
  Sampler, Error, excluded, bad_choice, unknown_hazard, Item, org, lui, addi, sw, lw, jalr, div,
  mul, csrrw_mscratch, word, Gen, draw, between, immediate, choose, no_operand,
}

-- A hazard that is known, and for a RAW dependency behind the fetch stage an exception with an operand.
abbrev pub is_target : (hazard exception stage : Text) → Bool
is_target hazard exception stage =
    text_eq hazard (codes "divider_busy")
    || (text_eq hazard (codes "serialization")
        || (text_eq hazard (codes "raw_dependency")
            && (text_eq stage (codes "fetch_stage") || not (no_operand exception))))

-- The error of a target without a program.
abbrev pub refusal_by : Bool → Text → Error
refusal_by true hazard = excluded
refusal_by false hazard = unknown_hazard hazard

abbrev pub refusal : Text → Error
refusal hazard = refusal_by (text_eq hazard (codes "raw_dependency")) hazard

-- x1 to x27
abbrev pub IsReg : ℕ → Type 0
IsReg n = (1 ≤ n) × (n < 28)

abbrev pub IsItem : Item → Type 0
IsItem (lui rd imm) = IsReg rd × (imm < 2 ^ 20)
IsItem (addi rd rs imm) = IsReg rd × ((rs < 28) × IsImm12 imm)
IsItem (sw r offset base) = IsReg r × ((offset < 2048) × IsReg base)
IsItem (lw r offset base) = IsReg r × ((offset < 2048) × IsReg base)
IsItem (jalr rd offset base) = IsReg rd × ((offset < 2048) × IsReg base)
IsItem (div rd a b) = IsReg rd × (IsReg a × IsReg b)
IsItem (mul rd a b) = IsReg rd × (IsReg a × IsReg b)
IsItem (csrrw_mscratch rd rs) = IsReg rd × IsReg rs
IsItem (word n) = n < 2 ^ 32
IsItem (org n) = ⊥
IsItem _ = Unit

-- Well-formed lines, and no more than `n` of them.
abbrev pub Short : ℕ → List Item → Type 0
Short n items = Each IsItem items × (length items ≤ n)

-- The lines of a program: after an `.org` come its label and instructions of 4 bytes, which end at
-- the end of the memory.
abbrev pub IsLine : Item → List Item → Type 0
IsLine (org n) items = n + 4 * (length items - 1) ≡ 65536
IsLine item items = IsItem item

abbrev pub IsProgram : List Item → Type 0
IsProgram [] = Unit
IsProgram (item ∷ items) = IsLine item items × IsProgram items

pub IsItem-IsLine : (item : Item) (items : List Item) → IsItem item → IsLine item items
IsItem-IsLine (org n) items p = absurd p
IsItem-IsLine item items p = p

-- What the documentation of `sample` promises, of `sample(range(low, low + count), k)`.
pub record Samples (s : Sampler) : Type 0 where
  pub length-sample :
      (low count k : ℕ) (state : s.rng.State)
      → k ≤ count
      → length (s.sample (numbers low count) k state).0 ≡ k
  pub sample-Each :
      (low count k : ℕ) (state : s.rng.State)
      → Each (λ n. (low ≤ n) × (n < low + count)) (s.sample (numbers low count) k state).0

-- In range as a constant of randrange's bounds, so in the 12 bits of an immediate.
small-IsImm12 :
    (low high : ℕ) (i : ℤ)
    → high ≤ 2048
    → ltz i (pos low) ≡ false
    → ltz i (pos high) ≡ true
    → IsImm12 i
small-IsImm12 low high (pos n) h a b = (refl, ground arith)
small-IsImm12 low high (negsuc n) h a b = cc a

module _ (s : Sampler) (d : Documented s.rng) (R : Error → s.rng.State → Type 0) where
  -- From every state, what is returned has `P`, and what is raised has `R`.
  abbrev pub Makes : {A : Type 0} → Gen s A → (A → Type 0) → Type 0
  Makes m P = (state : s.rng.State) → Post (λ a _. P a) R (m state)

  pub bind-Makes :
      {A B : Type 0} (m : Gen s A) (f : A → Gen s B) (P : A → Type 0) (Q : B → Type 0)
      → Makes m P
      → ((a : A) → P a → Makes (f a) Q)
      → Makes (m >>= f) Q
  bind-Makes m f P Q hm hf state =
      Post-bind (λ a _. P a) (λ b _. Q b) R m f state (hm state) (λ a state' p. hf a p state')

  pub between-Makes :
      (low high : ℕ)
      → high ≤ 2048
      → ltz (pos low) (pos high) ≡ true
      → Makes (between s low high) IsImm12
  between-Makes low high h order state =
      small-IsImm12 low high _ h (d.between-ge (pos low) (pos high) state order)
        (d.between-lt (pos low) (pos high) state order)

  pub immediate-Makes : Makes (immediate s) IsImm12
  immediate-Makes state = (
    d.between-ge (negsuc 2047) (pos 2048) state refl,
    d.between-lt (negsuc 2047) (pos 2048) state refl,
  )

  Each-get :
      (P : Item → Type 0) (items : List Item) (i : ℕ) (state : s.rng.State)
      → Each P items
      → i < length items
      → Post (λ a _. P a) R (lift (or_raise (get_elem? items i) bad_choice) state)
  Each-get P [] i state ps h = (let absurd : ⊥ = omega (arith, h) in elim absurd [ ])
  Each-get P (x ∷ items) zero state ps h = ps.0
  Each-get P (x ∷ items) (suc i) state ps h = Each-get P items i state ps.1 (omega (arith, h))

  pub choose-Makes :
      (P : Item → Type 0) (items : List Item)
      → 0 < length items
      → Each P items
      → Makes (choose s items) P
  choose-Makes P items h ps =
      bind-Makes (draw s (s.rng.choice (length items))) _ (λ i. i < length items) P
        (λ state. d.choice-lt (length items) state h)
        (λ i below state. Each-get P items i state ps below)
