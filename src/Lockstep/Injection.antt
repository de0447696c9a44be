-- ===== src/Lockstep/Injection.antt =====
-- The faults that `--inject` plants in scripts/lockstep.py, and which of them the comparison finds.
use pipelined_core.Common.{
  some_inj, ok_inj, ℕ, ◌/◌, ◌^◌, bit_xor, true, none, some, List, [], ◌++◌, ◌==◌, ==_iff,
  Bool-cases, ok, >>=-eq-ok, if◌then◌else◌, ◌≡◌, ◌≢◌, ◌↔◌, sym, ap, subst, ◌∙◌, arith, inl, inr,
  Option-cases, map_result,
}
use pipelined_core.Common.Bits.{bit_and_mask, bit_xor_one}
use pipelined_core.Common.Decimal.{decimal}
use pipelined_core.Common.Dict.{Dict, lookup, from_pairs, update, insert}
use pipelined_core.Common.Text.{Text, codes, text_eq_refl, int_16}
use pipelined_core.Common.Text.Hex.{int_16-hex_08}
use pipelined_core.Lockstep.Compare.{differences}
use pipelined_core.Lockstep.Compare.Agreement.{Agrees, SameEffects, differences_iff, int_hex-ok}
use pipelined_core.Lockstep.Event.{
  Retire, Effects, int_hex, lane, lanes, align_word, lane_writes, rd_write, csr_pair, effects_of,
  dut_effects,
}
use pipelined_core.Lockstep.Reference.{Commit, Trap, commit, trap, byte_of}
use pipelined_core.Lockstep.State.{
  flip, flip_if, inject_fault, with_rd_data, with_mem_wdata, with_cause,
}

bit_xor_one-ne : (v : ℕ) → bit_xor v 1 ≢ v
bit_xor_one-ne v h = omega (arith, bit_xor_one v)

-- A flipped numeral reads as its value with bit 0 changed.
flip_lem :
    (t : Text) {v : ℕ} {t' : Text}
    → int_16 t ≡ some v
    → flip t ≡ ok t'
    → int_16 t' ≡ some (bit_xor v 1)
unfolding flip
flip_lem t {v} e h = ground (arith, int_16-hex_08 (bit_xor v 1))

inject_rd :
    (n : ℕ) (event : Retire) {event' : Retire}
    → inject_fault (codes "rd@" ++ decimal n) n event ≡ ok event'
    → (t : Text) × (flip event.rd_data ≡ ok t) × (event' ≡ with_rd_data event t)
unfolding inject_fault flip_if
inject_rd n event h =
    let (e, h1, k1) =
      >>=-eq-ok (flip_if true with_rd_data event.rd_data event) _
        (rw (text_eq_refl (decimal n)) at h) in
    let (t, h2, k2) = >>=-eq-ok (flip event.rd_data) _ h1 in (t, h2, cc)

-- The numbers that `dut_effects` has read, where it returns.
record Parts (event : Retire) (dut : Effects) : Type 0 where
  addr : ℕ
  value : ℕ
  regs : Dict ℕ
  csrs : List (ℕ × ℕ)
  addr_is : int_16 event.mem_addr ≡ some addr
  value_is : int_16 event.mem_wdata ≡ some value
  regs_is : rd_write event.rd event.rd_data ≡ ok regs
  csrs_is : map_result csr_pair event.csr_writes ≡ ok csrs
  dut_is : effects_of event addr value regs csrs ≡ dut

dut_effects-Parts : (event : Retire) {dut : Effects} → dut_effects event ≡ ok dut → Parts event dut
unfolding dut_effects
dut_effects-Parts event h =
    let (addr, e1, h1) = >>=-eq-ok (int_hex event.mem_addr) _ h in
    let (value, e2, h2) = >>=-eq-ok (int_hex event.mem_wdata) _ h1 in
    let (regs, e3, h3) = >>=-eq-ok (rd_write event.rd event.rd_data) _ h2 in
    let (csrs, e4, h4) = >>=-eq-ok (map_result csr_pair event.csr_writes) _ h3 in
    record {
      addr = addr;
      value = value;
      regs = regs;
      csrs = csrs;
      addr_is = int_hex-ok event.mem_addr e1;
      value_is = int_hex-ok event.mem_wdata e2;
      regs_is = e3;
      csrs_is = e4;
      dut_is = ok_inj h4;
    }

-- With store data that reads as `v` the effects change in the writes alone.
dut_effects-store :
    (event : Retire) (t : Text) {v : ℕ} {dut : Effects} (x : Parts event dut)
    → int_16 t ≡ some v
    → dut_effects (with_mem_wdata event t) ≡ ok (effects_of event x.addr v x.regs x.csrs)
unfolding dut_effects
dut_effects-store event t x e = rw (x.addr_is, e, x.regs_is, x.csrs_is)

dut_effects-regs :
    (event : Retire) {dut : Effects}
    → dut_effects event ≡ ok dut
    → rd_write event.rd event.rd_data ≡ ok dut.regs
unfolding effects_of
dut_effects-regs event h =
    let x = dut_effects-Parts event h in x.regs_is ∙ ap (λ (d : Effects). ok d.regs) x.dut_is

rd_write-lookup :
    (rd : ℕ) (t : Text) {regs : Dict ℕ}
    → rd ≢ 0
    → rd_write rd t ≡ ok regs
    → (v : ℕ) × (int_16 t ≡ some v) × (lookup rd regs ≡ some v)
unfolding rd_write lookup
rd_write-lookup rd t ne h = elim (Option-cases (int_16 t)) [
  | inl unread ↦ ground arith
  | inr (v, e) ↦ (v, e, ground arith)
]

-- A flipped register value is found: if an event that writes a register agrees with Spike's commit,
-- the event with `rd@N` injected at its number does not.
pub inject_rd_found :
    (n : ℕ) (event event' : Retire) (c : Commit)
    → event.rd ≢ 0
    → Agrees event (commit c)
    → inject_fault (codes "rd@" ++ decimal n) n event ≡ ok event'
    → differences event' (commit c) ≢ ok []
inject_rd_found n event event' c ne a h same =
    let (t, flipped, is) = inject_rd n event h in
    let (p, dut, e, s) = a.rest in
    let (p', dut', e', s') = ((differences_iff event' (commit c)).0 same).rest in
    let (v, read, at) = rd_write-lookup event.rd event.rd_data ne (dut_effects-regs event e) in
    let written =
      subst (λ x. rd_write x.rd x.rd_data ≡ ok dut'.regs) is (dut_effects-regs event' e') in
    let (v', read', at') = rd_write-lookup event.rd t ne written in
    bit_xor_one-ne v (
      some_inj (
        sym (flip_lem event.rd_data read flipped)
        ∙ read'
        ∙ sym at'
        ∙ s'.regs event.rd
        ∙ sym (s.regs event.rd)
        ∙ at))

inject_cause :
    (n : ℕ) (event : Retire) {event' : Retire}
    → inject_fault (codes "cause@" ++ decimal n) n event ≡ ok event'
    → (t : Text) × (flip event.cause ≡ ok t) × (event' ≡ with_cause event t)
unfolding inject_fault flip_if
inject_cause n event h =
    let flipped = rw (text_eq_refl (decimal n)) at h in
    let (t, h2, k2) = >>=-eq-ok (flip event.cause) _ flipped in (t, h2, cc)

-- A flipped trap cause is found: if a trap event agrees with Spike's trap, the event with `cause@N`
-- injected at its number does not.
pub inject_cause_found :
    (n : ℕ) (event event' : Retire) (t : Trap)
    → Agrees event (trap t)
    → inject_fault (codes "cause@" ++ decimal n) n event ≡ ok event'
    → differences event' (trap t) ≢ ok []
inject_cause_found n event event' t a h same =
    let (s, flipped, is) = inject_cause n event h in
    let a' = ((differences_iff event' (trap t)).0 same).rest.0 in
    let read = subst (λ (x : Retire). int_16 x.cause ≡ some t.cause) is a' in
    bit_xor_one-ne t.cause (some_inj (sym (flip_lem event.cause a.rest.0 flipped) ∙ read))

inject_store :
    (n : ℕ) (event : Retire) {event' : Retire}
    → inject_fault (codes "store@" ++ decimal n) n event ≡ ok event'
    → (t : Text) × (flip event.mem_wdata ≡ ok t) × (event' ≡ with_mem_wdata event t)
unfolding inject_fault flip_if
inject_store n event h =
    let (e, h1, k1) =
      >>=-eq-ok (flip_if true with_mem_wdata event.mem_wdata event) _
        (rw (text_eq_refl (decimal n)) at h) in
    let (t, h2, k2) = >>=-eq-ok (flip event.mem_wdata) _ h1 in (t, h2, cc)

-- The bytes that a value writes in the masked lanes of its word.
abbrev word_writes : ℕ → ℕ → ℕ → Dict ℕ
word_writes aligned value mask = from_pairs (lane_writes aligned value mask lanes)

lookup-word_writes :
    (a v mask : ℕ)
    → lookup a (word_writes a v mask) ≡ (if lane mask 0 == 0 then none else some (byte_of v 0))
unfolding lookup update insert lane_writes
lookup-word_writes a v mask = ground arith

byte_of-flip_ne : (v : ℕ) → byte_of (bit_xor v 1) 0 ≢ byte_of v 0
byte_of-flip_ne v h =
    omega (arith, bit_and_mask 8 (bit_xor v 1 / 2 ^ 0), bit_and_mask 8 (v / 2 ^ 0), bit_xor_one v)

-- Flipping bit 0 leaves the bytes above the lowest alone.
lane_writes-flip :
    (a v mask : ℕ)
    → lane mask 0 ≡ 0
    → lane_writes a (bit_xor v 1) mask lanes ≡ lane_writes a v mask lanes
unfolding lane_writes
lane_writes-flip a v mask h =
    let b1 : bit_xor v 1 / 2 ^ 8 ≡ v / 2 ^ 8 = omega (arith, bit_xor_one v) in
    let b2 : bit_xor v 1 / 2 ^ 16 ≡ v / 2 ^ 16 = omega (arith, bit_xor_one v) in
    let b3 : bit_xor v 1 / 2 ^ 24 ≡ v / 2 ^ 24 = omega (arith, bit_xor_one v) in rw (h, b1, b2, b3)

module _ (event : Retire) (c : Commit) (t : Text) {dut : Effects} (x : Parts event dut) where
  -- With lane 0 unmasked the flipped event has the same effects.
  store_missed :
      Agrees event (commit c)
      → int_16 t ≡ some (bit_xor x.value 1)
      → SameEffects dut c
      → lane event.mem_wmask 0 ≡ 0
      → Agrees (with_mem_wdata event t) (commit c)
  unfolding effects_of
  store_missed a read s h =
      let unchanged = lane_writes-flip (align_word x.addr) x.value event.mem_wmask h in
      record {
        pc = a.pc;
        is_trap = a.is_trap;
        insn = a.insn;
        rest = (a.rest.0, dut, dut_effects-store event t x read ∙ ap ok (rw unchanged x.dut_is), s);
      }

  store_found :
      int_16 t ≡ some (bit_xor x.value 1)
      → SameEffects dut c
      → Agrees (with_mem_wdata event t) (commit c)
      → lane event.mem_wmask 0 ≡ 0
  unfolding effects_of
  store_found read s a' =
      let (p, dut', e', s') = a'.rest in
      let base = align_word x.addr in
      let flipped : word_writes base (bit_xor x.value 1) event.mem_wmask ≡ dut'.writes =
        ap (λ (d : Effects). d.writes) (ok_inj (sym (dut_effects-store event t x read) ∙ e')) in
      let given : word_writes base x.value event.mem_wmask ≡ dut.writes =
        ap (λ (d : Effects). d.writes) x.dut_is in
      let looked =
        sym (lookup-word_writes base (bit_xor x.value 1) event.mem_wmask)
        ∙ ap (lookup base) flipped
        ∙ s'.writes base
        ∙ sym (s.writes base)
        ∙ ap (lookup base) (sym given)
        ∙ lookup-word_writes base x.value event.mem_wmask in
      elim (Bool-cases (lane event.mem_wmask 0 == 0)) [
        | inl clear ↦ (==_iff _ 0).0 clear
        | inr masked ↦ absurd (byte_of-flip_ne x.value (some_inj (rw masked at looked)))
      ]

-- Of an event that agrees with Spike's commit, the event with `store@N` injected at its number
-- passes as well exactly when lane 0 is not among those that the event writes: the fault is
-- always in bit 0 of the word.
pub inject_store_iff :
    (n : ℕ) (event event' : Retire) (c : Commit)
    → Agrees event (commit c)
    → inject_fault (codes "store@" ++ decimal n) n event ≡ ok event'
    → (differences event' (commit c) ≡ ok []) ↔ (lane event.mem_wmask 0 ≡ 0)
inject_store_iff n event event' c a h =
    let (t, flipped, is) = inject_store n event h in
    let (p, dut, e, s) = a.rest in
    let x = dut_effects-Parts event e in
    let read = flip_lem event.mem_wdata x.value_is flipped in
    (
      λ same.
          store_found event c t x read s
            (subst (λ y. Agrees y (commit c)) is ((differences_iff event' (commit c)).0 same)),
      λ clear.
          (differences_iff event' (commit c)).1
            (subst (λ y. Agrees y (commit c)) (sym is) (store_missed event c t x a read s clear)),
    )
