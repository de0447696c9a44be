-- ===== src/Lockstep/Memory/Access.antt =====
-- Loads and stores, in the report of Spike and in the event of the DUT.
use pipelined_core.Common.{
  ℕ, ◌+◌, ◌*◌, ◌%◌, ◌^◌, some, List, [], ◌∷◌, ok, map, subst, ◌≡◌, inl, inr, refl, sym, arith,
}
use native.Mathlib.Nat.{add-zero, zero-div}
use pipelined_core.Common.Text.{Text, int_16}
use pipelined_core.Common.Dict.{Dict, lookup}
use pipelined_core.Lockstep.Insn.{load_size, store_size}
use pipelined_core.Lockstep.Reference.{group_at, range_from, write_bytes, mem_entry, sorted}
use pipelined_core.Lockstep.Event.{Retire, align_word, lanes, lane_reads, lane_writes, effects_of}
use pipelined_core.Lockstep.Memory.{
  stored, pairs_from, mask_of, Holds, IsSize, lookup-write_bytes, update-pairs_from,
}
use pipelined_core.Lockstep.Memory.Lanes.{
  lane_writes-pairs_from, lane_reads-lane_writes, range_from-pairs_from, sorted-range_from,
}

store_size-IsSize : (insn size : ℕ) → store_size insn ≡ some size → IsSize size
unfolding store_size
store_size-IsSize insn size h = ground arith

load_size-IsSize : (insn size : ℕ) → load_size insn ≡ some size → IsSize size
unfolding load_size
load_size-IsSize insn size h = ground arith

offset-aligned : (size addr : ℕ) → IsSize size → addr % size ≡ 0 → addr % 4 % size ≡ 0
offset-aligned size addr (inl p) h = rw (p) (omega arith)
offset-aligned size addr (inr (inl p)) h =
    let even : addr % 2 ≡ 0 = subst (λ n. addr % n ≡ 0) p h in rw (p) (omega (arith, even))
offset-aligned size addr (inr (inr p)) h =
    let word : addr % 4 ≡ 0 = subst (λ n. addr % n ≡ 0) p h in rw (p) (omega (arith, word))

-- The pairs of the DUT's lanes, at the address of the access.
lanes-pairs_from :
    (size addr value bus : ℕ)
    → IsSize size
    → addr % size ≡ 0
    → Holds size (addr % 4) value bus
    → lane_writes (align_word addr) bus (mask_of size (addr % 4)) lanes
      ≡ pairs_from addr value 0 size
lanes-pairs_from size addr value bus s h e =
    let here : align_word addr + addr % 4 ≡ addr = omega arith in
    subst
      (λ a.
        lane_writes (align_word addr) bus (mask_of size (addr % 4)) lanes
        ≡ pairs_from a value 0 size)
      here
      (lane_writes-pairs_from size (addr % 4) (align_word addr) value bus s (omega arith)
        (offset-aligned size addr s h) e)

-- An aligned store: where Spike reports the address and the value, and the DUT the same address, the
-- lanes of the size and a bus that holds the value in them, both have written exactly the bytes of
-- the value.
pub mem_entry-stored :
    (event : Retire) (insn addr value bus size : ℕ) (address text : Text) (regs : Dict ℕ)
    (csrs : List (ℕ × ℕ))
    → store_size insn ≡ some size
    → addr % size ≡ 0
    → int_16 address ≡ some addr
    → int_16 text ≡ some value
    → event.mem_wmask ≡ mask_of size (addr % 4)
    → Holds size (addr % 4) value bus
    → (w : Dict ℕ) × ((mem_entry insn (address ∷ text ∷ []) ([], []) ≡ ok ([], w))
        × ((k : ℕ)
            → (lookup k w ≡ stored addr size value k)
              × (lookup k (effects_of event addr bus regs csrs).writes ≡ stored addr size value k)))
unfolding mem_entry group_at effects_of lookup
mem_entry-stored event insn addr value bus size address text regs csrs s h a t m e =
    let pairs = lanes-pairs_from size addr value bus (store_size-IsSize insn size s) h e in
    let spike : (k : ℕ) → lookup k (write_bytes addr value 0 size []) ≡ stored addr size value k =
      λ k. rw (add-zero addr) at (lookup-write_bytes addr value 0 size k []) in
    (
      write_bytes addr value 0 size [],
      (
        rw (s, a, t) refl,
        λ k. (spike k, rw (m, pairs, update-pairs_from addr value 0 size []) (spike k)),
      ),
    )

Holds-zero : (size o : ℕ) → Holds size o 0 0
Holds-zero size o = rw (zero-div (2 ^ (o * 8))) refl

range_from-addr : (addr n : ℕ) → range_from addr n ≡ map (λ entry. entry.0) (pairs_from addr 0 0 n)
range_from-addr addr n =
    subst (λ a. range_from a n ≡ map (λ entry. entry.0) (pairs_from addr 0 0 n))
      (let e : addr + 0 ≡ addr = omega arith in e) (range_from-pairs_from addr 0 0 n)

-- An aligned load: where Spike reports the address, and the DUT the same address and the lanes of the
-- size, both have read the same bytes.
pub mem_entry-reads :
    (event : Retire) (insn addr bus size : ℕ) (address : Text) (regs : Dict ℕ) (csrs : List (ℕ × ℕ))
    → load_size insn ≡ some size
    → addr % size ≡ 0
    → int_16 address ≡ some addr
    → event.mem_rmask ≡ mask_of size (addr % 4)
    → (reads : List ℕ) × ((mem_entry insn (address ∷ []) ([], []) ≡ ok (reads, []))
        × ((effects_of event addr bus regs csrs).reads ≡ sorted reads))
unfolding mem_entry group_at effects_of lookup
mem_entry-reads event insn addr bus size address regs csrs s h a m =
    let holds : Holds size (addr % 4) 0 0 = Holds-zero size (addr % 4) in
    let pairs = lanes-pairs_from size addr 0 0 (load_size-IsSize insn size s) h holds in
    let same : lane_reads (align_word addr) (mask_of size (addr % 4)) lanes ≡ range_from addr size =
      rw (lane_reads-lane_writes (align_word addr) 0 (mask_of size (addr % 4)) lanes, pairs)
        (sym (range_from-addr addr size)) in
    (range_from addr size, (rw (s, a) refl, rw (m, same, sorted-range_from addr size) refl))
