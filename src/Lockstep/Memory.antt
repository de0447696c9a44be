-- ===== src/Lockstep/Memory.antt =====
-- The bytes of a load or a store, as the lanes of the DUT and as the addresses of Spike.
pub mod Lanes
pub mod Access
use pipelined_core.Common.{
  ℕ, zero, suc, ◌+◌, ◌-◌, ◌*◌, ◌/◌, ◌%◌, ◌^◌, ◌<◌, bit_and, Bool, true, false, ◌&&◌, Option, none,
  some, List, [], ◌∷◌, ◌++◌, ◌==◌, ltb, leb, if◌then◌else◌, ok, Bool-cases, map, ◌≡◌, ◌⊎◌, inl, inr,
  refl, ap, sym, arith,
}
use pipelined_core.Common.Bits.{bit_and_mask}
use pipelined_core.Common.Text.{Text, int_16}
use pipelined_core.Common.Dict.{Dict, lookup, insert, update, from_pairs, lookup-insert}
use pipelined_core.Lockstep.Insn.{load_size, store_size}
use pipelined_core.Lockstep.Reference.{
  byte_of, range_from, write_bytes, mem_entry, sorted, insert_sorted,
}
use pipelined_core.Lockstep.Event.{
  Retire, align_word, lane, lanes, lane_reads, lane_writes, Effects, effects_of,
}

-- The byte that a store of `size` bytes of `value` at `addr` leaves at `k`, if it writes one.
abbrev pub stored : (addr size value k : ℕ) → Option ℕ
stored addr size value k =
    if leb addr k && ltb k (addr + size) then some (value / 2 ^ ((k - addr) * 8) % 256) else none

pub byte_of_lem : (value byte : ℕ) → byte_of value byte ≡ value / 2 ^ (byte * 8) % 256
byte_of_lem value byte = bit_and_mask 8 (value / 2 ^ (byte * 8))

pub lookup-write_bytes :
    (addr value byte n k : ℕ) (d : Dict ℕ)
    → lookup k (write_bytes addr value byte n d) ≡ (
        if leb (addr + byte) k && ltb k (addr + byte + n)
        then some (value / 2 ^ ((k - addr) * 8) % 256)
        else lookup k d)
unfolding write_bytes
lookup-write_bytes addr value byte zero k d = ground arith
lookup-write_bytes addr value byte (suc n) k d =
    let more =
      lookup-write_bytes addr value (byte + 1) n k (insert (addr + byte) (byte_of value byte) d) in
    let here = lookup-insert (addr + byte) k (byte_of value byte) d in
    ground (arith, more, here, byte_of_lem value byte)

-- What `write_bytes` assigns, in order.
abbrev pub pairs_from : (addr value byte n : ℕ) → List (ℕ × ℕ)
pairs_from addr value byte zero = []
pairs_from addr value byte (suc n) =
    (addr + byte, byte_of value byte) ∷ pairs_from addr value (byte + 1) n

pub update-pairs_from :
    (addr value byte n : ℕ) (d : Dict ℕ)
    → update d (pairs_from addr value byte n) ≡ write_bytes addr value byte n d
unfolding write_bytes update
update-pairs_from addr value byte zero d = refl
update-pairs_from addr value byte (suc n) d =
    update-pairs_from addr value (byte + 1) n (insert (addr + byte) (byte_of value byte) d)

-- The lanes of the word at `aligned` for an access of `size` bytes at offset `o`.
abbrev pub mask_of : (size o : ℕ) → ℕ
mask_of size o = (2 ^ size - 1) * 2 ^ o

-- The lanes of `bus` from the offset on hold the bytes of `value`.
abbrev pub Holds : (size o value bus : ℕ) → Type 0
Holds size o value bus = bus / 2 ^ (o * 8) % 2 ^ (size * 8) ≡ value % 2 ^ (size * 8)

-- The sizes of the instructions.
abbrev pub IsSize : ℕ → Type 0
IsSize size = (size ≡ 1) ⊎ ((size ≡ 2) ⊎ (size ≡ 4))
