-- ===== src/Lockstep/Memory/Lanes.antt =====
-- The lanes of an aligned access are the bytes that it names.
use pipelined_core.Common.{
  ℕ, zero, suc, ◌+◌, ◌*◌, ◌/◌, ◌%◌, ◌^◌, ◌<◌, List, [], ◌∷◌, map, subst, ◌≡◌, inl, inr, refl, arith,
}
use pipelined_core.Lockstep.Reference.{byte_of, range_from, sorted, insert_sorted}
use pipelined_core.Lockstep.Event.{lanes, lane_reads, lane_writes}
use pipelined_core.Lockstep.Memory.{pairs_from, mask_of, Holds, IsSize, byte_of_lem}

byte_of_eq :
    (bus j value i : ℕ)
    → bus / 2 ^ (j * 8) % 256 ≡ value / 2 ^ (i * 8) % 256
    → byte_of bus j ≡ byte_of value i
byte_of_eq bus j value i e = omega (arith, e, byte_of_lem bus j, byte_of_lem value i)

cons_entry :
    {a b v w : ℕ} {xs ys : List (ℕ × ℕ)} → a ≡ b → v ≡ w → xs ≡ ys → (a, v) ∷ xs ≡ (b, w) ∷ ys
cons_entry p q r = rw (p, q, r) refl

lane_writes-byte :
    (o aligned value bus : ℕ)
    → o < 4
    → o % 1 ≡ 0
    → Holds 1 o value bus
    → lane_writes aligned bus (mask_of 1 o) lanes ≡ pairs_from (aligned + o) value 0 1
unfolding lane_writes
lane_writes-byte zero aligned value bus h a e =
    cons_entry (omega arith) (byte_of_eq bus 0 value 0 (omega (arith, e))) refl
lane_writes-byte (suc zero) aligned value bus h a e =
    cons_entry (omega arith) (byte_of_eq bus 1 value 0 (omega (arith, e))) refl
lane_writes-byte (suc (suc zero)) aligned value bus h a e =
    cons_entry (omega arith) (byte_of_eq bus 2 value 0 (omega (arith, e))) refl
lane_writes-byte (suc (suc (suc zero))) aligned value bus h a e =
    cons_entry (omega arith) (byte_of_eq bus 3 value 0 (omega (arith, e))) refl
lane_writes-byte (suc (suc (suc (suc o)))) aligned value bus h a e = absurd (omega (arith, h))

lane_writes-half :
    (o aligned value bus : ℕ)
    → o < 4
    → o % 2 ≡ 0
    → Holds 2 o value bus
    → lane_writes aligned bus (mask_of 2 o) lanes ≡ pairs_from (aligned + o) value 0 2
unfolding lane_writes
lane_writes-half zero aligned value bus h a e =
    cons_entry (omega arith) (byte_of_eq bus 0 value 0 (omega (arith, e)))
      (cons_entry (omega arith) (byte_of_eq bus 1 value 1 (omega (arith, e))) refl)
lane_writes-half (suc zero) aligned value bus h a e = absurd (omega (arith, a))
lane_writes-half (suc (suc zero)) aligned value bus h a e =
    cons_entry (omega arith) (byte_of_eq bus 2 value 0 (omega (arith, e)))
      (cons_entry (omega arith) (byte_of_eq bus 3 value 1 (omega (arith, e))) refl)
lane_writes-half (suc (suc (suc zero))) aligned value bus h a e = absurd (omega (arith, a))
lane_writes-half (suc (suc (suc (suc o)))) aligned value bus h a e = absurd (omega (arith, h))

lane_writes-word :
    (o aligned value bus : ℕ)
    → o < 4
    → o % 4 ≡ 0
    → Holds 4 o value bus
    → lane_writes aligned bus (mask_of 4 o) lanes ≡ pairs_from (aligned + o) value 0 4
unfolding lane_writes
lane_writes-word zero aligned value bus h a e =
    cons_entry (omega arith) (byte_of_eq bus 0 value 0 (omega (arith, e))) (
      cons_entry (omega arith) (byte_of_eq bus 1 value 1 (omega (arith, e))) (
        cons_entry (omega arith) (byte_of_eq bus 2 value 2 (omega (arith, e)))
          (cons_entry (omega arith) (byte_of_eq bus 3 value 3 (omega (arith, e))) refl)))
lane_writes-word (suc zero) aligned value bus h a e = absurd (omega (arith, a))
lane_writes-word (suc (suc zero)) aligned value bus h a e = absurd (omega (arith, a))
lane_writes-word (suc (suc (suc zero))) aligned value bus h a e = absurd (omega (arith, a))
lane_writes-word (suc (suc (suc (suc o)))) aligned value bus h a e = absurd (omega (arith, h))

-- An aligned access of a word or less stays in its word, and its lanes are the bytes that it has.
pub lane_writes-pairs_from :
    (size o aligned value bus : ℕ)
    → IsSize size
    → o < 4
    → o % size ≡ 0
    → Holds size o value bus
    → lane_writes aligned bus (mask_of size o) lanes ≡ pairs_from (aligned + o) value 0 size
lane_writes-pairs_from size o aligned value bus (inl p) h a e = rw (p) (
    lane_writes-byte o aligned value bus h (subst (λ n. o % n ≡ 0) p a)
      (subst (λ n. Holds n o value bus) p e))
lane_writes-pairs_from size o aligned value bus (inr (inl p)) h a e = rw (p) (
    lane_writes-half o aligned value bus h (subst (λ n. o % n ≡ 0) p a)
      (subst (λ n. Holds n o value bus) p e))
lane_writes-pairs_from size o aligned value bus (inr (inr p)) h a e = rw (p) (
    lane_writes-word o aligned value bus h (subst (λ n. o % n ≡ 0) p a)
      (subst (λ n. Holds n o value bus) p e))

pub lane_reads-lane_writes :
    (aligned value mask : ℕ) (bytes : List ℕ)
    → lane_reads aligned mask bytes ≡ map (λ entry. entry.0) (lane_writes aligned value mask bytes)
unfolding lane_reads lane_writes
lane_reads-lane_writes aligned value mask [] = refl
lane_reads-lane_writes aligned value mask (byte ∷ more) =
    ground (arith, lane_reads-lane_writes aligned value mask more)

pub range_from-pairs_from :
    (addr value byte n : ℕ)
    → range_from (addr + byte) n ≡ map (λ entry. entry.0) (pairs_from addr value byte n)
unfolding range_from
range_from-pairs_from addr value byte zero = refl
range_from-pairs_from addr value byte (suc n) =
    ground (arith, range_from-pairs_from addr value (byte + 1) n)

-- A range is sorted.
pub sorted-range_from : (addr n : ℕ) → sorted (range_from addr n) ≡ range_from addr n
unfolding sorted insert_sorted range_from
sorted-range_from addr zero = refl
sorted-range_from addr (suc zero) = refl
sorted-range_from addr (suc (suc n)) = ground (arith, sorted-range_from (addr + 1) (suc n))
