-- ===== src/Board/Decoders.antt =====
-- The decoders of the measurement packets read every packet that they find.
use pipelined_core.Common.{
  ℕ, zero, suc, ◌+◌, ◌*◌, ◌≤◌, Option, none, some, Option-cases, List, [], ◌∷◌, length, drop,
  length-drop, ◌≡◌, inl, inr, refl, ap, arith,
}
use pipelined_core.Common.Bytes.{Bytes}
use pipelined_core.Common.Bytes.Fields.{sum_widths, unpack-total}
use pipelined_core.Common.Bytes.Search.{Avoids}
use pipelined_core.Board.{packet_offset, words, verdict8, verdict9, decode_with, decode8, decode9}
use pipelined_core.Board.Packets.{packet_offset-IsLast}

sum_widths-words : (k : ℕ) → sum_widths (words k) ≡ 4 * k
sum_widths-words zero = refl
sum_widths-words (suc k) = omega (arith, sum_widths-words k)

length-words : (k : ℕ) → length (words k) ≡ k
length-words zero = refl
length-words (suc k) = ap suc (length-words k)

verdict8-total : (vs : List ℕ) → length vs ≡ 7 → (status : ℕ) × (verdict8 vs ≡ some status)
verdict8-total [] h = absurd (omega arith)
verdict8-total (v0 ∷ []) h = absurd (omega arith)
verdict8-total (v0 ∷ v1 ∷ []) h = absurd (omega arith)
verdict8-total (v0 ∷ v1 ∷ v2 ∷ []) h = absurd (omega arith)
verdict8-total (v0 ∷ v1 ∷ v2 ∷ v3 ∷ []) h = absurd (omega arith)
verdict8-total (v0 ∷ v1 ∷ v2 ∷ v3 ∷ v4 ∷ []) h = absurd (omega arith)
verdict8-total (v0 ∷ v1 ∷ v2 ∷ v3 ∷ v4 ∷ v5 ∷ []) h = absurd (omega arith)
verdict8-total (v0 ∷ v1 ∷ v2 ∷ v3 ∷ v4 ∷ v5 ∷ v6 ∷ []) h = (_, refl)
verdict8-total (v0 ∷ v1 ∷ v2 ∷ v3 ∷ v4 ∷ v5 ∷ v6 ∷ v7 ∷ vs) h = absurd (omega arith)

verdict9-total : (vs : List ℕ) → length vs ≡ 14 → (status : ℕ) × (verdict9 vs ≡ some status)
verdict9-total [] h = absurd (omega arith)
verdict9-total (v0 ∷ []) h = absurd (omega arith)
verdict9-total (v0 ∷ v1 ∷ []) h = absurd (omega arith)
verdict9-total (v0 ∷ v1 ∷ v2 ∷ []) h = absurd (omega arith)
verdict9-total (v0 ∷ v1 ∷ v2 ∷ v3 ∷ []) h = absurd (omega arith)
verdict9-total (v0 ∷ v1 ∷ v2 ∷ v3 ∷ v4 ∷ []) h = absurd (omega arith)
verdict9-total (v0 ∷ v1 ∷ v2 ∷ v3 ∷ v4 ∷ v5 ∷ []) h = absurd (omega arith)
verdict9-total (v0 ∷ v1 ∷ v2 ∷ v3 ∷ v4 ∷ v5 ∷ v6 ∷ []) h = absurd (omega arith)
verdict9-total (v0 ∷ v1 ∷ v2 ∷ v3 ∷ v4 ∷ v5 ∷ v6 ∷ v7 ∷ []) h = absurd (omega arith)
verdict9-total (v0 ∷ v1 ∷ v2 ∷ v3 ∷ v4 ∷ v5 ∷ v6 ∷ v7 ∷ v8 ∷ []) h = absurd (omega arith)
verdict9-total (v0 ∷ v1 ∷ v2 ∷ v3 ∷ v4 ∷ v5 ∷ v6 ∷ v7 ∷ v8 ∷ v9 ∷ []) h = absurd (omega arith)
verdict9-total (v0 ∷ v1 ∷ v2 ∷ v3 ∷ v4 ∷ v5 ∷ v6 ∷ v7 ∷ v8 ∷ v9 ∷ v10 ∷ []) h = absurd (omega arith)
verdict9-total (v0 ∷ v1 ∷ v2 ∷ v3 ∷ v4 ∷ v5 ∷ v6 ∷ v7 ∷ v8 ∷ v9 ∷ v10 ∷ v11 ∷ []) h =
    absurd (omega arith)
verdict9-total (v0 ∷ v1 ∷ v2 ∷ v3 ∷ v4 ∷ v5 ∷ v6 ∷ v7 ∷ v8 ∷ v9 ∷ v10 ∷ v11 ∷ v12 ∷ []) h =
    absurd (omega arith)
verdict9-total (v0 ∷ v1 ∷ v2 ∷ v3 ∷ v4 ∷ v5 ∷ v6 ∷ v7 ∷ v8 ∷ v9 ∷ v10 ∷ v11 ∷ v12 ∷ v13 ∷ []) h =
    (_, refl)
verdict9-total (v0 ∷ v1 ∷ v2 ∷ v3 ∷ v4 ∷ v5 ∷ v6 ∷ v7 ∷ v8 ∷ v9 ∷ v10 ∷ v11 ∷ v12 ∷ v13 ∷ v14 ∷ vs)
      h =
    absurd (omega arith)

decode_with-total :
    (b : ℕ) (p : Bytes) (n k : ℕ) (verdict : List ℕ → Option ℕ) (data_ : Bytes)
    → Avoids b p
    → length (b ∷ p) + 4 * k ≤ n
    → ((vs : List ℕ) → length vs ≡ k → (status : ℕ) × (verdict vs ≡ some status))
    → (r : Option (ℕ × List ℕ) × ℕ) × (decode_with (b ∷ p) n k verdict data_ ≡ some r)
unfolding decode_with
decode_with-total b p n k verdict data_ free fits total =
    let last = packet_offset-IsLast b p free n (omega (arith, fits)) data_ in
    elim (Option-cases (packet_offset (b ∷ p) n data_)) [
      | inl gone ↦ ((none, 1), rw (decode_with, gone) refl)
      | inr (o, found) ↦
          let complete : o + n ≤ length data_ = (rw found at last).0 in
          let (vs, e, c) = unpack-total (words k) (drop (o + length (b ∷ p)) data_) (
            omega (
              arith,
              sum_widths-words k,
              length-drop {0} (o + length (b ∷ p)) data_,
              complete,
              fits,
            )) in
          let (status, s) = total vs (omega (arith, c, length-words k)) in
          ((some (o, vs), status), rw (decode_with, found, e, s) refl)
    ]

-- Neither decoder raises a struct.error, whatever was captured: each of them ends with an exit
-- status.
pub decoders-total :
    (data_ : Bytes)
    → ((r : Option (ℕ × List ℕ) × ℕ) × (decode8 data_ ≡ some r))
      × ((r : Option (ℕ × List ℕ) × ℕ) × (decode9 data_ ≡ some r))
decoders-total data_ = (
  decode_with-total 68 (56 ∷ 66 ∷ 77 ∷ 1 ∷ []) 33 7 verdict8 data_
      (omega arith, (omega arith, (omega arith, (omega arith, tt)))) (omega arith) verdict8-total,
  decode_with-total 67 (57 ∷ 83 ∷ 77 ∷ 1 ∷ []) 61 14 verdict9 data_
      (omega arith, (omega arith, (omega arith, (omega arith, tt)))) (omega arith) verdict9-total,
)
