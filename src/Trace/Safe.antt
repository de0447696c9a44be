-- ===== src/Trace/Safe.antt =====
-- How `decode` can end: it always ends, and never by an error of `struct`.
use pipelined_core.Common.{
  ℕ, zero, suc, ◌+◌, ◌-◌, ◌*◌, ◌≤◌, ◌<◌, Bool-cases, ltb→lt, ltb-false, Result-cases, false, some,
  Option-cases, List, [], ◌∷◌, length, drop, length-drop, ltb, ◌==◌, if◌then◌else◌, ok, err, ◌≡◌,
  inl, inr, refl, arith, Result,
}
use pipelined_core.Common.Bytes.{Bytes, find}
use pipelined_core.Common.Bytes.Fields.{unpack-total}
use pipelined_core.Common.Bytes.Search.{find-bounds}
use pipelined_core.Trace.{
  Error, truncated_header, invalid_count, truncated_packet, no_packet, Line, End, decoded, failed,
  magic, record_format, event_line, records, packet_count, decode_loop, decode,
}

-- The ends of the code that it means: success and its four ValueErrors.
pub data Meant : End → Type 0 where
  success : Meant decoded
  header : (start : ℕ) → Meant (failed (truncated_header start))
  count : (n start : ℕ) → 256 < n → Meant (failed (invalid_count n start))
  body : (start end : ℕ) → Meant (failed (truncated_packet start end))
  nothing : Meant (failed no_packet)

five_values :
    (index : ℕ) (vs : List ℕ) → length vs ≡ 5 → (l : Line) × (event_line index vs ≡ some l)
five_values index (a ∷ b ∷ c ∷ d ∷ e ∷ []) h = (_, refl)
five_values index [] h = absurd (omega arith)
five_values index (a ∷ []) h = absurd (omega arith)
five_values index (a ∷ b ∷ []) h = absurd (omega arith)
five_values index (a ∷ b ∷ c ∷ []) h = absurd (omega arith)
five_values index (a ∷ b ∷ c ∷ d ∷ []) h = absurd (omega arith)
five_values index (a ∷ b ∷ c ∷ d ∷ e ∷ f ∷ vs) h = absurd (omega arith)

one_value : (vs : List ℕ) → length vs ≡ 1 → (v : ℕ) × (vs ≡ v ∷ [])
one_value (v ∷ []) h = (v, refl)
one_value [] h = absurd (omega arith)
one_value (a ∷ b ∷ vs) h = absurd (omega arith)

records-total :
    (left : ℕ) (capture : Bytes) (start index : ℕ)
    → start + 6 + 17 * (index + left) ≤ length capture
    → (records capture start index left).1 ≡ some tt
unfolding records
records-total zero capture start index h = refl
records-total (suc left) capture start index h =
    let at = start + 6 + 17 * index in
    let (vs, e, n) =
      unpack-total record_format (drop at capture) (omega (arith, length-drop {0} at capture)) in
    let (l, e') = five_values index vs n in
    ground (arith, e, e', records-total left capture start (index + 1))

-- The checks before the records let only a packet that lies in the capture through.
abbrev Checked-count : Bytes → ℕ → Result Error ℕ → Type 0
Checked-count capture start (ok n) = (start + 6 + 17 * n ≤ length capture)
Checked-count capture start (err e) = Meant (failed e)

count_from :
    (capture : Bytes) (start n : ℕ)
    → Checked-count capture start (
        if ltb 256 n
        then err (invalid_count n start)
        else if ltb (length capture) (start + 6 + 17 * n)
        then err (truncated_packet start (start + 6 + 17 * n))
        else ok n)
count_from capture start n = elim (Bool-cases (ltb 256 n)) [
  | inl e ↦ rw e (count n start (ltb→lt 256 n e))
  | inr e ↦ elim (Bool-cases (ltb (length capture) (start + 6 + 17 * n))) [
    | inl over ↦ rw (e, over) (body start (start + 6 + 17 * n))
    | inr fits ↦ rw (e, fits) (ltb-false (length capture) (start + 6 + 17 * n) fits)
  ]
]

packet_count-checked :
    (capture : Bytes) (start : ℕ) → Checked-count capture start (packet_count capture start)
unfolding packet_count
packet_count-checked capture start =
    let enough_bytes : ltb (length capture - start) 6 ≡ false
        → 2 ≤ length (drop (start + 4) capture) =
      λ h.
        omega
          (arith, ltb-false (length capture - start) 6 h, length-drop {0} (start + 4) capture) in
    elim (Bool-cases (ltb (length capture - start) 6)) [
      | inl short ↦ rw short (header start)
      | inr long ↦
          let (vs, e, n) = unpack-total (2 ∷ []) (drop (start + 4) capture) (enough_bytes long) in
          let (v, e') = one_value vs n in rw (long, e, e') (count_from capture start v)
    ]

no_more : (n : ℕ) → Meant (if n == 0 then failed no_packet else decoded)
no_more n = elim (Bool-cases (n == 0)) [ inl e ↦ rw e nothing | inr e ↦ rw e success ]

decode_loop-Meant :
    (fuel : ℕ) (capture : Bytes) (cursor packets : ℕ)
    → cursor ≤ length capture
    → length capture + 1 ≤ cursor + fuel
    → Meant (decode_loop fuel capture cursor packets).1
unfolding decode_loop
decode_loop-Meant zero capture cursor packets inside fueled = absurd (omega arith)
decode_loop-Meant (suc fuel) capture cursor packets inside fueled =
    elim (Option-cases (find magic capture cursor)) [
      | inl gone ↦ rw (decode_loop, gone) (no_more packets)
      | inr (start, found) ↦
          let after_cursor : cursor ≤ start =
            (find-bounds magic capture cursor {j = start} found).0 in
          elim (Result-cases (packet_count capture start)) [
            | inl (e, bad) ↦
                rw (decode_loop, found, bad) (rw bad at (packet_count-checked capture start))
            | inr (n, good) ↦
                let fits : start + 6 + 17 * n ≤ length capture =
                  rw good at (packet_count-checked capture start) in
                rw (decode_loop, found, good, records-total n capture start 0 (omega (arith, fits)))
                  (decode_loop-Meant fuel capture (start + 6 + 17 * n) (packets + 1) fits
                    (omega (arith, fueled, after_cursor)))
          ]
    ]

-- `decode` ends on every capture, by success or by one of its four ValueErrors: the loop is
-- never out of fuel, and no `unpack_from` is short of bytes.
pub decode-Meant : (capture : Bytes) → Meant (decode capture).1
unfolding decode
decode-Meant capture =
    decode_loop-Meant (length capture + 1) capture 0 0 (omega arith) (omega arith)
