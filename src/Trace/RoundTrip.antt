-- ===== src/Trace/RoundTrip.antt =====
-- A capture that holds whole packets between stretches of other bytes is decoded packet by packet.
use mathlib.Core.List.{append_assoc}
use pipelined_core.Common.{
  ℕ, zero, suc, ◌+◌, ◌*◌, ◌^◌, ◌≤◌, ◌<◌, bit_and, not, some, List, [], ◌∷◌, ◌++◌, length, drop,
  length-append, drop-length-append, ◌==◌, ok, ◌≡◌, refl, ap, ◌∙◌, arith,
}
use pipelined_core.Common.Bytes.{Bytes, find}
use pipelined_core.Common.Bytes.Fields.{Field, Fits, pack, unpack-pack, length-pack}
use pipelined_core.Common.Bytes.Search.{Avoids, find-none, find-gap}
use pipelined_core.Common.Text.{codes}
use pipelined_core.Trace.{
  Line, packet, event, decoded, magic, records, packet_count, decode_loop, decode,
}

-- One entry of the trace ring, as the hardware sends it.
pub record Entry : Type 0 where
  pub pc : ℕ
  pub insn : ℕ
  pub cause : ℕ
  pub tval : ℕ
  pub meta : ℕ

abbrev pub IsEntry : Entry → Type 0
IsEntry e =
    (e.pc < 2 ^ 32) × (e.insn < 2 ^ 32) × (e.cause < 2 ^ 32) × (e.tval < 2 ^ 32) × (e.meta < 2 ^ 8)

abbrev fields : Entry → List Field
fields e = (4, e.pc) ∷ (4, e.insn) ∷ (4, e.cause) ∷ (4, e.tval) ∷ (1, e.meta) ∷ []

abbrev pub All {ℓ κ} : {A : Type ℓ} → (A → Type κ) → List A → Type κ
All P [] = Unit
All P (x ∷ xs) = P x × All P xs

unfoldable pub entries_bytes : List Entry → Bytes
entries_bytes [] = []
entries_bytes (e ∷ es) = pack (fields e) ++ entries_bytes es

unfoldable pub packet_bytes : List Entry → Bytes
packet_bytes es = magic ++ (pack ((2, length es) ∷ []) ++ entries_bytes es)

-- A stretch of other bytes, then a packet of the entries.
abbrev pub Part : Type 0
Part = Bytes × List Entry

unfoldable pub capture_bytes : List Part → Bytes → Bytes
capture_bytes [] tail = tail
capture_bytes ((gap, es) ∷ parts) tail = gap ++ (packet_bytes es ++ capture_bytes parts tail)

-- Other bytes hold no `T`, and a packet has at most 256 entries.
abbrev pub IsPart : Part → Type 0
IsPart (gap, es) = Avoids b'T' gap × (length es ≤ 256) × All IsEntry es

abbrev entry_line : ℕ → Entry → Line
entry_line index e =
    event index (not (bit_and e.meta 4 == 0)) (bit_and e.meta 3) e.pc e.insn e.cause e.tval

unfoldable pub entry_lines : ℕ → List Entry → List Line
entry_lines index [] = []
entry_lines index (e ∷ es) = entry_line index e ∷ entry_lines (index + 1) es

unfoldable pub part_lines : ℕ → List Part → List Line
part_lines packets [] = []
part_lines packets ((gap, es) ∷ parts) =
    packet packets (length es) ∷ (entry_lines 0 es ++ part_lines (packets + 1) parts)

IsEntry-Fits : (e : Entry) → IsEntry e → Fits (fields e)
IsEntry-Fits e h = omega arith

length-entries_bytes : (es : List Entry) → length (entries_bytes es) ≡ 17 * length es
unfolding entries_bytes
length-entries_bytes [] = refl
length-entries_bytes (e ∷ es) = omega (
  arith,
  length-append {0} (pack (fields e)) (entries_bytes es),
  length-pack (fields e),
  length-entries_bytes es,
)

-- Reading behind a prefix of known length.
drop_prefix : (prefix s : Bytes) (n : ℕ) → length prefix ≡ n → drop n (prefix ++ s) ≡ s
drop_prefix prefix s n e = rw (← e) (drop-length-append prefix s)

records_lem :
    (es : List Entry) (before rest : Bytes) (start index : ℕ)
    → length before ≡ start + 6 + 17 * index
    → All IsEntry es
    → records (before ++ (entries_bytes es ++ rest)) start index (length es)
      ≡ (entry_lines index es, some tt)
unfolding records entries_bytes entry_lines
records_lem [] before rest start index e h = refl
records_lem (x ∷ es) before rest start index e h =
    let here = pack (fields x) in
    let more = entries_bytes es ++ rest in
    let whole : before ++ ((here ++ entries_bytes es) ++ rest) ≡ before ++ (here ++ more) =
      simp append_assoc in
    let read = drop_prefix before (here ++ more) (start + 6 + 17 * index) e in
    let longer = length-append {0} before here in
    let later =
      records_lem es (before ++ here) rest start (index + 1)
        (omega (arith, e, longer, length-pack (fields x))) h.1 in
    let later' = rw append_assoc at later in
    rw whole (ground (arith, read, later', unpack-pack (fields x) more (IsEntry-Fits x h.0)))

length-packet_bytes : (es : List Entry) → length (packet_bytes es) ≡ 6 + 17 * length es
unfolding packet_bytes
length-packet_bytes es = omega (
  arith,
  length-append {0} (pack ((2, length es) ∷ [])) (entries_bytes es),
  length-pack ((2, length es) ∷ []),
  length-entries_bytes es,
)

packet_count_lem :
    (es : List Entry) (before rest : Bytes) (start : ℕ)
    → length before ≡ start
    → length es ≤ 256
    → packet_count (before ++ (packet_bytes es ++ rest)) start ≡ ok (length es)
unfolding packet_count
packet_count_lem es before rest start e h =
    let count = pack ((2, length es) ∷ []) in
    let split : before ++ (packet_bytes es ++ rest)
        ≡ (before ++ magic) ++ (count ++ (entries_bytes es ++ rest)) =
      unfold packet_bytes in simp append_assoc in
    let long = length-append {0} before (packet_bytes es ++ rest) in
    let long2 = length-append {0} (packet_bytes es) rest in
    let read =
      ap (drop (start + 4)) split
      ∙ drop_prefix (before ++ magic) (count ++ (entries_bytes es ++ rest)) (start + 4)
          (omega (arith, e, length-append {0} before magic)) in
    ground (
      arith,
      e,
      long,
      long2,
      length-packet_bytes es,
      read,
      unpack-pack ((2, length es) ∷ []) (entries_bytes es ++ rest) (omega arith),
    )

packet_records :
    (es : List Entry) (before rest : Bytes) (start : ℕ)
    → length before ≡ start
    → All IsEntry es
    → records (before ++ (packet_bytes es ++ rest)) start 0 (length es)
      ≡ (entry_lines 0 es, some tt)
packet_records es before rest start e h =
    let header = magic ++ pack ((2, length es) ∷ []) in
    let split : before ++ (packet_bytes es ++ rest)
        ≡ (before ++ header) ++ (entries_bytes es ++ rest) =
      unfold packet_bytes in simp append_assoc in
    rw split (
      records_lem es (before ++ header) rest start 0
        (omega (
          arith,
          e,
          length-append {0} before header,
          length-append {0} magic (pack ((2, length es) ∷ [])),
          length-pack ((2, length es) ∷ []),
        ))
        h)

find_packet :
    (es : List Entry) (prefix gap rest : Bytes) (cursor : ℕ)
    → length prefix ≡ cursor
    → Avoids b'T' gap
    → find magic (prefix ++ (gap ++ (packet_bytes es ++ rest))) cursor ≡ some (cursor + length gap)
find_packet es prefix gap rest cursor e h =
    let s = (pack ((2, length es) ∷ []) ++ entries_bytes es) ++ rest in
    let found = find-gap b'T' (codes "RCE") prefix gap s h in unfold packet_bytes in rw e at found

decode_loop_lem :
    (parts : List Part) (tail prefix : Bytes) (fuel cursor n : ℕ)
    → length prefix ≡ cursor
    → All IsPart parts
    → Avoids b'T' tail
    → length parts < fuel
    → 0 < n + length parts
    → decode_loop fuel (prefix ++ capture_bytes parts tail) cursor n ≡ (part_lines n parts, decoded)
unfolding decode_loop capture_bytes part_lines
decode_loop_lem parts tail prefix zero cursor n e h t f p = absurd (omega arith)
decode_loop_lem [] tail prefix (suc fuel) cursor n e h t f p =
    ground (arith, rw e at (find-none b'T' (codes "RCE") prefix tail t))
decode_loop_lem ((gap, es) ∷ parts) tail prefix (suc fuel) cursor n e h t f p =
    let rest = capture_bytes parts tail in
    let start = cursor + length gap in
    let body = packet_bytes es ++ rest in
    let behind : prefix ++ (gap ++ body) ≡ (prefix ++ gap) ++ body = simp append_assoc in
    let over : prefix ++ (gap ++ body) ≡ ((prefix ++ gap) ++ packet_bytes es) ++ rest =
      simp append_assoc in
    let at : length (prefix ++ gap) ≡ start = omega (arith, e, length-append {0} prefix gap) in
    let counted = rw (← behind) at (packet_count_lem es (prefix ++ gap) rest start at h.0.1) in
    let recorded = rw (← behind) at (packet_records es (prefix ++ gap) rest start at h.0.2) in
    let later = rw (← over) at (
      decode_loop_lem parts tail ((prefix ++ gap) ++ packet_bytes es) fuel
        (start + 6 + 17 * length es) (n + 1)
        (omega
          (arith, at, length-append {0} (prefix ++ gap) (packet_bytes es), length-packet_bytes es))
        h.1 t (omega arith) (omega arith)) in
    ground (arith, find_packet es prefix gap rest cursor e h.0.0, counted, recorded, later)

length-parts : (parts : List Part) (tail : Bytes) → length parts ≤ length (capture_bytes parts tail)
unfolding capture_bytes
length-parts [] tail = omega arith
length-parts ((gap, es) ∷ parts) tail =
    let rest = capture_bytes parts tail in
    omega (
      arith,
      length-parts parts tail,
      length-append {0} gap (packet_bytes es ++ rest),
      length-append {0} (packet_bytes es) rest,
      length-packet_bytes es,
    )

-- Whole packets of at most 256 entries, between stretches of bytes with no `T`, are decoded in full
-- and in order, each entry with its fields, and the decoder ends without an error.
pub decode-capture_bytes :
    (parts : List Part) (tail : Bytes)
    → All IsPart parts
    → Avoids b'T' tail
    → 0 < length parts
    → decode (capture_bytes parts tail) ≡ (part_lines 0 parts, decoded)
unfolding decode
decode-capture_bytes parts tail h t p =
    decode_loop_lem parts tail [] (length (capture_bytes parts tail) + 1) 0 0 refl h t
      (omega (arith, length-parts parts tail)) (omega arith)
