-- ===== src/Trace.antt =====
-- scripts/decode_trace.py: the decoder of TRCE packets from the debug UART.
pub mod RoundTrip
pub mod Safe
use pipelined_core.Common.{
  ℕ, zero, suc, ◌+◌, ◌-◌, ◌*◌, bit_and, Bool, true, false, not, Option, none, some, List, [], ◌∷◌,
  ◌++◌, length, ltb, ◌==◌, if◌then◌else◌, Result, ok, err,
}
use pipelined_core.Common.Bytes.{Bytes, find, unpack, unpack_from}
use pipelined_core.Common.Text.{codes}

-- The ValueErrors, and `struct.error`, which is none of them.
pub data Error : Type 0 where
  truncated_header : ℕ → Error
  invalid_count : ℕ → ℕ → Error
  truncated_packet : ℕ → ℕ → Error
  no_packet : Error
  struct_error : Error

-- A printed line, by the values that it shows.
pub data Line : Type 0 where
  packet : ℕ → ℕ → Line
  event : ℕ → Bool → ℕ → ℕ → ℕ → ℕ → ℕ → Line

-- What was printed, and how `decode` ends; `stuck` is no end of the code's.
pub data End : Type 0 where
  decoded : End
  failed : Error → End
  stuck : End

abbrev pub Printed : Type 0
Printed = List Line × End

abbrev pub print : List Line → Printed → Printed
print lines (more, e) = (lines ++ more, e)

abbrev pub magic : Bytes
magic = codes "TRCE"

-- "<IIIIB"
abbrev pub record_format : List ℕ
record_format = 4 ∷ 4 ∷ 4 ∷ 4 ∷ 1 ∷ []

abbrev pub event_line : ℕ → List ℕ → Option Line
event_line index (pc ∷ insn ∷ cause ∷ tval ∷ meta ∷ []) =
    some (event index (not (bit_and meta 4 == 0)) (bit_and meta 3) pc insn cause tval)
event_line index _ = none

-- `for index in range(count)`, with the rounds that are left.
unfoldable pub records : Bytes → ℕ → ℕ → ℕ → List Line × Option (Unit {0})
records capture start index zero = ([], some tt)
records capture start index (suc left) =
    let (more, e) = records capture start (index + 1) left in
    elim (unpack_from record_format capture (start + 6 + 17 * index)) [
      | none ↦ ([], none)
      | some fields ↦ elim (event_line index fields) [
        | none ↦ ([], none)
        | some line ↦ (line ∷ more, e)
      ]
    ]

-- The count of the packet at `start`, after the checks.
unfoldable pub packet_count : Bytes → ℕ → Result Error ℕ
packet_count capture start =
    if ltb (length capture - start) 6
    then err (truncated_header start)
    else elim (unpack_from (2 ∷ []) capture (start + 4)) [
      | some (count ∷ []) ↦
          if ltb 256 count
          then err (invalid_count count start)
          else if ltb (length capture) (start + 6 + 17 * count)
          then err (truncated_packet start (start + 6 + 17 * count))
          else ok count
      | _ ↦ err struct_error
    ]

-- The `while` loop; a round passes 6 bytes at least.
unfoldable pub decode_loop : ℕ → Bytes → ℕ → ℕ → Printed
unfolding packet_count records
decode_loop zero capture cursor packets = ([], stuck)
decode_loop (suc fuel) capture cursor packets = elim (find magic capture cursor) [
  | none ↦ ([], if packets == 0 then failed no_packet else decoded)
  | some start ↦ elim (packet_count capture start) [
    | err e ↦ ([], failed e)
    | ok count ↦
        let (lines, e) = records capture start 0 count in
        elim e [
          | none ↦ (packet packets count ∷ lines, failed struct_error)
          | some _ ↦
              print (packet packets count ∷ lines)
                (decode_loop fuel capture (start + 6 + 17 * count) (packets + 1))
        ]
  ]
]

unfoldable pub decode : Bytes → Printed
unfolding decode_loop
decode capture = decode_loop (length capture + 1) capture 0 0

-- The exit status of the script; an error that `main` does not name ends it with 1 as well.
abbrev pub exit_status : End → ℕ
exit_status decoded = 0
exit_status _ = 1
