-- ===== src/Board.antt =====
-- scripts/decode_checkpoint8.py and decode_checkpoint9.py: the last complete measurement packet of
-- a UART capture; scripts/capture_checkpoint10.py: the milestones of a boot capture.
pub mod Packets
pub mod Printed
pub mod Decoders
pub mod Milestones
use pipelined_core.Common.{
  ℕ, zero, suc, ◌+◌, ◌*◌, Bool, true, false, not, ◌&&◌, Option, none, some, List, [], ◌∷◌, ◌++◌,
  length, ltb, leb, ◌==◌, if◌then◌else◌, Result, ok, err,
}
use mathlib.Core.Option
use pipelined_core.Common.Bytes.{Bytes, find, rfind, unpack, unpack_from}
use pipelined_core.Common.Text.{codes}

-- The `while` loop over `offset`; every round ends the search earlier. `fuel` counts the rounds, and
-- an offset below it is enough.
unfoldable pub last_complete : ℕ → Bytes → ℕ → Bytes → Option ℕ → Option ℕ
unfolding rfind
last_complete fuel magic packet_bytes data_ none = none
last_complete zero magic packet_bytes data_ (some offset) = none
last_complete (suc fuel) magic packet_bytes data_ (some offset) =
    if ltb (length data_) (offset + packet_bytes)
    then last_complete fuel magic packet_bytes data_ (rfind magic data_ offset)
    else some offset

abbrev pub packet_offset : Bytes → ℕ → Bytes → Option ℕ
packet_offset magic packet_bytes data_ =
    last_complete (length data_ + 1) magic packet_bytes data_ (rfind magic data_ (length data_))

abbrev pub magic8 : Bytes
magic8 = codes "D8BM" ++ (1 ∷ [])

abbrev pub magic9 : Bytes
magic9 = codes "C9SM" ++ (1 ∷ [])

abbrev pub words : ℕ → List ℕ
words zero = []
words (suc n) = 4 ∷ words n

-- What a decoder shows of the packet, and the exit status; `none` is `struct.error`.
abbrev pub nonzero : ℕ → Bool
nonzero n = not (n == 0)

abbrev pub verdict8 : List ℕ → Option ℕ
verdict8 (base_w ∷ base_r ∷ cont_w ∷ cont_r ∷ dma_err ∷ cpu_err ∷ cpu_trips ∷ []) = some (
    if (dma_err == 0 && cpu_err == 0)
      && (nonzero base_w && (nonzero base_r && (nonzero cont_w && nonzero cont_r)))
    then 0
    else 2)
verdict8 _ = none

abbrev pub verdict9 : List ℕ → Option ℕ
verdict9
      (flags ∷ phase ∷ result ∷ pc ∷ cause ∷ tval ∷ imiss ∷ dmiss ∷ dwb ∷ ibypass ∷ dbypass ∷ trips
        ∷ errors ∷ cycles ∷ []) =
    some (
      if (flags == 15 && phase == 8)
        && ((result == 3372245005 && cause == 3)
            && ((leb 4 imiss && (leb 512 dmiss && leb 512 dwb))
                && ((nonzero ibypass && nonzero dbypass)
                    && (nonzero trips && not (nonzero errors)))))
      then 0
      else 2)
verdict9 _ = none

-- A decoder's run: the offset and the fields that it prints, and its exit status.
unfoldable pub decode_with :
    Bytes → ℕ → ℕ → (List ℕ → Option ℕ) → Bytes → Option (Option (ℕ × List ℕ) × ℕ)
unfolding last_complete
decode_with magic packet_bytes fields verdict data_ =
    elim (packet_offset magic packet_bytes data_) [
      | none ↦ some (none, 1)
      | some offset ↦ elim (unpack_from (words fields) data_ (offset + length magic)) [
        | none ↦ none
        | some values ↦ Option.map (λ status. (some (offset, values), status)) (verdict values)
      ]
    ]

abbrev pub decode8 : Bytes → Option (Option (ℕ × List ℕ) × ℕ)
decode8 = decode_with magic8 (length magic8 + 7 * 4) 7 verdict8

abbrev pub decode9 : Bytes → Option (Option (ℕ × List ℕ) × ℕ)
decode9 = decode_with magic9 61 14 verdict9

-- The `for` loop of `verify`, with the markers that are left; the error shows the missing one.
unfoldable pub verify : List Bytes → Bytes → ℕ → Result Bytes (Unit {0})
unfolding find
verify [] data_ cursor = ok tt
verify (marker ∷ markers) data_ cursor = elim (find marker data_ cursor) [
  | none ↦ err marker
  | some found ↦ verify markers data_ (found + length marker)
]

abbrev pub ready : Bytes
ready = codes "CHECKPOINT10 UART RX READY: send K" ++ (13 ∷ 10 ∷ [])

abbrev pub markers : List Bytes
markers =
    codes "OpenSBI v1.7"
    ∷ (codes "CHECKPOINT10 SBI TIMER/PMP PASS" ++ (13 ∷ 10 ∷ []))
    ∷ ready
    ∷ (codes "CHECKPOINT10 UART RX/PLIC PASS" ++ (13 ∷ 10 ∷ []))
    ∷ []
