-- ===== src/Board/Printed.antt =====
-- What the checkpoint 8 and 9 decoders print: the lines on stdout, or the one on stderr. The texts of
-- floating point numbers are parameters.
use pipelined_core.Common.{
  ℕ, ◌-◌, ◌%◌, bit_and, Option, none, some, List, [], ◌∷◌, ◌++◌, length, replicate, ◌==◌,
  if◌then◌else◌, ◌≡◌, refl,
}
use mathlib.Core.Option
use pipelined_core.Board.{decode8, decode9}
use pipelined_core.Common.Bytes.{Bytes}
use pipelined_core.Common.Decimal.{decimal}
use pipelined_core.Common.Text.{Text, codes, hex_08}

-- `f"{text:>w}"` and `f"{text:w}"`
abbrev pub right : ℕ → Text → Text
right w s = replicate (w - length s) 32 ++ s

abbrev pub left : ℕ → Text → Text
left w s = s ++ replicate (w - length s) 32

-- The digits of `f"{n:,d}"`, a comma in front of every third from the end.
abbrev pub commas : Text → Text
commas [] = []
commas (c ∷ []) = c ∷ []
commas (c ∷ d ∷ s) =
    let rest = commas (d ∷ s) in if length (d ∷ s) % 3 == 0 then c ∷ 44 ∷ rest else c ∷ rest

unfoldable pub grouped : ℕ → Text
unfolding decimal
grouped n = commas (decimal n)

grouped_test : grouped 50000000 ≡ codes "50,000,000"
unfolding grouped decimal
grouped_test = refl

-- A line of checkpoint 8, where `rate` is the text of the bandwidth, `f"{mbps:8.2f}"`.
abbrev pub rate_line : (rate : ℕ → Text) → (label : Text) → (cycles : ℕ) → Text
rate_line rate label cycles =
    left 16 label
    ++ (32 ∷ (right 10 (grouped cycles) ++ (codes " cycles  " ++ (rate cycles ++ codes " MB/s"))))

abbrev pub printed8 : (rate : ℕ → Text) → Option (ℕ × List ℕ) → List Text
printed8 rate none = codes "No complete D8BM v1 packet in capture" ∷ []
printed8 rate
      (some (offset, base_w ∷ base_r ∷ cont_w ∷ cont_r ∷ dma_err ∷ cpu_err ∷ cpu_trips ∷ [])) =
    (codes "packet offset: "
      ++ (decimal offset ++ (codes ", core clock: " ++ (grouped 50000000 ++ codes " Hz"))))
    ∷ rate_line rate (codes "baseline write") base_w
    ∷ rate_line rate (codes "baseline read") base_r
    ∷ rate_line rate (codes "contended write") cont_w
    ∷ rate_line rate (codes "contended read") cont_r
    ∷ (codes "DMA errors: "
        ++ (decimal dma_err
            ++ (codes "; CPU-like errors: "
                ++ (decimal cpu_err ++ (codes "; CPU-like round trips: " ++ decimal cpu_trips)))))
    ∷ []
printed8 rate (some _) = []

-- `bool(flags & bit)`
abbrev pub flag : ℕ → ℕ → Text
flag flags bit = if bit_and flags bit == 0 then codes "False" else codes "True"

-- The lines of checkpoint 9, where `seconds` is `f"{cycles / 50_000_000:.6f}"` and `status` the exit
-- status.
abbrev pub printed9 : (seconds : ℕ → Text) → (status : ℕ) → Option (ℕ × List ℕ) → List Text
printed9 seconds status none = codes "No complete C9SM v1 packet in capture" ∷ []
printed9 seconds status
      (some (
        offset,
        flags ∷ phase ∷ result ∷ pc ∷ cause ∷ tval ∷ imiss ∷ dmiss ∷ dwb ∷ ibypass ∷ dbypass ∷ trips
            ∷ errors ∷ cycles ∷ [],
      )) =
    (codes "calibrated="
      ++ (flag flags 1
          ++ (codes " ready="
              ++ (flag flags 2
                  ++ (codes " halted=" ++ (flag flags 4 ++ (codes " passed=" ++ flag flags 8)))))))
    ∷ (codes "phase="
        ++ (decimal phase
            ++ (codes " result=0x"
                ++ (hex_08 result
                    ++ (codes " last_pc=0x"
                        ++ (hex_08 pc
                            ++ (codes " cause="
                                ++ (decimal cause ++ (codes " tval=0x" ++ hex_08 tval)))))))))
    ∷ (codes "I misses="
        ++ (decimal imiss
            ++ (codes "; D misses="
                ++ (decimal dmiss
                    ++ (codes "; D writebacks="
                        ++ (decimal dwb
                            ++ (codes "; I/D bypasses="
                                ++ (decimal ibypass ++ (47 ∷ decimal dbypass)))))))))
    ∷ (codes "DMA trips="
        ++ (decimal trips
            ++ (codes "; DMA errors="
                ++ (decimal errors
                    ++ (codes "; cycles="
                        ++ (decimal cycles
                            ++ (codes " (" ++ (seconds cycles ++ codes " s at 50 MHz)"))))))))
    ∷ (if status == 0
        then codes "PASS: checkpoint 9 board smoke test"
        else codes "INCOMPLETE/FAIL: retain this capture for diagnosis")
    ∷ []
printed9 seconds status (some _) = []

-- The decoders with what they print; `none` is a struct.error.
abbrev pub main8 : (rate : ℕ → Text) → Bytes → Option (List Text × ℕ)
main8 rate data_ = Option.map (λ r. (printed8 rate r.0, r.1)) (decode8 data_)

abbrev pub main9 : (seconds : ℕ → Text) → Bytes → Option (List Text × ℕ)
main9 seconds data_ = Option.map (λ r. (printed9 seconds r.1 r.0, r.1)) (decode9 data_)
