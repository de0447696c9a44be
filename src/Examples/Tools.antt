-- ===== src/Examples/Tools.antt =====
-- The decoders, the checker and the packer on small inputs.
use pipelined_core.Common.{
  ℕ, ◌-◌, true, none, some, List, [], ◌∷◌, ◌++◌, length, ok, ◌≡◌, ◌↔◌, refl, arith, if◌then◌else◌,
}
use mathlib.Core.Option.{Option}
use pipelined_core.Common.Bytes.{Bytes}
use pipelined_core.Common.Int.{ℤ, pos}
use pipelined_core.Common.Text.{Text, codes, text_eq}
use pipelined_core.Board.{decode8, decode9, magic8, markers, packet_offset, verify}
use pipelined_core.Board.Decoders.{decoders-total}
use pipelined_core.Board.Milestones.{Milestones, verify_iff}
use pipelined_core.Board.Packets.{IsLast, packet_offset-IsLast}
use pipelined_core.Flash.{FlashLayout, check_layout, main, among, required}
use pipelined_core.Flash.Assets.{FitsRegion, main-zero-fit}
use pipelined_core.Flash.Layout.{Accepted, check_layout_iff}
use pipelined_core.Image.{packed, pack_image, ddr_gap_end, zeroes, padded}
use pipelined_core.Image.Reconstruct.{reconstruct, pack_image-reconstruct}
use pipelined_core.Trace.{decode, decoded}
use pipelined_core.Trace.RoundTrip.{
  Part, IsPart, All, capture_bytes, part_lines, decode-capture_bytes,
}
use pipelined_core.Trace.Safe.{Meant, decode-Meant}

-- A byte of noise and a packet of one entry.
abbrev one_packet : List Part
one_packet =
    (0 ∷ [], record { pc = 2147483648; insn = 115; cause = 11; tval = 0; meta = 7 } ∷ []) ∷ []

one_packet-IsPart : All IsPart one_packet
one_packet-IsPart = (
  (
    (omega arith, tt),
    omega arith,
    ((omega arith, omega arith, omega arith, omega arith, omega arith), tt),
  ),
  tt,
)

decode-capture_bytes_example :
    decode (capture_bytes one_packet (codes "end")) ≡ (part_lines 0 one_packet, decoded)
decode-capture_bytes_example =
    decode-capture_bytes one_packet (codes "end") one_packet-IsPart
      (omega arith, (omega arith, (omega arith, tt))) (omega arith)

decode-Meant_example : Meant (decode (codes "xTRCE")).1
decode-Meant_example = decode-Meant (codes "xTRCE")

abbrev two_regions : FlashLayout
two_regions = record {
  flash_bytes = pos 16;
  minimum_spare_bytes = pos 4;
  regions =
      record { name = codes "manifest"; offset = pos 0; capacity = pos 4 }
      ∷ record { name = codes "dtb"; offset = pos 4; capacity = pos 8 }
      ∷ [];
}

check_layout_iff_example : (check_layout two_regions ≡ ok (pos 4)) ↔ Accepted two_regions (pos 4)
check_layout_iff_example = check_layout_iff two_regions (pos 4)

abbrev five_bytes : Text → Option ℕ
five_bytes path = if text_eq path (codes "a.dtb") then some 5 else none

two_regions_pass : (main five_bytes two_regions (codes "dtb=a.dtb" ∷ [])).1 ≡ 0
unfolding main
two_regions_pass = refl

main-zero-fit_example :
    ((spare : ℤ) × Accepted two_regions spare)
    × ((name : Text)
        → among name (required two_regions.regions) ≡ true
        → FitsRegion five_bytes two_regions.regions (codes "dtb=a.dtb" ∷ []) name)
main-zero-fit_example = main-zero-fit five_bytes two_regions (codes "dtb=a.dtb") [] two_regions_pass

-- Two packets, the last one cut off.
abbrev cut_off : Bytes
cut_off = magic8 ++ ((1 ∷ 2 ∷ 3 ∷ []) ++ magic8)

packet_offset-IsLast_example : IsLast magic8 8 cut_off (packet_offset magic8 8 cut_off)
packet_offset-IsLast_example =
    packet_offset-IsLast 68 (56 ∷ 66 ∷ 77 ∷ 1 ∷ [])
      (omega arith, (omega arith, (omega arith, (omega arith, tt)))) 8 (omega arith) cut_off

abbrev pub firmware : Bytes
firmware = 19 ∷ 5 ∷ []

abbrev pub payload : Bytes
payload = 103 ∷ []

pack_image-reconstruct_example :
    (pack_image firmware payload ≡ ok (packed firmware payload))
    × (reconstruct (packed firmware payload).firmware_words (packed firmware payload).words
        ≡ (packed firmware payload).image)
    × ((packed firmware payload).image
        ≡ firmware ++ (zeroes (ddr_gap_end - length firmware) ++ padded payload))
pack_image-reconstruct_example =
    pack_image-reconstruct firmware payload (omega arith) (omega arith) (omega arith) (omega arith)

-- A capture of all the markers, between other bytes.
abbrev pub boot_capture : Bytes
boot_capture =
    codes "boot OpenSBI v1.7 CHECKPOINT10 SBI TIMER/PMP PASS"
    ++ (13 ∷ 10 ∷ codes "CHECKPOINT10 UART RX READY: send K"
        ++ (13 ∷ 10 ∷ codes "CHECKPOINT10 UART RX/PLIC PASS" ++ (13 ∷ 10 ∷ [])))

boot_capture_passes : verify markers boot_capture 0 ≡ ok tt
unfolding verify
boot_capture_passes = refl

verify_iff_example : (verify markers boot_capture 0 ≡ ok tt) ↔ Milestones boot_capture 0 markers
verify_iff_example = verify_iff markers boot_capture 0

decoders-total_example :
    ((r : Option (ℕ × List ℕ) × ℕ) × (decode8 cut_off ≡ some r))
    × ((r : Option (ℕ × List ℕ) × ℕ) × (decode9 cut_off ≡ some r))
decoders-total_example = decoders-total cut_off
