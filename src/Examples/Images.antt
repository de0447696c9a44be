-- ===== src/Examples/Images.antt =====
-- The `.mem` file of a small firmware and payload.
use pipelined_core.Common.{some, [], length, Each, ◌≡◌, arith}
use pipelined_core.Image.{packed, mem_text}
use pipelined_core.Image.Reconstruct.{pack_image-reconstruct}
use pipelined_core.Image.MemFile.{read_mem, mem_text-read}
use pipelined_core.Image.Files.{manifest, Fits, manifest-Fits}
use pipelined_core.Common.Text.{codes}
use pipelined_core.Examples.Tools.{firmware, payload}

mem_text-read_example :
    (read_mem [] (mem_text (packed firmware payload).words) ≡ some (packed firmware payload).words)
    × (Each (λ w. length w ≡ 16) (packed firmware payload).words
        × (length (packed firmware payload).words ≡ (packed firmware payload).rom_length))
mem_text-read_example =
    mem_text-read firmware payload (packed firmware payload) (omega arith) (omega arith)
      (pack_image-reconstruct firmware payload (omega arith) (omega arith) (omega arith)
        (omega arith)).0

-- With a hash that is always the same text.
manifest-Fits_example : Fits (
    manifest (λ data_. codes "00") (codes "0123abcd") [] firmware payload (packed firmware payload))
manifest-Fits_example =
    manifest-Fits (λ data_. codes "00") (codes "0123abcd") [] firmware payload
      (packed firmware payload)
      (pack_image-reconstruct firmware payload (omega arith) (omega arith) (omega arith)
        (omega arith)).0
