-- ===== src/Image.antt =====
-- scripts/pack_checkpoint10_image.py: the compact ROM of firmware and payload, and the DDR image
-- that it stands for.
pub mod Reconstruct
pub mod MemFile
pub mod Files
use pipelined_core.Common.{
  ℕ, zero, suc, ◌+◌, ◌-◌, ◌*◌, ◌/◌, ◌%◌, Bool, true, false, not, ◌&&◌, List, [], ◌∷◌, ◌++◌, length,
  take, drop, replicate, ltb, if◌then◌else◌, Result, ok, err,
}
use pipelined_core.Common.Bytes.{Bytes}
use pipelined_core.Common.Text.{Text, hex_char}

-- The two `parser.error`s.
pub data Error : Type 0 where
  firmware_size : Error
  payload_size : Error

abbrev pub ddr_gap_end : ℕ
ddr_gap_end = 262144

-- `-n % 16`
abbrev pub padding : ℕ → ℕ
padding n = (16 - n % 16) % 16

-- `bytes(n)`
abbrev pub zeroes : ℕ → Bytes
zeroes n = replicate n 0

abbrev pub padded : Bytes → Bytes
padded data_ = data_ ++ zeroes (padding (length data_))

abbrev pub reversed : Bytes → Bytes
reversed [] = []
reversed (b ∷ s) = reversed s ++ (b ∷ [])

-- `.hex()`
abbrev pub hex : Bytes → Text
hex [] = []
hex (b ∷ s) = hex_char (b / 16) ∷ hex_char (b % 16) ∷ hex s

-- `rom_data[i:i+16][::-1]` for every `i` of `range(0, len(rom_data), 16)`; `fuel` is a bound on
-- the length.
unfoldable pub rom_words : ℕ → Bytes → List Bytes
rom_words zero rom_data = []
rom_words (suc fuel) [] = []
rom_words (suc fuel) (b ∷ s) = reversed (take 16 (b ∷ s)) ∷ rom_words fuel (drop 16 (b ∷ s))

-- What the script writes: the words of the `.mem` file, and the numbers of header and manifest.
pub record Packed : Type 0 where
  pub words : List Bytes
  pub image : Bytes
  pub image_bytes : ℕ
  pub image_words : ℕ
  pub rom_bytes : ℕ
  pub rom_length : ℕ
  pub firmware_words : ℕ
  pub payload_word : ℕ

abbrev pub packed : Bytes → Bytes → Packed
packed firmware payload =
    let image = padded (firmware ++ (zeroes (ddr_gap_end - length firmware) ++ payload)) in
    let rom_data = padded firmware ++ padded payload in
    record {
      words = rom_words (length rom_data) rom_data;
      image = image;
      image_bytes = length image;
      image_words = length image / 16;
      rom_bytes = length rom_data;
      rom_length = length rom_data / 16;
      firmware_words = length (padded firmware) / 16;
      payload_word = ddr_gap_end / 16;
    }

unfoldable pub pack_image : Bytes → Bytes → Result Error Packed
pack_image firmware payload =
    if not (ltb 0 (length firmware) && ltb (length firmware) ddr_gap_end)
    then err firmware_size
    else if not (ltb 0 (length payload) && ltb (length payload) 65536)
    then err payload_size
    else ok (packed firmware payload)

-- The text of the `.mem` file.
abbrev pub mem_text : List Bytes → Text
mem_text [] = []
mem_text (w ∷ ws) = hex w ++ (10 ∷ mem_text ws)
