-- ===== src/Image/Files.antt =====
-- The header and the manifest that the script writes beside the `.mem` file.
use pipelined_core.Common.{
  ℕ, zero, ◌+◌, ◌-◌, ◌*◌, ◌≤◌, ◌<◌, Bool, not, [], ◌∷◌, ◌++◌, length, length-append,
  length-replicate, ok, ◌≡◌, arith,
}
use pipelined_core.Common.Bytes.{Bytes}
use pipelined_core.Common.Decimal.{decimal}
use pipelined_core.Common.Text.{Text, codes, text_eq}
use pipelined_core.Common.Text.Lines.{strip}
use pipelined_core.Image.{
  ddr_gap_end, zeroes, padding, padded, Packed, packed, pack_image, mem_text,
}
use pipelined_core.Image.Reconstruct.{length-padded}

-- A line of the header.
abbrev pub define : Text → Text → Text
define name value = codes "`define CHECKPOINT10_" ++ (name ++ (32 ∷ (value ++ (10 ∷ []))))

-- The text of the header; `quoted` is `json.dumps(str(rom))`.
abbrev pub header_text : Packed → (quoted : Text) → Text
header_text p quoted =
    define (codes "IMAGE_WORDS") (decimal p.image_words)
    ++ (define (codes "ROM_WORDS") (decimal p.rom_length)
        ++ (define (codes "FIRMWARE_WORDS") (decimal p.firmware_words)
            ++ (define (codes "PAYLOAD_WORD") (decimal p.payload_word)
                ++ define (codes "IMAGE_FILE") quoted)))

-- The entries of the manifest but for the constant texts.
pub record Manifest : Type 0 where
  pub source_commit : Text
  pub source_dirty : Bool
  pub firmware_bytes : ℕ
  pub payload_bytes : ℕ
  pub image_bytes : ℕ
  pub image_words : ℕ
  pub rom_bytes : ℕ
  pub rom_words : ℕ
  pub firmware_words : ℕ
  pub payload_word : ℕ
  pub firmware_sha256 : Text
  pub payload_sha256 : Text
  pub image_sha256 : Text
  pub rom_file_sha256 : Text

module _ (sha256 : Bytes → Text) where
  -- `head` and `porcelain` are what the two git commands print.
  abbrev pub manifest : (head porcelain : Text) → (firmware payload : Bytes) → Packed → Manifest
  manifest head porcelain firmware payload p = record {
    source_commit = strip head;
    source_dirty = not (text_eq (strip porcelain) []);
    firmware_bytes = length firmware;
    payload_bytes = length payload;
    image_bytes = p.image_bytes;
    image_words = p.image_words;
    rom_bytes = p.rom_bytes;
    rom_words = p.rom_length;
    firmware_words = p.firmware_words;
    payload_word = p.payload_word;
    firmware_sha256 = sha256 firmware;
    payload_sha256 = sha256 payload;
    image_sha256 = sha256 p.image;
    rom_file_sha256 = sha256 (mem_text p.words);
  }

-- The numbers of a manifest fit together.
pub record Fits (m : Manifest) : Type 0 where
  pub image_whole : m.image_bytes ≡ 16 * m.image_words
  pub rom_whole : m.rom_bytes ≡ 16 * m.rom_words
  pub firmware_low : m.firmware_bytes ≤ 16 * m.firmware_words
  pub firmware_high : 16 * m.firmware_words < m.firmware_bytes + 16
  pub firmware_below : m.firmware_words ≤ m.payload_word
  pub payload_low : m.payload_bytes ≤ 16 * (m.image_words - m.payload_word)
  pub payload_high : 16 * (m.image_words - m.payload_word) < m.payload_bytes + 16
  pub rom_sum : m.rom_words ≡ m.firmware_words + (m.image_words - m.payload_word)
  pub image_below : m.image_words ≤ 20480

padded-low : (s : Bytes) → length s ≤ length (padded s)
padded-low s = omega (arith, length-append s (zeroes (padding (length s))))

padded-high : (s : Bytes) → length (padded s) < length s + 16
padded-high s = omega (
  arith,
  length-append s (zeroes (padding (length s))),
  length-replicate {0} (padding (length s)) (zero),
)

-- For every firmware and payload that the script accepts, the numbers of the manifest fit together:
-- image and ROM are whole words, the firmware's and the payload's words hold their bytes with less
-- than a word of padding, the ROM is both of them, and the image stays within 20480 words.
pub manifest-Fits :
    (sha256 : Bytes → Text) (head porcelain : Text) (firmware payload : Bytes) (p : Packed)
    → pack_image firmware payload ≡ ok p
    → Fits (manifest sha256 head porcelain firmware payload p)
unfolding pack_image
manifest-Fits sha256 head porcelain firmware payload p h =
    let made : p ≡ packed firmware payload = ground arith in
    let f_small : length firmware < 262144 = ground arith in
    let p_small : length payload < 65536 = ground arith in
    let gap = zeroes (ddr_gap_end - length firmware) in
    let whole = firmware ++ (gap ++ payload) in
    let whole_is : length whole ≡ 262144 + length payload = omega (
      arith,
      f_small,
      length-append firmware (gap ++ payload),
      length-append gap payload,
      length-replicate {0} (ddr_gap_end - length firmware) (zero),
    ) in
    let image_16 = length-padded whole in
    let f_16 = length-padded firmware in
    let p_16 = length-padded payload in
    let rom_is = length-append (padded firmware) (padded payload) in
    let f_low = padded-low firmware in
    let f_high = padded-high firmware in
    let p_low = padded-low payload in
    let p_high = padded-high payload in
    let i_low = padded-low whole in
    let i_high = padded-high whole in
    rw (made) (record {
      image_whole = image_16;
      rom_whole = omega (arith, rom_is, f_16, p_16);
      firmware_low = omega (arith, f_16, f_low);
      firmware_high = omega (arith, f_16, f_high);
      firmware_below = omega (arith, f_16, f_high, f_small);
      payload_low = omega (arith, image_16, i_low, whole_is);
      payload_high = omega (arith, image_16, i_high, whole_is);
      rom_sum = omega (arith, rom_is, f_16, p_16, image_16, i_low, i_high, whole_is, p_low, p_high);
      image_below = omega (arith, image_16, i_high, whole_is, p_small);
    })
