-- ===== src/Image/MemFile.antt =====
-- The text of the `.mem` file, read again as lines of hexadecimal bytes.
use pipelined_core.Common.{
  ℕ, zero, suc, ◌+◌, ◌*◌, ◌/◌, ◌%◌, ◌≤◌, ◌<◌, false, ◌==◌, Option, none, some, List, [], ◌∷◌, ◌++◌,
  append-nil, append_assoc, length, take, drop, length-append, length-take, length-drop, Each,
  Each-append, Each-take, Each-drop, Each-replicate, if◌then◌else◌, ok, ◌≡◌, refl, arith,
}
use mathlib.Core.Option
use pipelined_core.Common.Bytes.{Bytes}
use pipelined_core.Common.Text.{Text, hex_char, hex_value}
use pipelined_core.Common.Text.Hex.{hex_value-hex_char}
use pipelined_core.Image.{
  padding, zeroes, padded, reversed, hex, rom_words, Packed, packed, pack_image, mem_text,
}
use pipelined_core.Image.Reconstruct.{length-padded}

abbrev IsByte : ℕ → Type 0
IsByte b = b < 256

abbrev byte_by : Option ℕ → Option ℕ → Option ℕ
byte_by (some x) (some y) = some (16 * x + y)
byte_by _ _ = none

-- What follows a byte, if it is one.
abbrev behind : Option ℕ → (ℕ → Option (List Bytes)) → Option (List Bytes)
behind none f = none
behind (some b) f = f b

-- The words of a text of hexadecimal bytes with a line feed behind every word; `word` has the bytes
-- of the line so far.
unfoldable pub read_mem : Bytes → Text → Option (List Bytes)
read_mem word [] = some []
read_mem word (c ∷ []) = if c == 10 then some (word ∷ []) else none
read_mem word (c ∷ d ∷ s) =
    let next = Option.map (λ ws. word ∷ ws) (read_mem [] (d ∷ s)) in
    let more = behind (byte_by (hex_value c) (hex_value d)) (λ b. read_mem (word ++ (b ∷ [])) s) in
    if c == 10 then next else more

hex_char-ne-line_feed : (d : ℕ) → (hex_char d == 10) ≡ false
hex_char-ne-line_feed d = ground arith

read_mem-line :
    (word : Bytes) (s : Text)
    → read_mem word (10 ∷ s) ≡ Option.map (λ ws. word ∷ ws) (read_mem [] s)
unfolding read_mem
read_mem-line word [] = refl
read_mem-line word (c ∷ s) = refl

read_mem-hex :
    (w word : Bytes) (s : Text)
    → Each IsByte w
    → read_mem word (hex w ++ (10 ∷ s)) ≡ Option.map (λ ws. (word ++ w) ∷ ws) (read_mem [] s)
unfolding read_mem
read_mem-hex [] word s h = rw (append-nil word) (read_mem-line word s)
read_mem-hex (b ∷ w) word s h =
    let high = hex_value-hex_char (b / 16) (omega (arith, h.0)) in
    let low = hex_value-hex_char (b % 16) (omega arith) in
    let whole : 16 * (b / 16) + b % 16 ≡ b = omega arith in
    let rest = read_mem-hex w (word ++ (b ∷ [])) s h.1 in
    rw (hex_char-ne-line_feed (b / 16), high, low, whole, rest, append_assoc word (b ∷ []) w) refl

read_mem-mem_text : (ws : List Bytes) → Each (Each IsByte) ws → read_mem [] (mem_text ws) ≡ some ws
unfolding read_mem
read_mem-mem_text [] h = refl
read_mem-mem_text (w ∷ ws) h =
    rw (read_mem-hex w [] (mem_text ws) h.0, read_mem-mem_text ws h.1) refl

reversed-Each : (w : Bytes) → Each IsByte w → Each IsByte (reversed w)
reversed-Each [] h = tt
reversed-Each (b ∷ w) h = Each-append IsByte (reversed w) (b ∷ []) (reversed-Each w h.1) (h.0, tt)

padded-Each : (s : Bytes) → Each IsByte s → Each IsByte (padded s)
padded-Each s h =
    Each-append IsByte s (zeroes (padding (length s))) h
      (Each-replicate IsByte (padding (length s)) 0 (omega arith))

rom_words-Each : (fuel : ℕ) (s : Bytes) → Each IsByte s → Each (Each IsByte) (rom_words fuel s)
unfolding rom_words
rom_words-Each zero s h = tt
rom_words-Each (suc fuel) [] h = tt
rom_words-Each (suc fuel) (b ∷ s) h = (
  reversed-Each (take 16 (b ∷ s)) (Each-take IsByte 16 (b ∷ s) h),
  rom_words-Each fuel (drop 16 (b ∷ s)) (Each-drop IsByte 16 (b ∷ s) h),
)

length-reversed : (w : Bytes) → length (reversed w) ≡ length w
length-reversed [] = refl
length-reversed (b ∷ w) = omega (arith, length-append (reversed w) (b ∷ []), length-reversed w)

-- Whole blocks are words of 16 bytes.
rom_words-whole :
    (fuel n : ℕ) (s : Bytes)
    → length s ≡ 16 * n
    → length s ≤ fuel
    → Each (λ w. length w ≡ 16) (rom_words fuel s) × (length (rom_words fuel s) ≡ n)
unfolding rom_words
rom_words-whole zero n [] h fueled = (tt, omega (arith, h))
rom_words-whole zero n (b ∷ s) h fueled = absurd (omega (arith, fueled))
rom_words-whole (suc fuel) n [] h fueled = (tt, omega (arith, h))
rom_words-whole (suc fuel) zero (b ∷ s) h fueled = absurd (omega (arith, h))
rom_words-whole (suc fuel) (suc n) (b ∷ s) h fueled =
    let left : length (drop 16 (b ∷ s)) ≡ 16 * n = omega (arith, length-drop {0} 16 (b ∷ s), h) in
    let (each, count) =
      rom_words-whole fuel n (drop 16 (b ∷ s)) left
        (omega (arith, length-drop {0} 16 (b ∷ s), fueled)) in
    let word : length (reversed (take 16 (b ∷ s))) ≡ 16 =
      omega (arith, length-reversed (take 16 (b ∷ s)), length-take {0} 16 (b ∷ s), h) in
    ((word, each), omega (arith, count))

-- Where the script accepts firmware and payload, the text of the `.mem` file, read as hexadecimal
-- bytes with a line for each word, gives back exactly the words of the ROM: as many as the header
-- counts, of 16 bytes each.
pub mem_text-read :
    (firmware payload : Bytes) (p : Packed)
    → Each IsByte firmware
    → Each IsByte payload
    → pack_image firmware payload ≡ ok p
    → (read_mem [] (mem_text p.words) ≡ some p.words)
      × (Each (λ w. length w ≡ 16) p.words × (length p.words ≡ p.rom_length))
unfolding pack_image
mem_text-read firmware payload p f g h =
    let made : p ≡ packed firmware payload = ground arith in
    let rom = padded firmware ++ padded payload in
    let bytes =
      Each-append IsByte (padded firmware) (padded payload) (padded-Each firmware f)
        (padded-Each payload g) in
    let whole : length rom ≡ 16 * (length rom / 16) = omega (
      arith,
      length-append (padded firmware) (padded payload),
      length-padded firmware,
      length-padded payload,
    ) in
    rw (made) (
      read_mem-mem_text (rom_words (length rom) rom) (rom_words-Each (length rom) rom bytes),
      rom_words-whole (length rom) (length rom / 16) rom whole (omega arith),
    )
