-- ===== src/Image/Reconstruct.antt =====
-- The boot loader's way back: the words of the ROM, with the gap zeroed, are the DDR image.
use pipelined_core.Common.{
  ℕ, zero, suc, ◌+◌, ◌-◌, ◌*◌, ◌/◌, ◌≤◌, ◌<◌, List, [], ◌∷◌, ◌++◌, append-nil, append_assoc, length,
  take, drop, length-append, length-take, length-drop, length-replicate, take-length-append,
  drop-length-append, lt→ltb, ok, ◌≡◌, refl, subst, sym, ap, ◌∙◌, arith,
}
use pipelined_core.Common.Bytes.{Bytes}
use pipelined_core.Image.{
  ddr_gap_end, padding, zeroes, padded, reversed, rom_words, packed, pack_image,
}

-- The bytes of words whose bytes stand in reverse.
abbrev pub unwords : List Bytes → Bytes
unwords [] = []
unwords (w ∷ ws) = reversed w ++ unwords ws

-- The DDR image that the loader makes of the words: the first `split` words from the start on,
-- zeroes up to the payload's address, then the other words.
abbrev pub reconstruct : ℕ → List Bytes → Bytes
reconstruct split ws =
    let firmware = unwords (take split ws) in
    firmware ++ (zeroes (ddr_gap_end - length firmware) ++ unwords (drop split ws))

reversed-append : (s t : Bytes) → reversed (s ++ t) ≡ reversed t ++ reversed s
reversed-append [] t = sym (append-nil (reversed t))
reversed-append (b ∷ s) t =
    ap (λ u. u ++ (b ∷ [])) (reversed-append s t) ∙ append_assoc (reversed t) (reversed s) (b ∷ [])

reversed-reversed : (s : Bytes) → reversed (reversed s) ≡ s
reversed-reversed [] = refl
reversed-reversed (b ∷ s) =
    reversed-append (reversed s) (b ∷ []) ∙ ap (λ u. b ∷ u) (reversed-reversed s)

take-drop : (n : ℕ) (s : Bytes) → take n s ++ drop n s ≡ s
take-drop zero s = refl
take-drop (suc n) [] = refl
take-drop (suc n) (b ∷ s) = ap (λ u. b ∷ u) (take-drop n s)

unwords-rom_words : (fuel : ℕ) (s : Bytes) → length s ≤ fuel → unwords (rom_words fuel s) ≡ s
unfolding rom_words
unwords-rom_words zero [] h = refl
unwords-rom_words zero (b ∷ s) h = absurd (omega arith)
unwords-rom_words (suc fuel) [] h = refl
unwords-rom_words (suc fuel) (b ∷ s) h =
    rw
      (
        reversed-reversed (take 16 (b ∷ s)),
        unwords-rom_words fuel (drop 16 (b ∷ s)) (omega (arith, length-drop {0} 16 (b ∷ s))),
      )
      (take-drop 16 (b ∷ s))

-- The words of `s ++ t`, where `s` is `n` whole blocks.
record Split (n fuel : ℕ) (s t : Bytes) : Type 0 where
  blocks : List Bytes
  left : ℕ
  words : rom_words fuel (s ++ t) ≡ blocks ++ rom_words left t
  count : length blocks ≡ n
  bytes : unwords blocks ≡ s
  enough : length t ≤ left

take_exact {ℓ} : {A : Type ℓ} (n : ℕ) (x y : List A) → length x ≡ n → take n (x ++ y) ≡ x
take_exact n x y h = subst (λ n. take n (x ++ y) ≡ x) h (take-length-append x y)

drop_exact {ℓ} : {A : Type ℓ} (n : ℕ) (x y : List A) → length x ≡ n → drop n (x ++ y) ≡ y
drop_exact n x y h = subst (λ n. drop n (x ++ y) ≡ y) h (drop-length-append x y)

rom_words-block :
    (fuel : ℕ) (x y : Bytes)
    → length x ≡ 16
    → rom_words (suc fuel) (x ++ y) ≡ reversed x ∷ rom_words fuel y
unfolding rom_words
rom_words-block fuel [] y h = absurd (omega (arith, h))
rom_words-block fuel (b ∷ x) y h =
    ap (λ u. reversed u ∷ rom_words fuel (drop 16 ((b ∷ x) ++ y))) (take_exact 16 (b ∷ x) y h)
    ∙ ap (λ u. reversed (b ∷ x) ∷ rom_words fuel u) (drop_exact 16 (b ∷ x) y h)

rom_words-Split :
    (n fuel : ℕ) (s t : Bytes) → length s ≡ 16 * n → length s + length t ≤ fuel → Split n fuel s t
rom_words-Split zero fuel [] t whole fueled = record {
  blocks = [];
  left = fuel;
  words = refl;
  count = refl;
  bytes = refl;
  enough = omega arith;
}
rom_words-Split zero fuel (b ∷ s) t whole fueled = absurd (omega arith)
rom_words-Split (suc n) zero s t whole fueled = absurd (omega arith)
rom_words-Split (suc n) (suc fuel) s t whole fueled =
    let x = take 16 s in
    let y = drop 16 s in
    let x_is : length x ≡ 16 = omega (arith, length-take {0} 16 s, whole) in
    let y_is : length y ≡ 16 * n = omega (arith, length-drop {0} 16 s, whole) in
    let rest = rom_words-Split n fuel y t y_is (omega (arith, y_is, whole, fueled)) in
    let parts : s ++ t ≡ x ++ (y ++ t) =
      ap (λ u. u ++ t) (sym (take-drop 16 s)) ∙ append_assoc x y t in
    record {
      blocks = reversed x ∷ rest.blocks;
      left = rest.left;
      words =
          ap (rom_words (suc fuel)) parts
          ∙ rom_words-block fuel x (y ++ t) x_is
          ∙ ap (λ ws. reversed x ∷ ws) rest.words;
      count = ap suc rest.count;
      bytes =
          ap (λ u. u ++ unwords rest.blocks) (reversed-reversed x)
          ∙ ap (λ u. x ++ u) rest.bytes
          ∙ take-drop 16 s;
      enough = rest.enough;
    }

pub length-padded : (s : Bytes) → length (padded s) ≡ 16 * (length (padded s) / 16)
length-padded s = omega (
  arith,
  length-append {0} s (zeroes (padding (length s))),
  length-replicate {0} (padding (length s)) (zero),
)

zeroes-append : (a b : ℕ) → zeroes a ++ zeroes b ≡ zeroes (a + b)
zeroes-append zero b = let e : b ≡ zero + b = omega arith in ap zeroes e
zeroes-append (suc a) b =
    let e : suc (a + b) ≡ suc a + b = omega arith in
    ap (λ s. 0 ∷ s) (zeroes-append a b) ∙ ap zeroes e

-- The ROM's words, taken back, are the padded firmware, the gap and the padded payload.
reconstruct-parts :
    (firmware payload : Bytes)
    → reconstruct (packed firmware payload).firmware_words (packed firmware payload).words
      ≡ padded firmware ++ (zeroes (ddr_gap_end - length (padded firmware)) ++ padded payload)
reconstruct-parts firmware payload =
    let f = padded firmware in
    let p = padded payload in
    let n = length f / 16 in
    let ws = rom_words (length (f ++ p)) (f ++ p) in
    let sp =
      rom_words-Split n (length (f ++ p)) f p (length-padded firmware)
        (omega (arith, length-append {0} f p)) in
    let head : unwords (take n ws) ≡ f =
      ap (λ ws. unwords (take n ws)) sp.words
      ∙ ap unwords (take_exact {0} n sp.blocks (rom_words sp.left p) sp.count)
      ∙ sp.bytes in
    let tail : unwords (drop n ws) ≡ p =
      ap (λ ws. unwords (drop n ws)) sp.words
      ∙ ap unwords (drop_exact {0} n sp.blocks (rom_words sp.left p) sp.count)
      ∙ unwords-rom_words sp.left p sp.enough in
    ap (λ u. u ++ (zeroes (ddr_gap_end - length u) ++ unwords (drop n ws))) head
    ∙ ap (λ u. f ++ (zeroes (ddr_gap_end - length f) ++ u)) tail

-- The gap behind the padded firmware ends where the one behind the firmware ends.
gap-padded :
    (firmware s : Bytes)
    → length firmware < ddr_gap_end
    → padded firmware ++ (zeroes (ddr_gap_end - length (padded firmware)) ++ s)
      ≡ firmware ++ (zeroes (ddr_gap_end - length firmware) ++ s)
gap-padded firmware s fits =
    let pad = padding (length firmware) in
    let padded_is : length (padded firmware) ≡ length firmware + pad =
      length-append {0} firmware (zeroes pad)
      ∙ ap (λ n. length firmware + n) (length-replicate {0} pad 0) in
    let rest = ddr_gap_end - length (padded firmware) in
    let sum : pad + rest ≡ ddr_gap_end - length firmware = omega (arith, padded_is, fits) in
    append_assoc firmware (zeroes pad) (zeroes rest ++ s)
    ∙ ap (λ u. firmware ++ u) (sym (append_assoc (zeroes pad) (zeroes rest) s))
    ∙ ap (λ u. firmware ++ (u ++ s)) (zeroes-append pad rest ∙ ap zeroes sum)

image-parts :
    (firmware payload : Bytes)
    → length firmware < ddr_gap_end
    → (packed firmware payload).image
      ≡ firmware ++ (zeroes (ddr_gap_end - length firmware) ++ padded payload)
image-parts firmware payload fits =
    let gap = zeroes (ddr_gap_end - length firmware) in
    let whole = firmware ++ (gap ++ payload) in
    let same : padding (length whole) ≡ padding (length payload) = omega (
      arith,
      length-append {0} firmware (gap ++ payload),
      length-append {0} gap payload,
      length-replicate {0} (ddr_gap_end - length firmware) (zero),
      fits,
    ) in
    ap (λ n. whole ++ zeroes n) same
    ∙ append_assoc firmware (gap ++ payload) (zeroes (padding (length payload)))
    ∙ ap (λ u. firmware ++ u) (append_assoc gap payload (zeroes (padding (length payload))))

-- Firmware and payload of the sizes that the script allows are packed; the words of the ROM,
-- taken back in their byte order with the gap zeroed up to the payload's address, are the DDR
-- image; and that image is the firmware, zeroes up to 0x40000, and the payload padded with
-- zeroes to a multiple of 16 bytes.
pub pack_image-reconstruct :
    (firmware payload : Bytes)
    → 0 < length firmware
    → length firmware < ddr_gap_end
    → 0 < length payload
    → length payload < 65536
    → (pack_image firmware payload ≡ ok (packed firmware payload))
      × (reconstruct (packed firmware payload).firmware_words (packed firmware payload).words
          ≡ (packed firmware payload).image)
      × ((packed firmware payload).image
          ≡ firmware ++ (zeroes (ddr_gap_end - length firmware) ++ padded payload))
unfolding pack_image
pack_image-reconstruct firmware payload f1 f2 p1 p2 = (
  rw
      (
        lt→ltb 0 (length firmware) f1,
        lt→ltb (length firmware) ddr_gap_end f2,
        lt→ltb 0 (length payload) p1,
        lt→ltb (length payload) 65536 p2,
      )
      refl,
  reconstruct-parts firmware payload
      ∙ gap-padded firmware (padded payload) f2
      ∙ sym (image-parts firmware payload f2),
  image-parts firmware payload f2,
)
