-- ===== src/Common/Text.antt =====
-- Text as a list of code points, and the numerals that the tools read and write.
pub mod Hex
pub mod Lines
use Prim.Native.Nat.{ℕ, zero, suc, ◌+◌, ◌-◌, ◌*◌, ◌/◌, ◌%◌, ◌^◌, ◌<◌}
use Prim.Native.Char.{code}
use Prim.Native.String.{String}
use mathlib.Core.Path.{◌≡◌, refl, ap, ◌∙◌}
use mathlib.Core.Bool.{Bool, true, false, ◌&&◌, ◌||◌}
use mathlib.Core.Option.{Option, none, some}
use mathlib.Core.List.{List, [], ◌∷◌, ◌++◌, append_assoc}
use native.Mathlib.Omega.{arith}
use pipelined_core.Common.Tests.{◌==◌, ==_refl, leb, ltb, if◌then◌else◌}
use pipelined_core.Common.Lists.{length, replicate}

abbrev pub Text : Type 0
Text = List ℕ

abbrev pub codes : String → Text
codes String.[] = []
codes (String.◌∷◌ c s) = code c ∷ codes s

abbrev pub text_eq : Text → Text → Bool
text_eq [] [] = true
text_eq (a ∷ s) (b ∷ t) = a == b && text_eq s t
text_eq _ _ = false

pub text_eq_refl : (t : Text) → text_eq t t ≡ true
text_eq_refl [] = refl
text_eq_refl (c ∷ t) = rw (==_refl c) (text_eq_refl t)

pub text_eq→eq : (s t : Text) → text_eq s t ≡ true → s ≡ t
text_eq→eq [] [] h = refl
text_eq→eq [] (b ∷ t) h = cc
text_eq→eq (a ∷ s) [] h = cc
text_eq→eq (a ∷ s) (b ∷ t) h = ground (arith, text_eq→eq s t)

abbrev pub is_digit : ℕ → Bool
is_digit c = leb b'0' c && leb c b'9'

-- `[0-9a-f]`
abbrev pub is_hex : ℕ → Bool
is_hex c = is_digit c || (leb b'a' c && leb c b'f')

-- The value of a digit in base 16, upper and lower case.
unfoldable pub hex_value : ℕ → Option ℕ
hex_value c =
    if is_digit c
    then some (c - b'0')
    else if leb b'a' c && leb c b'f'
    then some (c - b'a' + 10)
    else if leb b'A' c && leb c b'F'
    then some (c - b'A' + 10)
    else none

unfoldable pub hex_digits : ℕ → Text → Option ℕ
unfolding hex_value
hex_digits acc [] = some acc
hex_digits acc (c ∷ s) = elim (hex_value c) [ none ↦ none | some d ↦ hex_digits (16 * acc + d) s ]

unfoldable pub hex_body : Text → Option ℕ
unfolding hex_digits
hex_body [] = none
hex_body (c ∷ s) = hex_digits 0 (c ∷ s)

-- `int(s, 16)` with an optional `0x`. The forms with a sign, an underscore or blanks, which none of
-- the tools' inputs has, count as a `ValueError` here.
unfoldable pub int_16 : Text → Option ℕ
unfolding hex_body
int_16 (c ∷ x ∷ s) =
    if c == b'0' && (x == b'x' || x == b'X') then hex_body s else hex_body (c ∷ x ∷ s)
int_16 s = hex_body s

unfoldable pub dec_digits : ℕ → Text → Option ℕ
dec_digits acc [] = some acc
dec_digits acc (c ∷ s) = if is_digit c then dec_digits (10 * acc + (c - b'0')) s else none

-- `int(s)` of a text of decimal digits
unfoldable pub int_10 : Text → Option ℕ
unfolding dec_digits
int_10 [] = none
int_10 (c ∷ s) = dec_digits 0 (c ∷ s)

abbrev pub hex_char : ℕ → ℕ
hex_char d = if ltb d 10 then d + b'0' else d - 10 + b'a'

-- The digits of `n` in base 16 in front of `rest`; one round of fuel for each digit.
unfoldable pub hex_onto : ℕ → ℕ → Text → Text
hex_onto zero n rest = rest
hex_onto (suc fuel) n rest =
    let more = hex_onto fuel (n / 16) (hex_char (n % 16) ∷ rest) in if n == 0 then rest else more

abbrev pub pad_zero : ℕ → Text → Text
pad_zero w s = replicate (w - length s) b'0' ++ s

-- `f"{n:08x}"`
unfoldable pub hex_08 : ℕ → Text
unfolding hex_onto
hex_08 n = pad_zero 8 (hex_onto n n [])

int_16_test : int_16 (hex_08 0x8000_00a4) ≡ some 0x8000_00a4
unfolding int_16 hex_08
int_16_test = refl
