-- ===== src/Common/Text/Hex.antt =====
-- Numbers written by `f"{n:08x}"` are read back by `int(s, 16)`.
use Prim.Native.Nat.{ℕ, zero, suc, ◌+◌, ◌-◌, ◌*◌, ◌/◌, ◌%◌, ◌<◌, ◌≤◌}
use mathlib.Core.Path.{◌≡◌, refl, ap, ◌∙◌}
use mathlib.Core.Option.{some}
use mathlib.Core.List.{[], ◌∷◌, ◌++◌}
use native.Mathlib.Omega.{arith}
use pipelined_core.Common.Lists.{length, replicate, length-append, length-replicate}
use pipelined_core.Common.Text.{
  Text, hex_value, hex_digits, int_16, hex_char, hex_onto, pad_zero, hex_08,
}

pub hex_value-hex_char : (d : ℕ) → d < 16 → hex_value (hex_char d) ≡ some d
unfolding hex_value
hex_value-hex_char d h = ground arith

hex_onto_step :
    (fuel n : ℕ) (rest : Text)
    → hex_onto (suc fuel) (suc n) rest ≡ hex_onto fuel (suc n / 16) (hex_char (suc n % 16) ∷ rest)
unfolding hex_onto
hex_onto_step fuel n rest = ground arith

hex_digits_step :
    (q d : ℕ) (rest : Text)
    → d < 16
    → hex_digits q (hex_char d ∷ rest) ≡ hex_digits (16 * q + d) rest
unfolding hex_digits
hex_digits_step q d rest h = ground (arith, hex_value-hex_char d h)

hex_digits-hex_onto :
    (fuel n : ℕ) (rest : Text) → n ≤ fuel → hex_digits 0 (hex_onto fuel n rest) ≡ hex_digits n rest
hex_digits-hex_onto zero zero rest h = unfold hex_onto in refl
hex_digits-hex_onto zero (suc n) rest h = absurd (omega arith)
hex_digits-hex_onto (suc fuel) zero rest h = unfold hex_onto in refl
hex_digits-hex_onto (suc fuel) (suc n) rest h =
    let whole : 16 * (suc n / 16) + suc n % 16 ≡ suc n = omega arith in
    rw hex_onto_step (
      hex_digits-hex_onto fuel (suc n / 16) (hex_char (suc n % 16) ∷ rest) (omega arith)
      ∙ hex_digits_step (suc n / 16) (suc n % 16) rest (omega arith)
      ∙ ap (λ (k : ℕ). hex_digits k rest) whole)

hex_digits-zeros : (k : ℕ) (s : Text) → hex_digits 0 (replicate k b'0' ++ s) ≡ hex_digits 0 s
unfolding hex_digits hex_value
hex_digits-zeros zero s = refl
hex_digits-zeros (suc k) s = hex_digits-zeros k s

int_16-hex_digits : (s : Text) {v : ℕ} → 1 ≤ length s → hex_digits 0 s ≡ some v → int_16 s ≡ some v
unfolding int_16 hex_digits hex_value
int_16-hex_digits [] n h = absurd (omega arith)
int_16-hex_digits (c ∷ []) n h = h
int_16-hex_digits (c ∷ x ∷ s) n h = ground arith

pub int_16-hex_08 : (n : ℕ) → int_16 (hex_08 n) ≡ some n
unfolding hex_08
int_16-hex_08 n =
    let s = hex_onto n n [] in
    int_16-hex_digits (pad_zero 8 s)
      (omega (
        arith,
        length-append {0} (replicate (8 - length s) b'0') s,
        length-replicate {0} {A = ℕ} (8 - length s) b'0',
      ))
      (hex_digits-zeros (8 - length s) s
        ∙ hex_digits-hex_onto n n [] (omega arith)
        ∙ unfold hex_digits in refl)
