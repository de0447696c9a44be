-- ===== src/Common/Bytes.antt =====
-- Byte strings as lists of numbers below 256: `find` and `rfind`, and the little-endian fields of
-- Python's `struct` in its standard `<` layout (`B` is 1 byte wide, `H` 2, `I` 4).
pub mod Fields
pub mod Search
pub mod First
pub mod Append
use Prim.Native.Nat.{ℕ, zero, suc, ◌+◌, ◌*◌, ◌/◌, ◌%◌, ◌^◌, ◌<◌, ◌≤◌, ◌-◌}
use mathlib.Core.Path.{◌≡◌, refl, sym, ap, ◌∙◌}
use mathlib.Core.Bool.{Bool, true, false, ◌&&◌}
use mathlib.Core.Option
use mathlib.Core.Option.{Option, none, some}
use mathlib.Core.List.{List, [], ◌∷◌, ◌++◌, append_assoc}
use native.Mathlib.Omega.{arith}
use pipelined_core.Common.Tests.{◌==◌, ltb, leb, if◌then◌else◌}
use pipelined_core.Common.Lists.{length, drop}

abbrev pub Bytes : Type 0
Bytes = List ℕ

unfoldable pub starts_with : Bytes → Bytes → Bool
starts_with [] s = true
starts_with (p ∷ ps) [] = false
starts_with (p ∷ ps) (c ∷ s) = p == c && starts_with ps s

-- The first place of `p` in `s`, whose first byte has index `i`.
unfoldable pub find_at : Bytes → Bytes → ℕ → Option ℕ
unfolding starts_with
find_at p [] i = if starts_with p [] then some i else none
find_at p (c ∷ s) i = if starts_with p (c ∷ s) then some i else find_at p s (i + 1)

-- `s.find(p, start)`, with `none` for -1; a start past the end finds nothing.
unfoldable pub find : Bytes → Bytes → ℕ → Option ℕ
unfolding find_at
find p s start = if ltb (length s) start then none else find_at p (drop start s) start

-- `s.rfind(p, 0, end)`: the last place where `p` lies whole before `end`.
unfoldable pub rfind_at : Bytes → Bytes → ℕ → ℕ → Option ℕ
unfolding starts_with
rfind_at p [] i end = if starts_with p [] && leb (i + length p) end then some i else none
rfind_at p (c ∷ s) i end =
    let later = rfind_at p s (i + 1) end in
    elim later [
      | some j ↦ some j
      | none ↦ if starts_with p (c ∷ s) && leb (i + length p) end then some i else none
    ]

unfoldable pub rfind : Bytes → Bytes → ℕ → Option ℕ
unfolding rfind_at
rfind p s end = rfind_at p s 0 end

-- An unsigned field of `w` bytes, least significant byte first; `none` is `struct.error`.
unfoldable pub read_le : ℕ → Bytes → Option ℕ
read_le zero s = some 0
read_le (suc w) [] = none
read_le (suc w) (b ∷ s) = Option.map (λ v. b + 256 * v) (read_le w s)

unfoldable pub unpack : List ℕ → Bytes → Option (List ℕ)
unfolding read_le
unpack [] s = some []
unpack (w ∷ ws) s = elim (read_le w s) [
  | none ↦ none
  | some v ↦ Option.map (λ vs. v ∷ vs) (unpack ws (drop w s))
]

-- `struct.unpack_from(format, data, offset)`
abbrev pub unpack_from : List ℕ → Bytes → ℕ → Option (List ℕ)
unpack_from ws s offset = unpack ws (drop offset s)
