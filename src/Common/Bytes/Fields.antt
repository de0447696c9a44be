-- ===== src/Common/Bytes/Fields.antt =====
-- Little-endian fields written and read back.
use Prim.Native.Nat.{ℕ, zero, suc, ◌+◌, ◌*◌, ◌/◌, ◌%◌, ◌^◌, ◌<◌, ◌≤◌}
use mathlib.Core.Path.{◌≡◌, refl, ap}
use mathlib.Core.Option.{some}
use mathlib.Core.List.{List, [], ◌∷◌, ◌++◌, append_assoc}
use native.Mathlib.Nat.{pow-suc}
use native.Mathlib.Omega.{arith}
use pipelined_core.Common.Lists.{length, drop, length-append, length-drop}
use pipelined_core.Common.Bytes.{Bytes, read_le, unpack}

-- The `w` low bytes of `v`, least significant first.
unfoldable pub write_le : ℕ → ℕ → Bytes
write_le zero v = []
write_le (suc w) v = v % 256 ∷ write_le w (v / 256)

pub length-write_le : (w v : ℕ) → length (write_le w v) ≡ w
unfolding write_le
length-write_le zero v = refl
length-write_le (suc w) v = ap suc (length-write_le w (v / 256))

pub read_le-write_le :
    (w v : ℕ) (rest : Bytes) → v < 256 ^ w → read_le w (write_le w v ++ rest) ≡ some v
unfolding read_le write_le
read_le-write_le zero v rest h = let e : 0 ≡ v = omega arith in ap some e
read_le-write_le (suc w) v rest h =
    let whole : v % 256 + 256 * (v / 256) ≡ v = omega arith in
    rw (read_le-write_le w (v / 256) rest (omega (arith, pow-suc 256 w))) (ap some whole)

-- A field has a width and a value.
abbrev pub Field : Type 0
Field = ℕ × ℕ

abbrev pub Fits : List Field → Type 0
Fits [] = Unit
Fits ((w, v) ∷ fs) = (v < 256 ^ w) × Fits fs

abbrev pub widths : List Field → List ℕ
widths [] = []
widths ((w, v) ∷ fs) = w ∷ widths fs

abbrev pub values : List Field → List ℕ
values [] = []
values ((w, v) ∷ fs) = v ∷ values fs

unfoldable pub pack : List Field → Bytes
unfolding write_le
pack [] = []
pack ((w, v) ∷ fs) = write_le w v ++ pack fs

drop-write_le : (w v : ℕ) (s : Bytes) → drop w (write_le w v ++ s) ≡ s
unfolding write_le
drop-write_le zero v s = refl
drop-write_le (suc w) v s = drop-write_le w (v / 256) s

-- `struct.unpack` reads back what `struct.pack` has written.
pub unpack-pack :
    (fs : List Field) (rest : Bytes)
    → Fits fs
    → unpack (widths fs) (pack fs ++ rest) ≡ some (values fs)
unfolding unpack pack
unpack-pack [] rest h = refl
unpack-pack ((w, v) ∷ fs) rest h = rw (append_assoc (write_le w v) (pack fs) rest) (
    ground (
      arith,
      read_le-write_le w v (pack fs ++ rest) h.0,
      drop-write_le w v (pack fs ++ rest),
      unpack-pack fs rest h.1,
    ))

abbrev pub total : List Field → ℕ
total [] = 0
total ((w, v) ∷ fs) = w + total fs

pub length-pack : (fs : List Field) → length (pack fs) ≡ total fs
unfolding pack
length-pack [] = refl
length-pack ((w, v) ∷ fs) =
    omega (arith, length-append {0} (write_le w v) (pack fs), length-write_le w v, length-pack fs)

abbrev pub sum_widths : List ℕ → ℕ
sum_widths [] = 0
sum_widths (w ∷ ws) = w + sum_widths ws

read_le-total : (w : ℕ) (s : Bytes) → w ≤ length s → (v : ℕ) × (read_le w s ≡ some v)
unfolding read_le
read_le-total zero s h = (0, refl)
read_le-total (suc w) [] h = absurd (omega arith)
read_le-total (suc w) (b ∷ s) h =
    let (v, e) = read_le-total w s (omega arith) in (b + 256 * v, rw e)

-- Enough bytes for the widths are unpacked to one value for each.
pub unpack-total :
    (ws : List ℕ) (s : Bytes)
    → sum_widths ws ≤ length s
    → (vs : List ℕ) × (unpack ws s ≡ some vs) × (length vs ≡ length ws)
unfolding unpack
unpack-total [] s h = ([], refl, refl)
unpack-total (w ∷ ws) s h =
    let (v, e) = read_le-total w s (omega arith) in
    let (vs, es, n) = unpack-total ws (drop w s) (omega (arith, length-drop {0} w s)) in
    (v ∷ vs, ground (arith, e, es), ap suc n)
