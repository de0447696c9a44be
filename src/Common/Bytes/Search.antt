-- ===== src/Common/Bytes/Search.antt =====
-- Where `find` stops, for a pattern whose first byte occurs nowhere before it.
use Prim.Native.Nat.{ℕ, suc, ◌+◌, ◌≤◌}
use mathlib.Core.Path.{◌≡◌, refl}
use mathlib.Core.Bool.{true}
use mathlib.Core.Option.{none, some}
use mathlib.Core.Logic.{◌≢◌}
use mathlib.Core.List.{[], ◌∷◌, ◌++◌}
use native.Mathlib.Omega.{arith}
use pipelined_core.Common.Lists.{length, drop, length-append, length-drop, drop-length-append}
use pipelined_core.Common.Bytes.{Bytes, starts_with, find_at, find}

-- No byte of `s` is `b`.
abbrev pub Avoids : ℕ → Bytes → Type 0
Avoids b [] = Unit
Avoids b (c ∷ s) = (c ≢ b) × Avoids b s

pub starts_with_self : (p s : Bytes) → starts_with p (p ++ s) ≡ true
unfolding starts_with
starts_with_self [] s = refl
starts_with_self (b ∷ p) s = ground (arith, starts_with_self p s)

find_at-none : (b : ℕ) (p gap : Bytes) (i : ℕ) → Avoids b gap → find_at (b ∷ p) gap i ≡ none
unfolding find_at
find_at-none b p [] i h = refl
find_at-none b p (c ∷ gap) i h = ground (arith, find_at-none b p gap (i + 1))

find_at-gap :
    (b : ℕ) (p gap s : Bytes) (i : ℕ)
    → Avoids b gap
    → find_at (b ∷ p) (gap ++ ((b ∷ p) ++ s)) i ≡ some (i + length gap)
unfolding find_at
find_at-gap b p [] s i h =
    let e : i + 0 ≡ i = omega arith in ground (arith, starts_with_self p s, e)
find_at-gap b p (c ∷ gap) s i h =
    let e : i + 1 + length gap ≡ i + suc (length gap) = omega arith in
    ground (arith, find_at-gap b p gap s (i + 1), e)

pub find-none :
    (b : ℕ) (p prefix gap : Bytes)
    → Avoids b gap
    → find (b ∷ p) (prefix ++ gap) (length prefix) ≡ none
unfolding find
find-none b p prefix gap h = ground (
  arith,
  length-append {0} prefix gap,
  drop-length-append prefix gap,
  find_at-none b p gap (length prefix),
)

pub find-gap :
    (b : ℕ) (p prefix gap s : Bytes)
    → Avoids b gap
    → find (b ∷ p) (prefix ++ (gap ++ ((b ∷ p) ++ s))) (length prefix)
      ≡ some (length prefix + length gap)
unfolding find
find-gap b p prefix gap s h =
    let found = gap ++ ((b ∷ p) ++ s) in
    ground (
      arith,
      drop-length-append prefix found,
      length-append {0} prefix found,
      find_at-gap b p gap s (length prefix) h,
    )

find_at-bounds :
    (p s : Bytes) (i : ℕ) {j : ℕ} → find_at p s i ≡ some j → (i ≤ j) × (j ≤ i + length s)
unfolding find_at
find_at-bounds p [] i h = ground arith
find_at-bounds p (c ∷ s) i {j = j} h = ground (arith, find_at-bounds p s (i + 1) {j = j})

-- A place that `find` returns lies in the string, at or behind the start.
pub find-bounds :
    (p s : Bytes) (start : ℕ) {j : ℕ} → find p s start ≡ some j → (start ≤ j) × (j ≤ length s)
unfolding find
find-bounds p s start {j = j} h =
    ground (arith, find_at-bounds p (drop start s) start {j = j}, length-drop {0} start s)
