-- ===== src/Common/Bytes/Append.antt =====
-- What occurs in a string still occurs once more bytes follow.
use Prim.Native.Nat.{ℕ, zero, suc, ◌≤◌}
use mathlib.Core.Path.{◌≡◌, refl}
use mathlib.Core.Bool.{true}
use mathlib.Core.List.{[], ◌∷◌, ◌++◌}
use native.Mathlib.Omega.{arith}
use pipelined_core.Common.Lists.{length, drop}
use pipelined_core.Common.Bytes.{Bytes, starts_with}

starts_with-append : (p s t : Bytes) → starts_with p s ≡ true → starts_with p (s ++ t) ≡ true
unfolding starts_with
starts_with-append [] s t h = refl
starts_with-append (b ∷ p) [] t h = cc
starts_with-append (b ∷ p) (c ∷ s) t h = ground (arith, starts_with-append p s t)

drop-append : (n : ℕ) (s t : Bytes) → n ≤ length s → drop n (s ++ t) ≡ drop n s ++ t
drop-append zero s t h = refl
drop-append (suc n) [] t h = absurd (omega arith)
drop-append (suc n) (c ∷ s) t h = drop-append n s t (omega arith)

pub occurs-append :
    (p s t : Bytes) (n : ℕ)
    → n ≤ length s
    → starts_with p (drop n s) ≡ true
    → starts_with p (drop n (s ++ t)) ≡ true
occurs-append p s t n h o = rw (drop-append n s t h) (starts_with-append p (drop n s) t o)
