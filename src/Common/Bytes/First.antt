-- ===== src/Common/Bytes/First.antt =====
-- `find` returns the first place of its pattern.
use Prim.Native.Nat.{ℕ, zero, suc, ◌+◌, ◌-◌, ◌≤◌}
use mathlib.Core.Path.{◌≡◌, refl}
use mathlib.Core.Bool.{true}
use mathlib.Core.Option.{some}
use mathlib.Core.Logic.{inl, inr}
use mathlib.Core.List.{[], ◌∷◌}
use native.Mathlib.Omega.{arith}
use pipelined_core.Common.Tests.{Bool-cases, ltb, ltb→lt}
use pipelined_core.Common.Lists.{length, drop, length-drop, drop-drop}
use pipelined_core.Common.Bytes.{Bytes, starts_with, find_at, find}

find_at-occurs :
    (p s : Bytes) (i : ℕ) {j : ℕ}
    → find_at p s i ≡ some j
    → (d : ℕ) × (j ≡ i + d) × (starts_with p (drop d s) ≡ true)
unfolding find_at
find_at-occurs p [] i {j = j} h = elim (Bool-cases (starts_with p [])) [
  | inl here ↦
      (let g = rw (find_at, here) at h in let e : i ≡ j = cc g in (0, omega (arith, e), here))
  | inr other ↦ (let g = rw (find_at, other) at h in cc g)
]
find_at-occurs p (c ∷ s) i {j = j} h = elim (Bool-cases (starts_with p (c ∷ s))) [
  | inl here ↦
      (let g = rw (find_at, here) at h in let e : i ≡ j = cc g in (0, omega (arith, e), here))
  | inr other ↦
      let (d, e, o) = find_at-occurs p s (i + 1) {j = j} (rw (find_at, other) at h) in
      (suc d, omega (arith, e), o)
]

find_at-first :
    (p s : Bytes) (i d : ℕ)
    → d ≤ length s
    → starts_with p (drop d s) ≡ true
    → (j : ℕ) × (find_at p s i ≡ some j) × (j ≤ i + d)
unfolding find_at
find_at-first p [] i zero inside h = (i, rw (find_at, h) refl, omega arith)
find_at-first p [] i (suc d) inside h = absurd (omega arith)
find_at-first p (c ∷ s) i zero inside h = (i, rw (find_at, h) refl, omega arith)
find_at-first p (c ∷ s) i (suc d) inside h = elim (Bool-cases (starts_with p (c ∷ s))) [
  | inl here ↦ (i, rw (find_at, here) refl, omega arith)
  | inr other ↦
      let (j, e, b) = find_at-first p s (i + 1) d (omega (arith, inside)) h in
      (j, rw (find_at, other) e, omega (arith, b))
]

pub find-occurs :
    (p s : Bytes) (start : ℕ) {j : ℕ} → find p s start ≡ some j → starts_with p (drop j s) ≡ true
unfolding find
find-occurs p s start {j = j} h = elim (Bool-cases (ltb (length s) start)) [
  | inl past ↦ (let g = rw (find, past) at h in cc g)
  | inr inside ↦
      let (d, e, o) = find_at-occurs p (drop start s) start {j = j} (rw (find, inside) at h) in
      rw e (rw (drop-drop {0} d start s) at o)
]

pub find-first :
    (p s : Bytes) (start k : ℕ)
    → start ≤ k
    → k ≤ length s
    → starts_with p (drop k s) ≡ true
    → (j : ℕ) × (find p s start ≡ some j) × (j ≤ k)
unfolding find
find-first p s start k after inside h =
    let e : start + (k - start) ≡ k = omega (arith, after) in
    let moved : starts_with p (drop (k - start) (drop start s)) ≡ true =
      rw (drop-drop {0} (k - start) start s, e) h in
    let (j, found, b) =
      find_at-first p (drop start s) start (k - start)
        (omega (arith, length-drop {0} start s, inside, after)) moved in
    elim (Bool-cases (ltb (length s) start)) [
      | inl past ↦ absurd (omega (arith, ltb→lt (length s) start past, inside, after))
      | inr not_past ↦ (j, rw (find, not_past) found, omega (arith, b, e))
    ]
